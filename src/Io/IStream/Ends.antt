-- ===== src/Io/IStream/Ends.antt =====
-- The reads of `AsyncIStreamBase`, of lib/include/aio.hpp, end: the fuel of `getline` is enough.
use coroutine_http_server.Prelude.{
  ℕ, zero, suc, ◌+◌, ◌≤◌, ◌<◌, [], ◌∷◌, ◌++◌, ◌==◌, ◌≡◌, refl, arith, Bytes, take, drop, length,
  Bool-cases, inl, inr, get_or,
}
use coroutine_http_server.Io.Outcome.{Outcome, done, throws, waits, exhausted, ◌>>=◌, IsFueled}
use coroutine_http_server.Io.IStream.{IStream, getchar, match_eol, getline_from, getline, available}
use coroutine_http_server.Io.IStream.Flow.{Ending, eof, error, silence, at_end}
use coroutine_http_server.Io.IStream.Getchar.{IsValid, getchar-cases}

-- A read that does not use up its fuel, and leaves a valid stream with fewer than `k` bytes to come.
abbrev pub EndsBelow : {A : Type 0} → Outcome (A × IStream) → ℕ → Type 0
EndsBelow {A = A} m k =
    IsFueled m × ((a : A) (f : IStream) → m ≡ done (a, f) → IsValid f × (available f < k))

>>=-EndsBelow :
    {A B : Type 0} (m : Outcome (A × IStream)) (c : A × IStream → Outcome (B × IStream)) (k j : ℕ)
    → EndsBelow m k
    → ((a : A) (f : IStream) → IsValid f → available f < k → EndsBelow (c (a, f)) j)
    → EndsBelow (m >>= c) j
>>=-EndsBelow (done (a, f)) c k j h later = let (v, below) = h.1 a f refl in later a f v below
>>=-EndsBelow (throws x) c k j h later = ((λ e. cc), λ a f e. cc)
>>=-EndsBelow waits c k j h later = ((λ e. cc), λ a f e. cc)
>>=-EndsBelow exhausted c k j h later = absurd (h.0 refl)

done-EndsBelow :
    {A : Type 0} (a : A) (f : IStream) (k : ℕ)
    → IsValid f
    → available f < k
    → EndsBelow (done (a, f)) k
done-EndsBelow a f k v below =
    ((λ e. cc), λ a' f' e. let same : f ≡ f' = cc in rw (← same) (v, below))

at_end-EndsBelow : {A : Type 0} (e : Ending) (k : ℕ) → EndsBelow {A = A} (at_end e) k
at_end-EndsBelow eof k = ((λ h. cc), λ a f h. cc)
at_end-EndsBelow error k = ((λ h. cc), λ a f h. cc)
at_end-EndsBelow silence k = ((λ h. cc), λ a f h. cc)

getchar-EndsBelow : (f : IStream) → IsValid f → EndsBelow (getchar f) (available f)
getchar-EndsBelow f v = elim (getchar-cases f v) [
  | inl (c, f', e, v', same, count) ↦
      rw e (done-EndsBelow c f' (available f) v' (omega (arith, count)))
  | inr (stop, e, same) ↦ rw e (at_end-EndsBelow stop (available f))
]

match_eol-EndsBelow :
    (eol : Bytes) (i : ℕ) (f : IStream) (k : ℕ)
    → IsValid f
    → available f < k
    → EndsBelow (match_eol eol i f) k
unfolding match_eol
match_eol-EndsBelow [] i f k v below = done-EndsBelow i f k v below
match_eol-EndsBelow (e ∷ eol) i f k v below =
    >>=-EndsBelow (getchar f) _ (available f) k (getchar-EndsBelow f v) λ ch f' v' less.
      elim (Bool-cases (ch == e)) [
        | inl same ↦ rw same (match_eol-EndsBelow eol (i + 1) f' k v' (omega arith))
        | inr other ↦ rw other (done-EndsBelow i f' k v' (omega arith))
      ]

getline_from-EndsBelow :
    (fuel : ℕ) (eol s : Bytes) (f : IStream) (k : ℕ)
    → IsValid f
    → available f < fuel
    → available f ≤ k
    → EndsBelow (getline_from fuel eol s f) k
unfolding getline_from
getline_from-EndsBelow zero eol s f k v enough below = elim enough [ ]
getline_from-EndsBelow (suc fuel) eol s f k v enough below =
    >>=-EndsBelow (getchar f) _ (available f) k (getchar-EndsBelow f v) λ ch f' v' less.
      elim (Bool-cases (ch == get_or eol 0 0)) [
        | inr other ↦
            rw other
              (getline_from-EndsBelow fuel eol (s ++ ch ∷ []) f' k v' (omega arith) (omega arith))
        | inl first ↦ rw first (
            >>=-EndsBelow (match_eol (drop 1 eol) 1 f') _ (available f) k
              (match_eol-EndsBelow (drop 1 eol) 1 f' (available f) v' less)
              λ i f'' v'' less'. elim (Bool-cases (i == length eol)) [
                | inl all ↦ rw all (done-EndsBelow s f'' k v'' (omega arith))
                | inr part ↦ rw part (
                    getline_from-EndsBelow fuel eol (s ++ take i eol) f'' k v'' (omega arith)
                      (omega arith))
              ])
      ]

-- On a valid stream `getline` ends, or waits for an event that does not come, for every delimiter; with a
-- line, it leaves a valid stream with fewer bytes to come.
pub getline-EndsBelow :
    (eol : Bytes) (f : IStream) → IsValid f → EndsBelow (getline eol f) (available f)
unfolding getline
getline-EndsBelow eol f v =
    getline_from-EndsBelow (suc (available f)) eol [] f (available f) v (omega arith) (omega arith)
