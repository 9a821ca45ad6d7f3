-- ===== src/Io/IStream/Getchar.antt =====
-- `getchar` and `refill` of lib/include/aio.hpp, in terms of the flow of the stream.
use native.Mathlib.Numerals.{add-one}
use coroutine_http_server.Prelude.{
  ℕ, suc, ◌+◌, ◌-◌, ◌≤◌, ◌<◌, [], ◌∷◌, ◌++◌, ◌≡◌, refl, sym, ◌⊎◌, ◌∙◌, arith, Bytes, drop, length,
  get_or, length-append, length-drop, drop-get_or, take-length_append, Bool-cases, inl, inr,
}
use coroutine_http_server.Io.Outcome.{Outcome, done, ◌>>=◌}
use coroutine_http_server.Io.File.{Input, read}
use coroutine_http_server.Io.IStream.{IStream, is_drained, refill, take_char, getchar, available}
use coroutine_http_server.Io.IStream.Flow.{
  Ending, eof, error, silence, prepend, none_left, kernel_flow, flow, at_end, read-cases,
}

-- The indices lie in the array, and the array is not empty.
pub record IsValid (f : IStream) : Type 0 where
  pub ordered : f.start ≤ f.end
  pub in_bounds : f.end ≤ length f.buffer
  pub sized : length f.buffer ≡ f.capacity
  pub roomy : 0 < f.capacity

-- A byte that is in the buffer is given out.
take_char-flow :
    (f : IStream)
    → IsValid f
    → f.start < f.end
    → flow f ≡ prepend ((take_char f).0 ∷ []) (flow (take_char f).1)
take_char-flow f v h =
    let first = drop-get_or f.start f.buffer 0 (omega arith) in
    let left : f.end - f.start ≡ suc (f.end - (f.start + 1)) = omega arith in
    rw (left, first) (rw add-one)

filled : IStream → Bytes → Input → IStream
filled f xs input' = record f {
  buffer = xs ++ drop (length xs) f.buffer;
  start = 0;
  end = length xs;
  input = input';
}

flow-drained : (f : IStream) → f.start ≡ f.end → flow f ≡ kernel_flow f.input
flow-drained f e = let none : f.end - f.start ≡ 0 = omega arith in rw none

flow-filled :
    (f : IStream) (xs : Bytes) (input' : Input)
    → flow (filled f xs input') ≡ prepend xs (kernel_flow input')
unfolding filled
flow-filled f xs input' =
    let all : length xs - 0 ≡ length xs = omega arith in rw (all, take-length_append)

filled-IsValid :
    (f : IStream)
    → IsValid f
    → (xs : Bytes) (input' : Input) → length xs ≤ f.capacity
    → IsValid (filled f xs input')
unfolding filled
filled-IsValid f v xs input' fits =
    let sized = length-append xs (drop (length xs) f.buffer) in
    let rest = length-drop (length xs) f.buffer in omega (arith, sized, rest)

refill-filled :
    (f : IStream) (c : ℕ) (xs : Bytes) (input' : Input)
    → read f.capacity f.input ≡ done (c ∷ xs, input')
    → refill f ≡ done (filled f (c ∷ xs) input')
unfolding refill filled
refill-filled f c xs input' e = rw (e, refill) (ground arith)

pub at_end-bind {ℓ κ} :
    {A : Type ℓ} {B : Type κ} (e : Ending) (k : A → Outcome B) → (at_end e >>= k) ≡ at_end e
at_end-bind eof k = refl
at_end-bind error k = refl
at_end-bind silence k = refl

-- A refill of a drained buffer keeps the flow, or ends as the flow does.
abbrev RefillCases : IStream → Outcome IStream → Type 0
RefillCases f res =
    ((f' : IStream) × (res ≡ done f')
      × IsValid f'
      × (f'.start < f'.end)
      × (flow f' ≡ flow f)
      × (available f' ≡ available f))
    ⊎ ((e : Ending) × (res ≡ at_end e) × (flow f ≡ none_left e))

refill-cases : (f : IStream) → IsValid f → f.start ≡ f.end → RefillCases f (refill f)
unfolding refill filled
refill-cases f v drained = elim (read-cases f.capacity f.input v.roomy) [
  | inl (c, xs, input', e, fits, same, count) ↦ inl (
    filled f (c ∷ xs) input',
    refill-filled f c xs input' e,
    filled-IsValid f v (c ∷ xs) input' fits,
    omega arith,
    flow-filled f (c ∷ xs) input' ∙ sym (flow-drained f drained ∙ same),
    omega (arith, count),
  )
  | inr (inl (input', e, same)) ↦ inr (eof, rw (e, refill), flow-drained f drained ∙ same)
  | inr (inr (inl (e, same))) ↦ inr (error, rw (e, refill), flow-drained f drained ∙ same)
  | inr (inr (inr (e, same))) ↦ inr (silence, rw (e, refill), flow-drained f drained ∙ same)
]

-- A read of one byte goes as on the flow, and leaves the stream valid with one byte less.
abbrev pub GetcharCases : IStream → Outcome (ℕ × IStream) → Type 0
GetcharCases f res =
    ((c : ℕ) × (f' : IStream) × (res ≡ done (c, f'))
      × IsValid f'
      × (flow f ≡ prepend (c ∷ []) (flow f'))
      × (available f ≡ suc (available f')))
    ⊎ ((e : Ending) × (res ≡ at_end e) × (flow f ≡ none_left e))

take_char-cases :
    (f g : IStream)
    → IsValid f
    → f.start < f.end
    → flow f ≡ flow g
    → available f ≡ available g
    → GetcharCases g (done (take_char f))
take_char-cases f g v h same count = inl (
  get_or f.buffer f.start 0,
  (take_char f).1,
  refl,
  record { ordered = omega arith; in_bounds = v.in_bounds; sized = v.sized; roomy = v.roomy },
  sym same ∙ take_char-flow f v h,
  omega (arith, count),
)

-- On a valid stream `getchar` gives the first byte of the flow and leaves a valid stream with the rest,
-- or, where the flow has no byte, ends as the flow does, whatever is in the buffer and however the kernel
-- delivers the bytes.
pub getchar-cases : (f : IStream) → IsValid f → GetcharCases f (getchar f)
unfolding getchar
getchar-cases f v = elim (Bool-cases (is_drained f)) [
  | inl drained ↦ elim (refill-cases f v (ground arith)) [
    | inl (f', e, v', h, same, count) ↦
        rw (drained, e, getchar) (take_char-cases f' f v' h same count)
    | inr (e, stop, same) ↦ rw (drained, stop, getchar) (inr (e, at_end-bind e _, same))
  ]
  | inr more ↦ rw (more, getchar) (take_char-cases f f v (ground arith) refl refl)
]
