-- ===== src/Io/IStream/Lines.antt =====
-- `getline` of lib/include/aio.hpp, in terms of the flow of the stream.
use coroutine_http_server.Prelude.{
  ℕ, zero, suc, ◌+◌, ◌<◌, false, [], ◌∷◌, ◌++◌, ◌==◌, ◌≡◌, ◌≢◌, sym, ap, ◌∙◌, arith, Bytes, length,
  append_assoc, append-nil, inl, inr, Lacks, ==_refl,
}
use coroutine_http_server.Io.Outcome.{Outcome, done}
use coroutine_http_server.Io.IStream.{IStream, getchar, match_eol, getline_from, getline, available}
use coroutine_http_server.Io.IStream.Flow.{Ending, Flow, prepend, flow, at_end, none_left}
use coroutine_http_server.Io.IStream.Getchar.{IsValid, getchar-cases, at_end-bind}

-- The stream is valid and what it will give out is `w`.
pub record Flows (f : IStream) (w : Flow) : Type 0 where
  pub valid : IsValid f
  pub gives : flow f ≡ w

prepend-injective :
    (c d : ℕ) (xs : Bytes) (v w : Flow)
    → prepend (c ∷ xs) w ≡ prepend (d ∷ []) v
    → (d ≡ c) × (v ≡ prepend xs w)
prepend-injective c d xs v w e = ground arith

prepend-ne-none_left :
    (c : ℕ) (xs : Bytes) (w : Flow) (e : Ending) → prepend (c ∷ xs) w ≢ none_left e
prepend-ne-none_left c xs w e = ground arith

none_left-injective : (d e : Ending) → none_left d ≡ none_left e → d ≡ e
none_left-injective d e h = ap (λ (w : Flow). w.ending) h

-- The first byte of the flow is the byte read.
abbrev First : IStream → ℕ → Bytes → Flow → Type 0
First f c xs w =
    (f' : IStream) × (getchar f ≡ done (c, f'))
    × Flows f' (prepend xs w)
    × (available f ≡ suc (available f'))

pub getchar-First :
    (f : IStream) (c : ℕ) (xs : Bytes) (w : Flow) → Flows f (prepend (c ∷ xs) w) → First f c xs w
getchar-First f c xs w h = elim (getchar-cases f h.valid) [
  | inl (d, f', e, v, same, count) ↦
      let (same_byte, left) = prepend-injective c d xs (flow f') w (sym h.gives ∙ same) in
      (f', e ∙ rw same_byte, record { valid = v; gives = left }, count)
  | inr (e, stop, same) ↦ absurd (prepend-ne-none_left c xs w e (sym h.gives ∙ same))
]

-- At the end of the flow a read ends as it does.
getchar-stop : (f : IStream) (e : Ending) → Flows f (none_left e) → getchar f ≡ at_end e
getchar-stop f e h = elim (getchar-cases f h.valid) [
  | inl (d, f', got, v, same, count) ↦
      absurd (prepend-ne-none_left d [] (flow f') e (sym same ∙ h.gives))
  | inr (e', stop, same) ↦
      stop ∙ ap (λ e''. at_end e'') (none_left-injective e' e (sym same ∙ h.gives))
]

getline_from-stop :
    (fuel : ℕ) (eol s : Bytes) (f : IStream) (e : Ending)
    → Flows f (none_left e)
    → getline_from (suc fuel) eol s f ≡ at_end e
unfolding getline_from
getline_from-stop fuel eol s f e h = rw (getchar-stop f e h, getline_from) (at_end-bind e _)

-- A loop that stops within the bytes of the flow.
abbrev pub Ends : Outcome (Bytes × IStream) → Bytes → Flow → Type 0
Ends m s w = (f' : IStream) × (m ≡ done (s, f')) × Flows f' w

match_eol-all :
    (es : Bytes) (i : ℕ) (f : IStream) (rest : Bytes) (w : Flow)
    → Flows f (prepend (es ++ rest) w)
    → (f' : IStream) × (match_eol es i f ≡ done (i + length es, f')) × Flows f' (prepend rest w)
unfolding match_eol
match_eol-all [] i f rest w h =
    let same : i ≡ i + 0 = omega arith in (f, ap (λ (n : ℕ). done (n, f)) same, h)
match_eol-all (e ∷ es) i f rest w h =
    let (f', got, h', _) = getchar-First f e (es ++ rest) w h in
    let (f'', all, h'') = match_eol-all es (i + 1) f' rest w h' in
    let count : i + 1 + length es ≡ i + suc (length es) = omega arith in
    (f'', rw (got, match_eol) (rw (==_refl e) (all ∙ ap (λ (n : ℕ). done (n, f'')) count)), h'')

-- A byte that does not begin `eol` joins the string.
getline_from-char :
    (fuel c d : ℕ) (es s xs : Bytes) (f f' : IStream)
    → (d == c) ≡ false
    → getchar f ≡ done (d, f')
    → getline_from (suc fuel) (c ∷ es) s f ≡ getline_from fuel (c ∷ es) (s ++ d ∷ []) f'
unfolding getline_from
getline_from-char fuel c d es s xs f f' other got = ground arith

-- At `eol` the loop ends.
getline_from-eol :
    (fuel c : ℕ) (es s : Bytes) (f f' f'' : IStream)
    → getchar f ≡ done (c, f')
    → match_eol es 1 f' ≡ done (1 + length es, f'')
    → getline_from (suc fuel) (c ∷ es) s f ≡ done (s, f'')
unfolding getline_from
getline_from-eol fuel c es s f f' f'' got all = ground arith

-- Bytes that do not begin `eol` join the string, one round each.
getline_from-chars :
    (pre : Bytes) (fuel c : ℕ) (es s xs : Bytes) (f : IStream) (w : Flow)
    → available f < fuel
    → Lacks c pre
    → Flows f (prepend (pre ++ xs) w)
    → (fuel' : ℕ) × (f' : IStream) × (getline_from fuel (c ∷ es) s f
        ≡ getline_from fuel' (c ∷ es) (s ++ pre) f')
      × (available f' < fuel')
      × Flows f' (prepend xs w)
getline_from-chars [] fuel c es s xs f w enough l h = (fuel, f, rw append-nil, enough, h)
getline_from-chars (d ∷ pre) (suc fuel) c es s xs f w enough l h =
    let (f', got, h', count) = getchar-First f d (pre ++ xs) w h in
    let (fuel'', f'', on, enough'', h'') =
      getline_from-chars pre fuel c es (s ++ d ∷ []) xs f' w (omega (arith, count)) l.1 h' in
    (
      fuel'',
      f'',
      getline_from-char fuel c d es s pre f f' l.0 got
          ∙ (on
              ∙ ap (λ (t : Bytes). getline_from fuel'' (c ∷ es) t f'')
                  (append_assoc s (d ∷ []) pre)),
      enough'',
      h'',
    )
getline_from-chars (d ∷ pre) zero c es s xs f w enough l h = elim enough [ ]

-- The line in front of `eol` is read.
getline_from-line :
    (line : Bytes) (fuel c : ℕ) (es s : Bytes) (f : IStream) (rest : Bytes) (w : Flow)
    → available f < fuel
    → Lacks c line
    → Flows f (prepend (line ++ c ∷ (es ++ rest)) w)
    → Ends (getline_from fuel (c ∷ es) s f) (s ++ line) (prepend rest w)
getline_from-line line fuel c es s f rest w enough l h =
    let (fuel', f', on, enough', h') =
      getline_from-chars line fuel c es s (c ∷ (es ++ rest)) f w enough l h in
    let (f'', last, h'') = at_eol fuel' f' enough' h' in (f'', on ∙ last, h'')
  where
    at_eol :
        (fuel' : ℕ) (f' : IStream)
        → available f' < fuel'
        → Flows f' (prepend (c ∷ (es ++ rest)) w)
        → Ends (getline_from fuel' (c ∷ es) (s ++ line) f') (s ++ line) (prepend rest w)
    at_eol zero f' enough' h' = elim enough' [ ]
    at_eol (suc fuel') f' enough' h' =
        let (g, got, hg, _) = getchar-First f' c (es ++ rest) w h' in
        let (g', all, hg') = match_eol-all es 1 g rest w hg in
        (g', getline_from-eol fuel' c es (s ++ line) f' g g' got all, hg')

-- However the kernel delivers the bytes, `getline` gives the bytes in front of the first `eol`, and
-- leaves those behind it, if the line has not the first byte of `eol` in it.
pub getline-line :
    (f : IStream) (line : Bytes) (c : ℕ) (es rest : Bytes) (w : Flow)
    → Lacks c line
    → Flows f (prepend (line ++ c ∷ (es ++ rest)) w)
    → Ends (getline (c ∷ es) f) line (prepend rest w)
unfolding getline
getline-line f line c es rest w l h =
    getline_from-line line (suc (available f)) c es [] f rest w (omega arith) l h

-- A stream that ends before `eol` ends the call like a read behind its end: no part of a line is given.
pub getline-at_end :
    (f : IStream) (c : ℕ) (es xs : Bytes) (e : Ending)
    → Lacks c xs
    → Flows f (prepend xs (none_left e))
    → getline (c ∷ es) f ≡ at_end e
unfolding getline
getline-at_end f c es xs e l h =
    let (fuel', f', on, enough', h') =
      getline_from-chars xs (suc (available f)) c es [] [] f (none_left e) (omega arith) l
        (rw append-nil h) in
    on ∙ stops fuel' f' enough' h'
  where
    stops :
        (fuel' : ℕ) (f' : IStream)
        → available f' < fuel'
        → Flows f' (none_left e)
        → getline_from fuel' (c ∷ es) xs f' ≡ at_end e
    stops zero f' enough' h' = elim enough' [ ]
    stops (suc fuel') f' enough' h' = getline_from-stop fuel' (c ∷ es) xs f' e h'

abbrev cr : ℕ
cr = 13

abbrev lf : ℕ
lf = 10

-- A byte that follows a carriage return and is no line feed is taken from the stream, and is neither
-- put in the string nor given out again.
getline_from-mismatch :
    (fuel d : ℕ) (s xs : Bytes) (f : IStream) (w : Flow)
    → available f < suc fuel
    → (d == lf) ≡ false
    → Flows f (prepend (cr ∷ d ∷ xs) w)
    → (f' : IStream) × (getline_from (suc fuel) (cr ∷ lf ∷ []) s f
        ≡ getline_from fuel (cr ∷ lf ∷ []) (s ++ cr ∷ []) f')
      × (available f' < fuel)
      × Flows f' (prepend xs w)
unfolding getline_from match_eol
getline_from-mismatch fuel d s xs f w enough other h =
    let (f', got, h', count) = getchar-First f cr (d ∷ xs) w h in
    let (f'', got', h'', count') = getchar-First f' d xs w h' in
    (f'', ground arith, omega (arith, count, count'), h'')

-- With a carriage return in the line `getline` for CRLF loses the byte behind it.
pub getline-lossy :
    (f : IStream) (pre line rest : Bytes) (d : ℕ) (w : Flow)
    → Lacks cr pre
    → (d == lf) ≡ false
    → Lacks cr line
    → Flows f (prepend (pre ++ cr ∷ d ∷ (line ++ cr ∷ lf ∷ rest)) w)
    → Ends (getline (cr ∷ lf ∷ []) f) (pre ++ cr ∷ line) (prepend rest w)
unfolding getline
getline-lossy f pre line rest d w l other l' h =
    let tail = line ++ cr ∷ lf ∷ rest in
    let (fuel', f', on, enough', h') =
      getline_from-chars pre (suc (available f)) cr (lf ∷ []) [] (cr ∷ d ∷ tail) f w (omega arith) l
        h in
    let (f'', on', h'') = behind fuel' f' enough' h' in (f'', on ∙ on', h'')
  where
    behind :
        (fuel' : ℕ) (f' : IStream)
        → available f' < fuel'
        → Flows f' (prepend (cr ∷ d ∷ (line ++ cr ∷ lf ∷ rest)) w)
        → Ends (getline_from fuel' (cr ∷ lf ∷ []) pre f') (pre ++ cr ∷ line) (prepend rest w)
    behind zero f' enough' h' = elim enough' [ ]
    behind (suc fuel') f' enough' h' =
        let (g, on', enough'', hg) =
          getline_from-mismatch fuel' d pre (line ++ cr ∷ lf ∷ rest) f' w enough' other h' in
        let (g', last, hg') =
          getline_from-line line fuel' cr (lf ∷ []) (pre ++ cr ∷ []) g rest w enough'' l' hg in
        (g', on' ∙ (last ∙ ap (λ (t : Bytes). done (t, g')) (append_assoc pre (cr ∷ []) line)), hg')
