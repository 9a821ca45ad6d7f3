-- ===== src/Io/Stream/Prints.antt =====
-- `print` over an `AsyncFileStream`, of lib/include/epoll.hpp.
use coroutine_http_server.Prelude.{
  ℕ, suc, ◌+◌, false, List, [], ◌∷◌, ◌++◌, ◌≡◌, refl, ap, ◌∙◌, append_assoc, append-nil, Bytes,
  length, replicate, arith,
}
use coroutine_http_server.Io.Outcome.{done}
use coroutine_http_server.Io.File.{epollerr_hup, has_bits}
use coroutine_http_server.Io.Stream.{Putc, taken, again, failed, print, print_from, whole}

-- `putc` is called once for each byte; no call fails, and no wait ends with a hang-up.
abbrev pub Goes : Bytes → List Putc → Type 0
Goes [] [] = Unit
Goes (c ∷ sv) (taken ∷ ps) = Goes sv ps
Goes (c ∷ sv) (again ev ∷ ps) = (has_bits ev epollerr_hup ≡ false) × Goes sv ps
Goes _ _ = ⊥

-- The bytes that are taken.
abbrev pub kept : Bytes → List Putc → Bytes
kept (c ∷ sv) (taken ∷ ps) = c ∷ kept sv ps
kept (c ∷ sv) (_ ∷ ps) = kept sv ps
kept _ _ = []

print_from-kept :
    (sv : Bytes) (ps later : List Putc) (len : ℕ) (sent : Bytes)
    → Goes sv ps
    → print_from sv (ps ++ later) len sent
      ≡ done (whole (len + length (kept sv ps)), sent ++ kept sv ps, later)
unfolding print_from
print_from-kept [] [] later len sent h =
    let none_left : len + 0 ≡ len = omega arith in rw (append-nil sent, none_left) refl
print_from-kept (c ∷ sv) (taken ∷ ps) later len sent h =
    let size : (len + 1) + length (kept sv ps) ≡ len + suc (length (kept sv ps)) = omega arith in
    print_from-kept sv ps later (len + 1) (sent ++ c ∷ []) h
    ∙ rw (size, append_assoc sent (c ∷ []) (kept sv ps)) refl
print_from-kept (c ∷ sv) (again ev ∷ ps) later len sent h =
    rw (print_from, h.0) (print_from-kept sv ps later len sent h.1)
print_from-kept (c ∷ sv) (failed ∷ ps) later len sent h = elim h [ ]
print_from-kept [] (p ∷ ps) later len sent h = elim h [ ]
print_from-kept (c ∷ sv) [] later len sent h = elim h [ ]

-- If `putc` is called once for each byte, no call fails and no wait ends with a hang-up, then `print`
-- ends without a hang-up, has written the bytes that were taken at once, in order, and returns their
-- number: a byte that had to be waited for is not written.
pub print-kept :
    (sv : Bytes) (ps later : List Putc)
    → Goes sv ps
    → print sv (ps ++ later) ≡ done (whole (length (kept sv ps)), kept sv ps, later)
unfolding print
print-kept sv ps later h =
    let size : 0 + length (kept sv ps) ≡ length (kept sv ps) = omega arith in
    print_from-kept sv ps later 0 [] h ∙ rw size refl

Goes-taken : (sv : Bytes) → Goes sv (replicate (length sv) taken)
Goes-taken [] = tt
Goes-taken (c ∷ sv) = Goes-taken sv

kept-taken : (sv : Bytes) → kept sv (replicate (length sv) taken) ≡ sv
kept-taken [] = refl
kept-taken (c ∷ sv) = ap (◌∷◌ c) (kept-taken sv)

-- Where every byte is taken at once, `print` writes the string.
pub print-taken :
    (sv : Bytes) (later : List Putc)
    → print sv (replicate (length sv) taken ++ later) ≡ done (whole (length sv), sv, later)
print-taken sv later =
    print-kept sv (replicate (length sv) taken) later (Goes-taken sv) ∙ rw (kept-taken sv) refl
