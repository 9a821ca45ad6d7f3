-- ===== src/Io/Stream/Lines.antt =====
-- `getline` over an `AsyncFileStream`, of lib/include/epoll.hpp.
use coroutine_http_server.Prelude.{
  ◌-◌, true, false, List, [], ◌∷◌, ◌++◌, ◌≡◌, refl, sym, ◌∙◌, append_assoc, append-nil, Bytes,
  length, take, arith, ends_with, ends_with_append, bytes_eq, Lacks, Lacks-append,
  take-length_append, length-append,
}
use coroutine_http_server.Io.Outcome.{done}
use coroutine_http_server.Io.Stream.{Getc, getline, getline_from, whole}
use coroutine_http_server.Io.Stream.Delivers.{Delivers, rest, next, pause}

-- No string that s grows to before the last of the bytes xs ends with the delimiter.
abbrev pub IsUnended : Bytes → Bytes → Bytes → Type 0
IsUnended delim s [] = Unit
IsUnended delim s (x ∷ xs) = (ends_with s delim ≡ false) × IsUnended delim (s ++ x ∷ []) xs

without_delim :
    (line delim : Bytes) → take (length (line ++ delim) - length delim) (line ++ delim) ≡ line
without_delim line delim =
    let size : length (line ++ delim) - length delim ≡ length line =
      omega (arith, length-append line delim) in
    rw size (take-length_append line delim)

getline_from_end :
    (gs : List Getc) (delim line s : Bytes)
    → s ≡ line ++ delim
    → getline_from gs delim s ≡ done (whole line, gs)
unfolding getline_from
getline_from_end gs delim line s e =
    let ends : ends_with s delim ≡ true = rw e (ends_with_append line delim) in
    let cut : take (length s - length delim) s ≡ line = rw e (without_delim line delim) in
    cases gs ends cut
  where
    cases :
        (gs : List Getc)
        → ends_with s delim ≡ true
        → take (length s - length delim) s ≡ line
        → getline_from gs delim s ≡ done (whole line, gs)
    cases [] ends cut = rw (getline_from, ends, cut) refl
    cases (g ∷ gs) ends cut = rw (getline_from, ends, cut) refl

getline_from-Delivers :
    (delim line : Bytes) {gs gs' : List Getc} {xs : Bytes}
    → Delivers gs xs gs'
    → (s : Bytes) → IsUnended delim s xs
    → s ++ xs ≡ line ++ delim
    → getline_from gs delim s ≡ done (whole line, gs')
unfolding getline_from
getline_from-Delivers delim line (rest gs) s u e =
    getline_from_end gs delim line s (sym (append-nil s) ∙ e)
getline_from-Delivers delim line (next c {xs = xs} d) s u e =
    rw (getline_from, u.0)
      (getline_from-Delivers delim line d (s ++ c ∷ []) u.1 (append_assoc s (c ∷ []) xs ∙ e))
getline_from-Delivers delim line (pause ev h d) s u e =
    rw (getline_from, u.0, h) (getline_from-Delivers delim line d s u e)

-- If a line and the delimiter come, and no shorter string in front of them ends with the delimiter,
-- then `getline` gives the line without the delimiter, and takes no more, however often it waits.
pub getline-Delivers :
    (delim line : Bytes) (gs gs' : List Getc)
    → Delivers gs (line ++ delim) gs'
    → IsUnended delim [] (line ++ delim)
    → getline gs delim ≡ done (whole line, gs')
unfolding getline
getline-Delivers delim line gs gs' d u = getline_from-Delivers delim line d [] u refl

ends_with-Lacks : (s : Bytes) → Lacks 10 s → ends_with s (13 ∷ 10 ∷ []) ≡ false
unfolding ends_with bytes_eq
ends_with-Lacks [] h = refl
ends_with-Lacks (c ∷ []) h = ground arith
ends_with-Lacks (c ∷ d ∷ []) h = ground arith
ends_with-Lacks (c ∷ d ∷ e ∷ s) h = ground (arith, ends_with-Lacks (d ∷ e ∷ s) h.1)

IsUnended-Lacks :
    (s xs : Bytes) → Lacks 10 s → Lacks 10 xs → IsUnended (13 ∷ 10 ∷ []) s (xs ++ 13 ∷ 10 ∷ [])
IsUnended-Lacks s [] h k = (
  ends_with-Lacks s h,
  (ends_with-Lacks (s ++ 13 ∷ []) (Lacks-append 10 s (13 ∷ []) h (refl, tt)), tt),
)
IsUnended-Lacks s (x ∷ xs) h k = (
  ends_with-Lacks s h,
  IsUnended-Lacks (s ++ x ∷ []) xs (Lacks-append 10 s (x ∷ []) h (k.0, tt)) k.1,
)

-- A line without a newline, up to CR LF.
pub getline-crlf :
    {line : Bytes} {gs gs' : List Getc}
    → Lacks 10 line
    → Delivers gs (line ++ 13 ∷ 10 ∷ []) gs'
    → getline gs (13 ∷ 10 ∷ []) ≡ done (whole line, gs')
getline-crlf {line} {gs} {gs'} h d =
    getline-Delivers (13 ∷ 10 ∷ []) line gs gs' d (IsUnended-Lacks [] line tt h)
