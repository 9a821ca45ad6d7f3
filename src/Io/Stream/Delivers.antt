-- ===== src/Io/Stream/Delivers.antt =====
-- What `getc` gives on an `AsyncFileStream` of lib/include/epoll.hpp while bytes come, and the loops of
-- `getline` and `read_buffer` over it.
use coroutine_http_server.Prelude.{
  ℕ, false, List, [], ◌∷◌, ◌++◌, ◌≡◌, refl, sym, ap, ◌∙◌, append_assoc, append-nil, Bytes, length,
}
use coroutine_http_server.Io.Outcome.{done}
use coroutine_http_server.Io.File.{epollerr_hup, has_bits}
use coroutine_http_server.Io.Stream.{Getc, byte, again, whole, read_from, read_buffer}

-- `Delivers gs xs gs'`: the bytes xs come, each after any number of waits that end without a hang-up,
-- and what is left is gs'.
pub data Delivers : List Getc → Bytes → List Getc → Type 0 where
  rest : (gs : List Getc) → Delivers gs [] gs
  next :
      (c : ℕ) {gs : List Getc} {xs : Bytes} {gs' : List Getc}
      → Delivers gs xs gs'
      → Delivers (byte c ∷ gs) (c ∷ xs) gs'
  pause :
      (ev : ℕ) {gs : List Getc} {c : ℕ} {xs : Bytes} {gs' : List Getc}
      → has_bits ev epollerr_hup ≡ false
      → Delivers gs (c ∷ xs) gs'
      → Delivers (again ev ∷ gs) (c ∷ xs) gs'

Delivers-parts :
    (xs ys : Bytes) {zs : Bytes} {gs gs'' : List Getc}
    → Delivers gs zs gs''
    → zs ≡ xs ++ ys
    → (gs' : List Getc) × Delivers gs xs gs' × Delivers gs' ys gs''
Delivers-parts [] ys {gs = gs} d e = (gs, rest gs, rw (sym e) d)
Delivers-parts (x ∷ xs) ys (rest gs) e = cc
Delivers-parts (x ∷ xs) ys (next c d) e =
    let (gs', first, second) = Delivers-parts xs ys d cc in
    let same : x ≡ c = cc in (gs', rw same (next c first), second)
Delivers-parts (x ∷ xs) ys (pause ev h d) e =
    let (gs', first, second) = Delivers-parts (x ∷ xs) ys d e in (gs', pause ev h first, second)

-- Bytes that come in two parts come one part after the other.
pub Delivers-split :
    (xs ys : Bytes) {gs gs'' : List Getc}
    → Delivers gs (xs ++ ys) gs''
    → (gs' : List Getc) × Delivers gs xs gs' × Delivers gs' ys gs''
Delivers-split xs ys d = Delivers-parts xs ys d refl

read_from-Delivers :
    {gs gs' : List Getc} {xs : Bytes}
    → Delivers gs xs gs'
    → (buf : Bytes) → read_from gs (length xs) buf ≡ done (whole (buf ++ xs), gs')
unfolding read_from
read_from-Delivers (rest gs) buf = rw (append-nil buf) refl
read_from-Delivers (next c {xs = xs} {gs' = gs'} d) buf =
    read_from-Delivers d (buf ++ c ∷ [])
    ∙ ap (λ s. done (whole s, gs')) (append_assoc buf (c ∷ []) xs)
read_from-Delivers (pause ev h d) buf = rw (read_from, h) (read_from-Delivers d buf)

-- If n bytes come, `read_buffer` on a buffer of n bytes gives them, and takes no more.
pub read_buffer-Delivers :
    {gs gs' : List Getc} {xs : Bytes}
    → Delivers gs xs gs'
    → read_buffer gs (length xs) ≡ done (whole xs, gs')
unfolding read_buffer
read_buffer-Delivers d = read_from-Delivers d []
