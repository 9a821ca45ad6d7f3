-- ===== src/Io/OStream/Willing.antt =====
-- The kernels under which the operations of an `AsyncOStreamBase` of lib/include/aio.hpp return.
use coroutine_http_server.Prelude.{
  ℕ, suc, ◌+◌, ◌-◌, ◌≤◌, ◌<◌, true, false, ◌&&◌, not, [], ◌∷◌, ◌++◌, ◌==◌, ◌≡◌, refl, arith, ltb,
  if◌then◌else◌, Bytes, take, drop, length, Bool-cases, inl, inr, All, length-take, length-drop,
  ==_iff,
}
use coroutine_http_server.Io.Outcome.{Outcome, done}
use coroutine_http_server.Io.File.{Output, Writable, takes, epollout, epollerr_hup, has_bits, write}
use coroutine_http_server.Io.OStream.{
  OStream, write_all, write_buffer, flush, append, putchar, copy, puts,
}
use coroutine_http_server.Io.OStream.Written.{IsValid, write_buffer-sent, flush-written}
use coroutine_http_server.Io.OStream.Put.{copy-fits, copy_nil}

-- A wake-up at which the kernel takes at least a byte.
abbrev pub IsWilling : Writable → Type 0
IsWilling w =
    (has_bits w.mask epollerr_hup ≡ false)
    × (has_bits w.mask epollout ≡ true)
    × ((n : ℕ) × (w.call ≡ takes (suc n)))

write-willing :
    (size : ℕ) (w : Writable)
    → 0 < size
    → IsWilling w
    → (sz : ℕ) × (write size w ≡ done sz) × (0 < sz) × (sz ≤ size)
unfolding write
write-willing size w h (alive, writable, (n, e)) =
    ((if ltb (suc n) size then suc n else size), ground arith, ground arith, ground arith)

-- There is a willing wake-up for each byte of `sp`.
write_all-returns :
    (output : Output) (sp sent : Bytes)
    → All IsWilling output
    → 0 < length sp
    → length sp ≤ length output
    → (sent' : Bytes) × (output' : Output) × (write_all sp output sent ≡ done (sent', output'))
      × All IsWilling output'
      × (length output ≤ length output' + length sp)
unfolding write_all
write_all-returns [] sp sent willing some_byte enough = absurd (omega arith)
write_all-returns (w ∷ output) sp sent (first, willing) some_byte enough =
    let (sz, wrote, pos, fits) = write-willing (length sp) w some_byte first in
    elim (Bool-cases (ltb 0 sz && not (sz == length sp))) [
      | inl more ↦
          let left = length-drop sz sp in
          let smaller : 0 < length (drop sz sp) = ground arith in
          let (sent', output', rest, willing', count) =
            write_all-returns output (drop sz sp) (sent ++ take sz sp) willing smaller
              (omega (arith, left)) in
          (sent', output', ground arith, willing', omega (arith, left))
      | inr stop ↦ (sent ++ take sz sp, output, ground arith, willing, omega arith)
    ]

-- Enough willing wake-ups are left for the bytes in the buffer and `n` more.
abbrev pub IsReady : OStream → ℕ → Type 0
IsReady f n = All IsWilling f.output × (f.end + n ≤ length f.output)

-- The call returns, and enough are left for `n` bytes.
abbrev pub ReturnsReady : Outcome OStream → ℕ → Type 0
ReturnsReady m n = (f' : OStream) × (m ≡ done f') × IsReady f' n

write_buffer-returns :
    (sp : Bytes) (f : OStream)
    → All IsWilling f.output
    → length sp ≤ length f.output
    → (f' : OStream) × (write_buffer sp f ≡ done f')
      × All IsWilling f'.output
      × (length f.output ≤ length f'.output + length sp)
unfolding write_buffer
write_buffer-returns [] f willing enough = (f, refl, willing, omega arith)
write_buffer-returns (c ∷ sp) f willing enough =
    let (sent', output', e, willing', count) =
      write_all-returns f.output (c ∷ sp) f.sent willing (omega arith) enough in
    (record f { sent = sent'; output = output' }, rw (e, write_buffer), willing', count)

pub flush-returns : (f : OStream) (n : ℕ) → IsReady f n → ReturnsReady (flush f) n
unfolding flush
flush-returns f n (willing, enough) = elim (Bool-cases (f.end == 0)) [
  | inl nothing ↦ (f, rw (nothing, flush), (willing, enough))
  | inr some_bytes ↦
      let size = length-take f.end f.buffer in
      let (f', e, willing', count) =
        write_buffer-returns (take f.end f.buffer) f willing (omega (arith, size)) in
      (record f' { end = 0 }, rw (some_bytes, e, flush), (willing', omega (arith, size)))
]

pub putchar-returns :
    (ch : ℕ) (f : OStream) (n : ℕ) → IsValid f → IsReady f (suc n) → ReturnsReady (putchar ch f) n
unfolding putchar
putchar-returns ch f n v ready = elim (Bool-cases (f.end == f.capacity)) [
  | inr room ↦ (append (ch ∷ []) f, rw (room, putchar), (ready.0, omega (arith, ready.1)))
  | inl full ↦
      let (g, e, ready') = flush-returns f (suc n) ready in
      (append (ch ∷ []) g, rw (full, e, putchar), (ready'.0, omega (arith, ready'.1)))
]

copy-returns :
    (sv : Bytes) (f : OStream) (n : ℕ)
    → f.end + length sv ≤ f.capacity
    → IsReady f (length sv + n)
    → ReturnsReady (copy (suc (length sv)) sv f) n
copy-returns [] f n fits ready = (f, copy_nil 1 f, (ready.0, omega (arith, ready.1)))
copy-returns (c ∷ sv) f n fits ready =
    (append (c ∷ sv) f, copy-fits (length (c ∷ sv)) c sv f fits, (ready.0, omega (arith, ready.1)))

-- The flush in front of a text that does not fit leaves the buffer empty.
first_flush-returns :
    (f : OStream) (n : ℕ)
    → IsValid f
    → IsReady f n
    → (g : OStream) × (if◌then◌else◌ {A = Outcome OStream} (f.end == 0) (done f) (flush f) ≡ done g)
      × IsReady g n
      × (g.end ≡ 0)
first_flush-returns f n v ready = elim (Bool-cases (f.end == 0)) [
  | inl nothing ↦ (f, rw nothing, ready, (==_iff f.end 0).0 nothing)
  | inr some_bytes ↦
      let (g, e, ready') = flush-returns f n ready in
      let (_, _, empty, _) = flush-written f g v e in (g, rw some_bytes e, ready', empty)
]

pub puts-returns :
    (sv : Bytes) (f : OStream) (n : ℕ)
    → IsValid f
    → IsReady f (length sv + n)
    → ReturnsReady (puts sv f) n
unfolding puts
puts-returns sv f n v ready = elim (Bool-cases (ltb (f.capacity - f.end) (length sv))) [
  | inr fits ↦
      let (f', e, ready') = copy-returns sv f n (ground (arith, v.in_bounds)) ready in
      (f', rw (fits, puts) e, ready')
  | inl large ↦
      let (g, e, ready', empty) = first_flush-returns f (length sv + n) v ready in
      let (f', e', willing, count) = write_buffer-returns sv g ready'.0 (omega (arith, ready'.1)) in
      let same : f'.end ≡ g.end = (write_buffer-sent sv g f' e').3 in
      (f', rw (large, puts) (rw e e'), (willing, omega (arith, ready'.1)))
]
