-- ===== src/Io/OStream/Written.antt =====
-- `AsyncOStreamBase` of lib/include/aio.hpp: what has been written through a stream, call by call.
use coroutine_http_server.Prelude.{
  ℕ, ◌≤◌, ◌<◌, false, ◌&&◌, not, [], ◌∷◌, ◌++◌, ◌==◌, ◌≡◌, refl, sym, ap, ◌∙◌, arith, ltb,
  if◌then◌else◌, Bytes, take, drop, length, append_assoc, append-nil, Bool-cases, inl, inr,
  take-append-drop, take_all, ==_iff,
}
use coroutine_http_server.Prelude.Result.{eof_exception}
use coroutine_http_server.Io.Outcome.{Outcome, done, throws, >>=-eq-done}
use coroutine_http_server.Io.File.{Output, write}
use coroutine_http_server.Io.OStream.{OStream, write_all, write_buffer, flush}

-- All that was ever written: what the kernel has, and what is in the buffer.
abbrev pub written : OStream → Bytes
written f = f.sent ++ take f.end f.buffer

pub record IsValid (f : OStream) : Type 0 where
  pub in_bounds : f.end ≤ f.capacity
  pub sized : length f.buffer ≡ f.capacity
  pub roomy : 0 < f.capacity

-- What the last round of `write_all` gives.
write_all-last :
    (sp : Bytes) (output output' : Output) (sent sent' : Bytes) (sz : ℕ)
    → (ltb 0 sz && not (sz == length sp)) ≡ false
    → if◌then◌else◌ {A = Outcome (Bytes × Output)}
        (sz == 0)
        (throws (eof_exception "Write EOF\n"))
        (done (sent ++ take sz sp, output))
      ≡ done (sent', output')
    → sent' ≡ sent ++ sp
write_all-last sp output output' sent sent' sz stop e = ground (arith, take_all sz sp)

pub write_all-sent :
    (output output' : Output) (sp sent sent' : Bytes)
    → write_all sp output sent ≡ done (sent', output')
    → sent' ≡ sent ++ sp
unfolding write_all
write_all-sent [] output' sp sent sent' e = cc
write_all-sent (w ∷ output) output' sp sent sent' e =
    let (sz, _, rest) = >>=-eq-done (write (length sp) w) _ e in
    elim (Bool-cases (ltb 0 sz && not (sz == length sp))) [
      | inl more ↦
          write_all-sent output output' (drop sz sp) (sent ++ take sz sp) sent' (rw more at rest)
          ∙ (append_assoc sent (take sz sp) (drop sz sp) ∙ ap (◌++◌ sent) (take-append-drop sz sp))
      | inr stop ↦ write_all-last sp output output' sent sent' sz stop (rw stop at rest)
    ]

-- A successful call of `write_buffer` gives the kernel the bytes, and touches nothing else.
pub write_buffer-sent :
    (sp : Bytes) (f f' : OStream)
    → write_buffer sp f ≡ done f'
    → (f'.sent ≡ f.sent ++ sp)
      × (f'.buffer ≡ f.buffer)
      × (f'.capacity ≡ f.capacity)
      × (f'.end ≡ f.end)
unfolding write_buffer
write_buffer-sent [] f f' e = ground (arith, append-nil f.sent)
write_buffer-sent (c ∷ sp) f f' e =
    let ((sent', output'), all, rest) = >>=-eq-done (write_all (c ∷ sp) f.output f.sent) _ e in
    ground (arith, write_all-sent f.output output' (c ∷ sp) f.sent sent' all)

pub done-injective : {f g : OStream} → done f ≡ done g → f ≡ g
done-injective e = cc

-- After a successful flush the kernel has all that was ever written, and the buffer is empty.
pub flush-written :
    (f f' : OStream)
    → IsValid f
    → flush f ≡ done f'
    → IsValid f' × (f'.sent ≡ written f) × (f'.end ≡ 0) × (f'.capacity ≡ f.capacity)
unfolding flush
flush-written f f' v e = elim (Bool-cases (f.end == 0)) [
  | inl nothing ↦
      let same : f ≡ f' = done-injective (rw nothing at e) in
      let empty : f.end ≡ 0 = (==_iff f.end 0).0 nothing in
      rw (← same) (v, rw empty (sym (append-nil f.sent)), empty, refl)
  | inr some_bytes ↦
      let (g, wrote, rest) =
        >>=-eq-done (write_buffer (take f.end f.buffer) f) _ (rw some_bytes at e) in
      let (sent, buffer, capacity, _) = write_buffer-sent (take f.end f.buffer) f g wrote in
      rw (← (done-injective rest)) (
        record {
          in_bounds = omega arith;
          sized = ap length buffer ∙ (v.sized ∙ sym capacity);
          roomy = omega arith;
        },
        sent,
        refl,
        capacity,
      )
]

pub written-drained : (f : OStream) → f.end ≡ 0 → written f ≡ f.sent
written-drained f empty = rw empty (append-nil f.sent)
