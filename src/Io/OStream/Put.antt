-- ===== src/Io/OStream/Put.antt =====
-- `putchar` and `puts` of `AsyncOStreamBase`, in lib/include/aio.hpp: what has been written behind them.
use coroutine_http_server.Prelude.{
  ℕ, zero, suc, ◌+◌, ◌-◌, ◌≤◌, true, false, [], ◌∷◌, ◌++◌, ◌==◌, ◌≡◌, refl, sym, ap, ◌∙◌, arith,
  ltb, if◌then◌else◌, Bytes, take, drop, length, append_assoc, append-nil, Bool-cases, inl, inr,
  take-length, drop_all, length-append, length-take, length-drop, take-length_append, ◌⊎◌, ==_iff,
}
use coroutine_http_server.Io.Outcome.{Outcome, done, >>=-eq-done}
use coroutine_http_server.Io.OStream.{
  OStream, write_buffer, flush, overwrite, append, putchar, can_write, copy, puts,
}
use coroutine_http_server.Io.OStream.Written.{
  IsValid, written, write_buffer-sent, flush-written, written-drained, done-injective,
}

length-overwrite :
    (buffer : Bytes) (end : ℕ) (xs : Bytes)
    → end + length xs ≤ length buffer
    → length (overwrite buffer end xs) ≡ length buffer
length-overwrite buffer end xs h =
    let a = length-append (take end buffer) (xs ++ drop (end + length xs) buffer) in
    let b = length-append xs (drop (end + length xs) buffer) in
    omega (arith, a, b, length-take end buffer, length-drop (end + length xs) buffer)

take-overwrite :
    (buffer : Bytes) (end : ℕ) (xs : Bytes)
    → end + length xs ≤ length buffer
    → take (end + length xs) (overwrite buffer end xs) ≡ take end buffer ++ xs
take-overwrite buffer end xs h =
    let p = take end buffer in
    let r = drop (end + length xs) buffer in
    let count : length (p ++ xs) ≡ end + length xs =
      omega (arith, length-append p xs, length-take end buffer) in
    ap (λ (n : ℕ). take n (p ++ (xs ++ r))) (sym count)
    ∙ (ap (take (length (p ++ xs))) (sym (append_assoc p xs r)) ∙ take-length_append (p ++ xs) r)

-- Bytes that fit are put behind those in the buffer.
append-written :
    (xs : Bytes) (f : OStream)
    → IsValid f
    → f.end + length xs ≤ f.capacity
    → IsValid (append xs f) × (written (append xs f) ≡ written f ++ xs)
append-written xs f v h = (
  record {
    in_bounds = h;
    sized = length-overwrite f.buffer f.end xs (omega arith) ∙ v.sized;
    roomy = v.roomy;
  },
  rw (take-overwrite f.buffer f.end xs (omega arith))
      (sym (append_assoc f.sent (take f.end f.buffer) xs)),
)

-- A byte is put behind all that was written before.
pub putchar-written :
    (ch : ℕ) (f f' : OStream)
    → IsValid f
    → putchar ch f ≡ done f'
    → IsValid f' × (written f' ≡ written f ++ ch ∷ [])
unfolding putchar
putchar-written ch f f' v e = elim (Bool-cases (f.end == f.capacity)) [
  | inl full ↦
      let (g, flushed, rest) = >>=-eq-done (flush f) _ (rw full at e) in
      let (v', sent, empty, capacity) = flush-written f g v flushed in
      let (v'', all) = append-written (ch ∷ []) g v' (omega arith) in
      rw (← (done-injective rest))
        (v'', all ∙ ap (λ (t : Bytes). t ++ ch ∷ []) (written-flushed f g sent empty))
  | inr room ↦
      rw (← (done-injective (rw room at e))) (append-written (ch ∷ []) f v (room_left room))
]
  where
    room_left : (f.end == f.capacity) ≡ false → f.end + 1 ≤ f.capacity
    room_left r = ground (arith, v.in_bounds)

    written-flushed : (f g : OStream) → g.sent ≡ written f → g.end ≡ 0 → written g ≡ written f
    written-flushed f g sent empty = rw empty (append-nil g.sent ∙ sent)

pub copy_nil : (fuel : ℕ) (f : OStream) → copy fuel [] f ≡ done f
unfolding copy
copy_nil zero f = refl
copy_nil (suc fuel) f = refl

can_write-fits :
    (f : OStream) (sv : Bytes) → f.end + length sv ≤ f.capacity → can_write f sv ≡ length sv
unfolding can_write
can_write-fits f sv h = ground arith

-- A text that fits is copied in one round.
pub copy-fits :
    (fuel c : ℕ) (sv : Bytes) (f : OStream)
    → f.end + length (c ∷ sv) ≤ f.capacity
    → copy (suc fuel) (c ∷ sv) f ≡ done (append (c ∷ sv) f)
unfolding copy
copy-fits fuel c sv f h = ground (
  arith,
  can_write-fits f (c ∷ sv) h,
  drop_all (length (c ∷ sv)) (c ∷ sv),
  take-length (c ∷ sv),
  copy_nil fuel (append (c ∷ sv) f),
)

copy-written :
    (sv : Bytes) (f f' : OStream)
    → IsValid f
    → f.end + length sv ≤ f.capacity
    → copy (suc (length sv)) sv f ≡ done f'
    → IsValid f' × (written f' ≡ written f ++ sv)
copy-written [] f f' v h e =
    rw (← (done-injective (sym (copy_nil 1 f) ∙ e))) (v, sym (append-nil (written f)))
copy-written (c ∷ sv) f f' v h e =
    rw (← (done-injective (sym (copy-fits (length (c ∷ sv)) c sv f h) ∙ e)))
      (append-written (c ∷ sv) f v h)

-- `write_buffer` on a stream whose buffer is empty.
write_buffer-written :
    (sv : Bytes) (g f' : OStream)
    → IsValid g
    → g.end ≡ 0
    → write_buffer sv g ≡ done f'
    → IsValid f' × (written f' ≡ g.sent ++ sv)
write_buffer-written sv g f' v empty e =
    let (sent, buffer, capacity, end) = write_buffer-sent sv g f' e in
    (
      record {
        in_bounds = omega arith;
        sized = ap length buffer ∙ (v.sized ∙ sym capacity);
        roomy = omega arith;
      },
      written-drained f' (end ∙ empty) ∙ sent,
    )

-- A text is put behind all that was written before, whether it is copied into the buffer or, where it
-- does not fit, given to the kernel behind what the buffer held.
pub puts-written :
    (sv : Bytes) (f f' : OStream)
    → IsValid f
    → puts sv f ≡ done f'
    → IsValid f' × (written f' ≡ written f ++ sv)
unfolding puts
puts-written sv f f' v e = elim (Bool-cases (ltb (f.capacity - f.end) (length sv))) [
  | inr fits ↦ copy-written sv f f' v (fits_in fits) (rw fits at e)
  | inl large ↦
      let (g, flushed, rest) =
        >>=-eq-done (if◌then◌else◌ {A = Outcome OStream} (f.end == 0) (done f) (flush f)) _
          (rw large at e) in
      let (v', sent, empty) = first_flush (Bool-cases (f.end == 0)) flushed in
      let (v'', all) = write_buffer-written sv g f' v' empty rest in
      (v'', all ∙ ap (λ (t : Bytes). t ++ sv) sent)
]
  where
    fits_in : ltb (f.capacity - f.end) (length sv) ≡ false → f.end + length sv ≤ f.capacity
    fits_in h = ground (arith, v.in_bounds)

    first_flush :
        {g : OStream}
        → ((f.end == 0) ≡ true) ⊎ ((f.end == 0) ≡ false)
        → if◌then◌else◌ {A = Outcome OStream} (f.end == 0) (done f) (flush f) ≡ done g
        → IsValid g × (g.sent ≡ written f) × (g.end ≡ 0)
    first_flush (inl nothing) e =
        let empty = (==_iff f.end 0).0 nothing in
        rw (← (done-injective (rw nothing at e))) (v, sym (written-drained f empty), empty)
    first_flush {g} (inr some_bytes) e =
        let (v', sent, empty, _) = flush-written f g v (rw some_bytes at e) in (v', sent, empty)
