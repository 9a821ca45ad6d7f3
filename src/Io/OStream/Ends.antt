-- ===== src/Io/OStream/Ends.antt =====
-- The writes of `AsyncOStreamBase`, of lib/include/aio.hpp, end: the fuel of `puts` is enough.
use coroutine_http_server.Prelude.{
  ℕ, suc, ◌+◌, ◌-◌, ◌≤◌, ◌&&◌, not, List, [], ◌∷◌, ◌++◌, ◌==◌, arith, ltb, Bytes, take, drop,
  length, Bool-cases, inl, inr,
}
use coroutine_http_server.Io.Outcome.{IsFueled, >>=-IsFueled, done-IsFueled}
use coroutine_http_server.Io.File.{
  Output, Writable, SysWrite, takes, failed, write, write_file_best_effort, write_file_sync,
}
use coroutine_http_server.Io.OStream.{
  OStream, write_all, write_buffer, flush, append, putchar, copy, puts,
}
use coroutine_http_server.Io.OStream.Written.{IsValid}
use coroutine_http_server.Io.OStream.Put.{copy_nil, copy-fits}
use coroutine_http_server.Io.OStream.Session.{Call, text, char, flushed, call, calls, call-written}

write_file_sync-IsFueled : (size : ℕ) (c : SysWrite) → IsFueled (write_file_sync size c)
unfolding write_file_sync
write_file_sync-IsFueled size (takes n) = λ e. cc
write_file_sync-IsFueled size (failed err) = ground arith

write-IsFueled : (size : ℕ) (w : Writable) → IsFueled (write size w)
unfolding write write_file_best_effort
write-IsFueled size w = ground (arith, write_file_sync-IsFueled size w.call)

write_all-IsFueled :
    (sp : Bytes) (output : Output) (sent : Bytes) → IsFueled (write_all sp output sent)
unfolding write_all
write_all-IsFueled sp [] sent = λ e. cc
write_all-IsFueled sp (w ∷ output) sent =
    >>=-IsFueled (write (length sp) w) _ (write-IsFueled (length sp) w) λ sz _.
      elim (Bool-cases (ltb 0 sz && not (sz == length sp))) [
        | inl more ↦ rw more (write_all-IsFueled (drop sz sp) output (sent ++ take sz sp))
        | inr stop ↦ rw stop (ground arith)
      ]

write_buffer-IsFueled : (sp : Bytes) (f : OStream) → IsFueled (write_buffer sp f)
unfolding write_buffer
write_buffer-IsFueled [] f = done-IsFueled f
write_buffer-IsFueled (c ∷ sp) f =
    >>=-IsFueled (write_all (c ∷ sp) f.output f.sent) _
      (write_all-IsFueled (c ∷ sp) f.output f.sent) λ _ _. done-IsFueled _

pub flush-IsFueled : (f : OStream) → IsFueled (flush f)
unfolding flush
flush-IsFueled f = elim (Bool-cases (f.end == 0)) [
  | inl nothing ↦ rw (nothing, flush) (done-IsFueled f)
  | inr some_bytes ↦
      rw (some_bytes, flush)
        (>>=-IsFueled (write_buffer (take f.end f.buffer) f) _
          (write_buffer-IsFueled (take f.end f.buffer) f) λ _ _. done-IsFueled _)
]

putchar-IsFueled : (ch : ℕ) (f : OStream) → IsFueled (putchar ch f)
unfolding putchar
putchar-IsFueled ch f = elim (Bool-cases (f.end == f.capacity)) [
  | inl full ↦
      rw (full, putchar) (>>=-IsFueled (flush f) _ (flush-IsFueled f) λ _ _. done-IsFueled _)
  | inr room ↦ rw (room, putchar) (done-IsFueled _)
]

copy-IsFueled :
    (sv : Bytes) (f : OStream)
    → f.end + length sv ≤ f.capacity
    → IsFueled (copy (suc (length sv)) sv f)
copy-IsFueled [] f fits = rw (copy_nil 1 f) (done-IsFueled f)
copy-IsFueled (c ∷ sv) f fits =
    rw (copy-fits (length (c ∷ sv)) c sv f fits) (done-IsFueled (append (c ∷ sv) f))

pub puts-IsFueled : (sv : Bytes) (f : OStream) → IsValid f → IsFueled (puts sv f)
unfolding puts
puts-IsFueled sv f v = elim (Bool-cases (ltb (f.capacity - f.end) (length sv))) [
  | inr fits ↦ rw (fits, puts) (copy-IsFueled sv f (ground (arith, v.in_bounds)))
  | inl large ↦
      rw (large, puts)
        (>>=-IsFueled _ _ (ground (arith, flush-IsFueled f, done-IsFueled f))
          λ g _. write_buffer-IsFueled sv g)
]

call-IsFueled : (c : Call) (f : OStream) → IsValid f → IsFueled (call c f)
unfolding call
call-IsFueled (text sv) f v = puts-IsFueled sv f v
call-IsFueled (char ch) f v = putchar-IsFueled ch f
call-IsFueled flushed f v = flush-IsFueled f

-- On a valid stream any calls end, or throw, or wait for an event that does not come.
pub calls-IsFueled : (cs : List Call) (f : OStream) → IsValid f → IsFueled (calls cs f)
unfolding calls
calls-IsFueled [] f v = done-IsFueled f
calls-IsFueled (c ∷ cs) f v =
    >>=-IsFueled (call c f) _ (call-IsFueled c f v)
      λ g e. calls-IsFueled cs g ((call-written c f g v e).0)
