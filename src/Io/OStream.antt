-- ===== src/Io/OStream.antt =====
-- `AsyncOStreamBase` of lib/include/aio.hpp, over the `write` of `AsyncFileBuffer`.
pub mod Written
pub mod Session
pub mod Put
pub mod Willing
pub mod Ends
use coroutine_http_server.Prelude.{
  ℕ, zero, suc, ◌+◌, ◌-◌, Bool, true, false, ◌&&◌, not, List, [], ◌∷◌, ◌++◌, ◌==◌, ltb,
  if◌then◌else◌, Bytes, take, drop, length, replicate, is_empty,
}
use coroutine_http_server.Prelude.Result.{eof_exception}
use coroutine_http_server.Io.Outcome.{Outcome, done, throws, waits, exhausted, ◌>>=◌}
use coroutine_http_server.Io.File.{Output, Writable, write}

-- The first `end` bytes of the buffer are yet to be written; `sent` is what the kernel has taken.
pub record OStream : Type 0 where
  pub buffer : Bytes
  pub capacity : ℕ
  pub end : ℕ
  pub output : Output
  pub sent : Bytes

abbrev pub ostream : ℕ → Output → OStream
ostream buffer_size output = record {
  buffer = replicate buffer_size 0;
  capacity = buffer_size;
  end = 0;
  output = output;
  sent = [];
}

-- The loop of `write_buffer`: it ends when all is written, or throws when nothing is taken. Each round
-- takes a wake-up from the list.
unfoldable pub write_all : Bytes → Output → Bytes → Outcome (Bytes × Output)
write_all sp [] sent = waits
write_all sp (w ∷ output) sent = do
  sz ← write (length sp) w
  elim (ltb 0 sz && not (sz == length sp)) [
    | true ↦ write_all (drop sz sp) output (sent ++ take sz sp)
    | false ↦
        if sz == 0 then throws (eof_exception "Write EOF\n") else done (sent ++ take sz sp, output)
  ]

unfoldable pub write_buffer : Bytes → OStream → Outcome OStream
write_buffer [] f = done f
write_buffer (c ∷ sp) f = do
  (sent', output') ← write_all (c ∷ sp) f.output f.sent
  done (record f { sent = sent'; output = output' })

unfoldable pub flush : OStream → Outcome OStream
flush f =
    if f.end == 0
    then done f
    else (do f' ← write_buffer (take f.end f.buffer) f; done (record f' { end = 0 }))

-- `std::memcpy(&buffer_[end], …)`: the bytes in the place of those from `end` on
abbrev pub overwrite : Bytes → ℕ → Bytes → Bytes
overwrite buffer end xs = take end buffer ++ (xs ++ drop (end + length xs) buffer)

abbrev pub append : Bytes → OStream → OStream
append xs f = record f { buffer = overwrite f.buffer f.end xs; end = f.end + length xs }

unfoldable pub putchar : ℕ → OStream → Outcome OStream
putchar ch f =
    if f.end == f.capacity
    then (do f' ← flush f; done (append (ch ∷ []) f'))
    else done (append (ch ∷ []) f)

-- `std::min(capacity_ - end_, n - i)`
unfoldable pub can_write : OStream → Bytes → ℕ
can_write f sv = let room = f.capacity - f.end in if ltb room (length sv) then room else length sv

-- The loop that copies into the buffer; `sv` is the part that is left. The fuel counts its rounds.
unfoldable pub copy : ℕ → Bytes → OStream → Outcome OStream
copy fuel [] f = done f
copy zero (c ∷ sv) f = exhausted
copy (suc fuel) (c ∷ sv) f = elim (can_write f (c ∷ sv) == 0) [
  | true ↦ do f' ← flush f; copy fuel (c ∷ sv) f'
  | false ↦
      copy fuel (drop (can_write f (c ∷ sv)) (c ∷ sv))
        (append (take (can_write f (c ∷ sv)) (c ∷ sv)) f)
]

-- A round of the loop for each byte, and one more, are enough.
unfoldable pub puts : Bytes → OStream → Outcome OStream
puts sv f =
    if ltb (f.capacity - f.end) (length sv)
    then (do f' ← (if f.end == 0 then done f else flush f); write_buffer sv f')
    else copy (suc (length sv)) sv f
