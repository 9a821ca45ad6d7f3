-- ===== src/Io/IStream.antt =====
-- `AsyncIStreamBase` of lib/include/aio.hpp, over the `read` of `AsyncFileBuffer`.
pub mod Flow
pub mod Getchar
pub mod Ends
pub mod Lines
pub mod Counts
use coroutine_http_server.Prelude.{
  ℕ, zero, suc, ◌+◌, ◌-◌, Bool, true, false, List, [], ◌∷◌, ◌++◌, ◌==◌, if◌then◌else◌, Bytes, take,
  drop, length, get_or, replicate, ◌≡◌, ◌≤◌, ◌<◌, is_empty,
}
use coroutine_http_server.Prelude.Result.{eof_exception}
use coroutine_http_server.Io.Outcome.{Outcome, done, throws, waits, exhausted, ◌>>=◌}
use coroutine_http_server.Io.File.{Input, SysRead, ready, failed, read}

-- The buffer is the array, whose bytes from `start` to `end` are yet to be given out; `input` is what
-- the kernel has in store.
pub record IStream : Type 0 where
  pub buffer : Bytes
  pub capacity : ℕ
  pub start : ℕ
  pub end : ℕ
  pub input : Input

abbrev pub istream : ℕ → Input → IStream
istream buffer_size input = record {
  buffer = replicate buffer_size 0;
  capacity = buffer_size;
  start = 0;
  end = 0;
  input = input;
}

-- `empty`
abbrev pub is_drained : IStream → Bool
is_drained s = s.start == s.end

unfoldable pub refill : IStream → Outcome IStream
refill s = do
  (xs, input') ← read s.capacity s.input
  let sz = length xs
  if sz == 0
      then throws (eof_exception "Read EOF\n")
      else done (record s { buffer = xs ++ drop sz s.buffer; start = 0; end = sz; input = input' })

-- `buffer_[start_++]`
abbrev pub take_char : IStream → ℕ × IStream
take_char s = (get_or s.buffer s.start 0, record s { start = s.start + 1 })

unfoldable pub getchar : IStream → Outcome (ℕ × IStream)
unfolding refill
getchar s = if is_drained s then (do s' ← refill s; done (take_char s')) else done (take_char s)

-- The loop of `getn`, with the string so far; its reads are `getchar`, written out in the source.
unfoldable pub getn_from : ℕ → Bytes → IStream → Outcome (Bytes × IStream)
unfolding getchar
getn_from zero s f = done (s, f)
getn_from (suc n) s f = do (ch, f') ← getchar f; getn_from n (s ++ ch ∷ []) f'

unfoldable pub getn : ℕ → IStream → Outcome (Bytes × IStream)
unfolding getn_from
getn n f = getn_from n [] f

-- The loop over `eol` behind its first byte: how many bytes of it match, and the stream behind them
-- and behind the byte that does not.
unfoldable pub match_eol : Bytes → ℕ → IStream → Outcome (ℕ × IStream)
unfolding getchar
match_eol [] i f = done (i, f)
match_eol (e ∷ eol) i f = do
  (ch, f') ← getchar f
  if ch == e then match_eol eol (i + 1) f' else done (i, f')

-- The loop of `getline` with the string so far. The fuel counts its rounds.
unfoldable pub getline_from : ℕ → Bytes → Bytes → IStream → Outcome (Bytes × IStream)
unfolding match_eol
getline_from zero eol s f = exhausted
getline_from (suc fuel) eol s f = do
  (ch, f') ← getchar f
  elim (ch == get_or eol 0 0) [
    | true ↦ do
      (i, f'') ← match_eol (drop 1 eol) 1 f'
      elim (i == length eol) [
        | true ↦ done (s, f'')
        | false ↦ getline_from fuel eol (s ++ take i eol) f''
      ]
    | false ↦ getline_from fuel eol (s ++ ch ∷ []) f'
  ]

abbrev pub call_size : SysRead → ℕ
call_size (ready xs) = length xs
call_size (failed _) = 0

-- How many bytes the stream can give out at most.
abbrev pub in_kernel : Input → ℕ
in_kernel [] = 0
in_kernel (w ∷ input) = call_size w.call + in_kernel input

abbrev pub available : IStream → ℕ
available f = (f.end - f.start) + in_kernel f.input

-- A round for each byte, and one more, are enough.
unfoldable pub getline : Bytes → IStream → Outcome (Bytes × IStream)
unfolding getline_from
getline eol f = getline_from (suc (available f)) eol [] f
