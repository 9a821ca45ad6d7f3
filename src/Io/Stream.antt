-- ===== src/Io/Stream.antt =====
-- `getline`, `read_buffer` and `print` over an `AsyncFileStream`, and `read_string`, of
-- lib/include/epoll.hpp. What `getc` and `putc` give, and the masks with which `wait_file_event`
-- resumes, are lists; where such a list is used up, the coroutine stays suspended.
pub mod Delivers
pub mod Lines
pub mod Prints
pub mod Strings
use coroutine_http_server.Prelude.{
  ℕ, zero, suc, ◌+◌, ◌-◌, ◌*◌, Bool, true, false, not, ◌||◌, List, [], ◌∷◌, ◌++◌, ◌==◌, ltb,
  if◌then◌else◌, Bytes, take, length, ends_with,
}
use coroutine_http_server.Prelude.Result.{syscall_error}
use coroutine_http_server.Io.Outcome.{Outcome, done, throws, waits, exhausted, ◌>>=◌}
use coroutine_http_server.Io.IStream.{in_kernel}
use coroutine_http_server.Io.File.{IoResult, Input, has_bits, epollerr_hup, read_file_best_effort}

-- `getc`: a byte; EOF with EAGAIN, and the mask of the event that is waited for; EOF with `errno` 0;
-- or EOF with another `errno`.
pub data Getc : Type 0 where
  byte : ℕ → Getc
  again : ℕ → Getc
  end_of_file : Getc
  failed : Getc

-- `putc`: the byte is taken; or EOF, in the same ways. A byte for which EOF is returned is not taken.
pub data Putc : Type 0 where
  taken : Putc
  again : ℕ → Putc
  failed : Putc

abbrev pub hung_up {ℓ} : {T : Type ℓ} → T → IoResult T
hung_up x = record { result = x; hup = true }

abbrev pub whole {ℓ} : {T : Type ℓ} → T → IoResult T
whole x = record { result = x; hup = false }

-- The loop of `getline`, with the string so far.
unfoldable pub getline_from : List Getc → Bytes → Bytes → Outcome (IoResult Bytes × List Getc)
getline_from [] delim s = elim (ends_with s delim) [
  | true ↦ done (whole (take (length s - length delim) s), [])
  | false ↦ waits
]
getline_from (g ∷ gs) delim s = elim (ends_with s delim) [
  | true ↦ done (whole (take (length s - length delim) s), g ∷ gs)
  | false ↦ elim g [
    | byte ch ↦ getline_from gs delim (s ++ ch ∷ [])
    | again ev ↦ elim (has_bits ev epollerr_hup) [
      | true ↦ done (hung_up s, gs)
      | false ↦ getline_from gs delim s
    ]
    | end_of_file ↦ done (hung_up s, gs)
    | failed ↦ throws (syscall_error "read (getc)")
  ]
]

unfoldable pub getline : List Getc → Bytes → Outcome (IoResult Bytes × List Getc)
unfolding getline_from
getline gs delim = getline_from gs delim []

-- The loop of `read_buffer`, with the bytes of the buffer so far, of `n` more.
unfoldable pub read_from : List Getc → ℕ → Bytes → Outcome (IoResult Bytes × List Getc)
read_from gs zero buf = done (whole buf, gs)
read_from [] (suc n) buf = waits
read_from (byte ch ∷ gs) (suc n) buf = read_from gs n (buf ++ ch ∷ [])
read_from (again ev ∷ gs) (suc n) buf = elim (has_bits ev epollerr_hup) [
  | true ↦ done (hung_up buf, gs)
  | false ↦ read_from gs (suc n) buf
]
read_from (end_of_file ∷ gs) (suc n) buf = throws (syscall_error "read (getc)")
read_from (failed ∷ gs) (suc n) buf = throws (syscall_error "read (getc)")

-- `read_buffer`, with the bytes read for their number
unfoldable pub read_buffer : List Getc → ℕ → Outcome (IoResult Bytes × List Getc)
unfolding read_from
read_buffer gs n = read_from gs n []

-- The loop of `print`, with the number of bytes and the bytes that were taken so far. After a wait the
-- loop goes on with the next byte.
unfoldable pub print_from : Bytes → List Putc → ℕ → Bytes → Outcome (IoResult ℕ × Bytes × List Putc)
print_from [] ps len sent = done (whole len, sent, ps)
print_from (ch ∷ sv) [] len sent = waits
print_from (ch ∷ sv) (taken ∷ ps) len sent = print_from sv ps (len + 1) (sent ++ ch ∷ [])
print_from (ch ∷ sv) (again ev ∷ ps) len sent = elim (has_bits ev epollerr_hup) [
  | true ↦ done (hung_up len, sent, ps)
  | false ↦ print_from sv ps len sent
]
print_from (ch ∷ sv) (failed ∷ ps) len sent = throws (syscall_error "write (putc)")

unfoldable pub print : Bytes → List Putc → Outcome (IoResult ℕ × Bytes × List Putc)
unfolding print_from
print sv ps = print_from sv ps 0 []

-- `if (chunk < 65536) chunk *= 4`
abbrev pub next_chunk : ℕ → ℕ
next_chunk chunk = if ltb chunk 65536 then chunk * 4 else chunk

-- The loop of `read_string`, with the string so far; the fuel counts its rounds.
unfoldable pub read_chunks : ℕ → ℕ → Bytes → Input → Outcome (IoResult Bytes × Input)
read_chunks zero chunk s input = exhausted
read_chunks (suc fuel) chunk s input = do
  (res, input') ← read_file_best_effort chunk input
  elim (not (length res.result == chunk) || res.hup) [
    | true ↦ done (record { result = s ++ res.result; hup = res.hup }, input')
    | false ↦ read_chunks fuel (next_chunk chunk) (s ++ res.result) input'
  ]

-- `read_string`, with a round for each byte and one more.
unfoldable pub read_string : Input → Outcome (IoResult Bytes × Input)
unfolding read_chunks
read_string input = read_chunks (suc (in_kernel input)) 64 [] input
