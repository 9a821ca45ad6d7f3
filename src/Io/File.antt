-- ===== src/Io/File.antt =====
-- `read_file_best_effort` and `write_file_best_effort` of lib/include/epoll.hpp, and the `read` and
-- `write` of `AsyncFileBuffer` over them. The kernel is a list of wake-ups: each is the mask with
-- which `wait_file_event` resumes, and what the system call then does.
use Prim.Native.Nat.{bit_and}
use coroutine_http_server.Prelude.{
  ℕ, Bool, true, false, not, List, [], ◌∷◌, ◌==◌, if◌then◌else◌, Bytes, take, drop, ltb,
}
use coroutine_http_server.Prelude.Result.{eof_exception, syscall_error}
use coroutine_http_server.Io.Outcome.{Outcome, done, throws, waits, ◌>>=◌}

abbrev pub epollin : ℕ
epollin = 0x001

abbrev pub epollout : ℕ
epollout = 0x004

-- `EPOLLERR | EPOLLHUP`
abbrev pub epollerr_hup : ℕ
epollerr_hup = 0x018

abbrev pub eagain : ℕ
eagain = 11

abbrev pub econnreset : ℕ
econnreset = 104

-- `ev & bits`, as a condition
unfoldable pub has_bits : ℕ → ℕ → Bool
has_bits ev bits = not (bit_and ev bits == 0)

-- `IOResult`
pub record IoResult {ℓ} (T : Type ℓ) : Type ℓ where
  pub result : T
  pub hup : Bool

-- What `read` does: the bytes that the kernel has, or an `errno`.
pub data SysRead : Type 0 where
  ready : Bytes → SysRead
  failed : ℕ → SysRead

-- What `write` does: it takes at most so many bytes, or sets `errno`.
pub data SysWrite : Type 0 where
  takes : ℕ → SysWrite
  failed : ℕ → SysWrite

pub record Readable : Type 0 where
  pub mask : ℕ
  pub call : SysRead

pub record Writable : Type 0 where
  pub mask : ℕ
  pub call : SysWrite

abbrev pub Input : Type 0
Input = List Readable

abbrev pub Output : Type 0
Output = List Writable

-- The bytes that a read of at most `size` leaves in the kernel make the file readable again.
abbrev pub leave : ℕ → Bytes → Input → Input
leave mask [] input = input
leave mask (c ∷ xs) input = record { mask = mask; call = ready (c ∷ xs) } ∷ input

-- `read_file_sync`, with the bytes read for their number
unfoldable pub read_file_sync : ℕ → ℕ → SysRead → Input → Outcome (Bytes × Input)
read_file_sync size mask (ready xs) input = done (take size xs, leave mask (drop size xs) input)
read_file_sync size mask (failed err) input =
    if err == eagain then done ([], input) else throws (syscall_error "read")

unfoldable pub read_file_best_effort : ℕ → Input → Outcome (IoResult Bytes × Input)
unfolding read_file_sync
read_file_best_effort size [] = waits
read_file_best_effort size (w ∷ input) =
    if has_bits w.mask epollerr_hup
    then done (record { result = []; hup = true }, input)
    else if has_bits w.mask epollin
    then (do
      (xs, input') ← read_file_sync size w.mask w.call input
      done (record { result = xs; hup = false }, input'))
    else done (record { result = []; hup = true }, input)

-- `AsyncFileBuffer::read`
unfoldable pub read : ℕ → Input → Outcome (Bytes × Input)
unfolding read_file_best_effort
read size input = do (res, input') ← read_file_best_effort size input; done (res.result, input')

-- `write_file_sync`: how many of the `size` bytes the kernel takes
unfoldable pub write_file_sync : ℕ → SysWrite → Outcome ℕ
write_file_sync size (takes n) = done (if ltb n size then n else size)
write_file_sync size (failed err) =
    if err == eagain
    then done 0
    else if err == econnreset
    then throws (eof_exception "Write-end ECONNRESET\n")
    else throws (syscall_error "write")

-- One call of `write_file_best_effort`, at its wake-up.
unfoldable pub write_file_best_effort : ℕ → Writable → Outcome (IoResult ℕ)
unfolding write_file_sync
write_file_best_effort size w =
    if has_bits w.mask epollerr_hup
    then done (record { result = 0; hup = true })
    else if has_bits w.mask epollout
    then (do n ← write_file_sync size w.call; done (record { result = n; hup = false }))
    else done (record { result = 0; hup = true })

-- `AsyncFileBuffer::write`
unfoldable pub write : ℕ → Writable → Outcome ℕ
unfolding write_file_best_effort
write size w = do res ← write_file_best_effort size w; done res.result
