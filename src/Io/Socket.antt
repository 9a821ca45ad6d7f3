-- ===== src/Io/Socket.antt =====
-- `socket_connect` and `socket_accept` of lib/include/socket.hpp. What the system calls give,
-- and the masks with which `wait_file_event` resumes, are arguments.
pub mod Connects
pub mod Address
pub mod Client
use coroutine_http_server.Prelude.{
  ℕ, ◌/◌, ◌%◌, Bool, true, false, List, [], ◌∷◌, ◌==◌, if◌then◌else◌, Bytes,
}
use coroutine_http_server.Prelude.Result.{syscall_error}
use coroutine_http_server.Io.Outcome.{Outcome, done, throws, waits, ◌>>=◌}

-- A system call gives a value, or -1 and an `errno`.
pub data Returned : Type 0 where
  value : ℕ → Returned
  failed : ℕ → Returned

abbrev pub einprogress : ℕ
einprogress = 115

-- `CHECK_SYSCALL`
unfoldable pub checked : Returned → Outcome ℕ
checked (value n) = done n
checked (failed err) = throws (syscall_error "")

-- `wait_file_event`: the mask, and those that come later.
unfoldable pub wait_file_event : List ℕ → Outcome (ℕ × List ℕ)
wait_file_event [] = waits
wait_file_event (mask ∷ masks) = done (mask, masks)

-- What `connect` gives, when a connection that is in progress is none that failed.
unfoldable pub begun : Returned → Outcome ℕ
begun (value n) = done n
begun (failed err) = if err == einprogress then done 0 else throws (syscall_error "connect")

-- `socket_getopt`, with what `getsockopt` gives: the value of the option.
abbrev pub socket_getopt : Returned → Outcome ℕ
socket_getopt = checked

-- `socket_connect`, with what `connect` gives, the masks, and what `getsockopt` gives of the pending
-- error: the masks that come later.
unfoldable pub socket_connect : Returned → List ℕ → Returned → Outcome (List ℕ)
unfolding begun wait_file_event checked
socket_connect connected masks opt = do
  res ← begun connected
  (mask, later) ← wait_file_event masks
  pending_error ← socket_getopt opt
  (if pending_error == 0 then done later else throws (syscall_error "getsockopt SO_ERROR"))

-- `socket_accept`, with the masks and what `accept4` gives: the descriptor, and the masks that come
-- later.
unfoldable pub socket_accept : List ℕ → Returned → Outcome (ℕ × List ℕ)
unfolding wait_file_event checked
socket_accept masks accepted = do
  (mask, later) ← wait_file_event masks
  fd ← checked accepted
  done (fd, later)
