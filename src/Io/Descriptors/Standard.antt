-- ===== src/Io/Descriptors/Standard.antt =====
-- The duplicates of the standard files in lib/include/aio.hpp, and the creation of sockets in
-- lib/include/socket.hpp. What a system call gives is an argument, `none` for -1; the outer `none` is the
-- end of the process.
use coroutine_http_server.Prelude.{
  ℕ, Bool, true, false, not, ◌||◌, Option, none, some, ◌∷◌, ◌==◌, if◌then◌else◌,
}
use coroutine_http_server.Prelude.Result.{Result, ok, throws, invalid_argument, syscall_error}
use coroutine_http_server.Io.Descriptors.{System}
use coroutine_http_server.Io.Descriptors.AsyncFile.{AsyncFile, async_file}
use coroutine_http_server.Io.Descriptors.FileDescriptor.{FileDescriptor, file_descriptor}

-- A system call has opened a descriptor.
abbrev pub with_opened : ℕ → System → System
with_opened fd s = record s { opened = fd ∷ s.opened }

-- `AsyncFile sock(CHECK_SYSCALL(call))`, and its return
unfoldable pub new_file : Option ℕ → System → Option (Result (AsyncFile × System))
unfolding async_file
new_file none s = some (throws (syscall_error ""))
new_file (some fd) s = elim (async_file fd true false (with_opened fd s)) [
  | none ↦ none
  | some (f, s') ↦ some (ok (f, s'))
]

unfoldable pub dup_std_file : ℕ → Option ℕ → System → Option (Result (AsyncFile × System))
unfolding new_file
dup_std_file fd dup s =
    if not (fd == 0 || (fd == 1 || fd == 2))
    then some
        (throws (invalid_argument "fd must be one of STDIN_FILENO, STDOUT_FILENO, STDERR_FILENO\n"))
    else new_file dup s

-- `c_lflag` of a terminal: `ICANON` and `ECHO`.
pub record Terminal : Type 0 where
  pub icanon : Bool
  pub echo : Bool

-- The flags that `tcsetattr` sets, or the old ones if it is not called. The terminal is none if
-- `isatty` says that the file is none.
unfoldable pub terminal_mode : Bool → Bool → Option Terminal → Option Terminal
terminal_mode cannon echo none = none
terminal_mode cannon echo (some tc) =
    if not cannon || not echo
    then some (record {
      icanon = if not cannon then false else tc.icanon;
      echo = if not echo then false else tc.echo;
    })
    else some tc

unfoldable pub dup_stdin :
    Bool
    → Bool
    → Option Terminal
    → Option ℕ
    → System
    → Option (Result (AsyncFile × Option Terminal × System))
unfolding dup_std_file terminal_mode
dup_stdin cannon echo tc dup s = elim (dup_std_file 0 dup s) [
  | none ↦ none
  | some (throws e) ↦ some (throws e)
  | some (ok (file, s')) ↦ some (ok (file, terminal_mode cannon echo tc, s'))
]

unfoldable pub dup_stdout : Option ℕ → System → Option (Result (AsyncFile × System))
unfolding dup_std_file
dup_stdout = dup_std_file 2

unfoldable pub dup_stderr : Option ℕ → System → Option (Result (AsyncFile × System))
unfolding dup_std_file
dup_stderr = dup_std_file 2

-- `create_udp_socket` and `create_tcp_socket`, with what `socket` gives.
unfoldable pub create_udp_socket : Option ℕ → System → Option (Result (AsyncFile × System))
unfolding new_file
create_udp_socket socket s = new_file socket s

unfoldable pub create_tcp_socket : Option ℕ → System → Option (Result (AsyncFile × System))
unfolding new_file
create_tcp_socket socket s = new_file socket s

-- `socket_accept_sync`, with what `accept4` gives.
unfoldable pub socket_accept_sync : Option ℕ → System → Result (FileDescriptor × System)
socket_accept_sync none s = throws (syscall_error "")
socket_accept_sync (some fd) s = ok (file_descriptor fd, with_opened fd s)
