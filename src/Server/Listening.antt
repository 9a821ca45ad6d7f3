-- ===== src/Server/Listening.antt =====
-- The sockets of example/server_blocking.cpp and example/server_epoll_coro.cpp from `listen` on: who
-- closes them. What `listen` and `accept4` give, and whether `fdopen` can open a socket, is given; `none`
-- is the end of the process by an exception that leaves a destructor.
use coroutine_http_server.Prelude.{
  ℕ, Bool, true, false, Option, none, some, List, [], ◌∷◌, ◌≡◌, refl,
}
use coroutine_http_server.Prelude.Owned.{free_some, free_head}
use coroutine_http_server.Prelude.Result.{Exception, Result, ok, throws, syscall_error}
use coroutine_http_server.Io.Descriptors.{System, close_some}
use coroutine_http_server.Io.Descriptors.AsyncFile.{AsyncFile, async_file}
use coroutine_http_server.Io.Descriptors.AsyncFileStream.{built, threw}
use coroutine_http_server.Io.Descriptors.FileDescriptor
use coroutine_http_server.Io.Descriptors.FileDescriptor.{FileDescriptor, file_descriptor}
use coroutine_http_server.Io.Descriptors.FileStream
use coroutine_http_server.Io.Descriptors.FileStream.{file_stream}
use coroutine_http_server.Io.Descriptors.Standard.{socket_accept_sync, with_opened}

abbrev pub listen_failed : Exception
listen_failed = syscall_error "Failed to listen on socket"

-- The server with coroutines: the file is made behind `listen`.
unfoldable pub listen_coro : ℕ → Bool → System → Option (Result AsyncFile × System)
unfolding close_some async_file
listen_coro server_socket true s = elim (async_file server_socket true false s) [
  | none ↦ none
  | some (server_sock, s') ↦ some (ok server_sock, s')
]
listen_coro server_socket false s = elim (close_some (some server_socket) s) [
  | none ↦ none
  | some s' ↦ some (throws listen_failed, s')
]

-- The blocking server: the guard of the socket is made in front of `listen`. No handler is there for the
-- exception, and the guard is taken to stay as it is: whether the stack is unwound then is left to the
-- implementation.
unfoldable pub listen_blocking : ℕ → Bool → System → Option (Result FileDescriptor × System)
unfolding close_some
listen_blocking server_socket true s = some (ok (file_descriptor server_socket), s)
listen_blocking server_socket false s = elim (close_some (some server_socket) s) [
  | none ↦ none
  | some s' ↦ some (throws listen_failed, s')
]

-- The socket of a client in the blocking `handle_request`: the stream is destroyed at the end of the
-- `try` block, and the parameter at the end of the function.
unfoldable pub client_done : Bool → FileDescriptor → System → Option System
unfolding FileDescriptor.move FileDescriptor.destroy FileStream.destroy file_stream
client_done opens client_sock s =
    let (moved, client_sock') = FileDescriptor.move client_sock in
    elim (file_stream moved opens s) [
      | none ↦ none
      | some (threw s') ↦ FileDescriptor.destroy client_sock' s'
      | some (built sock s') ↦ elim (FileStream.destroy sock s') [
        | none ↦ none
        | some s'' ↦ FileDescriptor.destroy client_sock' s''
      ]
    ]

-- The loop of the blocking server, with what `accept4` gives and whether `fdopen` can open it: the loop
-- waits for the next client, or `accept4` fails.
unfoldable pub accept_loop : List (Option ℕ × Bool) → System → Option (Result (Unit {0}) × System)
unfolding client_done socket_accept_sync
accept_loop [] s = some (ok tt, s)
accept_loop ((accepted, opens) ∷ rest) s = elim (socket_accept_sync accepted s) [
  | throws e ↦ some (throws e, s)
  | ok (client_sock, s') ↦ elim (client_done opens client_sock s') [
    | none ↦ none
    | some s'' ↦ accept_loop rest s''
  ]
]

client_done-opened :
    (opens : Bool) (fd : ℕ) (s : System)
    → client_done opens (file_descriptor fd) (with_opened fd s) ≡ some s
unfolding client_done file_stream close_some free_some FileDescriptor.move FileDescriptor.destroy
    FileStream.destroy
client_done-opened true fd s = rw (client_done, free_some, free_head fd s.opened) refl
client_done-opened false fd s = rw (client_done, file_stream, free_some, free_head fd s.opened) refl

-- After any number of clients, whether or not their sockets could be made streams, the open descriptors
-- are those from before: none was closed that was not open, and none of a client was left open.
pub accept_loop_closes :
    (clients : List (Option ℕ × Bool)) (s : System)
    → (r : Result (Unit {0})) × (accept_loop clients s ≡ some (r, s))
unfolding accept_loop socket_accept_sync
accept_loop_closes [] s = (ok tt, refl)
accept_loop_closes ((none, opens) ∷ rest) s = (throws (syscall_error ""), refl)
accept_loop_closes ((some fd, opens) ∷ rest) s =
    let (r, e) = accept_loop_closes rest s in (r, rw (client_done-opened opens fd s, accept_loop) e)
