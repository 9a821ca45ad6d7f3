-- ===== src/Io/Socket/Client.antt =====
-- `create_tcp_client` of lib/include/socket.hpp, with what `socket`, `connect` and `getsockopt` give, and
-- the masks with which `wait_file_event` resumes.
use coroutine_http_server.Prelude.Result.{syscall_error}
use coroutine_http_server.Prelude.{arith, [], false, ℕ, Option, none, some, List, ◌∷◌, ◌≡◌, refl}
use coroutine_http_server.Prelude.Result
use coroutine_http_server.Prelude.Owned.{free_some, occurs_head, free_head}
use coroutine_http_server.Io.Outcome.{
  Outcome, done, throws, waits, exhausted, IsFueled, >>=-IsFueled, done-IsFueled,
}
use coroutine_http_server.Io.Socket.{
  Returned, value, failed, begun, wait_file_event, checked, socket_connect,
}
use coroutine_http_server.Io.Descriptors.{System, close_some}
use coroutine_http_server.Io.Descriptors.AsyncFile.{
  AsyncFile, destroy, async_file, add_nonblock, set_nonblock,
}
use coroutine_http_server.Io.Descriptors.Standard.{create_tcp_socket, new_file, with_opened}

-- What becomes of the task, and the descriptors behind it. The socket is a variable of the coroutine, and
-- an exception destroys it.
unfoldable pub create_tcp_client :
    Option ℕ
    → Returned
    → List ℕ
    → Returned
    → System
    → Option (Outcome (AsyncFile × List ℕ) × System)
unfolding create_tcp_socket socket_connect destroy
create_tcp_client socket connected masks opt s = elim (create_tcp_socket socket s) [
  | none ↦ none
  | some (Result.throws e) ↦ some (throws e, s)
  | some (Result.ok (sock, s')) ↦ elim (socket_connect connected masks opt) [
    | done later ↦ some (done (sock, later), s')
    | waits ↦ some (waits, s')
    | exhausted ↦ some (exhausted, s')
    | throws e ↦ elim (destroy sock s') [ none ↦ none | some s'' ↦ some (throws e, s'') ]
  ]
]

-- What the end of the task says of the open descriptors: with a connection, the socket is one more and the
-- file owns it; with an exception, they are those before; while the task waits for good, the socket is one
-- more. It does not run out of fuel.
abbrev pub Leaves : System → Option ℕ → Outcome (AsyncFile × List ℕ) × System → Type 0
Leaves s socket (done (sock, later), s') =
    (fd : ℕ) × (socket ≡ some fd)
    × (sock ≡ record { fd = some fd; borrow = false })
    × (s'.opened ≡ fd ∷ s.opened)
Leaves s socket (throws e, s') = s'.opened ≡ s.opened
Leaves s socket (waits, s') = (fd : ℕ) × (socket ≡ some fd) × (s'.opened ≡ fd ∷ s.opened)
Leaves s socket (exhausted, s') = ⊥

-- The new socket and the descriptors with it, and its destruction.
abbrev new_socket : ℕ → AsyncFile
new_socket fd = record { fd = some fd; borrow = false }

create_tcp_socket-some :
    (fd : ℕ) (s : System)
    → create_tcp_socket (some fd) s
      ≡ some (Result.ok (new_socket fd, add_nonblock fd (with_opened fd s)))
unfolding create_tcp_socket new_file
create_tcp_socket-some fd s =
    rw (create_tcp_socket, new_file, async_file, set_nonblock, occurs_head fd s.opened) refl

destroy_socket :
    (fd : ℕ) (s : System)
    → destroy (new_socket fd) (add_nonblock fd (with_opened fd s))
      ≡ some (record (add_nonblock fd (with_opened fd s)) { opened = s.opened })
unfolding destroy close_some free_some
destroy_socket fd s = rw (destroy, close_some, free_some, free_head fd s.opened) refl

begun-IsFueled : (connected : Returned) → IsFueled (begun connected)
unfolding begun
begun-IsFueled (value n) = done-IsFueled n
begun-IsFueled (failed err) = ground arith

wait_file_event-IsFueled : (masks : List ℕ) → IsFueled (wait_file_event masks)
unfolding wait_file_event
wait_file_event-IsFueled [] = λ e. cc
wait_file_event-IsFueled (mask ∷ masks) = done-IsFueled (mask, masks)

checked-IsFueled : (returned : Returned) → IsFueled (checked returned)
unfolding checked
checked-IsFueled (value n) = done-IsFueled n
checked-IsFueled (failed err) = λ e. cc

socket_connect-IsFueled :
    (connected : Returned) (masks : List ℕ) (opt : Returned)
    → IsFueled (socket_connect connected masks opt)
unfolding socket_connect
socket_connect-IsFueled connected masks opt =
    >>=-IsFueled (begun connected) _ (begun-IsFueled connected) λ _ _.
      >>=-IsFueled (wait_file_event masks) _ (wait_file_event-IsFueled masks)
        λ _ _. >>=-IsFueled (checked opt) _ (checked-IsFueled opt) λ _ _. ground arith

-- No destructor ends the process, and the task ends with a connection or an exception, or waits for an
-- event that does not come. With a connection, the new socket is open besides the descriptors that were
-- open before, and the file owns it; with an exception, the open descriptors are those that were open
-- before; while the task waits, the new socket is open besides them.
pub create_tcp_client-Leaves :
    (socket : Option ℕ) (connected : Returned) (masks : List ℕ) (opt : Returned) (s : System)
    → (r : Outcome (AsyncFile × List ℕ) × System) × (create_tcp_client socket connected masks opt s
        ≡ some r)
      × Leaves s socket r
unfolding create_tcp_client create_tcp_socket new_file
create_tcp_client-Leaves none connected masks opt s = ((throws (syscall_error ""), s), refl, refl)
create_tcp_client-Leaves (some fd) connected masks opt s =
    ends (socket_connect connected masks opt) refl
  where
    s' : System
    s' = add_nonblock fd (with_opened fd s)

    ends :
        (o : Outcome (List ℕ))
        → socket_connect connected masks opt ≡ o
        → (r : Outcome (AsyncFile × List ℕ) × System) × (create_tcp_client
              (some fd)
              connected
              masks
              opt
              s
            ≡ some r)
          × Leaves s (some fd) r
    ends (done later) e = (
      (done (new_socket fd, later), s'),
      rw (create_tcp_client, create_tcp_socket-some fd s, e) refl,
      (fd, refl, refl, refl),
    )
    ends waits e =
        ((waits, s'), rw (create_tcp_client, create_tcp_socket-some fd s, e) refl, (fd, refl, refl))
    ends exhausted e = absurd (socket_connect-IsFueled connected masks opt e)
    ends (throws x) e = (
      (throws x, record s' { opened = s.opened }),
      rw (create_tcp_client, create_tcp_socket-some fd s, e, destroy_socket fd s) refl,
      refl,
    )
