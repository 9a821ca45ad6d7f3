-- ===== src/Tests/Connections.antt =====
-- Sockets, the loops that accept connections, and errors of system calls on concrete inputs.
use mathlib.Core.List.{Perm}
use coroutine_http_server.Prelude.{
  ℕ, Bool, true, false, none, some, List, [], ◌∷◌, ◌==◌, ◌≡◌, refl, arith, ltb, Bytes, codes,
}
use coroutine_http_server.Prelude.Owned.{free_some}
use coroutine_http_server.Prelude.Result.{Result, ok}
use coroutine_http_server.Prelude.Decimal.{negsuc}
use coroutine_http_server.Io.Outcome.{Outcome}
use coroutine_http_server.Io.Descriptors.{System, close_some}
use coroutine_http_server.Io.Descriptors.AsyncFile.{AsyncFile}
use coroutine_http_server.Io.Socket.{value, failed}
use coroutine_http_server.Io.Socket.Client.{create_tcp_client, Leaves, create_tcp_client-Leaves}
use coroutine_http_server.Io.Socket.Address.{
  ip_address, parsed, unparsed, unresolved, in_addr, htons,
}
use coroutine_http_server.Server.Listening.{
  listen_coro, listen_blocking, listen_failed, accept_loop, accept_loop_closes,
}
use coroutine_http_server.Server.Accepting.{
  accepting, accept_clients, accepted_clients, lasting, accept_clients-lasting,
}
use coroutine_http_server.Utility.Errors.{runtime_error, check_syscall}
use coroutine_http_server.Utility.TypeName.{type_name}

abbrev three_open : System
three_open = record { opened = 3 ∷ 1 ∷ 0 ∷ []; flags = λ fd. 0 }

-- The connection is refused.
create_tcp_client-Leaves_example :
    (r : Outcome (AsyncFile × List ℕ) × System) × (create_tcp_client
        (some 4)
        (failed 115)
        (4 ∷ [])
        (value 111)
        three_open
      ≡ some r)
    × Leaves three_open (some 4) r
create_tcp_client-Leaves_example =
    create_tcp_client-Leaves (some 4) (failed 115) (4 ∷ []) (value 111) three_open

listen_failing :
    (listen_coro 3 false three_open
      ≡ some (Result.throws listen_failed, record three_open { opened = 1 ∷ 0 ∷ [] }))
    × (listen_blocking 3 false three_open
        ≡ some (Result.throws listen_failed, record three_open { opened = 1 ∷ 0 ∷ [] }))
unfolding listen_coro listen_blocking close_some free_some
listen_failing = (refl, refl)

accept_loop_closes_example :
    (r : Result (Unit {0})) × (accept_loop
        ((some 4, true) ∷ (some 4, false) ∷ (none, true) ∷ [])
        three_open
      ≡ some (r, three_open))
accept_loop_closes_example =
    accept_loop_closes ((some 4, true) ∷ (some 4, false) ∷ (none, true) ∷ []) three_open

-- Tasks are their descriptors; the handlers of odd ones are done when the next client comes.
abbrev is_odd_done : ℕ → ℕ → Bool
is_odd_done n t = elim (t == 5) [ true ↦ ltb 1 n | false ↦ false ]

abbrev is_even : ℕ → Bool
is_even t = elim (t == 5) [ true ↦ false | false ↦ true ]

is_even-done : (n t : ℕ) → is_even t ≡ true → is_odd_done n t ≡ false
is_even-done n t e = ground arith

abbrev clients : List (ℕ × ℕ)
clients = (1, 4) ∷ (1, 5) ∷ (1, 6) ∷ []

accept_clients-lasting_example :
    (tasks' : List ℕ) × (accept_clients is_odd_done
        (λ fd. fd)
        0
        (accepted_clients is_odd_done (λ fd. fd) clients)
        []
      ≡ some (accepting tasks'))
    × Perm (lasting is_odd_done (λ fd. fd) is_even is_even-done tasks') (4 ∷ 6 ∷ [])
accept_clients-lasting_example =
    accept_clients-lasting is_odd_done (λ fd. fd) is_even is_even-done 0 clients []

abbrev always_eperm : ℕ → Bytes
always_eperm err = codes "EPERM"

check_syscall_text :
    check_syscall always_eperm
      (negsuc 0)
      1
      (codes "aio.hpp")
      46
      (some (codes "f()"))
      (codes "close(fd_)")
    ≡ runtime_error (codes "[1] EPERM\nline: aio.hpp:46\nfunc: f()\nnote: close(fd_)")
unfolding check_syscall
check_syscall_text = refl

localhost :
    ip_address (parsed (127 ∷ 0 ∷ 0 ∷ 1 ∷ [])) unparsed unresolved
    ≡ ok (in_addr (127 ∷ 0 ∷ 0 ∷ 1 ∷ []))
unfolding ip_address
localhost = refl

port_9000 : htons 9000 ≡ 0x23 ∷ 0x28 ∷ []
unfolding htons
port_9000 = refl

type_name_int :
    type_name (codes "constexpr auto coro::type_nam::type_name_array() [with T = int]")
    ≡ some (codes "int\n")
unfolding type_name
type_name_int = refl
