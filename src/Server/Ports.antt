-- ===== src/Server/Ports.antt =====
-- The search for a port in the `main` of example/server_epoll_coro.cpp and example/server_blocking.cpp.
-- What the system calls do at a port is a parameter.
pub mod Found
use coroutine_http_server.Prelude.{ℕ, zero, suc, ◌+◌, ◌%◌, ◌^◌, Bool, ltb, if◌then◌else◌}
use coroutine_http_server.Prelude.Result.{Exception, runtime_error, syscall_error}

-- `socket`, `bind` and, if that fails, `close`, in one round of the loop.
pub data Attempt : Type 0 where
  no_socket : Attempt
  binds : Attempt
  bind_fails : Attempt
  close_fails : Attempt

-- How the loop ends: a socket is bound to a port, or `main` returns 1, or it throws.
pub data Search : Type 0 where
  bound : ℕ → Search
  returned_1 : Search
  threw : Exception → Search
  unfinished : Search

abbrev pub min_port : ℕ
min_port = 9000

abbrev pub max_port : ℕ
max_port = min_port + 200

abbrev pub none_free : Exception
none_free = runtime_error "Failed to bind socket in port range "

module _ (attempt : ℕ → Attempt) where
  -- The loop from a port, which is a `std::uint16_t`; the fuel counts the rounds.
  unfoldable pub search_from : ℕ → ℕ → Search
  search_from zero port = unfinished
  search_from (suc fuel) port =
      let next = (port + 1) % 2 ^ 16 in
      let later = search_from fuel next in
      elim (attempt port) [
        | no_socket ↦ returned_1
        | binds ↦ bound port
        | close_fails ↦ threw (syscall_error "close(server_socket)")
        | bind_fails ↦ if ltb max_port next then threw none_free else later
      ]

  unfoldable pub search : Search
  unfolding search_from
  search = search_from 201 min_port
