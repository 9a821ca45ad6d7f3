-- ===== src/Server/Ports/Found.antt =====
-- The port that the search of example/server_epoll_coro.cpp and example/server_blocking.cpp ends with.
use coroutine_http_server.Prelude.{
  ℕ, zero, suc, ◌+◌, ◌≤◌, ◌<◌, ◌%◌, ◌≡◌, ◌⊎◌, inl, inr, refl, arith, ltb, ltb→lt, Bool-cases,
}
use coroutine_http_server.Prelude.Result.{syscall_error}
use coroutine_http_server.Server.Ports.{
  Attempt, no_socket, binds, bind_fails, close_fails, Search, bound, returned_1, threw, unfinished,
  max_port, min_port, none_free, search_from, search,
}

module _ (attempt : ℕ → Attempt) where
  -- Each port of a range, the last one left out, cannot be bound.
  abbrev pub AreTaken : ℕ → ℕ → Type 0
  AreTaken first last = (q : ℕ) → first ≤ q → q < last → attempt q ≡ bind_fails

  -- A port in the range at which the round goes so, when all ports before it are taken.
  abbrev pub FirstIs : ℕ → Attempt → ℕ → Type 0
  FirstIs first a p = (first ≤ p) × (p ≤ max_port) × (attempt p ≡ a) × AreTaken first p

  -- What the end of the loop says of the ports from the first.
  abbrev pub Says : ℕ → Search → Type 0
  Says first (bound p) = FirstIs first binds p
  Says first returned_1 = (p : ℕ) × FirstIs first no_socket p
  Says first (threw e) =
      ((e ≡ none_free) × AreTaken first (max_port + 1))
      ⊎ ((p : ℕ) × (e ≡ syscall_error "close(server_socket)") × FirstIs first close_fails p)
  Says first unfinished = ⊥

  AreTaken-extend :
      (first last : ℕ)
      → attempt first ≡ bind_fails
      → AreTaken (first + 1) last
      → AreTaken first last
  AreTaken-extend first last here later q low high = elim (Bool-cases (ltb first q)) [
    | inl lt ↦ later q (let h = ltb→lt first q lt in omega (arith, h)) high
    | inr le ↦ let same : q ≡ first = ground arith in rw same here
  ]

  FirstIs-extend :
      (first p : ℕ) (a : Attempt)
      → attempt first ≡ bind_fails
      → FirstIs (first + 1) a p
      → FirstIs first a p
  FirstIs-extend first p a here (low, high, is, taken) =
      (omega (arith, low), high, is, AreTaken-extend first p here taken)

  Says-extend :
      (first : ℕ) (r : Search) → attempt first ≡ bind_fails → Says (first + 1) r → Says first r
  Says-extend first (bound p) here h = FirstIs-extend first p binds here h
  Says-extend first returned_1 here (p, h) = (p, FirstIs-extend first p no_socket here h)
  Says-extend first (threw e) here (inl (same, taken)) =
      inl (same, AreTaken-extend first (max_port + 1) here taken)
  Says-extend first (threw e) here (inr (p, same, h)) =
      inr (p, same, FirstIs-extend first p close_fails here h)
  Says-extend first unfinished here h = elim h [ ]

  none_before : (port : ℕ) → AreTaken port port
  none_before port q low high = absurd (omega arith)

  search_from-Says :
      (fuel port : ℕ)
      → port ≤ max_port
      → max_port < port + fuel
      → Says port (search_from attempt fuel port)
  unfolding search_from
  search_from-Says zero port h enough = absurd (omega arith)
  search_from-Says (suc fuel) port h enough =
      round (attempt port) refl (search_from-Says fuel (port + 1))
    where
      round :
          (a : Attempt)
          → attempt port ≡ a
          → (port + 1 ≤ max_port
              → max_port < (port + 1) + fuel
              → Says (port + 1) (search_from attempt fuel (port + 1)))
          → Says port (search_from attempt (suc fuel) port)
      round no_socket e later = rw (search_from, e) (port, (omega arith, h, e, none_before port))
      round binds e later = rw (search_from, e) (omega arith, h, e, none_before port)
      round close_fails e later =
          rw (search_from, e) (inr (port, refl, (omega arith, h, e, none_before port)))
      round bind_fails e later =
          let next : (port + 1) % 65536 ≡ port + 1 = omega arith in
          elim (Bool-cases (ltb max_port (port + 1))) [
            | inl over ↦
                let last = ltb→lt max_port (port + 1) over in
                let all : AreTaken port (max_port + 1) =
                  AreTaken-extend port (max_port + 1) e
                    (λ q low high. absurd (omega (arith, last))) in
                rw (search_from, e, next, over) (inl (refl, all))
            | inr within ↦
                let left : port + 1 ≤ max_port = ground arith in
                rw (search_from, e, next, within)
                  (Says-extend port (search_from attempt fuel (port + 1)) e
                    (later left (omega arith)))
          ]

  -- For whatever the system calls do at each port, the search comes to an end. If it binds a port, then
  -- the port is one from 9000 to 9200, and no port before it could be bound; if it throws because no
  -- port is free, then no port of the range could be bound; any other end is due to a system call that
  -- fails at a port of the range, when no port before it could be bound.
  pub search-Says : Says min_port (search attempt)
  unfolding search
  search-Says = search_from-Says 201 min_port (omega arith) (omega arith)
