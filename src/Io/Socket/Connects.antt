-- ===== src/Io/Socket/Connects.antt =====
-- When `socket_connect` and `socket_accept` of lib/include/socket.hpp give a connection.
use coroutine_http_server.Prelude.{
  ℕ, false, Bool-cases, ◌≡◌, ◌≢◌, ◌↔◌, inl, inr, List, [], ◌∷◌, ◌==◌, arith,
}
use coroutine_http_server.Io.Outcome.{done}
use coroutine_http_server.Io.Socket.{
  Returned, value, failed, einprogress, begun, wait_file_event, checked, socket_connect,
  socket_accept,
}

-- `connect` has connected, or goes on.
abbrev pub HasBegun : Returned → Type 0
HasBegun (value n) = Unit
HasBegun (failed err) = err ≡ einprogress

refused :
    (err : ℕ) (masks later : List ℕ) (opt : Returned)
    → (err == einprogress) ≡ false
    → socket_connect (failed err) masks opt ≢ done later
unfolding socket_connect begun
refused err masks later opt other e = ground arith

value_iff :
    (n : ℕ) (masks later : List ℕ) (opt : Returned)
    → (socket_connect (value n) masks opt ≡ done later)
      ↔ (HasBegun (value n) × ((mask : ℕ) × (masks ≡ mask ∷ later)) × (opt ≡ value 0))
unfolding socket_connect begun wait_file_event checked
value_iff n [] later opt = ((λ e. cc), λ (_, (mask, same), _). cc)
value_iff n (mask ∷ masks) later (value p) =
    (λ e. (tt, (mask, ground arith), ground arith), λ (_, (mask', same), zero_lem). ground arith)
value_iff n (mask ∷ masks) later (failed err) = ((λ e. cc), λ (_, (mask', same), zero_lem). cc)

-- A socket is connected exactly when `connect` has begun, an event comes, and no error is pending.
pub socket_connect_iff :
    (connected : Returned) (masks later : List ℕ) (opt : Returned)
    → (socket_connect connected masks opt ≡ done later)
      ↔ (HasBegun connected × ((mask : ℕ) × (masks ≡ mask ∷ later)) × (opt ≡ value 0))
unfolding socket_connect begun wait_file_event checked
socket_connect_iff (value n) masks later opt = value_iff n masks later opt
socket_connect_iff (failed err) masks later opt = elim (Bool-cases (err == einprogress)) [
  | inl on ↦
      let (to, back) = value_iff 0 masks later opt in
      (
        λ e.
            let (_, came, none_pending) = to (rw (socket_connect, on) at e) in
            (ground arith, came, none_pending),
        λ (_, came, none_pending). rw (socket_connect, on) (back (tt, came, none_pending)),
      )
  | inr other ↦ ((λ e. absurd (refused err masks later opt other e)), λ (same, _, _). ground arith)
]

-- A connection is accepted exactly when an event comes and `accept4` gives its descriptor.
pub socket_accept_iff :
    (masks later : List ℕ) (accepted : Returned) (fd : ℕ)
    → (socket_accept masks accepted ≡ done (fd, later))
      ↔ (((mask : ℕ) × (masks ≡ mask ∷ later)) × (accepted ≡ value fd))
unfolding socket_accept wait_file_event checked
socket_accept_iff [] later accepted fd = ((λ e. cc), λ ((mask, same), _). cc)
socket_accept_iff (mask ∷ masks) later (value n) fd =
    (λ e. ((mask, ground arith), ground arith), λ ((mask', same), given). ground arith)
socket_accept_iff (mask ∷ masks) later (failed err) fd = ((λ e. cc), λ (_, given). cc)
