-- ===== src/Task/Frames/Owned.antt =====
-- Each frame of a coroutine has one owner, through any use of the tasks of lib/include/task.hpp.
use coroutine_http_server.Prelude.{
  ℕ, ◌+◌, ◌≤◌, Option, none, some, List, [], ◌∷◌, ◌≡◌, refl, ap, arith, Option-cases, inl, inr,
}
use coroutine_http_server.Prelude.Owned.{
  count, holds, put, count-put, total, get_elem?, set, remove, without, count-without, free_some,
  free_some_counts, total-set, total-remove, get_elem?-set,
}
use coroutine_http_server.Task.Frames.{
  Task, move, swap, destroy, release, destroy_previous, Object, task, previous, Program, Event,
  calls, calls_previous, moves, assigns, swaps, releases, destroys, runs_out, destroy_object,
  as_task, task_at, with_task, destroyed, assign, step, run,
}

-- The frames that an object will destroy, by address.
abbrev pub owns : Object → ℕ → ℕ
owns (task t) a = holds t.coro a
owns (previous t) a = holds (some t.coro) a

-- An address is that of one frame at most, and of one exactly if one object owns it or the program has
-- its handle.
abbrev pub OwnsFrames : Program → Type 0
OwnsFrames p =
    (a : ℕ)
    → (total owns p.objects a + count a p.released ≡ count a p.frames) × (count a p.frames ≤ 1)

-- The next state, in which each frame has one owner as well.
abbrev pub Keeps : Option Program → Type 0
Keeps m = (p' : Program) × (m ≡ some p') × OwnsFrames p'

task_of : (o : Option Object) (t : Task) → as_task o ≡ some t → o ≡ some (task t)
task_of none t e = cc
task_of (some (task u)) t e =
    ap (λ (m : Option Task). elim m [ none ↦ none | some v ↦ some (task v) ]) e
task_of (some (previous u)) t e = cc

-- What an object owned is given up, and the others own the rest.
destroyed-Keeps :
    (o : Option ℕ) (p : Program)
    → ((a : ℕ)
        → (total owns p.objects a + count a p.released + holds o a ≡ count a p.frames)
          × (count a p.frames ≤ 1))
    → Keeps (destroyed (free_some o p.frames) p)
unfolding destroyed
destroyed-Keeps o p v =
    let (frames, e, c) = free_some_counts o p.frames (λ a. omega (arith, v a)) in
    (record p { frames = frames }, rw (e, destroyed) refl, λ a. omega (arith, v a, c a))

destroy_object-holds :
    (o : Object) (frames : List ℕ)
    → (h : Option ℕ) × (destroy_object o frames ≡ free_some h frames)
      × ((a : ℕ) → owns o a ≡ holds h a)
unfolding destroy_object destroy destroy_previous free_some
destroy_object-holds (task t) frames = (t.coro, refl, λ a. refl)
destroy_object-holds (previous t) frames = (some t.coro, refl, λ a. refl)

assign-Keeps :
    (i j : ℕ) (t : Task) (p : Program)
    → OwnsFrames p
    → get_elem? p.objects j ≡ some (task t)
    → Keeps (assign i j t p)
unfolding assign move swap destroy
assign-Keeps i j t p v e =
    let moved = with_task j (move t).1 p in
    elim (Option-cases (task_at i moved)) [
      | inl away ↦ (p, rw (away, assign) refl, v)
      | inr (this, here) ↦
          let e' = task_of (get_elem? moved.objects i) this here in
          let (p', e'', v') =
            destroyed-Keeps this.coro (with_task i (swap this (move t).0).0 moved) (λ a. omega (
              arith,
              v a,
              total-set owns p.objects j (task t) (task (move t).1) a e,
              total-set owns moved.objects i (task this) (task (swap this (move t).0).0) a e',
            )) in
          (p', rw (here, assign) e'', v')
    ]

-- What the program and the language keep to: a new frame has an address of its own; only a coroutine
-- whose handle was released destroys its frame itself.
abbrev pub Allows : Event → Program → Type 0
Allows (calls frame) p = count frame p.frames ≡ 0
Allows (calls_previous frame) p = count frame p.frames ≡ 0
Allows (runs_out frame) p = 1 ≤ count frame p.released
Allows e p = Unit

step_swaps-Keeps : (i j : ℕ) (p : Program) → OwnsFrames p → Keeps (step (swaps i j) p)
unfolding step swap
step_swaps-Keeps i j p v = elim (Option-cases (task_at i p)) [
  | inl away ↦ (p, rw (away, step) refl, v)
  | inr (a, here) ↦ elim (Option-cases (task_at j p)) [
    | inl away ↦ (p, rw (here, away, step) refl, v)
    | inr (b, there) ↦
        let e = task_of (get_elem? p.objects i) a here in
        let e' = task_of (get_elem? p.objects j) b there in
        let e'' = get_elem?-set p.objects i j (task a) (task b) e e' in
        (
          with_task j (swap a b).1 (with_task i (swap a b).0 p),
          rw (here, there, step) refl,
          λ x. omega (
            arith,
            v x,
            total-set owns p.objects i (task a) (task b) x e,
            total-set owns (set p.objects i (task b)) j (task b) (task a) x e'',
          ),
        )
  ]
]

step-Keeps : (e : Event) (p : Program) → OwnsFrames p → Allows e p → Keeps (step e p)
unfolding step move release
step-Keeps (calls frame) p v h = (
  record p { objects = task (record { coro = some frame }) ∷ p.objects; frames = frame ∷ p.frames },
  refl,
  λ a. ground (arith, v a),
)
step-Keeps (calls_previous frame) p v h = (
  record p { objects = previous (record { coro = frame }) ∷ p.objects; frames = frame ∷ p.frames },
  refl,
  λ a. ground (arith, v a),
)
step-Keeps (moves i) p v h = elim (Option-cases (task_at i p)) [
  | inl away ↦ (p, rw (away, step) refl, v)
  | inr (t, here) ↦
      let e = task_of (get_elem? p.objects i) t here in
      (
        record p { objects = task (move t).0 ∷ set p.objects i (task (move t).1) },
        rw (here, step) refl,
        λ a. omega (arith, v a, total-set owns p.objects i (task t) (task (move t).1) a e),
      )
]
step-Keeps (assigns i j) p v h = elim (Option-cases (task_at j p)) [
  | inl away ↦ (p, rw (away, step) refl, v)
  | inr (t, here) ↦
      let (p', e, v') = assign-Keeps i j t p v (task_of (get_elem? p.objects j) t here) in
      (p', rw (here, step) e, v')
]
step-Keeps (swaps i j) p v h = step_swaps-Keeps i j p v
step-Keeps (releases i) p v h = elim (Option-cases (task_at i p)) [
  | inl away ↦ (p, rw (away, step) refl, v)
  | inr (t, here) ↦
      let e = task_of (get_elem? p.objects i) t here in
      (
        record p {
          objects = set p.objects i (task (release t).1);
          released = put (release t).0 p.released;
        },
        rw (here, step) refl,
        λ a. omega (
          arith,
          v a,
          total-set owns p.objects i (task t) (task (release t).1) a e,
          count-put (release t).0 p.released a,
        ),
      )
]
step-Keeps (destroys i) p v h = elim (Option-cases (get_elem? p.objects i)) [
  | inl away ↦ (p, rw (away, step) refl, v)
  | inr (o, here) ↦
      let (held, e, same) = destroy_object-holds o p.frames in
      let (p', e', v') =
        destroyed-Keeps held (record p { objects = remove p.objects i })
          (λ a. omega (arith, v a, same a, total-remove owns p.objects i o a here)) in
      (p', rw (here, step) (rw e e'), v')
]
step-Keeps (runs_out frame) p v h =
    destroyed-Keeps (some frame) (record p { released = without frame p.released })
      (λ a. omega (arith, v a, count-without frame a p.released h))

abbrev pub AllowsAll : List Event → Program → Type 0
AllowsAll [] p = Unit
AllowsAll (e ∷ es) p =
    Allows e p × (elim (step e p) [ none ↦ Unit {0} | some p' ↦ AllowsAll es p' ])

-- From a state in which each frame has one owner, the object that will destroy it or the program that
-- has its handle, any sequence of the events that are allowed has a next state: no frame is destroyed that
-- is not there, and each frame still has one owner. Events are allowed where a new frame has an address
-- of its own, and only a coroutine whose handle was released destroys its frame by running to its end.
pub run-OwnsFrames :
    (es : List Event) (p : Program) → OwnsFrames p → AllowsAll es p → Keeps (run es p)
unfolding run
run-OwnsFrames [] p v h = (p, refl, v)
run-OwnsFrames (e ∷ es) p v h =
    let (p', e', v') = step-Keeps e p v h.0 in
    let (q, e'', v'') = run-OwnsFrames es p' v' (rw e' at h.1) in (q, rw (e', run) e'', v'')
