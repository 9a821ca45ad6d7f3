-- ===== src/Task/Frames.antt =====
-- `Task`, `ReturnPreviousTask` and `DetachedPromise` of lib/include/task.hpp: who destroys the frame of a
-- coroutine. A handle is the address of a frame, and `none` is the null handle. To destroy a frame that
-- is not there is undefined, and has the result `none`. The destruction of a frame destroys the tasks
-- among its variables as well; such destructions are events of their own here.
pub mod Owned
use coroutine_http_server.Prelude.{ℕ, Option, none, some, List, [], ◌∷◌}
use coroutine_http_server.Prelude.Owned.{put, get_elem?, set, remove, without, free, free_some}

pub record Task : Type 0 where
  pub coro : Option ℕ

-- `Task(Task &&other)`: the new task, and what is left of the other.
unfoldable pub move : Task → Task × Task
move other = (record { coro = other.coro }, record { coro = none })

-- `swap(a, b)`: both, behind it.
unfoldable pub swap : Task → Task → Task × Task
swap a b = (record { coro = b.coro }, record { coro = a.coro })

-- `~Task`, with the frames that there are.
unfoldable pub destroy : Task → List ℕ → Option (List ℕ)
unfolding free_some
destroy t frames = free_some t.coro frames

-- The handle that it gives out, and the task.
unfoldable pub release : Task → Option ℕ × Task
release t = (t.coro, record { coro = none })

-- `ReturnPreviousTask`, by its frame, and its destructor
pub record ReturnPreviousTask : Type 0 where
  pub coro : ℕ

unfoldable pub destroy_previous : ReturnPreviousTask → List ℕ → Option (List ℕ)
unfolding free
destroy_previous t frames = free t.coro frames

pub data Object : Type 0 where
  task : Task → Object
  previous : ReturnPreviousTask → Object

-- The objects that are alive, the handles that were released, and the frames that there are.
pub record Program : Type 0 where
  pub objects : List Object
  pub released : List ℕ
  pub frames : List ℕ

-- A call of a coroutine makes a frame, and the return object `Task` or `ReturnPreviousTask` of its
-- promise; a task is moved, assigned to another (by their places), swapped with another, releases its
-- handle, or is destroyed; a coroutine with a `DetachedPromise` runs to its end.
pub data Event : Type 0 where
  calls : ℕ → Event
  calls_previous : ℕ → Event
  moves : ℕ → Event
  assigns : ℕ → ℕ → Event
  swaps : ℕ → ℕ → Event
  releases : ℕ → Event
  destroys : ℕ → Event
  runs_out : ℕ → Event

unfoldable pub destroy_object : Object → List ℕ → Option (List ℕ)
unfolding destroy destroy_previous
destroy_object (task t) = destroy t
destroy_object (previous t) = destroy_previous t

-- The task at a place, if there is one.
abbrev pub as_task : Option Object → Option Task
as_task (some (task t)) = some t
as_task o = none

abbrev pub task_at : ℕ → Program → Option Task
task_at i p = as_task (get_elem? p.objects i)

abbrev pub with_task : ℕ → Task → Program → Program
with_task i t p = record p { objects = set p.objects i (task t) }

-- What is left behind a destruction.
unfoldable pub destroyed : Option (List ℕ) → Program → Option Program
destroyed none p = none
destroyed (some frames) p = some (record p { frames = frames })

-- `operator=(Task other)` of the task at `i`: the parameter, which is moved from the task at `j`, is
-- swapped with the one at `i` and destroyed.
unfoldable pub assign : ℕ → ℕ → Task → Program → Option Program
unfolding move swap destroy destroyed
assign i j t p =
    let moved = with_task j (move t).1 p in
    elim (task_at i moved) [
      | none ↦ some p
      | some this ↦
          let (this', other') = swap this (move t).0 in
          destroyed (destroy other' p.frames) (with_task i this' moved)
    ]

-- One event. Where there is no task or object at a place, nothing is done.
unfoldable pub step : Event → Program → Option Program
unfolding move swap release assign destroy_object destroyed free without
step (calls frame) p = some (record p {
  objects = task (record { coro = some frame }) ∷ p.objects;
  frames = frame ∷ p.frames;
})
step (calls_previous frame) p = some (record p {
  objects = previous (record { coro = frame }) ∷ p.objects;
  frames = frame ∷ p.frames;
})
step (moves i) p = elim (task_at i p) [
  | none ↦ some p
  | some t ↦ some (record p { objects = task (move t).0 ∷ set p.objects i (task (move t).1) })
]
step (assigns i j) p = elim (task_at j p) [ none ↦ some p | some t ↦ assign i j t p ]
step (swaps i j) p = elim (task_at i p) [
  | none ↦ some p
  | some a ↦ elim (task_at j p) [
    | none ↦ some p
    | some b ↦ some (with_task j (swap a b).1 (with_task i (swap a b).0 p))
  ]
]
step (releases i) p = elim (task_at i p) [
  | none ↦ some p
  | some t ↦ some (record p {
    objects = set p.objects i (task (release t).1);
    released = put (release t).0 p.released;
  })
]
step (destroys i) p = elim (get_elem? p.objects i) [
  | none ↦ some p
  | some o ↦ destroyed (destroy_object o p.frames) (record p { objects = remove p.objects i })
]
step (runs_out frame) p =
    destroyed (free frame p.frames) (record p { released = without frame p.released })

unfoldable pub run : List Event → Program → Option Program
unfolding step
run [] p = some p
run (e ∷ es) p = elim (step e p) [ none ↦ none | some p' ↦ run es p' ]
