-- ===== src/Tests/Ownership.antt =====
-- The owners of descriptors and of frames on concrete inputs.
use coroutine_http_server.Prelude.{true, false, none, some, List, [], ◌∷◌, ◌≡◌, refl, arith}
use coroutine_http_server.Prelude.Result.{throws, invalid_argument}
use coroutine_http_server.Io.Descriptors.AsyncFile.{add_nonblock}
use coroutine_http_server.Io.Descriptors.Session
use coroutine_http_server.Io.Descriptors.Session.{opens, wraps, borrows, adopts, uses, Use}
use coroutine_http_server.Io.Descriptors.Owned.{no_descriptors, run-OwnsDescriptors, Keeps}
use coroutine_http_server.Io.Descriptors.Standard.{dup_std_file, dup_stdout}
use coroutine_http_server.Task.Frames
use coroutine_http_server.Task.Frames.{
  calls, calls_previous, moves, assigns, swaps, releases, destroys, runs_out,
}
use coroutine_http_server.Task.Frames.Owned
use coroutine_http_server.Task.Frames.Owned.{run-OwnsFrames}

-- A file is made of a descriptor, moved, made a stream and destroyed; the file that it was moved from is
-- destroyed, too.
abbrev one_stream : List Session.Event
one_stream =
    opens 5
    ∷ wraps 5 true
    ∷ opens 6
    ∷ adopts 6
    ∷ uses 1 Use.moves
    ∷ uses 0 (Use.streams true)
    ∷ uses 0 Use.destroys
    ∷ uses 0 Use.destroys
    ∷ uses 1 Use.destroys
    ∷ uses 0 Use.destroys
    ∷ []

abbrev left_nonblocking : Session.Program
left_nonblocking = record no_descriptors { system = add_nonblock 5 no_descriptors.system }

one_stream_runs : Session.run one_stream no_descriptors ≡ some left_nonblocking
unfolding Session.run
one_stream_runs = refl

-- A file that is made of a descriptor that is not open ends the process.
not_open : Session.run (wraps 5 true ∷ []) no_descriptors ≡ none
unfolding Session.run
not_open = refl

-- Two files of one descriptor close it twice.
two_owners :
    Session.run
      (opens 5 ∷ wraps 5 false ∷ wraps 5 false ∷ uses 0 Use.destroys ∷ uses 0 Use.destroys ∷ [])
      no_descriptors
    ≡ none
unfolding Session.run
two_owners = refl

run-OwnsDescriptors_example : Keeps (Session.run one_stream no_descriptors)
unfolding Session.step
run-OwnsDescriptors_example =
    run-OwnsDescriptors one_stream no_descriptors (λ a. omega arith) (ground arith)

-- A task is called for, moved into a variable, assigned to, and destroyed; another runs out.
abbrev one_task : List Frames.Event
one_task =
    calls 16
    ∷ moves 0
    ∷ calls 32
    ∷ assigns 1 0
    ∷ calls_previous 16
    ∷ swaps 2 3
    ∷ releases 3
    ∷ destroys 0
    ∷ runs_out 32
    ∷ []

abbrev no_frames : Frames.Program
no_frames = record { objects = []; released = []; frames = [] }

abbrev empty_tasks : Frames.Program
empty_tasks =
    let t : Frames.Object = Frames.task (record { coro = none }) in
    record no_frames { objects = t ∷ t ∷ t ∷ [] }

one_task_runs : Frames.run one_task no_frames ≡ some empty_tasks
unfolding Frames.run
one_task_runs = refl

run-OwnsFrames_example : Frames.Owned.Keeps (Frames.run one_task no_frames)
unfolding Frames.step
run-OwnsFrames_example = run-OwnsFrames one_task no_frames (λ a. omega arith) (ground arith)

dup_stdout_stderr :
    dup_stdout (some 7) no_descriptors.system ≡ dup_std_file 2 (some 7) no_descriptors.system
unfolding dup_stdout
dup_stdout_stderr = refl

dup_other :
    dup_std_file 3 (some 7) no_descriptors.system
    ≡ some
        (throws (invalid_argument "fd must be one of STDIN_FILENO, STDOUT_FILENO, STDERR_FILENO\n"))
unfolding dup_std_file
dup_other = refl
