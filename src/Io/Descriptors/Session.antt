-- ===== src/Io/Descriptors/Session.antt =====
-- A program that uses the owners of descriptors of lib/include/aio.hpp: a sequence of system calls that
-- give descriptors, and of constructions, moves, releases and destructions of objects.
use coroutine_http_server.Prelude.{
  ℕ, Bool, true, false, Option, none, some, List, [], ◌∷◌, if◌then◌else◌,
}
use coroutine_http_server.Prelude.Owned.{put, get_elem?, set, remove, without}
use coroutine_http_server.Io.Descriptors.{System}
use coroutine_http_server.Io.Descriptors.AsyncFile
use coroutine_http_server.Io.Descriptors.AsyncFile.{AsyncFile, async_file}
use coroutine_http_server.Io.Descriptors.AsyncFileStream
use coroutine_http_server.Io.Descriptors.AsyncFileStream.{
  AsyncFileStream, Built, built, threw, async_file_stream,
}
use coroutine_http_server.Io.Descriptors.FileDescriptor
use coroutine_http_server.Io.Descriptors.FileDescriptor.{FileDescriptor, file_descriptor}
use coroutine_http_server.Io.Descriptors.FileStream
use coroutine_http_server.Io.Descriptors.FileStream.{FileStream, file_stream}

pub data Object : Type 0 where
  file : AsyncFile → Object
  stream : AsyncFileStream → Object
  descriptor : FileDescriptor → Object
  file_stream_object : FileStream → Object

-- The objects that are alive, the descriptors that the program holds as numbers and has to close or to
-- give to an object, and the open ones.
pub record Program : Type 0 where
  pub objects : List Object
  pub loose : List ℕ
  pub system : System

-- What is done to an object: it is moved from, releases its descriptor, is destroyed, or a stream is
-- made of `std::move` of it, where the Boolean says whether `fdopen` can open a descriptor.
pub data Use : Type 0 where
  moves : Use
  releases : Use
  destroys : Use
  streams : Bool → Use

-- `socket`, `accept4` or `dup` gives a descriptor; `AsyncFile(fd, nonblock)`,
-- `AsyncFile(fd, nonblock, true)` and `FileDescriptor(fd)`; and the use of the object at a place.
pub data Event : Type 0 where
  opens : ℕ → Event
  wraps : ℕ → Bool → Event
  borrows : ℕ → Bool → Event
  adopts : ℕ → Event
  uses : ℕ → Use → Event

-- The move constructors: the new object, and what is left of the other.
unfoldable pub move : Object → Object × Object
unfolding AsyncFile.move AsyncFileStream.move FileDescriptor.move FileStream.move
move (file f) = (file (AsyncFile.move f).0, file (AsyncFile.move f).1)
move (stream f) = (stream (AsyncFileStream.move f).0, stream (AsyncFileStream.move f).1)
move (descriptor f) = (descriptor (FileDescriptor.move f).0, descriptor (FileDescriptor.move f).1)
move (file_stream_object f) =
    (file_stream_object (FileStream.move f).0, file_stream_object (FileStream.move f).1)

-- The destructors.
unfoldable pub destroy : Object → System → Option System
unfolding AsyncFile.destroy AsyncFileStream.destroy FileDescriptor.destroy FileStream.destroy
destroy (file f) = AsyncFile.destroy f
destroy (stream f) = AsyncFileStream.destroy f
destroy (descriptor f) = FileDescriptor.destroy f
destroy (file_stream_object f) = FileStream.destroy f

-- The descriptor that the program gets, if it comes from an owner; and the object.
unfoldable pub release : Object → Option ℕ × Object
unfolding AsyncFile.release FileDescriptor.release
release (file f) =
    (if f.borrow then none else (AsyncFile.release f).0, file (AsyncFile.release f).1)
release (descriptor f) = ((FileDescriptor.release f).0, descriptor (FileDescriptor.release f).1)
release o = (none, o)

-- A new object, if the constructor does not throw.
unfoldable pub keep : {A : Type 0} → (A → Object) → List Object → List ℕ → Built A → Program
keep wrap objects loose (built a s) = record {
  objects = wrap a ∷ objects;
  loose = loose;
  system = s;
}
keep wrap objects loose (threw s) = record { objects = objects; loose = loose; system = s }

-- The stream of a file in the list.
unfoldable pub open_stream : ℕ → Bool → Object → Program → Option Program
unfolding AsyncFile.move FileDescriptor.move async_file_stream file_stream keep
open_stream i ok (file f) p =
    let (param, f') = AsyncFile.move f in
    elim (async_file_stream param ok p.system) [
      | none ↦ none
      | some result ↦ some (keep stream (set p.objects i (file f')) p.loose result)
    ]
open_stream i ok (descriptor f) p =
    let (param, f') = FileDescriptor.move f in
    elim (file_stream param ok p.system) [
      | none ↦ none
      | some result ↦
          some (keep file_stream_object (set p.objects i (descriptor f')) p.loose result)
    ]
open_stream i ok o p = some p

-- An `AsyncFile` on a number.
unfoldable pub wrap_file : ℕ → Bool → Bool → List ℕ → Program → Option Program
unfolding async_file
wrap_file fd nonblock borrow loose p = elim (async_file fd nonblock borrow p.system) [
  | none ↦ none
  | some (f, s) ↦ some (record { objects = file f ∷ p.objects; loose = loose; system = s })
]

-- The use of the object at a place.
unfoldable pub use_object : Use → ℕ → Object → Program → Option Program
unfolding move release destroy open_stream
use_object moves i o p = some (record p { objects = (move o).0 ∷ set p.objects i (move o).1 })
use_object releases i o p =
    some (record p { objects = set p.objects i (release o).1; loose = put (release o).0 p.loose })
use_object destroys i o p = elim (destroy o p.system) [
  | none ↦ none
  | some s ↦ some (record p { objects = remove p.objects i; system = s })
]
use_object (streams ok) i o p = open_stream i ok o p

-- Where there is no object, nothing is done.
unfoldable pub use_place : Use → ℕ → Program → Option Program
unfolding use_object
use_place u i p = elim (get_elem? p.objects i) [ none ↦ some p | some o ↦ use_object u i o p ]

-- One event; `none` if the process ends by an exception.
unfoldable pub step : Event → Program → Option Program
unfolding wrap_file use_place without
step (opens fd) p =
    some (record p {
      loose = fd ∷ p.loose;
      system = record p.system { opened = fd ∷ p.system.opened };
    })
step (wraps fd nonblock) p = wrap_file fd nonblock false (without fd p.loose) p
step (borrows fd nonblock) p = wrap_file fd nonblock true p.loose p
step (adopts fd) p =
    some (record p {
      objects = descriptor (file_descriptor fd) ∷ p.objects;
      loose = without fd p.loose;
    })
step (uses i u) p = use_place u i p

unfoldable pub run : List Event → Program → Option Program
unfolding step
run [] p = some p
run (e ∷ es) p = elim (step e p) [ none ↦ none | some p' ↦ run es p' ]
