-- ===== src/Io/Descriptors/Owners.antt =====
-- Which descriptors the objects of lib/include/aio.hpp own, and what their constructors and destructors
-- do to those that are open.
use coroutine_http_server.Prelude.{
  ℕ, ◌+◌, ◌≤◌, Bool, true, false, Option, none, some, ◌≡◌, refl, arith, if◌then◌else◌,
}
use coroutine_http_server.Prelude.Owned.{count, holds, total, free_some_counts}
use coroutine_http_server.Io.Descriptors.{System, close_some}
use coroutine_http_server.Io.Descriptors.AsyncFile
use coroutine_http_server.Io.Descriptors.AsyncFile.{
  AsyncFile, add_nonblock, set_nonblock, async_file,
}
use coroutine_http_server.Io.Descriptors.AsyncFileStream
use coroutine_http_server.Io.Descriptors.AsyncFileStream.{
  AsyncFileStream, Built, built, threw, fdopen, async_file_stream,
}
use coroutine_http_server.Io.Descriptors.FileDescriptor
use coroutine_http_server.Io.Descriptors.FileDescriptor.{FileDescriptor, file_descriptor}
use coroutine_http_server.Io.Descriptors.FileStream
use coroutine_http_server.Io.Descriptors.FileStream.{FileStream, file_stream}
use coroutine_http_server.Io.Descriptors.Session.{
  Object, file, stream, descriptor, file_stream_object, Program, move, destroy, release,
}

-- The descriptors that an object will close, by number.
abbrev pub owns_file : AsyncFile → ℕ → ℕ
owns_file f a = if f.borrow then 0 else holds f.fd a

abbrev pub owns : Object → ℕ → ℕ
owns (file f) a = owns_file f a
owns (stream f) a = owns_file f.af a + holds f.handle a
owns (descriptor f) a = holds f.fd a
owns (file_stream_object f) a = holds f.stream a

-- A descriptor is open once at most, and is open exactly if one object owns it or the program holds it.
abbrev pub OwnsDescriptors : Program → Type 0
OwnsDescriptors p =
    (a : ℕ)
    → (total owns p.objects a + count a p.loose ≡ count a p.system.opened)
      × (count a p.system.opened ≤ 1)

-- The result is a state in which these descriptors are closed, and no others.
abbrev pub Closes : System → (ℕ → ℕ) → Option System → Type 0
Closes s closed m =
    (s' : System) × (m ≡ some s') × ((a : ℕ) → count a s'.opened + closed a ≡ count a s.opened)

close_some-Closes :
    (o : Option ℕ) (s : System)
    → ((a : ℕ) → holds o a ≤ count a s.opened)
    → Closes s (holds o) (close_some o s)
unfolding close_some
close_some-Closes o s h =
    let (opened, e, c) = free_some_counts o s.opened h in
    (record s { opened = opened }, rw (e, close_some) refl, c)

destroy_file-Closes :
    (f : AsyncFile) (s : System)
    → ((a : ℕ) → owns_file f a ≤ count a s.opened)
    → Closes s (owns_file f) (AsyncFile.destroy f s)
unfolding AsyncFile.destroy
destroy_file-Closes f s h = owner f.borrow f.fd h
  where
    owner :
        (borrow : Bool) (fd : Option ℕ)
        → ((a : ℕ) → owns_file (record { fd = fd; borrow = borrow }) a ≤ count a s.opened)
        → Closes s
            (owns_file (record { fd = fd; borrow = borrow }))
            (AsyncFile.destroy (record { fd = fd; borrow = borrow }) s)
    owner true fd k = (s, refl, λ a. omega arith)
    owner false fd k = close_some-Closes fd s k

pub destroy-Closes :
    (o : Object) (s : System)
    → ((a : ℕ) → owns o a ≤ count a s.opened)
    → Closes s (owns o) (destroy o s)
unfolding destroy AsyncFileStream.destroy FileDescriptor.destroy FileStream.destroy
destroy-Closes (file f) s h = destroy_file-Closes f s h
destroy-Closes (stream f) s h =
    let (s', e, c) = close_some-Closes f.handle s (λ a. omega (arith, h a)) in
    let (s'', e', c') = destroy_file-Closes f.af s' (λ a. omega (arith, h a, c a)) in
    (s'', rw (e, AsyncFileStream.destroy) e', λ a. omega (arith, c a, c' a))
destroy-Closes (descriptor f) s h = close_some-Closes f.fd s h
destroy-Closes (file_stream_object f) s h = close_some-Closes f.stream s h

pub move_empties : (o : Object) (a : ℕ) → (owns (move o).0 a ≡ owns o a) × (owns (move o).1 a ≡ 0)
unfolding move AsyncFile.move AsyncFileStream.move FileDescriptor.move FileStream.move
move_empties (file f) a = (refl, refl)
move_empties (stream f) a = (refl, refl)
move_empties (descriptor f) a = (refl, refl)
move_empties (file_stream_object f) a = (refl, refl)

pub release_empties : (o : Object) (a : ℕ) → owns (release o).1 a + holds (release o).0 a ≡ owns o a
unfolding release AsyncFile.release FileDescriptor.release
release_empties (file f) a = ground arith
release_empties (stream f) a = omega arith
release_empties (descriptor f) a = omega arith
release_empties (file_stream_object f) a = omega arith

-- A constructor takes over what an object owned, or closes it and throws.
abbrev pub TakesOver : {A : Type 0} → (A → Object) → System → (ℕ → ℕ) → Built A → Type 0
TakesOver wrap s before (built x s') =
    (a : ℕ)
    → (count a s'.opened + before a ≡ count a s.opened + owns (wrap x) a)
      × (owns (wrap x) a ≤ before a)
TakesOver wrap s before (threw s') = (a : ℕ) → count a s'.opened + before a ≡ count a s.opened

abbrev pub Takes : {A : Type 0} → (A → Object) → System → (ℕ → ℕ) → Option (Built A) → Type 0
Takes {A} wrap s before m = (r : Built A) × (m ≡ some r) × TakesOver wrap s before r

pub async_file_stream-Takes :
    (fd : Option ℕ) (ok : Bool) (s : System)
    → ((a : ℕ) → holds fd a ≤ count a s.opened)
    → Takes stream s (holds fd) (async_file_stream (record { fd = fd; borrow = false }) ok s)
unfolding async_file_stream AsyncFile.move AsyncFile.destroy close_some
async_file_stream-Takes none true s h = (threw s, refl, λ a. omega arith)
async_file_stream-Takes none false s h = (threw s, refl, λ a. omega arith)
async_file_stream-Takes (some fd) true s h = (built _ s, refl, λ a. omega arith)
async_file_stream-Takes (some fd) false s h =
    let (s', e, c) = close_some-Closes (some fd) s h in
    (threw s', rw (e, async_file_stream) refl, c)

pub file_stream-Takes :
    (fd : Option ℕ) (ok : Bool) (s : System)
    → ((a : ℕ) → holds fd a ≤ count a s.opened)
    → Takes file_stream_object s (holds fd) (file_stream (record { fd = fd }) ok s)
unfolding file_stream FileDescriptor.destroy close_some
file_stream-Takes none true s h = (threw s, refl, λ a. omega arith)
file_stream-Takes none false s h = (threw s, refl, λ a. omega arith)
file_stream-Takes (some fd) true s h = (built _ s, refl, λ a. omega arith)
file_stream-Takes (some fd) false s h =
    let (s', e, c) = close_some-Closes (some fd) s h in (threw s', rw (e, file_stream) refl, c)
