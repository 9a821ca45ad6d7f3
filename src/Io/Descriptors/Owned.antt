-- ===== src/Io/Descriptors/Owned.antt =====
-- Each descriptor that is open has one owner, through any use of the classes of lib/include/aio.hpp.
use coroutine_http_server.Prelude.{
  ℕ, ◌+◌, ◌≤◌, Bool, true, false, Option, none, some, List, [], ◌∷◌, ◌≡◌, refl, sym, subst, ap,
  arith, if◌then◌else◌, Option-cases, inl, inr,
}
use coroutine_http_server.Prelude.Owned.{
  count, holds, put, count-put, total, get_elem?, set, remove, without, occurs_of_count,
  count-without, nil_of_count, total-set, total-remove,
}
use coroutine_http_server.Io.Descriptors.{System}
use coroutine_http_server.Io.Descriptors.AsyncFile
use coroutine_http_server.Io.Descriptors.AsyncFile.{
  AsyncFile, add_nonblock, set_nonblock, async_file,
}
use coroutine_http_server.Io.Descriptors.AsyncFileStream.{Built, built, threw, async_file_stream}
use coroutine_http_server.Io.Descriptors.FileDescriptor
use coroutine_http_server.Io.Descriptors.FileDescriptor.{FileDescriptor, file_descriptor}
use coroutine_http_server.Io.Descriptors.Session.{
  Object, file, stream, descriptor, file_stream_object, Program, Use, moves, releases, destroys,
  streams, Event, opens, wraps, borrows, adopts, uses, move, release, keep, open_stream, wrap_file,
  use_object, use_place, step, run,
}
use coroutine_http_server.Io.Descriptors.Owners.{
  owns_file, owns, OwnsDescriptors, TakesOver, Takes, destroy-Closes, move_empties, release_empties,
  async_file_stream-Takes, file_stream-Takes,
}

keep-OwnsDescriptors :
    {A : Type 0} (wrap : A → Object) (p : Program) (i : ℕ) (o o' : Object) (r : Built A)
    → OwnsDescriptors p
    → get_elem? p.objects i ≡ some o
    → ((a : ℕ) → owns o' a ≡ 0)
    → TakesOver wrap p.system (owns o) r
    → OwnsDescriptors (keep wrap (set p.objects i o') p.loose r)
unfolding keep
keep-OwnsDescriptors wrap p i o o' (built x s) v e left t =
    λ a. omega (arith, v a, total-set owns p.objects i o o' a e, left a, t a)
keep-OwnsDescriptors wrap p i o o' (threw s) v e left t =
    λ a. omega (arith, v a, total-set owns p.objects i o o' a e, left a, t a)

-- The next state, in which each descriptor has one owner as well.
abbrev pub Keeps : Option Program → Type 0
Keeps m = (p' : Program) × (m ≡ some p') × OwnsDescriptors p'

-- A stream is made only of a file that owns its descriptor.
abbrev pub Owning : Option Object → Type 0
Owning (some (file f)) = f.borrow ≡ false
Owning o = Unit

-- A file that owns its descriptor is one that does not borrow it.
owning_file-Takes :
    (f : AsyncFile) (ok : Bool) (s : System)
    → f.borrow ≡ false
    → ((a : ℕ) → owns_file f a ≤ count a s.opened)
    → Takes stream s (owns_file f) (async_file_stream f ok s)
owning_file-Takes f ok s own h =
    subst
      (λ (b : Bool).
        Takes stream s (owns_file (record { fd = f.fd; borrow = b }))
          (async_file_stream (record { fd = f.fd; borrow = b }) ok s))
      (sym own) (async_file_stream-Takes f.fd ok s (λ a. ground (arith, h a)))

open_stream-Keeps :
    (i : ℕ) (ok : Bool) (o : Object) (p : Program)
    → OwnsDescriptors p
    → get_elem? p.objects i ≡ some o
    → Owning (some o)
    → Keeps (open_stream i ok o p)
unfolding open_stream AsyncFile.move FileDescriptor.move
open_stream-Keeps i ok (file f) p v e own =
    let left : AsyncFile = record { fd = none; borrow = false } in
    let (r, e', t) =
      owning_file-Takes f ok p.system own
        (λ a. omega (arith, v a, total-remove owns p.objects i (file f) a e)) in
    (
      keep stream (set p.objects i (file left)) p.loose r,
      rw (e', open_stream) refl,
      keep-OwnsDescriptors stream p i (file f) (file left) r v e (λ a. refl) t,
    )
open_stream-Keeps i ok (descriptor f) p v e own =
    let left : FileDescriptor = record { fd = none } in
    let (r, e', t) =
      file_stream-Takes f.fd ok p.system
        (λ a. omega (arith, v a, total-remove owns p.objects i (descriptor f) a e)) in
    (
      keep file_stream_object (set p.objects i (descriptor left)) p.loose r,
      rw (e', open_stream) refl,
      keep-OwnsDescriptors file_stream_object p i (descriptor f) (descriptor left) r v e (λ a. refl)
          t,
    )
open_stream-Keeps i ok (stream f) p v e own = (p, refl, v)
open_stream-Keeps i ok (file_stream_object f) p v e own = (p, refl, v)

abbrev pub AllowsUse : Use → Option Object → Type 0
AllowsUse (streams ok) o = Owning o
AllowsUse u o = Unit

use_object-Keeps :
    (u : Use) (i : ℕ) (o : Object) (p : Program)
    → OwnsDescriptors p
    → get_elem? p.objects i ≡ some o
    → AllowsUse u (some o)
    → Keeps (use_object u i o p)
unfolding use_object
use_object-Keeps moves i o p v e h = (
  record p { objects = (move o).0 ∷ set p.objects i (move o).1 },
  refl,
  λ a. omega (arith, v a, total-set owns p.objects i o (move o).1 a e, move_empties o a),
)
use_object-Keeps releases i o p v e h = (
  record p { objects = set p.objects i (release o).1; loose = put (release o).0 p.loose },
  refl,
  λ a. omega (
    arith,
    v a,
    total-set owns p.objects i o (release o).1 a e,
    release_empties o a,
    count-put (release o).0 p.loose a,
  ),
)
use_object-Keeps destroys i o p v e h =
    let (s, e', c) =
      destroy-Closes o p.system (λ a. omega (arith, v a, total-remove owns p.objects i o a e)) in
    (
      record p { objects = remove p.objects i; system = s },
      rw (e', use_object) refl,
      λ a. omega (arith, v a, c a, total-remove owns p.objects i o a e),
    )
use_object-Keeps (streams ok) i o p v e h = open_stream-Keeps i ok o p v e h

async_file_opened :
    (fd : ℕ) (nonblock borrow : Bool) (s : System)
    → 1 ≤ count fd s.opened
    → (s' : System) × (async_file fd nonblock borrow s
        ≡ some (record { fd = some fd; borrow = borrow }, s'))
      × (s'.opened ≡ s.opened)
unfolding async_file set_nonblock
async_file_opened fd false borrow s h = (s, refl, refl)
async_file_opened fd true borrow s h =
    (add_nonblock fd s, rw (occurs_of_count fd s.opened h, async_file, set_nonblock) refl, refl)

wrap_file-Keeps :
    (fd : ℕ) (nonblock borrow : Bool) (loose : List ℕ) (p : Program)
    → OwnsDescriptors p
    → 1 ≤ count fd p.system.opened
    → ((a : ℕ) → count a loose + (if borrow then 0 else holds (some fd) a) ≡ count a p.loose)
    → Keeps (wrap_file fd nonblock borrow loose p)
unfolding wrap_file
wrap_file-Keeps fd nonblock borrow loose p v h c =
    let f : AsyncFile = record { fd = some fd; borrow = borrow } in
    let (s, e, same) = async_file_opened fd nonblock borrow p.system h in
    (
      record { objects = file f ∷ p.objects; loose = loose; system = s },
      rw (e, wrap_file) refl,
      λ a. rw same (omega (arith, v a, c a)),
    )

-- What the program and the kernel keep to: a descriptor that the kernel gives is not open; a number is
-- made an object only if it is one that the program has to close; a borrowed one is open.
abbrev pub Allows : Event → Program → Type 0
Allows (opens fd) p = count fd p.system.opened ≡ 0
Allows (wraps fd nonblock) p = 1 ≤ count fd p.loose
Allows (borrows fd nonblock) p = 1 ≤ count fd p.system.opened
Allows (adopts fd) p = 1 ≤ count fd p.loose
Allows (uses i u) p = AllowsUse u (get_elem? p.objects i)

step-Keeps : (e : Event) (p : Program) → OwnsDescriptors p → Allows e p → Keeps (step e p)
unfolding step use_place
step-Keeps (opens fd) p v h = (
  record p { loose = fd ∷ p.loose; system = record p.system { opened = fd ∷ p.system.opened } },
  refl,
  λ a. ground (arith, v a),
)
step-Keeps (wraps fd nonblock) p v h =
    wrap_file-Keeps fd nonblock false (without fd p.loose) p v (omega (arith, v fd))
      (λ a. count-without fd a p.loose h)
step-Keeps (borrows fd nonblock) p v h =
    wrap_file-Keeps fd nonblock true p.loose p v h (λ a. omega arith)
step-Keeps (adopts fd) p v h = (
  record p { objects = descriptor (file_descriptor fd) ∷ p.objects; loose = without fd p.loose },
  refl,
  λ a. omega (arith, v a, count-without fd a p.loose h),
)
step-Keeps (uses i u) p v h = elim (Option-cases (get_elem? p.objects i)) [
  | inl e ↦ (p, rw (e, step, use_place) refl, v)
  | inr (o, e) ↦
      let (p', e', v') = use_object-Keeps u i o p v e (rw e at h) in
      (p', rw (e, step, use_place) e', v')
]

abbrev pub AllowsAll : List Event → Program → Type 0
AllowsAll [] p = Unit
AllowsAll (e ∷ es) p =
    Allows e p × (elim (step e p) [ none ↦ Unit {0} | some p' ↦ AllowsAll es p' ])

-- From a state in which each open descriptor has one owner, the object that will close it or the program
-- that holds its number, any sequence of the events that are allowed has a next state: no destructor
-- closes a descriptor that is not open, and each open descriptor still has one owner. Events are
-- allowed where the kernel gives only descriptors that are not open, an object is made of a number only
-- if the program has to close that, a borrowed descriptor is open, and a stream is made only of a file
-- that does not borrow.
pub run-OwnsDescriptors :
    (es : List Event) (p : Program) → OwnsDescriptors p → AllowsAll es p → Keeps (run es p)
unfolding run
run-OwnsDescriptors [] p v h = (p, refl, v)
run-OwnsDescriptors (e ∷ es) p v h =
    let (p', e', v') = step-Keeps e p v h.0 in
    let (q, e'', v'') = run-OwnsDescriptors es p' v' (rw e' at h.1) in (q, rw (e', run) e'', v'')

all_closed :
    (p : Program) → OwnsDescriptors p → p.objects ≡ [] → p.loose ≡ [] → p.system.opened ≡ []
all_closed p v objects loose =
    nil_of_count p.system.opened
      λ a. omega (arith, v a, ap (λ os. total owns os a) objects, ap (count a) loose)

abbrev pub no_descriptors : Program
no_descriptors = record {
  objects = [];
  loose = [];
  system = record { opened = []; flags = λ fd. 0 };
}

-- A program that begins with no descriptors, and at whose end there are no objects and no numbers left
-- to close, has closed all that it opened.
pub run_closes_all :
    (es : List Event) (p : Program)
    → AllowsAll es no_descriptors
    → run es no_descriptors ≡ some p
    → p.objects ≡ []
    → p.loose ≡ []
    → p.system.opened ≡ []
run_closes_all es p h e objects loose =
    let (q, e', v) = run-OwnsDescriptors es no_descriptors (λ a. omega arith) h in
    let same : q ≡ p = cc in all_closed p (subst OwnsDescriptors same v) objects loose
