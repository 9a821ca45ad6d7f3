-- ===== src/Http/Router/Keys.antt =====
-- The keys of the exact routes, which `route` of lib/include/http.hpp builds.
use coroutine_http_server.Prelude.{ℕ, false, ◌&&◌, [], ◌∷◌, ◌++◌, ◌≡◌, refl, arith, Bytes, ◌==◌}
use coroutine_http_server.Http.Router.{squeeze}

-- No slash stands behind a slash, nor at the front if the byte before is one.
abbrev pub IsSqueezed : ℕ → Bytes → Type 0
IsSqueezed last [] = Unit
IsSqueezed last (c ∷ s) = ((last == b'/' && c == b'/') ≡ false) × IsSqueezed c s

pub squeeze-IsSqueezed : (last : ℕ) (s : Bytes) → IsSqueezed last (squeeze last s)
unfolding squeeze
squeeze-IsSqueezed last [] = tt
squeeze-IsSqueezed last (c ∷ s) = ground (arith, squeeze-IsSqueezed last s, squeeze-IsSqueezed c s)

pub squeeze_of_IsSqueezed : (last : ℕ) (s : Bytes) → IsSqueezed last s → squeeze last s ≡ s
unfolding squeeze
squeeze_of_IsSqueezed last [] h = refl
squeeze_of_IsSqueezed last (c ∷ s) h = ground (arith, squeeze_of_IsSqueezed c s)

pub IsSqueezed-append : (last : ℕ) (s t : Bytes) → IsSqueezed last (s ++ t) → IsSqueezed last s
IsSqueezed-append last [] t h = tt
IsSqueezed-append last (c ∷ s) t h = (h.0, IsSqueezed-append c s t h.1)
