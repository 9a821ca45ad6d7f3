-- ===== src/Io/Outcome.antt =====
-- What becomes of a coroutine that does input or output: it ends with a value or an exception, or it
-- stays suspended, since no event comes. A loop on fuel may also use that up.
use mathlib.Core.Path.{◌≡◌, refl}
use mathlib.Core.Logic.{◌≢◌}
use coroutine_http_server.Prelude.Result.{Exception}

pub data Outcome {ℓ} (A : Type ℓ) : Type ℓ where
  done : A → Outcome A
  throws : Exception → Outcome A
  waits : Outcome A
  exhausted : Outcome A

module _ {ℓ κ} {S : Type ℓ} {T : Type κ} where
  infixl 5 ◌>>=◌
  -- `co_await m`, and then the code behind it on what that gives
  abbrev pub ◌>>=◌ : Outcome S → (S → Outcome T) → Outcome T
  throws x >>= k = throws x
  waits >>= k = waits
  exhausted >>= k = exhausted
  done s >>= k = k s

  -- Code that ends with a value had one from each `co_await`.
  pub >>=-eq-done :
      (m : Outcome S) (k : S → Outcome T) {t : T}
      → (m >>= k) ≡ done t
      → (s : S) × (m ≡ done s) × (k s ≡ done t)
  >>=-eq-done (throws x) k e = cc
  >>=-eq-done waits k e = cc
  >>=-eq-done exhausted k e = cc
  >>=-eq-done (done s) k e = (s, refl, e)

-- The code does not run out of fuel.
abbrev pub IsFueled {ℓ} : {A : Type ℓ} → Outcome A → Type ℓ
IsFueled {A = A} m = m ≢ exhausted

pub >>=-IsFueled {ℓ κ} :
    {A : Type ℓ} {B : Type κ} (m : Outcome A) (k : A → Outcome B)
    → IsFueled m
    → ((a : A) → m ≡ done a → IsFueled (k a))
    → IsFueled (m >>= k)
>>=-IsFueled (done a) k h later = later a refl
>>=-IsFueled (throws x) k h later = λ e. cc
>>=-IsFueled waits k h later = λ e. cc
>>=-IsFueled exhausted k h later = λ e. h refl

pub done-IsFueled {ℓ} : {A : Type ℓ} (a : A) → IsFueled (done a)
done-IsFueled a = λ e. cc

-- Where the code ends with a value, that has the property.
abbrev pub Gives : {A : Type 0} → (A → Type 0) → Outcome A → Type 0
Gives {A = A} P m = (a : A) → m ≡ done a → P a

pub >>=-Gives :
    {A B : Type 0} (P : B → Type 0) (m : Outcome A) (k : A → Outcome B)
    → ((a : A) → m ≡ done a → Gives P (k a))
    → Gives P (m >>= k)
>>=-Gives P (done a) k h b e = h a refl b e
>>=-Gives P (throws x) k h b e = cc
>>=-Gives P waits k h b e = cc
>>=-Gives P exhausted k h b e = cc

pub done-Gives : {A : Type 0} (P : A → Type 0) (a : A) → P a → Gives P (done a)
done-Gives P a p b e = let same : a ≡ b = cc in rw (← same) p
