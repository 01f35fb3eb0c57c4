-- ===== src/Common/Throws.antt =====
-- The outcome of a call that may throw: its value, or the message of its exception.
use mathlib.Core.Path.{◌≡◌, refl}
use Prim.Native.String.{String}

pub data Throws {ℓ} (A : Type ℓ) : Type ℓ where
  returns : A → Throws A
  throws : String → Throws A

infixl 5 ◌>>=◌ ◌>>◌
abbrev pub ◌>>=◌ {ℓ κ} : {A : Type ℓ} {B : Type κ} → Throws A → (A → Throws B) → Throws B
returns a >>= f = f a
throws e >>= f = throws e

abbrev pub ◌>>◌ {ℓ κ} : {A : Type ℓ} {B : Type κ} → Throws A → Throws B → Throws B
m >> k = m >>= λ _. k

abbrev pub value_or {ℓ} : {A : Type ℓ} → Throws A → A → A
value_or (returns a) b = a
value_or (throws e) b = b

pub returns-value_or {ℓ} :
    {A : Type ℓ} (r : Throws A) (a b : A) → r ≡ returns a → r ≡ returns (value_or r b)
returns-value_or (returns x) a b h = refl
returns-value_or (throws e) a b h = absurd (cc h)

-- A chain that returns has returned at each step.
pub >>=-eq-returns {ℓ κ} :
    {A : Type ℓ} {B : Type κ} (m : Throws A) (f : A → Throws B) {b : B}
    → (m >>= f) ≡ returns b
    → (a : A) × (m ≡ returns a) × (f a ≡ returns b)
>>=-eq-returns (returns a) f h = (a, refl, h)
>>=-eq-returns (throws e) f h = absurd (cc h)
