-- ===== src/Fallible.antt =====
-- `anyhow::Result`: a value, or the message that `to_string` gives of the error.
use xanh_tab.Prelude.{
  String, Bool, true, false, Option, none, some, if◌then◌else◌, ◌≡◌, refl, ◌⊎◌, inl, inr,
}

pub data Fallible {ℓ} (A : Type ℓ) : Type ℓ where
  done : A → Fallible A
  bail : String → Fallible A

infixl 5 ◌>>=◌ ◌>>◌
abbrev pub ◌>>=◌ {ℓ κ} : {A : Type ℓ} {B : Type κ} → Fallible A → (A → Fallible B) → Fallible B
◌>>=◌ (done a) f = f a
◌>>=◌ (bail e) f = bail e

abbrev pub ◌>>◌ {ℓ κ} : {A : Type ℓ} {B : Type κ} → Fallible A → Fallible B → Fallible B
m >> k = m >>= λ _. k

-- `if condition { bail!(message) }`
abbrev pub bail_if : Bool → String → Fallible (Unit {0})
bail_if b e = if b then bail e else done tt

-- `ok_or_else`, and `context` on what a parser returns.
abbrev pub context {ℓ} : {A : Type ℓ} → Option A → String → Fallible A
context none e = bail e
context (some a) e = done a

abbrev pub is_done {ℓ} : {A : Type ℓ} → Fallible A → Bool
is_done (done _) = true
is_done (bail _) = false

-- To split on a computed result and keep the equation.
pub Fallible-cases {ℓ} :
    {A : Type ℓ} (r : Fallible A) → ((a : A) × (r ≡ done a)) ⊎ ((e : String) × (r ≡ bail e))
Fallible-cases (done a) = inl (a, refl)
Fallible-cases (bail e) = inr (e, refl)
