-- ===== src/Base/Equality.antt =====
-- Python's `==` on the types that the program compares: an instance for each.
use Prim.Native.Nat.{ℕ, compare, Ordering}
use Prim.Native.String.{String}
use text.Mathlib.Text.{◌==◌ as str_eq}
pub use text.Mathlib.TextEquality.{eq_iff}
use mathlib.Core.Path.{◌≡◌, refl}
use mathlib.Core.Logic.{◌↔◌}
use mathlib.Core.Bool.{Bool, true, false}
use mathlib.Core.Option.{Option, none, some}
use native.Mathlib.Omega.{arith}

pub record Eq {ℓ} (A : Type ℓ) : Type ℓ where
  pub beq : A → A → Bool
  -- the test decides equality
  pub beq_iff : (x y : A) → (beq x y ≡ true) ↔ (x ≡ y)

abbrev pub nat_beq : ℕ → ℕ → Bool
nat_beq a b = elim (compare a b) [ Ordering.eq ↦ true | _ ↦ false ]

pub nat_beq_iff : (a b : ℕ) → (nat_beq a b ≡ true) ↔ (a ≡ b)
nat_beq_iff a b = ground arith

instance abbrev pub nat_eq : Eq ℕ
nat_eq = record { beq = nat_beq; beq_iff = nat_beq_iff }

instance abbrev pub string_eq : Eq String
string_eq = record { beq = str_eq; beq_iff = eq_iff }

infix 50 ◌==◌
abbrev pub ◌==◌ {κ} : {T : Type κ} ⦃same : Eq T⦄ → T → T → Bool
◌==◌ ⦃same⦄ = same.beq

module _ {ℓ} {A : Type ℓ} ⦃e : Eq A⦄ where
  pub ==_refl : (a : A) → (a == a) ≡ true
  ==_refl a = (e.beq_iff a a).1 refl

  pub ==→eq : (a b : A) → (a == b) ≡ true → a ≡ b
  ==→eq a b h = (e.beq_iff a b).0 h

  -- Equality of optional values, where `None == None`.
  abbrev pub option_beq : Option A → Option A → Bool
  option_beq none none = true
  option_beq (some a) (some b) = a == b
  option_beq none (some b) = false
  option_beq (some a) none = false

  pub option_beq_iff : (a b : Option A) → (option_beq a b ≡ true) ↔ (a ≡ b)
  option_beq_iff none none = (λ h. refl, λ h. refl)
  option_beq_iff (some a) (some b) = ground (arith, e.beq_iff a b)
  option_beq_iff none (some b) = (λ h. cc, λ h. cc)
  option_beq_iff (some a) none = (λ h. cc, λ h. cc)

instance abbrev pub option_eq {ℓ} : {A : Type ℓ} ⦃e : Eq A⦄ → Eq (Option A)
option_eq ⦃e⦄ = record { beq = option_beq; beq_iff = option_beq_iff }

-- The test of a decision.
abbrev pub discrete_beq {ℓ} : {A : Type ℓ} → Discrete A → A → A → Bool
discrete_beq dec a b = elim (dec a b) [ yes p ↦ true | no p ↦ false ]

pub discrete_beq_iff {ℓ} :
    {A : Type ℓ} (dec : Discrete A) (a b : A) → (discrete_beq dec a b ≡ true) ↔ (a ≡ b)
discrete_beq_iff dec a b =
    elim (dec a b) as (λ d. (elim d [ yes p ↦ true | no p ↦ false ] ≡ true) ↔ (a ≡ b)) [
      | yes p ↦ (λ h. p, λ h. refl)
      | no q ↦ (λ h. cc, λ h. absurd (q h))
    ]
