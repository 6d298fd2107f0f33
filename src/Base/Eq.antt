-- ===== src/Base/Eq.antt =====
-- Boolean tests on numbers, and an equality test for each type of keys.
use Prim.Native.Nat.{ℕ, compare, Ordering}
use Prim.Native.String.{String}
use mathlib.Core.Path.{◌≡◌, refl}
use mathlib.Core.Logic.{◌⊎◌, inl, inr}
use mathlib.Core.Bool.{Bool, true, false}
use native.Mathlib.Omega.{arith}
use text.Mathlib.Text.{◌==◌ as str_eq}
use text.Mathlib.TextEquality.{eq_iff}

abbrev pub ltb : ℕ → ℕ → Bool
ltb a b = elim (compare a b) [ Ordering.lt ↦ true | _ ↦ false ]

abbrev pub leb : ℕ → ℕ → Bool
leb a b = elim (compare a b) [ Ordering.gt ↦ false | _ ↦ true ]

abbrev pub nat_beq : ℕ → ℕ → Bool
nat_beq a b = elim (compare a b) [ Ordering.eq ↦ true | _ ↦ false ]

infix 1 if◌then◌else◌
abbrev pub if◌then◌else◌ {ℓ} : {A : Type ℓ} → Bool → A → A → A
if true then x else y = x
if false then x else y = y

-- To split on a computed value and keep the equation.
pub Bool-cases : (b : Bool) → (b ≡ true) ⊎ (b ≡ false)
Bool-cases true = inl refl
Bool-cases false = inr refl

-- A Boolean test that decides equality.
pub record Eq {ℓ} (A : Type ℓ) : Type ℓ where
  pub is_same : A → A → Bool
  pub reflexive : (a : A) → is_same a a ≡ true
  pub sound : (a b : A) → is_same a b ≡ true → a ≡ b

instance abbrev pub string_eq : Eq String
string_eq = record {
  is_same = str_eq;
  reflexive = λ a. (eq_iff a a).1 refl;
  sound = λ a b. (eq_iff a b).0;
}

pub nat_reflexive : (a : ℕ) → nat_beq a a ≡ true
nat_reflexive a = ground arith

pub nat_sound : (a b : ℕ) → nat_beq a b ≡ true → a ≡ b
nat_sound a b h = ground arith

instance abbrev pub nat_eq : Eq ℕ
nat_eq = record { sound = nat_sound; reflexive = nat_reflexive; is_same = nat_beq }

module _ {ℓ} {A : Type ℓ} ⦃e : Eq A⦄ where
  infix 50 ◌==◌
  abbrev pub ◌==◌ : A → A → Bool
  a == b = e.is_same a b

  pub eq_self : (a : A) → (a == a) ≡ true
  eq_self = e.reflexive

  pub eq_of_beq : (a b : A) → (a == b) ≡ true → a ≡ b
  eq_of_beq = e.sound

  -- The test does not depend on the order.
  pub beq_comm_false : (a b : A) → (a == b) ≡ false → (b == a) ≡ false
  beq_comm_false a b h = elim (Bool-cases (b == a)) [
    | inl same ↦ ground (arith, eq_of_beq b a same, eq_self a, h)
    | inr other ↦ other
  ]

  pub beq_false_of_ne : (a b : A) → (a ≡ b → ⊥) → (a == b) ≡ false
  beq_false_of_ne a b h = elim (Bool-cases (a == b)) [
    | inl same ↦ absurd (h (eq_of_beq a b same))
    | inr other ↦ other
  ]

  pub ne_of_beq_false : (a b : A) → (a == b) ≡ false → a ≡ b → ⊥
  ne_of_beq_false a b h same = let itself : (a == b) ≡ true = rw same (eq_self b) in cc (h, itself)
