-- ===== src/Prelude/Eq.antt =====
-- Python's `==` on the key types of the program, as an interface with its law.
use Prim.Native.Nat.{ℕ, compare, Ordering}
use Prim.Native.String.{String}
use mathlib.Core.Path.{◌≡◌, refl}
use mathlib.Core.Logic.{◌↔◌}
use mathlib.Core.Bool.{Bool, true, false, not}
use native.Mathlib.Omega.{arith}
use text.Mathlib.Text.{◌==◌ as str_eq}
use text.Mathlib.TextEquality.{eq_iff}

pub record EqTest {ℓ} (A : Type ℓ) : Type ℓ where
  pub same_value : A → A → Bool
  pub beq_iff : (x y : A) → (same_value x y ≡ true) ↔ (x ≡ y)

infix 50 ◌==◌
abbrev pub ◌==◌ {ℓ} : {V : Type ℓ} ⦃test : EqTest V⦄ → V → V → Bool
◌==◌ ⦃test⦄ = test.same_value

abbrev pub nat_beq : ℕ → ℕ → Bool
nat_beq a b = elim (compare a b) [ Ordering.eq ↦ true | _ ↦ false ]

pub nat_beq_iff : (a b : ℕ) → (nat_beq a b ≡ true) ↔ (a ≡ b)
nat_beq_iff a b = ground arith

instance abbrev pub nat_eq : EqTest ℕ
nat_eq = record { beq_iff = nat_beq_iff; same_value = nat_beq }

abbrev pub bool_beq : Bool → Bool → Bool
bool_beq true b = b
bool_beq false b = not b

pub bool_beq_iff : (a b : Bool) → (bool_beq a b ≡ true) ↔ (a ≡ b)
bool_beq_iff a b = ground arith

instance abbrev pub Bool_eq : EqTest Bool
Bool_eq = record { beq_iff = bool_beq_iff; same_value = bool_beq }

instance abbrev pub string_eq : EqTest String
string_eq = record { beq_iff = eq_iff; same_value = str_eq }

pub beq_self {ℓ} : {A : Type ℓ} ⦃e : EqTest A⦄ (a : A) → (a == a) ≡ true
beq_self ⦃e⦄ a = (e.beq_iff a a).1 refl
