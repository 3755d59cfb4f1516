-- ===== src/Base/Keys.antt =====
-- Equality as an interface, for the keys of maps and sets, and texts as lists of code points.
use Prim.Native.Nat.{ℕ}
use Prim.Native.Char.{code}
pub use Prim.Native.String.{String}
use mathlib.Core.Path.{◌≡◌, refl}
use mathlib.Core.Logic.{◌↔◌}
use mathlib.Core.Bool.{Bool, true, false, ◌&&◌}
use mathlib.Core.List.{List, [], ◌∷◌}
use native.Mathlib.Omega.{arith}
use web_based_jobs_worker_se.Base.Tests.{nat_beq, nat_beq_iff}

pub record Eq {ℓ} (A : Type ℓ) : Type ℓ where
  pub same_key : (x y : A) → Bool
  pub same_iff : (x y : A) → (same_key x y ≡ true) ↔ (x ≡ y)

infix 50 ◌==◌
abbrev pub ◌==◌ {ℓ} : {A : Type ℓ} ⦃e : Eq A⦄ → A → A → Bool
◌==◌ ⦃e⦄ = e.same_key

abbrev pub Text : Type 0
Text = List ℕ

-- The code points of a literal.
abbrev pub codes : String → Text
codes String.[] = []
codes (String.◌∷◌ c s) = code c ∷ codes s

unfoldable pub text_eq : Text → Text → Bool
text_eq [] [] = true
text_eq [] (b ∷ s) = false
text_eq (a ∷ r) [] = false
text_eq (a ∷ r) (b ∷ s) = nat_beq a b && text_eq r s

pub text_eq_refl : (s : Text) → text_eq s s ≡ true
unfolding text_eq
text_eq_refl [] = refl
text_eq_refl (a ∷ s) = ground (arith, text_eq_refl s)

text_eq_sound : (r s : Text) → text_eq r s ≡ true → r ≡ s
unfolding text_eq
text_eq_sound [] [] h = refl
text_eq_sound [] (b ∷ s) h = cc
text_eq_sound (a ∷ r) [] h = cc
text_eq_sound (a ∷ r) (b ∷ s) h = ground (arith, text_eq_sound r s)

pub text_eq_iff : (r s : Text) → (text_eq r s ≡ true) ↔ (r ≡ s)
text_eq_iff r s = (text_eq_sound r s, λ e. rw e (text_eq_refl s))

instance abbrev pub nat_eq : Eq ℕ
nat_eq = record { same_key = nat_beq; same_iff = nat_beq_iff }

instance abbrev pub text_key : Eq Text
text_key = record { same_key = text_eq; same_iff = text_eq_iff }
