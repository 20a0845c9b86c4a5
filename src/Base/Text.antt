-- ===== src/Base/Text.antt =====
-- Text as its code points, with equality and the order of Go's `<` on strings: the order of UTF-8
-- bytes is the order of code points.
use Prim.Native.Char.{code}
use Prim.Native.Nat.{ℕ}
use Prim.Native.String.{String}
use mathlib.Core.Path.{◌≡◌, refl, ap₂}
use mathlib.Core.Logic.{◌⊎◌, inl, inr, ite}
use mathlib.Core.Bool.{Bool, true, false}
use mathlib.Core.List.{List, [], ◌∷◌}
use native.Mathlib.Decide.{ℕ_discrete}
use native.Mathlib.Omega.{arith}
use wb_test_task.Base.Tests.{ltb, ◌==◌, if◌then◌else◌}

abbrev pub Text : Type 0
Text = List ℕ

abbrev pub codes : String → Text
codes String.[] = []
codes (String.◌∷◌ c s) = code c ∷ codes s

pub head_eq : {a b : ℕ} {l r : Text} → ◌≡◌ {A = Text} (a ∷ l) (b ∷ r) → a ≡ b
head_eq e = cc

pub tail_eq : {a b : ℕ} {l r : Text} → ◌≡◌ {A = Text} (a ∷ l) (b ∷ r) → l ≡ r
tail_eq e = cc

pub nil_ne : {a : ℕ} {l : Text} → ¬ (◌≡◌ {A = Text} [] (a ∷ l))
nil_ne e = cc

pub ne_nil : {a : ℕ} {l : Text} → ¬ (◌≡◌ {A = Text} (a ∷ l) [])
ne_nil e = cc

cons_discrete :
    {a b : ℕ} {l r : Text} → Dec (a ≡ b) → Dec (l ≡ r) → Dec (◌≡◌ {A = Text} (a ∷ l) (b ∷ r))
cons_discrete (yes p) (yes q) = yes (ap₂ (λ x y. x ∷ y) p q)
cons_discrete (yes p) (no q) = no (λ e. q (tail_eq e))
cons_discrete (no p) d = no (λ e. p (head_eq e))

unfoldable pub text_discrete : Discrete Text
unfolding cons_discrete ℕ_discrete
text_discrete [] [] = yes refl
text_discrete [] (b ∷ r) = no nil_ne
text_discrete (a ∷ l) [] = no ne_nil
text_discrete (a ∷ l) (b ∷ r) = cons_discrete (ℕ_discrete a b) (text_discrete l r)

-- left < right
unfoldable pub text_less : Text → Text → Bool
text_less [] [] = false
text_less [] (b ∷ r) = true
text_less (a ∷ l) [] = false
text_less (a ∷ l) (b ∷ r) = if a == b then text_less l r else ltb a b

pub text_less_irrefl : (a : Text) → text_less a a ≡ false
unfolding text_less
text_less_irrefl [] = refl
text_less_irrefl (a ∷ l) = ground (arith, text_less_irrefl l)

pub text_less_trans :
    (a b c : Text) → text_less a b ≡ true → text_less b c ≡ true → text_less a c ≡ true
unfolding text_less
text_less_trans [] [] c p q = q
text_less_trans [] (y ∷ b) [] p q = q
text_less_trans [] (y ∷ b) (z ∷ c) p q = refl
text_less_trans (x ∷ a) [] c p q = cc
text_less_trans (x ∷ a) (y ∷ b) [] p q = cc
text_less_trans (x ∷ a) (y ∷ b) (z ∷ c) p q = ground (arith, text_less_trans a b c)

pub text_less_total : (a b : Text) → (text_less a b ≡ true) ⊎ ((a ≡ b) ⊎ (text_less b a ≡ true))
unfolding text_less
text_less_total [] [] = inr (inl refl)
text_less_total [] (y ∷ b) = inl refl
text_less_total (x ∷ a) [] = inr (inr refl)
text_less_total (x ∷ a) (y ∷ b) = ground (arith, text_less_total a b)

-- v == w
unfoldable pub same_text : Text → Text → Bool
unfolding text_discrete
same_text v w = ite (text_discrete v w) true false
