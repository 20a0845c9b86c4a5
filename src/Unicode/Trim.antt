-- ===== src/Unicode/Trim.antt =====
-- unicode.IsSpace and strings.TrimSpace.
use wb_test_task.Base.{
  ap, ◌∙◌, inl, inr, Bool-cases, arith, ℕ, ◌≡◌, refl, Bool, true, false, ◌&&◌, ◌||◌, leb, ◌==◌,
  if◌then◌else◌, [], ◌∷◌, ◌++◌,
}
use wb_test_task.Base.Text.{Text}

unfoldable pub is_space : ℕ → Bool
is_space r =
    (leb 0x09 r && leb r 0x0d)
    || r == 0x20
    || r == 0x85
    || r == 0xa0
    || r == 0x1680
    || (leb 0x2000 r && leb r 0x200a)
    || r == 0x2028
    || r == 0x2029
    || r == 0x202f
    || r == 0x205f
    || r == 0x3000

unfoldable pub trim_left : Text → Text
trim_left [] = []
trim_left (r ∷ s) = if is_space r then trim_left s else r ∷ s

abbrev pub put_back : ℕ → Text → Text
put_back r [] = if is_space r then [] else r ∷ []
put_back r (x ∷ s) = r ∷ x ∷ s

unfoldable pub trim_right : Text → Text
trim_right [] = []
trim_right (r ∷ s) = put_back r (trim_right s)

unfoldable pub trim_space : Text → Text
unfolding is_space trim_left trim_right
trim_space s = trim_right (trim_left s)

-- The first character, if there is one, is no space.
abbrev pub StartsVisible : Text → Type 0
StartsVisible [] = Unit
StartsVisible (r ∷ s) = is_space r ≡ false

pub trim_left_visible : (s : Text) → StartsVisible s → trim_left s ≡ s
unfolding trim_left
trim_left_visible [] h = refl
trim_left_visible (r ∷ s) h = rw h

pub trim_right_visible :
    (s : Text) (x : ℕ) → is_space x ≡ false → trim_right (s ++ x ∷ []) ≡ s ++ x ∷ []
unfolding trim_right
trim_right_visible [] x h = rw h
trim_right_visible (r ∷ []) x h = rw (trim_right_visible [] x h)
trim_right_visible (r ∷ y ∷ s) x h = rw (trim_right_visible (y ∷ s) x h)

pub trim_right_space :
    (s : Text) (x y : ℕ)
    → is_space x ≡ false
    → is_space y ≡ true
    → trim_right (s ++ x ∷ y ∷ []) ≡ s ++ x ∷ []
unfolding trim_right
trim_right_space [] x y h k = rw k (rw h)
trim_right_space (r ∷ []) x y h k = rw (trim_right_space [] x y h k)
trim_right_space (r ∷ z ∷ s) x y h k = rw (trim_right_space (z ∷ s) x y h k)

trim_right-put_back :
    (r : ℕ) (t : Text) → trim_right t ≡ t → trim_right (put_back r t) ≡ put_back r t
unfolding trim_right
trim_right-put_back r [] h = ground arith
trim_right-put_back r (x ∷ t) h = rw h

trim_right_idem : (s : Text) → trim_right (trim_right s) ≡ trim_right s
unfolding trim_right
trim_right_idem [] = refl
trim_right_idem (r ∷ s) = trim_right-put_back r (trim_right s) (trim_right_idem s)

trim_left-StartsVisible : (s : Text) → StartsVisible (trim_left s)
unfolding trim_left
trim_left-StartsVisible [] = tt
trim_left-StartsVisible (r ∷ s) = elim (Bool-cases (is_space r)) [
  | inl e ↦ rw e (trim_left-StartsVisible s)
  | inr e ↦ rw e e
]

put_back-StartsVisible : (r : ℕ) (t : Text) → is_space r ≡ false → StartsVisible (put_back r t)
put_back-StartsVisible r [] h = rw h h
put_back-StartsVisible r (x ∷ t) h = h

trim_right-StartsVisible : (s : Text) → StartsVisible s → StartsVisible (trim_right s)
unfolding trim_right
trim_right-StartsVisible [] h = tt
trim_right-StartsVisible (r ∷ s) h = put_back-StartsVisible r (trim_right s) h

pub trim_space_idem : (s : Text) → trim_space (trim_space s) ≡ trim_space s
unfolding trim_space
trim_space_idem s =
    ap trim_right (
      trim_left_visible (trim_right (trim_left s))
        (trim_right-StartsVisible (trim_left s) (trim_left-StartsVisible s)))
    ∙ trim_right_idem (trim_left s)

put_back-eq-cons : (r : ℕ) (t : Text) → is_space r ≡ false → put_back r t ≡ r ∷ t
put_back-eq-cons r [] h = rw h
put_back-eq-cons r (x ∷ t) h = refl

-- A text that starts with a visible character keeps it.
pub trim_space_visible :
    (r : ℕ) (s : Text) → is_space r ≡ false → trim_space (r ∷ s) ≡ r ∷ trim_right s
unfolding trim_space trim_right trim_left
trim_space_visible r s h = rw h (put_back-eq-cons r (trim_right s) h)
