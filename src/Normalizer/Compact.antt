-- ===== src/Normalizer/Compact.antt =====
-- A reference normal form for NormalizeQuery, which never writes a space before it is known to be inside.
use mathlib.Core.List.{append_assoc}
use wb_test_task.Base.{
  ℕ, ◌+◌, ◌≡◌, refl, Bool, true, false, [], ◌∷◌, ◌++◌, length, length-append, ltb, if◌then◌else◌,
  arith, ◌∙◌,
}
use wb_test_task.Base.Text.{Text}
use wb_test_task.Runtime.{empty_query, query_too_long, Result, ok, err}
use wb_test_task.Unicode.{
  Unicode, is_space, is_control, trim_space, StartsVisible, trim_left_visible, trim_right_visible,
  trim_right_space,
}
use wb_test_task.Normalizer.{space, is_empty}

-- The normal form of what is left of a query: `started` tells that something was written, and
-- `pending` that a space is owed before the next visible character.
unfoldable pub compact : Unicode → Bool → Bool → Text → Text
compact u started pending [] = []
compact u started pending (r ∷ q) = elim (is_space r) [
  | true ↦ compact u started started q
  | false ↦ elim (is_control r) [
    | true ↦ compact u started pending q
    | false ↦
        let rest = compact u true false q in
        if pending then space ∷ u.to_lower r ∷ rest else u.to_lower r ∷ rest
  ]
]

-- The verdict on a normal form.
abbrev pub judge : ℕ → Text → Result Text
judge limit out =
    if is_empty out
    then err empty_query
    else if ltb limit (length out)
    then err query_too_long
    else ok out

pub space-is_space : is_space space ≡ true
unfolding is_space
space-is_space = refl

pub is_empty-append : (c d : Text) (x : ℕ) → is_empty (c ++ x ∷ d) ≡ false
is_empty-append [] d x = refl
is_empty-append (r ∷ c) d x = refl

module _ (u : Unicode) (s p : Bool) (r : ℕ) (q : Text) where
  pub compact-space : is_space r ≡ true → compact u s p (r ∷ q) ≡ compact u s s q
  unfolding compact
  compact-space h = rw (h, compact)

  pub compact-control :
      is_space r ≡ false → is_control r ≡ true → compact u s p (r ∷ q) ≡ compact u s p q
  unfolding compact
  compact-control h k = rw (h, k, compact)

  pub compact-visible :
      is_space r ≡ false
      → is_control r ≡ false
      → compact u s p (r ∷ q) ≡ (
          if p
          then space ∷ u.to_lower r ∷ compact u true false q
          else u.to_lower r ∷ compact u true false q)
  unfolding compact
  compact-visible h k = rw (h, k, compact)

pub length_snoc : (c : Text) (a : ℕ) → length (c ++ a ∷ []) ≡ length c + 1
length_snoc c a = omega (arith, length-append c (a ∷ []))

pub regroup : (c t : Text) (a : ℕ) → (c ++ a ∷ []) ++ t ≡ c ++ a ∷ t
regroup c t a = append_assoc c (a ∷ []) t

pub regroup_two : (c t : Text) (a b : ℕ) → ((c ++ a ∷ []) ++ b ∷ []) ++ t ≡ c ++ a ∷ b ∷ t
regroup_two c t a b = regroup (c ++ a ∷ []) t b ∙ regroup c (b ∷ t) a

-- A text without a space at either end is what trimming leaves of it, also with a space behind it.
pub trim_space_ends :
    (d : Text) (x : ℕ) (prev : Bool)
    → is_space x ≡ false
    → StartsVisible (d ++ x ∷ [])
    → trim_space (if prev then (d ++ x ∷ []) ++ space ∷ [] else d ++ x ∷ []) ≡ d ++ x ∷ []
unfolding trim_space
trim_space_ends d x false h k = rw (trim_left_visible (d ++ x ∷ []) k) (trim_right_visible d x h)
trim_space_ends d x true h k =
    rw (trim_left_visible ((d ++ x ∷ []) ++ space ∷ []) (starts d k))
      (rw (append_assoc d (x ∷ []) (space ∷ [])) (trim_right_space d x space h space-is_space))
  where
    starts : (d : Text) → StartsVisible (d ++ x ∷ []) → StartsVisible ((d ++ x ∷ []) ++ space ∷ [])
    starts [] k = k
    starts (r ∷ d) k = k
