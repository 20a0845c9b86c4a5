-- ===== src/Normalizer/Normal.antt =====
-- What an accepted query looks like, and that normalizing is idempotent.
use wb_test_task.Base.{
  ℕ, ◌≤◌, ◌≡◌, refl, ap, sym, Bool, true, false, [], ◌∷◌, length, if◌then◌else◌, arith, inl, inr,
  Bool-cases, not, ◌⊎◌, ◌∙◌,
}
use wb_test_task.Base.Int.{ℤ}
use wb_test_task.Base.Text.{Text}
use wb_test_task.Runtime.{ok}
use wb_test_task.Unicode.{Unicode, is_space, is_control}
use wb_test_task.Normalizer.{rune_limit, space, is_empty, normalize_query}
use wb_test_task.Normalizer.Compact.{
  compact, compact-space, compact-control, compact-visible, judge, space-is_space,
}
use wb_test_task.Normalizer.Judged.{normalize_query-eq-judge}

-- Words of visible lower-case characters with one space between any two; `inside` tells that the
-- character before is visible.
abbrev pub AreWords : Unicode → Bool → Text → Type 0
AreWords u inside [] = inside ≡ true
AreWords u inside (r ∷ t) =
    ((r ≡ space) × (inside ≡ true) × AreWords u false t)
    ⊎ ((is_space r ≡ false) × (is_control r ≡ false) × (u.to_lower r ≡ r) × AreWords u true t)

module _ (u : Unicode) where
  word-rune :
      (r : ℕ) (inside : Bool) (t : Text)
      → is_space r ≡ false
      → is_control r ≡ false
      → AreWords u true t
      → AreWords u inside (u.to_lower r ∷ t)
  word-rune r inside t h k w =
      inr (u.to_lower-space r h, u.to_lower-control r k, u.to_lower_idem r, w)

  word-visible :
      (p : Bool) (r : ℕ) (t : Text)
      → is_space r ≡ false
      → is_control r ≡ false
      → AreWords u true t
      → AreWords u true (if p then space ∷ u.to_lower r ∷ t else u.to_lower r ∷ t)
  word-visible true r t vis plain w = inl (refl, refl, word-rune r false t vis plain w)
  word-visible false r t vis plain w = word-rune r true t vis plain w

  compact_started : (p : Bool) (q : Text) → AreWords u true (compact u true p q)
  unfolding compact
  compact_started p [] = refl
  compact_started p (r ∷ q) = elim (Bool-cases (is_space r)) [
    | inl sp ↦ rw (compact-space u true p r q sp) (compact_started true q)
    | inr vis ↦ elim (Bool-cases (is_control r)) [
      | inl ctl ↦ rw (compact-control u true p r q vis ctl) (compact_started p q)
      | inr plain ↦
          rw (compact-visible u true p r q vis plain)
            (word-visible p r (compact u true false q) vis plain (compact_started false q))
    ]
  ]

  compact_fresh :
      (q : Text) → (compact u false false q ≡ []) ⊎ AreWords u false (compact u false false q)
  unfolding compact
  compact_fresh [] = inl refl
  compact_fresh (r ∷ q) = elim (Bool-cases (is_space r)) [
    | inl sp ↦ rw (compact-space u false false r q sp) (compact_fresh q)
    | inr vis ↦ elim (Bool-cases (is_control r)) [
      | inl ctl ↦ rw (compact-control u false false r q vis ctl) (compact_fresh q)
      | inr plain ↦
          rw (compact-visible u false false r q vis plain)
            (inr (word-rune r false (compact u true false q) vis plain (compact_started false q)))
    ]
  ]

  -- Words are their own normal form: within a text, after a space that is owed, and alone.
  compact-words :
      (inside : Bool) (t : Text)
      → AreWords u inside t
      → compact u true (not inside) t ≡ (if inside then t else space ∷ t)
  unfolding compact
  compact-words true [] w = refl
  compact-words false [] w = cc
  compact-words true (r ∷ t) (inl (e, i, w)) =
      compact-space u true false r t (rw e space-is_space)
      ∙ compact-words false t w
      ∙ ap (λ (x : ℕ). x ∷ t) (sym e)
  compact-words false (r ∷ t) (inl (e, i, w)) = cc
  compact-words true (r ∷ t) (inr (vis, plain, low, w)) =
      rw (compact-visible u true false r t vis plain, low, compact-words true t w)
  compact-words false (r ∷ t) (inr (vis, plain, low, w)) =
      rw (compact-visible u true true r t vis plain, low, compact-words true t w)

  compact-words_alone : (t : Text) → AreWords u false t → compact u false false t ≡ t
  unfolding compact
  compact-words_alone [] w = refl
  compact-words_alone (r ∷ t) (inl (e, i, w)) = cc
  compact-words_alone (r ∷ t) (inr (vis, plain, low, w)) =
      rw (compact-visible u false false r t vis plain, low, compact-words true t w)

  judge-eq-ok :
      (limit : ℕ) (out t : Text)
      → judge limit out ≡ ok t
      → (out ≡ t) × (is_empty t ≡ false) × (length t ≤ limit)
  judge-eq-ok limit [] t h = cc
  judge-eq-ok limit (r ∷ out) t h = ground arith

  words_of_fresh :
      (t : Text) → is_empty t ≡ false → (t ≡ []) ⊎ AreWords u false t → AreWords u false t
  words_of_fresh t h (inl e) = cc (ap is_empty e)
  words_of_fresh t h (inr w) = w

  -- An accepted query is words of visible lower-case characters, of which none is a control
  -- character, with one space between two words and none at the ends, within the limit.
  pub normalize_query-AreWords :
      (query : Text) (max_runes : ℤ) (t : Text)
      → normalize_query u query max_runes ≡ ok t
      → AreWords u false t × (length t ≤ rune_limit max_runes)
  normalize_query-AreWords query max_runes t h =
      let (same, full, fits) =
        judge-eq-ok (rune_limit max_runes) (compact u false false query) t
          (sym (normalize_query-eq-judge u query max_runes) ∙ h) in
      (words_of_fresh t full (rw same at (compact_fresh query)), fits)

  -- An accepted query is accepted again as it is.
  pub normalize_query_idem :
      (query : Text) (max_runes : ℤ) (t : Text)
      → normalize_query u query max_runes ≡ ok t
      → normalize_query u t max_runes ≡ ok t
  normalize_query_idem query max_runes t h =
      let (w, fits) = normalize_query-AreWords query max_runes t h in
      let (same, full, _) =
        judge-eq-ok (rune_limit max_runes) (compact u false false query) t
          (sym (normalize_query-eq-judge u query max_runes) ∙ h) in
      normalize_query-eq-judge u t max_runes
      ∙ ap (judge (rune_limit max_runes)) (compact-words_alone t w)
      ∙ ground arith
