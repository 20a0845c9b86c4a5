-- ===== src/Stoplist/Same.antt =====
-- normalize of the stop list leaves a text as it is that has the form of an accepted query, and so a
-- word that the service accepts is found after it was added.
use mathlib.Core.List.{append-nil, append_assoc}
use wb_test_task.Base.{
  ℕ, ◌≡◌, refl, sym, ap, ◌∙◌, Bool, true, false, not, ◌&&◌, ◌||◌, [], ◌∷◌, ◌++◌, if◌then◌else◌, inl,
  inr,
}
use wb_test_task.Base.Int.{ℤ}
use wb_test_task.Base.Text.{Text, same_text}
use wb_test_task.Runtime.{ok}
use wb_test_task.Unicode.{Unicode, is_space, is_control, trim_space, trim_right, trim_left}
use wb_test_task.Normalizer.{space, is_empty, normalize_query}
use wb_test_task.Normalizer.Compact.{is_empty-append}
use wb_test_task.Normalizer.Normal.{AreWords, normalize_query-AreWords}
use wb_test_task.Stoplist.{
  Manager, WordScan, scan_word_rune, scan_word, normalize, contains, add_word,
}
use wb_test_task.Stoplist.Words.{contains-add_word}

module _ (u : Unicode) where
  -- A space may come after a visible character only.
  abbrev May : Bool → WordScan → Type 0
  May inside s = (not (is_empty s.builder) && not s.previous_was_space) ≡ inside

  scanned_space :
      (r : ℕ) (s : WordScan)
      → r ≡ space
      → May true s
      → scan_word_rune u s r
        ≡ record { builder = s.builder ++ space ∷ []; previous_was_space = true }
  unfolding scan_word_rune is_space is_control
  scanned_space r s e m = rw (e, m) refl

  scanned_visible :
      (r : ℕ) (s : WordScan)
      → is_space r ≡ false
      → is_control r ≡ false
      → u.to_lower r ≡ r
      → scan_word_rune u s r ≡ record { builder = s.builder ++ r ∷ []; previous_was_space = false }
  unfolding scan_word_rune
  scanned_visible r s p q l = rw (q, p, l) refl

  scan_word-AreWords :
      (t : Text) (s : WordScan) (inside : Bool)
      → AreWords u inside t
      → May inside s
      → (scan_word u s t).builder ≡ s.builder ++ t
  unfolding scan_word
  scan_word-AreWords [] s inside w m = sym (append-nil s.builder)
  scan_word-AreWords (r ∷ t) s inside (inl (e, i, w)) m =
      let step = scanned_space r s e (m ∙ i) in
      rw (scan_word, step)
        (scan_word-AreWords t
            (record { builder = s.builder ++ space ∷ []; previous_was_space = true }) false w
            (ap (λ b. not b && false) (is_empty-append s.builder [] space))
          ∙ append_assoc s.builder (space ∷ []) t
          ∙ ap (λ x. s.builder ++ x ∷ t) (sym e))
  scan_word-AreWords (r ∷ t) s inside (inr (p, q, l, w)) m =
      rw (scan_word, scanned_visible r s p q l)
        (scan_word-AreWords t (record { builder = s.builder ++ r ∷ []; previous_was_space = false })
            true w (ap (λ b. not b && true) (is_empty-append s.builder [] r))
          ∙ append_assoc s.builder (r ∷ []) t)

  trim_right-AreWords : (t : Text) (inside : Bool) → AreWords u inside t → trim_right t ≡ t
  unfolding trim_right
  trim_right-AreWords [] inside w = refl
  trim_right-AreWords (r ∷ []) inside (inl (e, i, w)) = cc
  trim_right-AreWords (r ∷ []) inside (inr (p, q, l, w)) = rw p refl
  trim_right-AreWords (r ∷ x ∷ t) inside (inl (e, i, w)) =
      rw (trim_right-AreWords (x ∷ t) false w) refl
  trim_right-AreWords (r ∷ x ∷ t) inside (inr (p, q, l, w)) =
      rw (trim_right-AreWords (x ∷ t) true w) refl

  trim_space-AreWords : (t : Text) → AreWords u false t → trim_space t ≡ t
  unfolding trim_space trim_left
  trim_space-AreWords [] w = refl
  trim_space-AreWords (r ∷ t) (inl (e, i, w)) = cc
  trim_space-AreWords (r ∷ t) (inr (p, q, l, w)) =
      rw p (trim_right-AreWords (r ∷ t) false (inr (p, q, l, w)))

  kept :
      (t : Text)
      → AreWords u false t
      → (x : Text) → x ≡ t
      → (if is_empty x
          then []
          else trim_space
              (scan_word u (record { builder = []; previous_was_space = false }) x).builder)
        ≡ t
  kept [] w x e = rw e refl
  kept (r ∷ t) w x e =
      rw
        (
          e,
          scan_word-AreWords (r ∷ t) (record { builder = []; previous_was_space = false }) false w
              refl,
        )
        (trim_space-AreWords (r ∷ t) w)

  -- normalize of the stop list leaves a text as it is that is words of visible lower-case characters
  -- with one space between two words and none at the ends.
  pub normalize-AreWords : (t : Text) → AreWords u false t → normalize u t ≡ t
  unfolding normalize
  normalize-AreWords t w = kept t w (trim_space t) (trim_space-AreWords t w)

  AreWords-is_empty : (t : Text) → AreWords u false t → is_empty t ≡ false
  AreWords-is_empty [] w = cc
  AreWords-is_empty (r ∷ t) w = refl

  -- What Contains answers after Add of a word that NormalizeQuery accepts.
  pub contains-add_accepted :
      (m : Manager) (query : Text) (max_runes : ℤ) (t v : Text)
      → normalize_query u query max_runes ≡ ok t
      → contains u (add_word u m t).0 v ≡ (same_text t (normalize u v) || contains u m v)
  contains-add_accepted m query max_runes t v h =
      let (w, _) = normalize_query-AreWords u query max_runes t h in
      contains-add_word u m t v
      ∙ ap (λ x. (not (is_empty x) && same_text x (normalize u v)) || contains u m v)
          (normalize-AreWords t w)
      ∙ ap (λ b. (not b && same_text t (normalize u v)) || contains u m v) (AreWords-is_empty t w)
