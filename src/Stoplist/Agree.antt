-- ===== src/Stoplist/Agree.antt =====
-- normalize of the stop list against NormalizeQuery: they agree on the texts in which no character is
-- both a space and a control character, as a tab and a line break are.
use wb_test_task.Base.{
  ℕ, ◌+◌, ◌≡◌, refl, ap, ◌∙◌, Bool, true, false, not, ◌&&◌, length, [], ◌∷◌, if◌then◌else◌, All,
  ltb, inl, inr, Bool-cases,
}
use wb_test_task.Base.Int.{ℤ}
use wb_test_task.Base.Text.{Text}
use wb_test_task.Runtime.{empty_query, query_too_long, Result, ok, err, ◌>>=◌}
use wb_test_task.Unicode.{Unicode, is_space, is_control, trim_space}
use wb_test_task.Normalizer.{
  rune_limit, Scan, is_empty, scan_rune, scan, finish, scan_start, normalize_query,
}
use wb_test_task.Stoplist.{WordScan, scan_word_rune, scan_word, normalize}

-- No character of the text is both.
abbrev pub HasNoBreaks : Text → Type 0
HasNoBreaks = All (λ r. (is_space r && is_control r) ≡ false)

-- The variables that both loops have.
abbrev shared : Scan → WordScan
shared s = record { builder = s.builder; previous_was_space = s.previous_was_space }

abbrev scanned : Scan → Result Scan → Scan
scanned s (ok t) = t
scanned s (err e) = s

-- The two orders of the tests agree.
rounds_agree :
    (is_sp is_ct room too_long : Bool) (s t a b : Scan)
    → (is_sp && is_ct) ≡ false
    → (if is_sp
        then ok (if room then a else s)
        else if is_ct
        then ok s
        else if too_long
        then err query_too_long
        else ok b)
      ≡ ok t
    → (if is_ct then shared s else if is_sp then if room then shared a else shared s else shared b)
      ≡ shared t
rounds_agree true true room too_long s t a b p h = cc
rounds_agree true false true too_long s t a b p h = ap (λ x. shared (scanned s x)) h
rounds_agree true false false too_long s t a b p h = ap (λ x. shared (scanned s x)) h
rounds_agree false true room too_long s t a b p h = ap (λ x. shared (scanned s x)) h
rounds_agree false false room true s t a b p h = cc
rounds_agree false false room false s t a b p h = ap (λ x. shared (scanned s x)) h

then_some :
    (r : Result Scan) (f : Scan → Result Scan) (t : Scan)
    → (r >>= f) ≡ ok t
    → (s : Scan) × (r ≡ ok s) × (f s ≡ ok t)
then_some (ok s) f t h = (s, refl, h)
then_some (err e) f t h = cc

judged :
    (b too_long : Bool) (x t : Text)
    → (if b then err empty_query else if too_long then err query_too_long else ok x) ≡ ok t
    → x ≡ t
judged true too_long x t h = cc
judged false true x t h = cc
judged false false x t h = cc

module _ (u : Unicode) (limit : ℕ) where
  scan_word_rune-agrees :
      (s t : Scan) (r : ℕ)
      → (is_space r && is_control r) ≡ false
      → scan_rune u limit s r ≡ ok t
      → scan_word_rune u (shared s) r ≡ shared t
  unfolding scan_rune scan_word_rune
  scan_word_rune-agrees s t r p h =
      rounds_agree (is_space r) (is_control r)
        (not (is_empty s.builder) && not s.previous_was_space) (ltb limit (s.written_runes + 1)) s t
        _ _ p h

  scan_word-agrees :
      (s t : Scan) (text : Text)
      → HasNoBreaks text
      → scan u limit s text ≡ ok t
      → scan_word u (shared s) text ≡ shared t
  unfolding scan scan_word
  scan_word-agrees s t [] p h = ap (λ x. shared (scanned s x)) h
  scan_word-agrees s t (r ∷ text) (p, ps) h =
      let (m, e, k) = then_some (scan_rune u limit s r) (λ s'. scan u limit s' text) t h in
      ap (λ w. scan_word u w text) (scan_word_rune-agrees s m r p e)
      ∙ scan_word-agrees m t text ps k

  finish-agrees : (s : Scan) (t : Text) → finish u limit s ≡ ok t → trim_space s.builder ≡ t
  unfolding finish
  finish-agrees s t h =
      judged (is_empty (trim_space s.builder)) (ltb limit (length (trim_space s.builder))) _ t h

  finished :
      (r : Result Scan) (t : Text)
      → (r >>= finish u limit) ≡ ok t
      → (s : Scan) × (r ≡ ok s) × (finish u limit s ≡ ok t)
  finished (ok s) t h = (s, refl, h)
  finished (err e) t h = cc

module _ (u : Unicode) where
  -- The stop list and the aggregator have one normal form of a text, if NormalizeQuery accepts it and
  -- no character between its ends is both a space and a control character.
  pub normalize-normalize_query :
      (query : Text) (max_runes : ℤ) (t : Text)
      → HasNoBreaks (trim_space query)
      → normalize_query u query max_runes ≡ ok t
      → normalize u query ≡ t
  unfolding normalize normalize_query
  normalize-normalize_query query max_runes t p h =
      elim (Bool-cases (is_empty (trim_space query))) [
        | inl e ↦ let k = rw e at (h) in cc
        | inr e ↦
            let (s, q, f) = finished u (rune_limit max_runes) _ t (rw e at (h)) in
            rw e (
              ap (λ w. trim_space w.builder)
                (scan_word-agrees u (rune_limit max_runes) scan_start s (trim_space query) p q)
              ∙ finish-agrees u (rune_limit max_runes) s t f)
      ]
