-- ===== src/Normalizer/Judged.antt =====
-- NormalizeQuery answers with the reference normal form.
use mathlib.Core.List.{append-nil}
use wb_test_task.Base.{
  ℕ, ◌+◌, ◌≤◌, ◌<◌, ◌≡◌, refl, sym, Bool, true, false, [], ◌∷◌, ◌++◌, length, length-append, ltb,
  if◌then◌else◌, arith, inl, inr, Bool-cases, ◌∙◌, lt→ltb,
}
use wb_test_task.Base.Int.{ℤ}
use wb_test_task.Base.Text.{Text}
use wb_test_task.Runtime.{empty_query, query_too_long, err, ◌>>=◌}
use wb_test_task.Unicode.{
  Unicode, is_space, is_control, trim_left, trim_right, trim_space, StartsVisible, put_back,
}
use wb_test_task.Normalizer.{
  rune_limit, Scan, space, is_empty, scan_rune, scan, finish, scan_start, normalize_query,
}
use wb_test_task.Normalizer.Compact.{
  compact, judge, compact-space, compact-control, compact-visible, is_empty-append, length_snoc,
  regroup, regroup_two, trim_space_ends,
}

module _ (u : Unicode) (limit : ℕ) where
  abbrev state : Text → Bool → ℕ → Scan
  state c prev w = record {
    builder = if prev then c ++ space ∷ [] else c;
    previous_was_space = prev;
    written_runes = w;
  }

  finish-state :
      (d : Text) (x : ℕ) (prev : Bool) (w : ℕ)
      → is_space x ≡ false
      → StartsVisible (d ++ x ∷ [])
      → finish u limit (state (d ++ x ∷ []) prev w) ≡ judge limit (d ++ x ∷ [])
  unfolding finish
  finish-state d x prev w h k = rw (trim_space_ends d x prev h k)

  judge_long :
      (c : Text) (x : ℕ) (out : Text)
      → limit < length c + 1
      → judge limit (c ++ x ∷ out) ≡ err query_too_long
  judge_long c x out h =
      rw is_empty-append
        (rw (lt→ltb limit (length (c ++ x ∷ out)) (omega (arith, length-append c (x ∷ out)))))

  judge_long_two :
      (c : Text) (x : ℕ) (out : Text)
      → limit < length c + 2
      → judge limit (c ++ space ∷ x ∷ out) ≡ err query_too_long
  judge_long_two c x out h = rw is_empty-append (
      rw (
        lt→ltb limit (length (c ++ space ∷ x ∷ out))
          (omega (arith, length-append c (space ∷ x ∷ out)))))

  starts-snoc :
      (d : Text) (x y : ℕ) → StartsVisible (d ++ x ∷ []) → StartsVisible ((d ++ x ∷ []) ++ y ∷ [])
  starts-snoc [] x y k = k
  starts-snoc (r ∷ d) x y k = k

  starts-append :
      (d e : Text) (x y : ℕ)
      → StartsVisible (d ++ x ∷ [])
      → StartsVisible (((d ++ x ∷ []) ++ e) ++ y ∷ [])
  starts-append [] e x y k = k
  starts-append (r ∷ d) e x y k = k

  -- From a state that holds a text without a space at either end, and perhaps a space behind it.
  scan_started :
      (q d : Text) (x : ℕ) (prev : Bool) (w : ℕ)
      → is_space x ≡ false
      → StartsVisible (d ++ x ∷ [])
      → w ≡ length (if prev then (d ++ x ∷ []) ++ space ∷ [] else d ++ x ∷ [])
      → length (d ++ x ∷ []) ≤ limit
      → (scan u limit (state (d ++ x ∷ []) prev w) q >>= finish u limit)
        ≡ judge limit ((d ++ x ∷ []) ++ compact u true prev q)
  unfolding scan scan_rune compact
  scan_started [] d x prev w h k e f = rw append-nil (finish-state d x prev w h k)
  scan_started (r ∷ q) d x true w h k e f = elim (Bool-cases (is_space r)) [
    | inl sp ↦
        rw (compact-space u true true r q sp, sp, is_empty-append)
          (scan_started q d x true w h k e f)
    | inr vis ↦ elim (Bool-cases (is_control r)) [
      | inl ctl ↦
          rw (compact-control u true true r q vis ctl, vis, ctl) (scan_started q d x true w h k e f)
      | inr plain ↦ elim (Bool-cases (ltb limit (w + 1))) [
        | inl long ↦
            rw (compact-visible u true true r q vis plain, vis, plain, long)
              (sym (
                judge_long_two (d ++ x ∷ []) (u.to_lower r) (compact u true false q)
                  (ground (arith, length_snoc (d ++ x ∷ []) space))))
        | inr fits ↦
            rw (compact-visible u true true r q vis plain, vis, plain, fits)
              (rw (regroup_two (d ++ x ∷ []) (compact u true false q) space (u.to_lower r)) at (
                scan_started q ((d ++ x ∷ []) ++ space ∷ []) (u.to_lower r) false (w + 1)
                  (u.to_lower-space r vis) (starts-append d (space ∷ []) x (u.to_lower r) k)
                  (omega (arith, length_snoc ((d ++ x ∷ []) ++ space ∷ []) (u.to_lower r)))
                  (ground (arith, length_snoc ((d ++ x ∷ []) ++ space ∷ []) (u.to_lower r)))))
      ]
    ]
  ]
  scan_started (r ∷ q) d x false w h k e f = elim (Bool-cases (is_space r)) [
    | inl sp ↦
        rw (compact-space u true false r q sp, sp, is_empty-append)
          (scan_started q d x true (w + 1) h k (omega (arith, length_snoc (d ++ x ∷ []) space)) f)
    | inr vis ↦ elim (Bool-cases (is_control r)) [
      | inl ctl ↦
          rw (compact-control u true false r q vis ctl, vis, ctl)
            (scan_started q d x false w h k e f)
      | inr plain ↦ elim (Bool-cases (ltb limit (w + 1))) [
        | inl long ↦
            rw (compact-visible u true false r q vis plain, vis, plain, long)
              (sym
                (judge_long (d ++ x ∷ []) (u.to_lower r) (compact u true false q) (ground arith)))
        | inr fits ↦
            rw (compact-visible u true false r q vis plain, vis, plain, fits)
              (rw (regroup (d ++ x ∷ []) (compact u true false q) (u.to_lower r)) at (
                scan_started q (d ++ x ∷ []) (u.to_lower r) false (w + 1) (u.to_lower-space r vis)
                  (starts-snoc d x (u.to_lower r) k)
                  (omega (arith, length_snoc (d ++ x ∷ []) (u.to_lower r)))
                  (ground (arith, length_snoc (d ++ x ∷ []) (u.to_lower r)))))
      ]
    ]
  ]

  -- From the start of the loop.
  scan_fresh :
      (q : Text)
      → (scan u limit scan_start q >>= finish u limit) ≡ judge limit (compact u false false q)
  unfolding scan scan_rune
  scan_fresh [] = unfold finish trim_space trim_right trim_left compact in refl
  scan_fresh (r ∷ q) = elim (Bool-cases (is_space r)) [
    | inl sp ↦ rw (compact-space u false false r q sp, sp) (scan_fresh q)
    | inr vis ↦ elim (Bool-cases (is_control r)) [
      | inl ctl ↦ rw (compact-control u false false r q vis ctl, vis, ctl) (scan_fresh q)
      | inr plain ↦ elim (Bool-cases (ltb limit (0 + 1))) [
        | inl long ↦
            rw (compact-visible u false false r q vis plain, vis, plain, long)
              (sym (judge_long [] (u.to_lower r) (compact u true false q) (ground arith)))
        | inr fits ↦
            rw (compact-visible u false false r q vis plain, vis, plain, fits)
              (scan_started q [] (u.to_lower r) false (0 + 1) (u.to_lower-space r vis)
                (u.to_lower-space r vis) refl (ground arith))
      ]
    ]
  ]

module _ (u : Unicode) where
  compact-put_back :
      (s p : Bool) (r : ℕ) (t : Text) → compact u s p (put_back r t) ≡ compact u s p (r ∷ t)
  unfolding compact
  compact-put_back s p r [] = ground arith
  compact-put_back s p r (x ∷ t) = refl

  compact-trim_right : (s p : Bool) (q : Text) → compact u s p (trim_right q) ≡ compact u s p q
  unfolding trim_right compact
  compact-trim_right s p [] = refl
  compact-trim_right s p (r ∷ q) =
      compact-put_back s p r (trim_right q)
      ∙ ground (
        arith,
        compact-trim_right s s q,
        compact-trim_right s p q,
        compact-trim_right true false q,
      )

  compact-trim_left : (q : Text) → compact u false false (trim_left q) ≡ compact u false false q
  unfolding trim_left compact
  compact-trim_left [] = refl
  compact-trim_left (r ∷ q) = ground (arith, compact-trim_left q)

  pub compact-trim_space :
      (q : Text) → compact u false false (trim_space q) ≡ compact u false false q
  unfolding trim_space
  compact-trim_space q = compact-trim_right false false (trim_left q) ∙ compact-trim_left q

  judge_empty :
      (limit : ℕ) (t : Text)
      → is_empty t ≡ true
      → judge limit (compact u false false t) ≡ err empty_query
  unfolding compact
  judge_empty limit [] h = refl
  judge_empty limit (r ∷ t) h = cc

  -- NormalizeQuery answers with the normal form of the query: it refuses an empty one, and one that
  -- is longer than the limit, where the limit is 256 if the given one is not positive.
  pub normalize_query-eq-judge :
      (query : Text) (max_runes : ℤ)
      → normalize_query u query max_runes
        ≡ judge (rune_limit max_runes) (compact u false false query)
  unfolding normalize_query
  normalize_query-eq-judge query max_runes = elim (Bool-cases (is_empty (trim_space query))) [
    | inl e ↦
        rw (e, ← compact-trim_space query)
          (sym (judge_empty (rune_limit max_runes) (trim_space query) e))
    | inr e ↦
        rw (e, ← compact-trim_space query) (scan_fresh u (rune_limit max_runes) (trim_space query))
  ]
