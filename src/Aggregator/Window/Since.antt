-- ===== src/Aggregator/Window/Since.antt =====
-- In a window, what the buckets hold is what the history has since the window's first second.
use mathlib.Core.Option.{some-injective}
use wb_test_task.Base.{
  ℕ, zero, suc, ◌+◌, ◌*◌, ◌≤◌, ◌<◌, ◌≡◌, ◌≢◌, refl, sym, ap, ◌∙◌, false, some, List, [], ◌∷◌,
  length, get_elem?, arith, inl, inr, Bool-cases, All,
}
use wb_test_task.Base.Int.{ℤ, pos, ◌≤ℤ◌, ◌<ℤ◌, leb_ℤ, ℤ_discrete}
use wb_test_task.Base.Text.{Text, text_discrete}
use wb_test_task.TextMap.{lookup, entry}
use wb_test_task.Aggregator.Types.{Bucket}
use wb_test_task.Aggregator.Buckets.{bucket_index, entries}
use wb_test_task.Aggregator.Tally.{count_of-entry}
use wb_test_task.Aggregator.Window.{History, one_if, occurrences, since, total, AreBuckets, IsKept}

-- How many buckets are of a second.
holders : ℤ → List Bucket → ℕ
holders s [] = 0
holders s (b ∷ buckets) = one_if (ℤ_discrete s b.unix_second) + holders s buckets

-- The sum of the occurrences in the seconds of the buckets.
recorded : History → Text → List Bucket → ℕ
recorded h q [] = 0
recorded h q (b ∷ buckets) = occurrences h b.unix_second q + recorded h q buckets

recorded-nil : (q : Text) (bs : List Bucket) → recorded [] q bs ≡ 0
unfolding recorded occurrences
recorded-nil q [] = refl
recorded-nil q (b ∷ bs) = omega (arith, recorded-nil q bs)

-- Exchanging the sums: one event counts once for each bucket of its second.
recorded-cons :
    (t : ℤ) (r : Text) (h : History) (q : Text) (bs : List Bucket)
    → recorded ((t, r) ∷ h) q bs ≡ one_if (text_discrete r q) * holders t bs + recorded h q bs
unfolding recorded occurrences holders
recorded-cons t r h q [] = omega arith
recorded-cons t r h q (b ∷ bs) = ground (arith, recorded-cons t r h q bs)

holders_none :
    (t : ℤ) (bs : List Bucket)
    → ((i : ℕ) (b : Bucket) → get_elem? bs i ≡ some b → b.unix_second ≢ t)
    → holders t bs ≡ 0
unfolding holders
holders_none t [] h = refl
holders_none t (b ∷ bs) h = ground (arith, h 0 b refl, holders_none t bs (λ i c e. h (suc i) c e))

-- The bucket at index i, counted from an offset, stands at the index of its second.
abbrev IsPlaced : ℕ → ℕ → List Bucket → Type 0
IsPlaced n from bs =
    (i : ℕ) (b : Bucket)
    → get_elem? bs i ≡ some b
    → b.unix_second ≢ pos 0
    → bucket_index b.unix_second n ≡ from + i

holders_one :
    (n from : ℕ) (t : ℤ) (bs : List Bucket) (i : ℕ) (b : Bucket)
    → IsPlaced n from bs
    → t ≢ pos 0
    → get_elem? bs i ≡ some b
    → b.unix_second ≡ t
    → holders t bs ≡ 1
unfolding holders
holders_one n from t [] i b p nz e s = cc
holders_one n from t (c ∷ bs) zero b p nz e s =
    let head : c.unix_second ≡ t = ap (λ (x : Bucket). x.unix_second) (some-injective _ _ e) ∙ s in
    let others : holders t bs ≡ 0 = holders_none t bs λ j d f u. nz (
      sym head
      ∙ absurd (
          omega (
            arith,
            p 0 c refl (λ z. nz (sym head ∙ z)),
            p (suc j) d f (λ z. nz (sym u ∙ z)),
            ap (λ x. bucket_index x n) (head ∙ sym u),
          ))) in
    ground arith
holders_one n from t (c ∷ bs) (suc i) b p nz e s =
    let rest : holders t bs ≡ 1 =
      holders_one n (suc from) t bs i b (λ j d f u. ground (arith, p (suc j) d f u)) nz e s in
    elim (ℤ_discrete t c.unix_second) [
      | yes same ↦ absurd (
          omega (
            arith,
            p 0 c refl (λ z. nz (same ∙ z)),
            p (suc i) b e (λ z. nz (sym s ∙ z)),
            ap (λ x. bucket_index x n) (sym same ∙ sym s),
          ))
      | no other ↦ ground arith
    ]

-- Each event of a history is of a second other than 0, and has its bucket if it is in the window.
abbrev AreHeld : ℕ → ℤ → List Bucket → History → Type 0
AreHeld n lo bs = All λ e.
    (e.0 ≢ pos 0)
    × (lo ≤ℤ e.0 → (i : ℕ) × (b : Bucket) × (get_elem? bs i ≡ some b) × (b.unix_second ≡ e.0))

pub occurrences_self : (t : ℤ) (r : Text) (h : History) → 0 < occurrences ((t, r) ∷ h) t r
unfolding occurrences
occurrences_self t r h = ground arith

pub occurrences-le-cons :
    (t : ℤ) (r : Text) (h : History) (s : ℤ) (q : Text)
    → occurrences h s q ≤ occurrences ((t, r) ∷ h) s q
unfolding occurrences
occurrences-le-cons t r h s q = ground arith

IsKept-AreHeld :
    (n : ℕ) (lo : ℤ) (bs : List Bucket) (h g : History)
    → IsKept n lo h bs
    → ((s : ℤ) (q : Text) → occurrences g s q ≤ occurrences h s q)
    → AreHeld n lo bs g
IsKept-AreHeld n lo bs h [] k le = tt
IsKept-AreHeld n lo bs h ((t, r) ∷ g) k le =
    let counted : 0 < occurrences h t r = omega (arith, le t r, occurrences_self t r g) in
    (
      (
        (λ z. omega (arith, k.nonzero r, ap (λ x. occurrences h x r) z, counted)),
        (λ inside. let (b, e, s) = k.kept t r counted inside in (bucket_index t n, b, e, s)),
      ),
      IsKept-AreHeld n lo bs h g k (λ s q. omega (arith, le s q, occurrences-le-cons t r g s q)),
    )

leb_ℤ_false : (a b : ℤ) → leb_ℤ a b ≡ false → b <ℤ a
leb_ℤ_false a b h = ground arith

module _ (n : ℕ) (lo : ℤ) (bs : List Bucket) (placed : IsPlaced n 0 bs)
    (after : (i : ℕ) (b : Bucket)
      → get_elem? bs i ≡ some b
      → b.unix_second ≢ pos 0
      → lo ≤ℤ b.unix_second) where
  recorded-eq-since : (q : Text) (h : History) → AreHeld n lo bs h → recorded h q bs ≡ since h lo q
  unfolding since
  recorded-eq-since q [] held = recorded-nil q bs
  recorded-eq-since q ((t, r) ∷ h) ((nz, at), held) = elim (Bool-cases (leb_ℤ lo t)) [
    | inl inside ↦
        let (i, b, e, s) = at (ground arith) in
        let one = holders_one n 0 t bs i b placed nz e s in
        rw inside (
          omega (
            arith,
            recorded-cons t r h q bs,
            ap (λ x. one_if (text_discrete r q) * x) one,
            recorded-eq-since q h held,
          ))
    | inr outside ↦
        let gone : holders t bs ≡ 0 = holders_none t bs λ i b e s.
          omega (arith, leb_ℤ_false lo t outside, rw s at (after i b e (λ z. nz (sym s ∙ z)))) in
        rw outside (
          omega (
            arith,
            recorded-cons t r h q bs,
            ap (λ x. one_if (text_discrete r q) * x) gone,
            recorded-eq-since q h held,
          ))
  ]

total-eq-recorded :
    (n : ℕ) (lo : ℤ) (h : History) (q : Text) (bs : List Bucket)
    → ((i : ℕ) (b : Bucket)
        → get_elem? bs i ≡ some b
        → (r : Text) → lookup r (entries b.counts) ≡ entry (occurrences h b.unix_second r))
    → total q bs ≡ recorded h q bs
unfolding total recorded
total-eq-recorded n lo h q [] c = refl
total-eq-recorded n lo h q (b ∷ bs) c = omega (
  arith,
  count_of-entry q (entries b.counts) (occurrences h b.unix_second q) (c 0 b refl q),
  total-eq-recorded n lo h q bs (λ i d e. c (suc i) d e),
)

-- What the buckets of a window hold of a query is how often it was counted since the window began.
pub total-eq-since :
    (n : ℕ) (lo : ℤ) (h : History) (bs : List Bucket)
    → AreBuckets n lo h bs
    → IsKept n lo h bs
    → (q : Text) → total q bs ≡ since h lo q
total-eq-since n lo h bs w k q =
    total-eq-recorded n lo h q bs (λ i b e. (w i b e).counted)
    ∙ recorded-eq-since n lo bs (λ i b e nz. (w i b e).placed nz ∙ omega arith)
        (λ i b e. (w i b e).after) q h (IsKept-AreHeld n lo bs h h k (λ s r. omega arith))

pub since-le-length : (h : History) (lo : ℤ) (q : Text) → since h lo q ≤ length h
unfolding since
since-le-length [] lo q = omega arith
since-le-length ((t, r) ∷ h) lo q = ground (arith, since-le-length h lo q)

pub occurrences-le-length : (h : History) (s : ℤ) (q : Text) → occurrences h s q ≤ length h
unfolding occurrences
occurrences-le-length [] s q = omega arith
occurrences-le-length ((t, r) ∷ h) s q = ground (arith, occurrences-le-length h s q)
