-- ===== src/Aggregator/Window/Count.antt =====
-- Counting an event of the window: its bucket is its own or free, so no other event is lost.
use mathlib.Core.Option.{some-injective}
use mathlib.Core.Logic.{if_pos, if_neg}
use wb_test_task.Base.{
  ℕ, zero, suc, ◌+◌, ◌<◌, ◌≡◌, ◌≢◌, refl, ap, ◌∙◌, some, none, Option, List, [], ◌∷◌, get_elem?,
  set, arith, inl, inr, ◌⊎◌,
}
use wb_test_task.Base.Int.{ℤ, pos, ◌≤ℤ◌, ℤ_discrete}
use wb_test_task.Base.Text.{Text, text_discrete}
use wb_test_task.Base.Word.{int64_sign}
use wb_test_task.TextMap.{TextMap, lookup, entry, count_of}
use wb_test_task.Aggregator.Types.{Bucket}
use wb_test_task.Aggregator.Buckets.{
  entries, cleared, allocated, clear_bucket_locked, subtract_counts, claim_bucket, increment,
  count_in_bucket, count_event,
}
use wb_test_task.Aggregator.Tally.{lookup-increment}
use wb_test_task.Aggregator.Window.{History, one_if, occurrences, total}

pub count_event-eq :
    (s : ℤ) (q : Text) (i : ℕ) (bs : List Bucket) (c : TextMap ℕ) (b : Bucket)
    → get_elem? bs i ≡ some b
    → count_event s q i bs c ≡ (set bs i (count_in_bucket s q b c).0, (count_in_bucket s q b c).1)
unfolding count_event
count_event-eq s q i [] c b e = cc
count_event-eq s q zero (d ∷ bs) c b e = rw (some-injective _ _ e) refl
count_event-eq s q (suc i) (d ∷ bs) c b e = rw (count_event-eq s q i bs c b e) refl

pub ≤ℤ-or-le : (a b : ℤ) → (a ≤ℤ b) ⊎ (b ≤ℤ a)
≤ℤ-or-le a b = omega arith

-- A map without entries: no key has one.
pub empty_of_none : (m : TextMap ℕ) → ((r : Text) → lookup r m ≡ none) → m ≡ []
unfolding lookup
empty_of_none [] h = refl
empty_of_none ((k, v) ∷ m) h = ground (arith, h k)

entries-allocated : (o : Option (TextMap ℕ)) → entries (allocated o) ≡ entries o
entries-allocated none = refl
entries-allocated (some m) = refl

cleared-allocated : (o : Option (TextMap ℕ)) → cleared (allocated o) ≡ some []
cleared-allocated none = refl
cleared-allocated (some m) = refl

abbrev pub counted_bucket : ℤ → Text → TextMap ℕ → Bucket
counted_bucket s q m = record { unix_second = s; counts = some (increment q m) }

-- What Add writes once the bucket is claimed.
abbrev recount : Text → Bucket × TextMap ℕ → Bucket × TextMap ℕ
recount q (b, c) = (counted_bucket b.unix_second q (entries b.counts), increment q c)

count_in_bucket-eq-recount :
    (s : ℤ) (q : Text) (b : Bucket) (c : TextMap ℕ)
    → count_in_bucket s q b c ≡ recount q (claim_bucket s b c)
unfolding count_in_bucket
count_in_bucket-eq-recount s q b c = refl

pub count_in_bucket_own :
    (s : ℤ) (q : Text) (b : Bucket) (c : TextMap ℕ)
    → b.unix_second ≡ s
    → count_in_bucket s q b c ≡ (counted_bucket s q (entries b.counts), increment q c)
unfolding claim_bucket
count_in_bucket_own s q b c e =
    count_in_bucket-eq-recount s q b c
    ∙ ap (recount q) (if_pos (ℤ_discrete b.unix_second s) e _ _)
    ∙ ap (λ t. recount q (record { unix_second = t; counts = allocated b.counts }, c)) e
    ∙ ap (λ m. (counted_bucket s q m, increment q c)) (entries-allocated b.counts)

pub count_in_bucket_free :
    (s : ℤ) (q : Text) (b : Bucket) (c : TextMap ℕ)
    → b.unix_second ≢ s
    → entries b.counts ≡ []
    → count_in_bucket s q b c ≡ (counted_bucket s q [], increment q c)
unfolding claim_bucket clear_bucket_locked
count_in_bucket_free s q b c e empty =
    count_in_bucket-eq-recount s q b c
    ∙ ap (recount q) (if_neg (ℤ_discrete b.unix_second s) e _ _)
    ∙ ap
        (λ o. recount q (
          record { unix_second = s; counts = o },
          subtract_counts c (entries (allocated b.counts)),
        ))
        (cleared-allocated b.counts)
    ∙ ap (λ m. recount q (record { unix_second = s; counts = some [] }, subtract_counts c m))
        (entries-allocated b.counts ∙ empty)

pub free_of : {t s : ℤ} → (t ≡ s) ⊎ (t ≡ pos 0) → t ≢ s → t ≡ pos 0
free_of (inl own) other = absurd (other own)
free_of (inr free) other = free

pub lookup_nil : (r : Text) → lookup {V = ℕ} r [] ≡ none
unfolding lookup
lookup_nil r = refl

pub occurrences-cons_self :
    (s : ℤ) (q r : Text) (h : History)
    → occurrences ((s, q) ∷ h) s r ≡ one_if (text_discrete q r) + occurrences h s r
unfolding occurrences
occurrences-cons_self s q r h = ground arith

pub occurrences-cons_ne :
    (s t : ℤ) (q r : Text) (h : History) → t ≢ s → occurrences ((s, q) ∷ h) t r ≡ occurrences h t r
unfolding occurrences
occurrences-cons_ne s t q r h ne = ground arith

pub total-set :
    (r : Text) (bs : List Bucket) (i : ℕ) (b b' : Bucket)
    → get_elem? bs i ≡ some b
    → total r (set bs i b') + count_of r (entries b.counts)
      ≡ total r bs + count_of r (entries b'.counts)
unfolding total
total-set r [] i b b' e = cc
total-set r (d ∷ bs) zero b b' e =
    omega (arith, ap (λ (x : Bucket). count_of r (entries x.counts)) (some-injective _ _ e))
total-set r (d ∷ bs) (suc i) b b' e = omega (arith, total-set r bs i b b' e)

-- The entry of a key after one more event.
pub entry_incremented :
    (q r : Text) (m : TextMap ℕ) (f : Text → ℕ)
    → ((t : Text) → lookup t m ≡ entry (f t))
    → f q + 1 < int64_sign
    → lookup r (increment q m) ≡ entry (one_if (text_discrete q r) + f r)
entry_incremented q r m f l small =
    lookup-increment m q r (f q) (l q) small ∙ (elim (text_discrete q r) [
      | yes same ↦
          let one : one_if (text_discrete q r) ≡ 1 = if_pos (text_discrete q r) same 1 0 in
          let sum : suc (f q) ≡ one_if (text_discrete q r) + f r = omega (arith, one, ap f same) in
          if_pos (text_discrete q r) same _ _ ∙ ap entry sum
      | no other ↦
          let one : one_if (text_discrete q r) ≡ 0 = if_neg (text_discrete q r) other 1 0 in
          let sum : f r ≡ one_if (text_discrete q r) + f r = omega (arith, one) in
          if_neg (text_discrete q r) other _ _ ∙ l r ∙ ap entry sum
    ])
