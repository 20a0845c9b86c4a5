-- ===== src/Aggregator/Tally.antt =====
-- Maps of counts: how subtracting and incrementing change what a key is counted.
use mathlib.Core.Logic.{if_pos, if_neg}
use wb_test_task.Base.{
  ℕ, zero, suc, ◌+◌, ◌≤◌, ◌<◌, ◌≡◌, ◌≢◌, refl, arith, ap, ◌∙◌, none, some, [], ◌∷◌, ite, All,
  Bool-cases, inl, inr, true, false, if◌then◌else◌, Option,
}
use wb_test_task.Base.Text.{Text, text_discrete}
use wb_test_task.Base.Word.{inc64, sub64, nonpos64, int64_sign}
use wb_test_task.TextMap.{
  TextMap, lookup, insert, delete, count_of, entry, HasDistinctKeys, lookup-insert, lookup-delete,
  insert-HasDistinctKeys, delete-HasDistinctKeys,
}
use wb_test_task.Aggregator.Buckets.{subtract_count, subtract_counts, increment}

pub count_of-entry : (q : Text) (m : TextMap ℕ) (n : ℕ) → lookup q m ≡ entry n → count_of q m ≡ n
unfolding count_of
count_of-entry q m zero h = rw (count_of, h) refl
count_of-entry q m (suc n) h = rw (count_of, h) refl

nonpos64-zero : nonpos64 zero ≡ true
unfolding nonpos64
nonpos64-zero = refl

nonpos64-suc : (n : ℕ) → suc n < int64_sign → nonpos64 (suc n) ≡ false
unfolding nonpos64
nonpos64-suc n h = ground arith

sub64_add : (n c : ℕ) → n + c < int64_sign → sub64 (n + c) c ≡ n
unfolding sub64
sub64_add n c h = omega arith

subtract_count-eq :
    (counters : TextMap ℕ) (k : Text) (c n : ℕ)
    → lookup k counters ≡ entry (n + c)
    → n + c < int64_sign
    → subtract_count counters (k, c)
      ≡ (if nonpos64 n then delete k counters else insert k n counters)
unfolding subtract_count
subtract_count-eq counters k c n h b =
    rw (count_of-entry k counters (n + c) h, sub64_add n c b) refl

pub lookup-subtract_count :
    (counters : TextMap ℕ) (k q : Text) (c n : ℕ)
    → lookup k counters ≡ entry (n + c)
    → n + c < int64_sign
    → lookup q (subtract_count counters (k, c))
      ≡ ite (text_discrete k q) (entry n) (lookup q counters)
lookup-subtract_count counters k q c zero h b =
    rw (subtract_count-eq counters k c zero h b, nonpos64-zero) (lookup-delete k q counters)
lookup-subtract_count counters k q c (suc n) h b =
    rw (subtract_count-eq counters k c (suc n) h b, nonpos64-suc n (omega arith))
      (lookup-insert k q (suc n) counters)

-- The counts of a map are positive.
abbrev pub IsPositive : TextMap ℕ → Type 0
IsPositive = All (λ e. 0 < e.1)

count_of-cons :
    (q k : Text) (c : ℕ) (m : TextMap ℕ)
    → count_of q ((k, c) ∷ m) ≡ ite (text_discrete k q) c (count_of q m)
unfolding count_of lookup
count_of-cons q k c m = ground arith

count_of-none : (q : Text) (m : TextMap ℕ) → lookup q m ≡ none → count_of q m ≡ 0
unfolding count_of
count_of-none q m h = rw (count_of, h) refl

count_of-cons_self : (k : Text) (c : ℕ) (m : TextMap ℕ) → count_of k ((k, c) ∷ m) ≡ c
count_of-cons_self k c m = count_of-cons k k c m ∙ ground arith

count_of-cons_ne :
    (q k : Text) (c : ℕ) (m : TextMap ℕ) → k ≢ q → count_of q ((k, c) ∷ m) ≡ count_of q m
count_of-cons_ne q k c m p = count_of-cons q k c m ∙ if_neg (text_discrete k q) p c (count_of q m)

split_entry :
    (q k : Text) (c n n' : ℕ) (m : TextMap ℕ) (o : Option ℕ)
    → lookup k m ≡ none
    → o ≡ entry (n + count_of q ((k, c) ∷ m))
    → (k ≡ q → n' ≡ n)
    → ite (text_discrete k q) (entry n') o ≡ entry (n + count_of q m)
split_entry q k c n n' m o fresh h e = elim (text_discrete k q) [
  | yes p ↦
      let absent : count_of q m ≡ 0 = rw (← p) (count_of-none k m fresh) in
      rw (if_pos _ p) (ap entry (omega (arith, e p, absent)))
  | no p ↦ rw (if_neg _ p) (h ∙ ap (λ x. entry (n + x)) (count_of-cons_ne q k c m p))
]

count_of-tail-le :
    (q k : Text) (c : ℕ) (m : TextMap ℕ)
    → lookup k m ≡ none
    → count_of q m ≤ count_of q ((k, c) ∷ m)
count_of-tail-le q k c m fresh = elim (text_discrete k q) [
  | yes p ↦
      let absent : count_of q m ≡ 0 = rw (← p) (count_of-none k m fresh) in omega (arith, absent)
  | no p ↦ omega (arith, count_of-cons_ne q k c m p)
]

-- Subtracting a map of counts that is part of what the counters hold leaves the rest.
pub lookup-subtract_counts :
    (counts counters : TextMap ℕ) (f : Text → ℕ)
    → HasDistinctKeys counts
    → ((q : Text) → lookup q counters ≡ entry (f q + count_of q counts))
    → ((q : Text) → f q + count_of q counts < int64_sign)
    → (q : Text) → lookup q (subtract_counts counters counts) ≡ entry (f q)
unfolding subtract_counts
lookup-subtract_counts [] counters f d h b q =
    h q ∙ ap entry (omega (arith, count_of-none q [] (unfold lookup in refl)))
lookup-subtract_counts ((k, c) ∷ counts) counters f (fresh, d) h b q =
    let at_key : lookup k counters ≡ entry (f k + c) =
      h k ∙ ap (λ n. entry (f k + n)) (count_of-cons_self k c counts) in
    let room : f k + c < int64_sign = omega (arith, b k, count_of-cons_self k c counts) in
    lookup-subtract_counts counts (subtract_count counters (k, c)) f d
      (λ q.
        lookup-subtract_count counters k q c (f k) at_key room
        ∙ split_entry q k c (f q) (f k) counts (lookup q counters) fresh (h q) (ap f))
      (λ q. omega (arith, b q, count_of-tail-le q k c counts fresh)) q

inc64_small : (n : ℕ) → n + 1 < int64_sign → inc64 n ≡ suc n
unfolding inc64
inc64_small n h = omega arith

-- Incrementing one key.
pub lookup-increment :
    (counts : TextMap ℕ) (k q : Text) (n : ℕ)
    → lookup k counts ≡ entry n
    → n + 1 < int64_sign
    → lookup q (increment k counts) ≡ ite (text_discrete k q) (some (suc n)) (lookup q counts)
unfolding increment
lookup-increment counts k q n h b =
    rw (count_of-entry k counts n h, inc64_small n b) (lookup-insert k q (suc n) counts)

pub subtract_counts-HasDistinctKeys :
    (counts counters : TextMap ℕ)
    → HasDistinctKeys counters
    → HasDistinctKeys (subtract_counts counters counts)
unfolding subtract_counts subtract_count
subtract_counts-HasDistinctKeys [] counters d = d
subtract_counts-HasDistinctKeys ((k, c) ∷ counts) counters d =
    elim (Bool-cases (nonpos64 (sub64 (count_of k counters) c))) [
      | inl e ↦
          subtract_counts-HasDistinctKeys counts _ (rw e (delete-HasDistinctKeys k counters d))
      | inr e ↦
          subtract_counts-HasDistinctKeys counts _
            (rw e (insert-HasDistinctKeys k (sub64 (count_of k counters) c) counters d))
    ]
