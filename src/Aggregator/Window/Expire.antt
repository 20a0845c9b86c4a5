-- ===== src/Aggregator/Window/Expire.antt =====
-- expireLocked moves the window: it clears the buckets before the new first second, and takes what
-- they hold off the counters.
use mathlib.Core.Option.{some-injective}
use wb_test_task.Base.{
  ℕ, zero, suc, ◌≡◌, ◌≢◌, refl, sym, ap, ◌∙◌, true, false, some, none, Option, List, [], ◌∷◌,
  length, get_elem?, if◌then◌else◌, arith, inl, inr, ◌⊎◌, Bool-cases, ◌||◌,
}
use wb_test_task.Base.Int.{ℤ, pos, negsuc, ◌≤ℤ◌, ◌<ℤ◌, ltb_ℤ, int_laws}
use wb_test_task.Base.Text.{Text}
use wb_test_task.TextMap.{TextMap, lookup, entry, HasDistinctKeys}
use wb_test_task.Aggregator.Types.{Bucket}
use wb_test_task.Aggregator.Buckets.{
  entries, cleared, is_nil, is_zero_second, expire_bucket, expire_buckets,
}
use wb_test_task.Aggregator.Window.{History, occurrences, IsBucket}

abbrev freed : Bucket → Bucket
freed b = record { unix_second = pos 0; counts = cleared b.counts }

-- What a round of expireLocked makes of a bucket.
unfoldable pub expired_bucket : ℤ → Bucket → Bucket
expired_bucket lo b =
    if is_nil b.counts || is_zero_second b.unix_second
    then b
    else if ltb_ℤ b.unix_second lo
    then freed b
    else b

is_zero_second-eq : (s : ℤ) → is_zero_second s ≡ true → s ≡ pos 0
unfolding is_zero_second
is_zero_second-eq (pos zero) h = refl
is_zero_second-eq (pos (suc n)) h = cc
is_zero_second-eq (negsuc n) h = cc

is_zero_second-ne : (s : ℤ) → is_zero_second s ≡ false → s ≢ pos 0
unfolding is_zero_second
is_zero_second-ne s h e = cc (ap is_zero_second e)

pub expire_bucket-bucket :
    (lo : ℤ) (b : Bucket) (c : TextMap ℕ) → (expire_bucket lo b c).0 ≡ expired_bucket lo b
unfolding expire_bucket expired_bucket
expire_bucket-bucket lo b c = ground arith

-- Either the bucket stays, free or in the window, or it is of a second before the window.
pub expired_bucket-cases :
    (lo : ℤ) (b : Bucket)
    → ((expired_bucket lo b ≡ b)
        × ((is_nil b.counts ≡ true) ⊎ ((b.unix_second ≡ pos 0) ⊎ (lo ≤ℤ b.unix_second))))
      ⊎ ((expired_bucket lo b ≡ freed b) × (b.unix_second <ℤ lo) × (b.unix_second ≢ pos 0))
unfolding expired_bucket
expired_bucket-cases lo b = elim (Bool-cases (is_nil b.counts)) [
  | inl nil ↦ inl (rw nil, inl nil)
  | inr full ↦ elim (Bool-cases (is_zero_second b.unix_second)) [
    | inl free ↦ inl (rw (full, free), inr (inl (is_zero_second-eq b.unix_second free)))
    | inr used ↦ elim (Bool-cases (ltb_ℤ b.unix_second lo)) [
      | inl old ↦ inr (rw (full, used, old), ground arith, is_zero_second-ne b.unix_second used)
      | inr new ↦ inl (rw (full, used, new), inr (inr (ground arith)))
    ]
  ]
]

pub lookup_freed : (o : Option (TextMap ℕ)) (q : Text) → lookup q (entries (cleared o)) ≡ none
unfolding lookup
lookup_freed none q = refl
lookup_freed (some m) q = refl

distinct_freed : (o : Option (TextMap ℕ)) → HasDistinctKeys (entries (cleared o))
distinct_freed none = tt
distinct_freed (some m) = tt

still_inside :
    (lo : ℤ) (b : Bucket)
    → (is_nil b.counts ≡ true → b.unix_second ≡ pos 0)
    → (is_nil b.counts ≡ true) ⊎ ((b.unix_second ≡ pos 0) ⊎ (lo ≤ℤ b.unix_second))
    → b.unix_second ≢ pos 0
    → lo ≤ℤ b.unix_second
still_inside lo b fresh (inl nil) nz = absurd (nz (fresh nil))
still_inside lo b fresh (inr (inl z)) nz = absurd (nz z)
still_inside lo b fresh (inr (inr p)) nz = p

module _ (n : ℕ) (lo lo' : ℤ) (h : History) (forward : lo ≤ℤ lo')
    (nonzero : (q : Text) → occurrences h (pos 0) q ≡ 0) where
  pub expired_bucket-IsBucket :
      (i : ℕ) (b : Bucket) → IsBucket n lo h i b → IsBucket n lo' h i (expired_bucket lo' b)
  expired_bucket-IsBucket i b v = elim (expired_bucket-cases lo' b) [
    | inl (e, reason) ↦ rw e (record {
      counted = v.counted;
      distinct = v.distinct;
      fresh = v.fresh;
      placed = v.placed;
      after = λ nz. still_inside lo' b v.fresh reason nz;
      before = λ nz. omega (int_laws, v.before nz);
    })
    | inr (e, old, nz) ↦ rw e (record {
      counted = λ q. lookup_freed b.counts q ∙ ap entry (sym (nonzero q));
      distinct = distinct_freed b.counts;
      fresh = λ _. refl;
      placed = λ z. absurd (z refl);
      after = λ z. absurd (z refl);
      before = λ z. absurd (z refl);
    })
  ]

abbrev pub swept : ℤ → List Bucket → TextMap ℕ → List Bucket
swept lo buckets counters = (expire_buckets lo buckets counters).0

pub length-swept : (lo : ℤ) (bs : List Bucket) (c : TextMap ℕ) → length (swept lo bs c) ≡ length bs
unfolding expire_buckets
length-swept lo [] c = refl
length-swept lo (b ∷ bs) c = ap suc (length-swept lo bs (expire_bucket lo b c).1)

pub get_elem?-swept :
    (lo : ℤ) (bs : List Bucket) (c : TextMap ℕ) (i : ℕ) (b : Bucket)
    → get_elem? bs i ≡ some b
    → get_elem? (swept lo bs c) i ≡ some (expired_bucket lo b)
unfolding expire_buckets
get_elem?-swept lo [] c i b e = cc
get_elem?-swept lo (d ∷ bs) c zero b e =
    ap some (expire_bucket-bucket lo d c ∙ ap (expired_bucket lo) (some-injective _ _ e))
get_elem?-swept lo (d ∷ bs) c (suc i) b e = get_elem?-swept lo bs (expire_bucket lo d c).1 i b e

pub swept-get_elem? :
    (lo : ℤ) (bs : List Bucket) (c : TextMap ℕ) (i : ℕ) (b' : Bucket)
    → get_elem? (swept lo bs c) i ≡ some b'
    → (b : Bucket) × (get_elem? bs i ≡ some b) × (expired_bucket lo b ≡ b')
unfolding expire_buckets
swept-get_elem? lo [] c i b' e = cc
swept-get_elem? lo (d ∷ bs) c zero b' e =
    (d, refl, sym (expire_bucket-bucket lo d c) ∙ some-injective _ _ e)
swept-get_elem? lo (d ∷ bs) c (suc i) b' e = swept-get_elem? lo bs (expire_bucket lo d c).1 i b' e
