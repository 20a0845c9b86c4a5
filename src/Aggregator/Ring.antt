-- ===== src/Aggregator/Ring.antt =====
-- The arithmetic of bucketIndex: which seconds share a bucket.
use native.Mathlib.Nat.{mod-lt, mod-eq_of_lt}
use wb_test_task.Base.{ℕ, zero, suc, ◌+◌, ◌-◌, ◌%◌, ◌≤◌, ◌<◌, ◌≡◌, arith, ap, sym, ◌∙◌}
use wb_test_task.Base.Int.{ℤ, pos, negsuc, ◌+ℤ◌, ◌-ℤ◌, ◌≤ℤ◌, ◌<ℤ◌, floor_mod}
use wb_test_task.Aggregator.Buckets.{bucket_index}

suc_rem : (n k : ℕ) → 0 < k → suc n % k ≡ 0 → n % k ≡ k - 1
suc_rem n k h e = grind arith

suc_rem_pos : (n k : ℕ) → 0 < k → 0 < suc n % k → n % k + 1 ≡ suc n % k
suc_rem_pos n k h p = grind arith

bucket_index-eq-floor_mod : (s : ℤ) (k : ℕ) → 0 < k → bucket_index s k ≡ floor_mod s k
unfolding bucket_index floor_mod ◌-ℤ◌
bucket_index-eq-floor_mod (pos n) k h = ground arith
bucket_index-eq-floor_mod (negsuc n) k h =
    ground (arith, suc_rem n k h, suc_rem_pos n k h, mod-lt (suc n) h)

floor_mod-lt : (s : ℤ) (k : ℕ) → 0 < k → floor_mod s k < k
unfolding floor_mod
floor_mod-lt (pos n) k h = omega arith
floor_mod-lt (negsuc n) k h = omega arith

same_rem : (a b k : ℕ) → a % k ≡ b % k → a ≤ b → b < a + k → a ≡ b
same_rem a b k e h p = grind arith

mixed_rem : (a b k : ℕ) → suc a + b < k → k - 1 - a % k ≡ b % k → ⊥
mixed_rem a b k h e =
    omega (
      arith,
      mod-eq_of_lt {n = a} {m = k} (omega arith),
      mod-eq_of_lt {n = b} {m = k} (omega arith),
    )

negative_rem : (a b k : ℕ) → 0 < k → k - 1 - a % k ≡ k - 1 - b % k → b ≤ a → a < b + k → b ≡ a
negative_rem a b k h e p q = same_rem b a k (omega (arith, mod-lt a h, mod-lt b h)) p q

floor_mod_window :
    (a b : ℤ) (k : ℕ) → floor_mod a k ≡ floor_mod b k → a ≤ℤ b → b <ℤ a +ℤ pos k → a ≡ b
unfolding floor_mod ◌+ℤ◌
floor_mod_window (pos a) (pos b) k e h p = ap pos (same_rem a b k e (omega arith) (ground arith))
floor_mod_window (pos a) (negsuc b) k e h p = absurd (omega arith)
floor_mod_window (negsuc a) (pos b) k e h p = absurd (mixed_rem a b k (ground arith) e)
floor_mod_window (negsuc a) (negsuc b) k e h p =
    ap negsuc (sym (negative_rem a b k (ground arith) e (omega arith) (ground arith)))

pub bucket_index-lt : (s : ℤ) (k : ℕ) → 0 < k → bucket_index s k < k
bucket_index-lt s k h = rw (bucket_index-eq-floor_mod s k h) (floor_mod-lt s k h)

-- Two seconds of one bucket that are less than a turn of the ring apart are the same.
pub bucket_index_window :
    (a b : ℤ) (k : ℕ) → bucket_index a k ≡ bucket_index b k → a ≤ℤ b → b <ℤ a +ℤ pos k → a ≡ b
unfolding ◌+ℤ◌
bucket_index_window a b zero e h p = absurd (ground arith)
bucket_index_window a b (suc k) e h p =
    floor_mod_window a b (suc k)
      (sym (bucket_index-eq-floor_mod a (suc k) (omega arith))
        ∙ e
        ∙ bucket_index-eq-floor_mod b (suc k) (omega arith))
      h p
