-- ===== src/Aggregator/Window.antt =====
-- The ring of buckets against the history of the events that were counted.
pub mod Expire
pub mod Expired
pub mod Count
pub mod Counted
pub mod Since
use wb_test_task.Base.{
  ℕ, zero, suc, ◌+◌, ◌≤◌, ◌<◌, ◌≡◌, ◌≢◌, refl, ite, Bool, true, false, some, none, Option, List, [],
  ◌∷◌, length, get_elem?, if◌then◌else◌,
}
use wb_test_task.Base.Int.{ℤ, pos, ◌+ℤ◌, ◌≤ℤ◌, ◌<ℤ◌, leb_ℤ, ℤ_discrete}
use wb_test_task.Base.Text.{Text, text_discrete}
use wb_test_task.TextMap.{TextMap, lookup, entry, count_of, HasDistinctKeys}
use wb_test_task.Aggregator.Types.{Bucket}
use wb_test_task.Aggregator.Buckets.{bucket_index, entries, is_nil}

-- The events that were counted, the last one first: the second of the bucket, and the query.
abbrev pub History : Type 0
History = List (ℤ × Text)

abbrev pub one_if {ℓ} : {A : Type ℓ} → Dec A → ℕ
one_if d = ite d 1 0

-- How often a query was counted in a second.
unfoldable pub occurrences : History → ℤ → Text → ℕ
occurrences [] s q = 0
occurrences ((t, r) ∷ h) s q =
    ite (ℤ_discrete t s) (one_if (text_discrete r q)) 0 + occurrences h s q

-- How often a query was counted in the seconds from `lo` on.
unfoldable pub since : History → ℤ → Text → ℕ
since [] lo q = 0
since ((t, r) ∷ h) lo q = (if leb_ℤ lo t then one_if (text_discrete r q) else 0) + since h lo q

-- What the buckets hold of a query.
unfoldable pub total : Text → List Bucket → ℕ
total q [] = 0
total q (b ∷ buckets) = count_of q (entries b.counts) + total q buckets

-- What holds of the bucket at index i: it counts exactly the events of its second, and if it is in
-- use then it stands at the index of its second, which lies in the window.
pub record IsBucket (n : ℕ) (lo : ℤ) (h : History) (i : ℕ) (b : Bucket) : Type 0 where
  pub counted : (q : Text) → lookup q (entries b.counts) ≡ entry (occurrences h b.unix_second q)
  pub distinct : HasDistinctKeys (entries b.counts)
  pub fresh : is_nil b.counts ≡ true → b.unix_second ≡ pos 0
  pub placed : b.unix_second ≢ pos 0 → bucket_index b.unix_second n ≡ i
  pub after : b.unix_second ≢ pos 0 → lo ≤ℤ b.unix_second
  pub before : b.unix_second ≢ pos 0 → b.unix_second <ℤ lo +ℤ pos n

abbrev pub AreBuckets : ℕ → ℤ → History → List Bucket → Type 0
AreBuckets n lo h buckets =
    (i : ℕ) (b : Bucket) → get_elem? buckets i ≡ some b → IsBucket n lo h i b

-- The events of the window have their bucket, and none is of the second 0, which marks a free one.
pub record IsKept (n : ℕ) (lo : ℤ) (h : History) (buckets : List Bucket) : Type 0 where
  pub kept :
      (s : ℤ) (q : Text)
      → 0 < occurrences h s q
      → lo ≤ℤ s
      → (b : Bucket) × (get_elem? buckets (bucket_index s n) ≡ some b) × (b.unix_second ≡ s)
  pub nonzero : (q : Text) → occurrences h (pos 0) q ≡ 0

-- The counters hold what the buckets hold together.
pub record AreCounters (counters : TextMap ℕ) (buckets : List Bucket) : Type 0 where
  pub summed : (q : Text) → lookup q counters ≡ entry (total q buckets)
  pub keys : HasDistinctKeys counters

-- The buckets and counters of a window of n seconds from `lo` on, after the events of a history.
pub record IsWindow (n : ℕ) (lo : ℤ) (h : History) (buckets : List Bucket) (counters : TextMap ℕ)
    : Type 0 where
  pub sized : length buckets ≡ n
  pub buckets_hold : AreBuckets n lo h buckets
  pub history_held : IsKept n lo h buckets
  pub counters_hold : AreCounters counters buckets
