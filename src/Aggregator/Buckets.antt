-- ===== src/Aggregator/Buckets.antt =====
-- internal/aggregator/aggregator.go: the ring of buckets and its counters (bucketIndex,
-- clearBucketLocked, the loop of expireLocked, and the writes of Add).
use wb_test_task.Base.{
  ℕ, zero, suc, Bool, true, false, ◌||◌, ite, Option, none, some, List, [], ◌∷◌, if◌then◌else◌,
}
use wb_test_task.Base.Int.{ℤ, pos, pos_part, ◌+ℤ◌, ltb_ℤ, ℤ_discrete, rem}
use wb_test_task.Base.Text.{Text}
use wb_test_task.Base.Word.{inc64, sub64, nonpos64}
use wb_test_task.TextMap.{TextMap, insert, delete, count_of}
use wb_test_task.Aggregator.Types.{Bucket}

-- bucketIndex
unfoldable pub bucket_index : ℤ → ℕ → ℕ
unfolding rem ◌+ℤ◌
bucket_index unix_second bucket_count =
    let index = rem unix_second bucket_count in
    pos_part (if ltb_ℤ index (pos 0) then index +ℤ pos bucket_count else index)

-- one round of the loop of clearBucketLocked
unfoldable pub subtract_count : TextMap ℕ → Text × ℕ → TextMap ℕ
subtract_count counters (query, count) =
    let next_count = sub64 (count_of query counters) count in
    if nonpos64 next_count then delete query counters else insert query next_count counters

unfoldable pub subtract_counts : TextMap ℕ → TextMap ℕ → TextMap ℕ
unfolding subtract_count
subtract_counts counters [] = counters
subtract_counts counters (e ∷ counts) = subtract_counts (subtract_count counters e) counts

-- the entries of a map, of which nil has none
abbrev pub entries : Option (TextMap ℕ) → TextMap ℕ
entries none = []
entries (some counts) = counts

-- clear(m), which leaves a nil map as it is
abbrev pub cleared : Option (TextMap ℕ) → Option (TextMap ℕ)
cleared none = none
cleared (some counts) = some []

-- clearBucketLocked: the bucket and the counters
unfoldable pub clear_bucket_locked : Bucket → TextMap ℕ → Bucket × TextMap ℕ
unfolding subtract_counts
clear_bucket_locked b counters = (
  record { unix_second = pos 0; counts = cleared b.counts },
  subtract_counts counters (entries b.counts),
)

abbrev pub is_nil : Option (TextMap ℕ) → Bool
is_nil none = true
is_nil (some counts) = false

unfoldable pub is_zero_second : ℤ → Bool
is_zero_second (pos zero) = true
is_zero_second _ = false

-- one round of the loop of expireLocked: the bucket, the counters, and whether it has expired
unfoldable pub expire_bucket : ℤ → Bucket → TextMap ℕ → Bucket × TextMap ℕ × Bool
unfolding clear_bucket_locked is_zero_second
expire_bucket cutoff_second b counters =
    if is_nil b.counts || is_zero_second b.unix_second
    then (b, counters, false)
    else if ltb_ℤ b.unix_second cutoff_second
    then (let (b', counters') = clear_bucket_locked b counters in (b', counters', true))
    else (b, counters, false)

unfoldable pub expire_buckets : ℤ → List Bucket → TextMap ℕ → List Bucket × TextMap ℕ × Bool
unfolding expire_bucket
expire_buckets cutoff_second [] counters = ([], counters, false)
expire_buckets cutoff_second (b ∷ buckets) counters =
    let (b', counters', expired) = expire_bucket cutoff_second b counters in
    let (buckets', counters'', more) = expire_buckets cutoff_second buckets counters' in
    (b' ∷ buckets', counters'', expired || more)

-- counts, allocated if nil
abbrev pub allocated : Option (TextMap ℕ) → Option (TextMap ℕ)
allocated none = some []
allocated (some counts) = some counts

-- what Add does to the bucket of an event before it counts it
unfoldable pub claim_bucket : ℤ → Bucket → TextMap ℕ → Bucket × TextMap ℕ
unfolding clear_bucket_locked
claim_bucket event_second b counters =
    let b' = record b { counts = allocated b.counts } in
    ite (ℤ_discrete b'.unix_second event_second) (b', counters)
      (let (b'', counters') = clear_bucket_locked b' counters in
        (record b'' { unix_second = event_second }, counters'))

-- counts[query]++
unfoldable pub increment : Text → TextMap ℕ → TextMap ℕ
increment query counts = insert query (inc64 (count_of query counts)) counts

-- the event's bucket claimed and counted, with the counters
unfoldable pub count_in_bucket : ℤ → Text → Bucket → TextMap ℕ → Bucket × TextMap ℕ
unfolding claim_bucket increment
count_in_bucket event_second query b counters =
    let (b', counters') = claim_bucket event_second b counters in
    (record b' { counts = some (increment query (entries b'.counts)) }, increment query counters')

-- Add's writes at the index of the event; an index out of range does not occur, and panics in Go
unfoldable pub count_event : ℤ → Text → ℕ → List Bucket → TextMap ℕ → List Bucket × TextMap ℕ
unfolding count_in_bucket
count_event event_second query zero [] counters = ([], counters)
count_event event_second query (suc i) [] counters = ([], counters)
count_event event_second query zero (b ∷ buckets) counters =
    let (b', counters') = count_in_bucket event_second query b counters in (b' ∷ buckets, counters')
count_event event_second query (suc i) (b ∷ buckets) counters =
    let (buckets', counters') = count_event event_second query i buckets counters in
    (b ∷ buckets', counters')
