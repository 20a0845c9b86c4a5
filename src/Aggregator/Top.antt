-- ===== src/Aggregator/Top.antt =====
-- internal/aggregator/aggregator.go: buildTop, sortTop, isBetter and topItemHeap, with the functions
-- of Go's container/heap and sort packages that they call. An index is below the length wherever an
-- item is read, so the item that `item_at` gives out of range is never used.
pub mod Rounds
pub mod Order
pub mod Slice
pub mod Sift
pub mod SiftDown
pub mod Pushed
pub mod Rank
pub mod Best
pub mod Offered
pub mod Ranked
use wb_test_task.Base.{
  ℕ, zero, suc, ◌+◌, ◌-◌, ◌*◌, ◌/◌, Bool, not, ◌&&◌, ◌||◌, List, [], ◌∷◌, ◌++◌, length, set, ltb,
  leb, ◌==◌, if◌then◌else◌,
}
use wb_test_task.Base.Int.{ℤ, pos, pos_part, leb_ℤ}
use wb_test_task.Base.Text.{Text, text_less}
use wb_test_task.Base.Word.{less64, nonpos64}
use wb_test_task.TextMap.{TextMap}

pub record TopItem : Type 0 where
  pub query : Text
  pub count : ℕ

-- isBetter
unfoldable pub is_better : TopItem → TopItem → Bool
is_better left right =
    if left.count == right.count
    then text_less left.query right.query
    else less64 right.count left.count

-- h[i]
unfoldable pub item_at : List TopItem → ℕ → TopItem
item_at [] i = record { query = []; count = 0 }
item_at (x ∷ h) zero = x
item_at (x ∷ h) (suc i) = item_at h i

-- topItemHeap.Less
unfoldable pub less : List TopItem → ℕ → ℕ → Bool
less h i j =
    if (item_at h i).count == (item_at h j).count
    then text_less (item_at h j).query (item_at h i).query
    else less64 (item_at h i).count (item_at h j).count

-- topItemHeap.Swap
unfoldable pub swap : List TopItem → ℕ → ℕ → List TopItem
swap h i j = set (set h i (item_at h j)) j (item_at h i)

-- topItemHeap.Push
unfoldable pub append_item : List TopItem → TopItem → List TopItem
append_item h value = h ++ value ∷ []

-- the loop of `up` in container/heap; the index falls in every round
unfoldable pub up_loop : ℕ → List TopItem → ℕ → List TopItem
up_loop zero h j = h
up_loop (suc fuel) h j =
    let i = (j - 1) / 2 in
    let rest = up_loop fuel (swap h i j) i in if i == j || not (less h j i) then h else rest

-- the child that `down` compares with the item at i
unfoldable pub worse_child : List TopItem → ℕ → ℕ
worse_child h i =
    let left = 2 * i + 1 in
    let right = left + 1 in if ltb right (length h) && less h right left then right else left

-- the loop of `down` in container/heap over the whole slice: the slice, and the last index
unfoldable pub down_loop : ℕ → List TopItem → ℕ → List TopItem × ℕ
down_loop zero h i = (h, i)
down_loop (suc fuel) h i =
    let j = worse_child h i in
    let rest = down_loop fuel (swap h i j) j in
    if leb (length h) (2 * i + 1) then (h, i) else if not (less h j i) then (h, i) else rest

-- heap.Push
unfoldable pub heap_push : List TopItem → TopItem → List TopItem
unfolding up_loop append_item less swap
heap_push h x = let grown = append_item h x in up_loop (length grown) grown (length grown - 1)

-- heap.Fix
unfoldable pub heap_fix : List TopItem → ℕ → List TopItem
unfolding up_loop down_loop worse_child less swap
heap_fix h i =
    let (h', i') = down_loop (length h + 1) h i in if ltb i i' then h' else up_loop (i + 1) h' i

-- sort.Slice by isBetter: a sort by comparisons, of which the result alone is relied on
unfoldable pub insert_item : TopItem → List TopItem → List TopItem
insert_item x [] = x ∷ []
insert_item x (y ∷ items) = if is_better x y then x ∷ y ∷ items else y ∷ insert_item x items

-- sortTop
unfoldable pub sort_top : List TopItem → List TopItem
sort_top [] = []
sort_top (x ∷ items) = insert_item x (sort_top items)

-- one round of the loop of buildTop
unfoldable pub offer : ℕ → List TopItem → Text × ℕ → List TopItem
unfolding heap_push heap_fix
offer limit candidates (query, count) =
    let item : TopItem = record { query = query; count = count } in
    if nonpos64 count
    then candidates
    else if ltb (length candidates) limit
    then heap_push candidates item
    else if is_better item (item_at candidates 0)
    then heap_fix (set candidates 0 item) 0
    else candidates

unfoldable pub offer_all : ℕ → List TopItem → TextMap ℕ → List TopItem
offer_all limit candidates [] = candidates
offer_all limit candidates (e ∷ counters) = offer_all limit (offer limit candidates e) counters

-- buildTop
unfoldable pub build_top : TextMap ℕ → ℤ → List TopItem
unfolding offer_all offer sort_top insert_item is_better item_at
build_top counters limit =
    if leb_ℤ limit (pos 0) || length counters == 0
    then []
    else sort_top (offer_all (pos_part limit) [] counters)
