-- ===== src/Aggregator/Top/Order.antt =====
-- The order of the top list: more counts first, then by query. On counts below 2 ^ 63 isBetter is a
-- strict total order.
use wb_test_task.Base.{
  ◌<◌, ◌≡◌, Bool, true, false, ltb, ◌==◌, if◌then◌else◌, arith, ◌⊎◌, inl, inr, ℕ_discrete,
}
use wb_test_task.Base.Text.{text_less, text_less_irrefl, text_less_trans, text_less_total}
use wb_test_task.Base.Word.{int64_sign, less64_pos}
use wb_test_task.Aggregator.Top.{TopItem, is_better}

abbrev pub IsSmall : TopItem → Type 0
IsSmall x = x.count < int64_sign

-- isBetter over counts as they are.
unfoldable pub better : TopItem → TopItem → Bool
better left right =
    if left.count == right.count
    then text_less left.query right.query
    else ltb right.count left.count

pub is_better-eq : (x y : TopItem) → IsSmall x → IsSmall y → is_better x y ≡ better x y
unfolding is_better better
is_better-eq x y hx hy = ground (arith, less64_pos y.count x.count hy hx)

pub better_irrefl : (x : TopItem) → better x x ≡ false
unfolding better
better_irrefl x = ground (arith, text_less_irrefl x.query)

pub better_trans : (x y z : TopItem) → better x y ≡ true → better y z ≡ true → better x z ≡ true
unfolding better
better_trans x y z p q = ground (arith, text_less_trans x.query y.query z.query)

item_path : (x y : TopItem) → x.query ≡ y.query → x.count ≡ y.count → x ≡ y
item_path x y p q = λ i. record { query = p i; count = q i }

by_query :
    {x y : TopItem}
    → x.count ≡ y.count
    → (text_less x.query y.query ≡ true)
      ⊎ ((x.query ≡ y.query) ⊎ (text_less y.query x.query ≡ true))
    → (better x y ≡ true) ⊎ ((x ≡ y) ⊎ (better y x ≡ true))
unfolding better
by_query e (inl p) = inl (ground arith)
by_query {x} {y} e (inr (inl p)) = inr (inl (item_path x y p e))
by_query e (inr (inr p)) = inr (inr (ground arith))

pub better_total : (x y : TopItem) → (better x y ≡ true) ⊎ ((x ≡ y) ⊎ (better y x ≡ true))
unfolding better
better_total x y = elim (ℕ_discrete x.count y.count) [
  | yes e ↦ by_query e (text_less_total x.query y.query)
  | no ne ↦ ground arith
]

pub better_asym : (x y : TopItem) → better x y ≡ true → better y x ≡ false
better_asym x y p = ground (arith, better_irrefl x, better_trans x y x)

-- "not better than" is an order: a worse item goes towards the root of the heap.
pub worse_trans : (x y z : TopItem) → better x y ≡ false → better y z ≡ false → better x z ≡ false
worse_trans x y z p q =
    ground (arith, better_total y x, better_total y z, better_trans y x z, better_trans x y z)
