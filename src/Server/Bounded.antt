-- ===== src/Server/Bounded.antt =====
-- How long the answers of GetTop are.
use wb_test_task.Base.{
  ℕ, zero, suc, ◌≤◌, ◌<◌, ◌≡◌, ap, Bool, true, false, Option, none, some, List, [], ◌∷◌, length,
  take, ltb, if◌then◌else◌, arith, inl, inr, ◌⊎◌, Bool-cases, ℕ_discrete, subst,
}
use wb_test_task.Base.Int.{ℤ, pos, pos_part, ltb_ℤ, ◌≤ℤ◌}
use wb_test_task.Base.Word.{nonpos64}
use wb_test_task.Runtime.{Context}
use wb_test_task.Aggregator.Types.{Config, InMemoryAggregator}
use wb_test_task.Aggregator.Top.{TopItem}
use wb_test_task.Aggregator.{snapshot, get_top, normalize_limit}
use wb_test_task.Aggregator.Serving.{cut, pos_part_mono, normalize_limit-max}
use wb_test_task.Server.{
  Reply, replied, rejected, Status, GetTopResponse, get_top_response, shown_items, top_reply,
  requested, max_int,
}

length-shown_items : (items : List TopItem) → length (shown_items items) ≤ length items
unfolding shown_items
length-shown_items [] = omega arith
length-shown_items (x ∷ items) = elim (Bool-cases (nonpos64 x.count)) [
  | inl e ↦ rw e (omega (arith, length-shown_items items))
  | inr e ↦ rw e (omega (arith, length-shown_items items))
]

length-take_le : (n : ℕ) (items : List TopItem) → length (take n items) ≤ n
length-take_le zero items = omega arith
length-take_le (suc n) [] = omega arith
length-take_le (suc n) (x ∷ items) = omega (arith, length-take_le n items)

length-cut : (bound : ℤ) (items : List TopItem) → length (cut bound items) ≤ pos_part bound
length-cut bound items = elim (Bool-cases (ltb_ℤ bound (pos (length items)))) [
  | inl e ↦ rw e (length-take_le (pos_part bound) items)
  | inr e ↦ rw e (ground arith)
]

normalize_limit-asked : (cfg : Config) (n : ℕ) → 0 < n → pos_part (normalize_limit cfg (pos n)) ≤ n
unfolding normalize_limit
normalize_limit-asked cfg n h = ground arith

abbrev reply_items : Reply GetTopResponse → List TopItem
reply_items (rejected s) = []
reply_items (replied r) = r.items

let_through :
    (b : Bool) (s : Status) (x : Reply GetTopResponse) (r : GetTopResponse)
    → (if b then rejected s else x) ≡ replied r
    → x ≡ replied r
let_through true s x r h = cc
let_through false s x r h = h

abbrev bound_of : Option ℕ → InMemoryAggregator → ℤ
bound_of request a = normalize_limit a.cfg (pos (requested request))

items_of :
    (ctx : Context) (request : Option ℕ) (a : InMemoryAggregator) (r : GetTopResponse)
    → top_reply (snapshot ctx (pos (requested request)) a) ≡ replied r
    → shown_items (cut (bound_of request a) a.top_cache) ≡ r.items
unfolding snapshot get_top
items_of none request a r h = ap reply_items h
items_of (some e) request a r h = cc

-- GetTop never replies with more items than the maximum of the configuration, nor with more than a
-- request asks for that asks for any, if the default limit is not above the maximum.
pub length-get_top_response :
    (ctx : Context) (request : Option ℕ) (a : InMemoryAggregator) (r : GetTopResponse)
    → a.cfg.default_limit ≤ℤ a.cfg.max_limit
    → get_top_response ctx request a ≡ replied r
    → (length r.items ≤ pos_part a.cfg.max_limit)
      × ((requested request ≡ 0) ⊎ (length r.items ≤ requested request))
unfolding get_top_response
length-get_top_response ctx request a r d h =
    let same = items_of ctx request a r (
      let_through (ltb max_int (requested request)) _
        (top_reply (snapshot ctx (pos (requested request)) a)) r h) in
    let bound = bound_of request a in
    let most : length r.items ≤ pos_part bound =
      subst (λ items. length items ≤ pos_part bound) same
        (omega (arith, length-shown_items (cut bound a.top_cache), length-cut bound a.top_cache)) in
    let below : pos_part bound ≤ pos_part a.cfg.max_limit =
      pos_part_mono bound a.cfg.max_limit (normalize_limit-max a.cfg (pos (requested request)) d) in
    (
      omega (arith, most, below),
      elim (ℕ_discrete (requested request) 0) [
        | yes e ↦ inl e
        | no n ↦
            let asked = normalize_limit-asked a.cfg (requested request) (omega (arith, n)) in
            inr (omega (arith, most, asked))
      ],
    )
