-- ===== src/Aggregator/Serving.antt =====
-- RebuildTop and GetTop together: what a reader of the top list is given.
use wb_test_task.Base.{
  ℕ, zero, suc, ◌≤◌, ◌≡◌, refl, sym, ap, ◌∙◌, true, none, List, [], ◌∷◌, length, take,
  if◌then◌else◌, arith, inl, inr, Bool-cases,
}
use wb_test_task.Base.Int.{ℤ, pos, negsuc, pos_part, ◌≤ℤ◌, ltb_ℤ}
use wb_test_task.Runtime.{Time, ok}
use wb_test_task.Aggregator.Types.{Config, InMemoryAggregator}
use wb_test_task.Aggregator.Top.{TopItem}
use wb_test_task.Aggregator.Top.Rank.{ranking, take-all}
use wb_test_task.Aggregator.Top.Best.{best, positive_items, AreCounts}
use wb_test_task.Aggregator.Top.Ranked.{build_top-eq-best}
use wb_test_task.Aggregator.{
  expire_locked, normalize_limit, get_top, rebuild_locked, set_counter_metrics_locked,
}

take-take_less : (m n : ℕ) (s : List TopItem) → m ≤ n → take m (take n s) ≡ take m s
take-take_less zero n s h = refl
take-take_less (suc m) zero s h = absurd (omega arith)
take-take_less (suc m) (suc n) [] h = refl
take-take_less (suc m) (suc n) (x ∷ s) h = ap (λ t. x ∷ t) (take-take_less m n s (omega arith))

pub pos_part_mono : (a b : ℤ) → a ≤ℤ b → pos_part a ≤ pos_part b
pos_part_mono (pos a) (pos b) h = omega (arith, h)
pos_part_mono (pos a) (negsuc b) h = omega (arith, h)
pos_part_mono (negsuc a) b h = omega arith

-- the items that GetTop gives out of a list
abbrev pub cut : ℤ → List TopItem → List TopItem
cut bound items = if ltb_ℤ bound (pos (length items)) then take (pos_part bound) items else items

pub cut-take :
    (bound most : ℤ) (s : List TopItem)
    → bound ≤ℤ most
    → cut bound (take (pos_part most) s) ≡ take (pos_part bound) s
cut-take bound most s h =
    let same = take-take_less (pos_part bound) (pos_part most) s (pos_part_mono bound most h) in
    elim (Bool-cases (ltb_ℤ bound (pos (length (take (pos_part most) s))))) [
      | inl e ↦ rw e same
      | inr e ↦
          rw e (sym (take-all (pos_part bound) (take (pos_part most) s) (ground arith)) ∙ same)
    ]

pub normalize_limit-max :
    (cfg : Config) (limit : ℤ)
    → cfg.default_limit ≤ℤ cfg.max_limit
    → normalize_limit cfg limit ≤ℤ cfg.max_limit
unfolding normalize_limit
normalize_limit-max cfg limit h = ground arith

-- After RebuildTop at time `now` on an aggregator whose counters have changed, with counts below
-- 2 ^ 63 and a default limit that is not above the maximum, GetTop answers, for the limit that it makes
-- of the requested one, with the best of the counters as they are, and with `now`.
pub get_top-rebuild_locked :
    (a : InMemoryAggregator) (now : Time) (limit : ℤ)
    → a.dirty ≡ true
    → AreCounts (expire_locked a now).0.counters
    → a.cfg.default_limit ≤ℤ a.cfg.max_limit
    → get_top none limit (rebuild_locked now a)
      ≡ ok (best (expire_locked a now).0.counters (normalize_limit a.cfg limit), now)
unfolding get_top rebuild_locked set_counter_metrics_locked expire_locked
get_top-rebuild_locked a now limit d v h =
    let m = a.cfg.max_limit in
    let counters = (expire_locked a now).0.counters in
    rw (d, build_top-eq-best counters m v)
      (ap (λ items. ok (items, now))
        (cut-take (normalize_limit a.cfg limit) m (ranking (positive_items counters))
          (normalize_limit-max a.cfg limit h)))
