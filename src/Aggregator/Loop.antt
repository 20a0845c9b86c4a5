-- ===== src/Aggregator/Loop.antt =====
-- Run: what its loop does to the aggregator, as calls of RebuildTop, and how it ends.
use wb_test_task.Base.{◌≡◌, refl, none, some, List, [], ◌∷◌, ◌⊎◌, inl, inr}
use wb_test_task.Runtime.{is_context_error}
use wb_test_task.Unicode.{Unicode}
use wb_test_task.Aggregator.Types.{InMemoryAggregator}
use wb_test_task.Aggregator.{Wakeup, context_done, tick, returned, waiting, rebuild_top, run}
use wb_test_task.Aggregator.Runs.{Operation, rebuild, perform, perform_all}

-- The calls of RebuildTop up to the one that finds the context done.
unfoldable pub rebuilds : List Wakeup → List Operation
rebuilds [] = []
rebuilds (context_done ∷ rest) = []
rebuilds (tick none now elapsed ∷ rest) = rebuild none now elapsed ∷ rebuilds rest
rebuilds (tick (some e) now elapsed ∷ rest) = rebuild (some e) now elapsed ∷ []

-- Run calls RebuildTop at each tick until it receives the end of the context, or RebuildTop finds the
-- context done, and it answers with no other value than nil.
pub run-perform_all :
    (u : Unicode) (wakeups : List Wakeup) (a : InMemoryAggregator)
    → ((run wakeups a).0 ≡ perform_all u (rebuilds wakeups) a)
      × (((run wakeups a).1 ≡ waiting) ⊎ ((run wakeups a).1 ≡ returned none))
unfolding run perform_all perform rebuild_top rebuilds is_context_error
run-perform_all u [] a = (refl, inl refl)
run-perform_all u (context_done ∷ rest) a = (refl, inr refl)
run-perform_all u (tick none now elapsed ∷ rest) a =
    run-perform_all u rest (perform u (rebuild none now elapsed) a)
run-perform_all u (tick (some e) now elapsed ∷ rest) a = (refl, inr refl)
