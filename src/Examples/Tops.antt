-- ===== src/Examples/Tops.antt =====
-- Top lists.
use mathlib.Core.List.{Perm}
use mathlib.Core.List.Perm
use wb_test_task.Base.{ℕ, zero, suc, ◌<◌, ◌≡◌, refl, false, List, [], ◌∷◌, ◌++◌, length, arith}
use wb_test_task.Base.Int.{pos}
use wb_test_task.Base.Text.{codes, text_less}
use wb_test_task.Base.Word.{nonpos64, less64}
use wb_test_task.TextMap.{TextMap}
use wb_test_task.Aggregator.Top.{TopItem, item_at, less, swap, up_loop, heap_push, build_top}
use wb_test_task.Aggregator.Top.Order.{better}
use wb_test_task.Aggregator.Top.Sift.{IsHeap, AreSmall}
use wb_test_task.Aggregator.Top.Pushed.{heap_push-IsHeap}
use wb_test_task.Aggregator.Top.Best.{best, AreCounts}
use wb_test_task.Aggregator.Top.Ranked.{build_top-eq-best, build_top-perm}

abbrev tea : TextMap ℕ
tea = (codes "tea", 2) ∷ (codes "cup", 5) ∷ (codes "pot", 2) ∷ (codes "gone", 0) ∷ []

abbrev cup : TextMap ℕ
cup = (codes "cup", 5) ∷ (codes "tea", 2) ∷ (codes "pot", 2) ∷ (codes "gone", 0) ∷ []

tea-AreCounts : AreCounts tea
tea-AreCounts = (omega arith, (omega arith, (omega arith, (omega arith, tt))))

cup-AreCounts : AreCounts cup
cup-AreCounts = (omega arith, (omega arith, (omega arith, (omega arith, tt))))

tea-perm-cup : Perm tea cup
tea-perm-cup = Perm.swap _ _ _

two_best :
    build_top tea (pos 2)
    ≡ record { query = codes "cup"; count = 5 } ∷ record { query = codes "pot"; count = 2 } ∷ []
unfolding build_top nonpos64 less64 text_less
two_best = refl

build_top-eq-best_example : build_top tea (pos 2) ≡ best tea (pos 2)
build_top-eq-best_example = build_top-eq-best tea (pos 2) tea-AreCounts

build_top-perm_example : build_top tea (pos 2) ≡ build_top cup (pos 2)
build_top-perm_example = build_top-perm tea cup (pos 2) tea-perm-cup tea-AreCounts cup-AreCounts

-- A heap of two items, and one that is worse than its root.
abbrev two_items : List TopItem
two_items =
    record { query = codes "tea"; count = 2 } ∷ record { query = codes "cup"; count = 5 } ∷ []

abbrev pot : TopItem
pot = record { query = codes "pot"; count = 1 }

two_items-IsHeap : IsHeap two_items
unfolding better text_less item_at
two_items-IsHeap zero p q = absurd (omega arith)
two_items-IsHeap (suc zero) p q = refl
two_items-IsHeap (suc (suc c)) p q = absurd (omega arith)

two_items-AreSmall : AreSmall two_items
unfolding item_at
two_items-AreSmall zero = omega arith
two_items-AreSmall (suc zero) = omega arith
two_items-AreSmall (suc (suc i)) = omega arith

heap_push-IsHeap_example :
    IsHeap (heap_push two_items pot)
    × Perm (heap_push two_items pot) (two_items ++ pot ∷ [])
    × ((i : ℕ)
        → i < length (heap_push two_items pot)
        → better (item_at (heap_push two_items pot) 0) (item_at (heap_push two_items pot) i)
          ≡ false)
heap_push-IsHeap_example =
    heap_push-IsHeap two_items pot two_items-IsHeap two_items-AreSmall (omega arith)

-- The new item is worse than the root and comes to it.
pot_at_root : item_at (heap_push two_items pot) 0 ≡ pot
unfolding heap_push up_loop less swap item_at less64 text_less
pot_at_root = refl
