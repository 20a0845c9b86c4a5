-- ===== src/App/Running/Composed.antt =====
-- The parts of the program in any interleaving of its goroutines.
use wb_test_task.Base.{
  ◌≡◌, refl, sym, ap, ◌∙◌, false, ◌<◌, none, List, [], ◌∷◌, ◌++◌, inl, inr, length, subst,
}
use wb_test_task.Base.Int.{ℤ, ◌≤ℤ◌}
use wb_test_task.Base.Text.{Text}
use wb_test_task.Base.Word.{int64_sign}
use wb_test_task.Runtime.{Time, ok}
use wb_test_task.Unicode.{Unicode}
use wb_test_task.TextMap.{lookup, entry}
use wb_test_task.Aggregator.Types.{Config, InMemoryAggregator}
use wb_test_task.Aggregator.{created, new, get_top, normalize_limit}
use wb_test_task.Aggregator.Window.{since}
use wb_test_task.Aggregator.Top.Best.{best, AreCounts}
use wb_test_task.Aggregator.Fresh.{IsFresh, get_top-best, perform_all-IsFresh}
use wb_test_task.Aggregator.Runs.{
  Operation, perform, perform_all, recorded_all, first_second_all, AllFit, counters_exact,
}
use wb_test_task.Stoplist.{Manager, new_manager, contains}
use wb_test_task.Stoplist.Words.{Change, change, change_all, settled, among, contains-history}
use wb_test_task.Kafka.Consumer.{Consumer}
use wb_test_task.App.{App}
use wb_test_task.App.Running.{Outside, Action, System, launch, act, Reaches, at_once, after}
use wb_test_task.App.Running.Parts.{
  operations, changes, step_operations, step_changes, act-perform_all,
}

module _ (u : Unicode) where
  perform_all-append :
      (xs ys : List Operation) (a : InMemoryAggregator)
      → perform_all u (xs ++ ys) a ≡ perform_all u ys (perform_all u xs a)
  unfolding perform_all
  perform_all-append [] ys a = refl
  perform_all-append (x ∷ xs) ys a = perform_all-append xs ys (perform u x a)

  change_all-append :
      (xs ys : List Change) (m : Manager)
      → change_all u (xs ++ ys) m ≡ change_all u ys (change_all u xs m)
  unfolding change_all
  change_all-append [] ys m = refl
  change_all-append (x ∷ xs) ys m = change_all-append xs ys (change u x m)

module _ (out : Outside) where
  open out use {unicode}

  -- In any interleaving of the goroutines, the aggregator is what its own calls make of it, those of the
  -- handler of events and of RebuildTop in the order of the steps, and the stop list is what the
  -- accepted changes of the requests make of it.
  pub Reaches-perform_all :
      (actions : List Action) (s t : System out)
      → Reaches out s actions t
      → (t.app.agg ≡ perform_all unicode (operations out actions s) s.app.agg)
        × (t.app.stop_words ≡ change_all unicode (changes out actions) s.app.stop_words)
  unfolding operations changes perform_all change_all
  Reaches-perform_all [] s t at_once = (refl, refl)
  Reaches-perform_all (a ∷ actions) s t (after _ enabled rest) =
      let (p, q) = act-perform_all out a s in
      let (v, w) = Reaches-perform_all actions (act out a s) t rest in
      (
        v
            ∙ ap (perform_all unicode (operations out actions (act out a s))) p
            ∙ sym (
                perform_all-append unicode (step_operations out a s)
                  (operations out actions (act out a s)) s.app.agg),
        w
            ∙ ap (change_all unicode (changes out actions)) q
            ∙ sym (
                change_all-append unicode (step_changes out a) (changes out actions)
                  s.app.stop_words),
      )

  module _ (app : App) (consumer : Consumer) (actions : List Action) (s : System out) where
    -- In a program that has started, for fewer than 2 ^ 63 calls of the aggregator, in which the clock
    -- does not go back and each counted event is of a second of the current window and not of the Unix
    -- second 0, the counters hold for each query exactly how often the handler has counted it in the
    -- seconds of the last window, in any interleaving of the goroutines.
    pub Reaches-counters :
        (cfg : Config) (start : Time) (lo : ℤ) (q : Text)
        → new cfg start ≡ created app.agg
        → Reaches out (launch out app consumer) actions s
        → length (operations out actions (launch out app consumer)) < int64_sign
        → AllFit unicode (operations out actions (launch out app consumer)) app.agg lo
        → lookup q s.app.agg.counters
          ≡ entry (
              since
                (recorded_all unicode (operations out actions (launch out app consumer)) app.agg [])
                (first_second_all unicode
                  (operations out actions (launch out app consumer))
                  app.agg
                  lo)
                q)
    Reaches-counters cfg start lo q e r small fits =
        let (p, _) = Reaches-perform_all actions (launch out app consumer) s r in
        ap (λ a. lookup q a.counters) p
        ∙ counters_exact unicode cfg start app.agg lo
            (operations out actions (launch out app consumer)) e small fits q

    pub Reaches-IsFresh :
        (cfg : Config) (start : Time)
        → new cfg start ≡ created app.agg
        → Reaches out (launch out app consumer) actions s
        → IsFresh s.app.agg
    Reaches-IsFresh cfg start e r =
        let ops = operations out actions (launch out app consumer) in
        let (p, _) = Reaches-perform_all actions (launch out app consumer) s r in
        subst IsFresh (sym p) (perform_all-IsFresh unicode ops cfg start app.agg e)

    -- In any state that the goroutines reach, whatever their interleaving, while the aggregator is not
    -- marked as changed, with counts below 2 ^ 63 and a default limit that is not above the maximum,
    -- GetTop answers with the best of the counters, and with the time of its list.
    pub Reaches-get_top :
        (cfg : Config) (start : Time) (limit : ℤ)
        → new cfg start ≡ created app.agg
        → Reaches out (launch out app consumer) actions s
        → s.app.agg.dirty ≡ false
        → AreCounts s.app.agg.counters
        → s.app.agg.cfg.default_limit ≤ℤ s.app.agg.cfg.max_limit
        → get_top none limit s.app.agg
          ≡ ok (
            best s.app.agg.counters (normalize_limit s.app.agg.cfg limit),
            s.app.agg.top_generated_at,
          )
    Reaches-get_top cfg start limit e r clean counts limits = elim (Reaches-IsFresh cfg start e r) [
      | inl d ↦ cc
      | inr fresh ↦ get_top-best limit s.app.agg fresh counts limits
    ]

    -- In any state that the goroutines reach, whatever their interleaving, the handler of events finds a
    -- word to be a stop word by the last accepted request whose word has the same normal form, where
    -- that form is not empty, and if there is none, by whether the initial list has such a word.
    pub Reaches-contains :
        (initial : List Text) (v : Text)
        → app.stop_words ≡ new_manager unicode initial
        → Reaches out (launch out app consumer) actions s
        → contains unicode s.app.stop_words v
          ≡ settled unicode (changes out actions) v (among unicode initial v)
    Reaches-contains initial v e r =
        let (_, q) = Reaches-perform_all actions (launch out app consumer) s r in
        ap (λ m. contains unicode m v) (q ∙ ap (change_all unicode (changes out actions)) e)
        ∙ contains-history unicode initial (changes out actions) v
