-- ===== src/Examples/Serving.antt =====
-- The servers, with a mux that keeps a list of plain patterns.
use wb_test_task.Base.{
  ℕ, ◌+◌, ◌≤◌, ◌≡◌, ◌≢◌, ◌⊎◌, refl, subst, Bool, true, false, not, ◌&&◌, ◌||◌, Option, none, some,
  List, [], ◌∷◌, length, if◌then◌else◌, inl, inr, Bool-cases, arith,
}
use wb_test_task.Base.Int.{pos, pos_part}
use wb_test_task.Base.Text.{Text, codes, text_discrete, same_text}
use wb_test_task.Stoplist.{contains, normalize, new_manager}
use wb_test_task.Aggregator.{rounded_seconds}
use wb_test_task.Server.{
  SearchTrendsHandler, StopWordResponse, GetTopResponse, replied, add_stop_word, remove_stop_word,
  get_top_response, requested,
}
use wb_test_task.Server.Grpc.{Request}
use wb_test_task.Server.Intercepted.{
  counted, answered, serve, serve_intercepted, serve_intercepted-eq-serve,
}
use wb_test_task.Server.Exposition.{
  Page, ServeMux, MetricsServer, metrics_page, health_page, is_plain, new_metrics_server,
  metrics_handler, metrics_handler_routes,
}
use wb_test_task.Server.Stopping.{contains-add_stop_word}
use wb_test_task.Runtime.{ContextError, Context, context}
use wb_test_task.Server.{
  Status, rejected, invalid_argument, to_status_error, validate_stop_word_request,
}
use wb_test_task.Server.Rejected.{removing, edit, request_of, edit-rejected}
use wb_test_task.Server.Bounded.{length-get_top_response}
use wb_test_task.Unicode.Format.{decimal}
use wb_test_task.Examples.Ascii.{ascii, lower}
use wb_test_task.Examples.Windows.{fresh}

abbrev Table : Type 0
Table = List (Text × Page)

unfoldable find : Text → Table → Option Page
find q [] = none
find q ((p, a) ∷ t) = if same_text p q then some a else find q t

abbrev is_there : Option Page → Bool
is_there none = false
is_there (some a) = true

abbrev added : Bool → Text → Page → Table → Option Table
added true p a t = some ((p, a) ∷ t)
added false p a t = none

unfoldable add_route : Text → Page → Table → Option Table
unfolding find is_plain
add_route p a t = added (is_plain p && not (is_there (find p t))) p a t

same_refl : (p : Text) → same_text p p ≡ true
unfolding same_text
same_refl p = ground arith

same_not : (p q : Text) → q ≢ p → same_text p q ≡ false
unfolding same_text
same_not p q n = ground (arith, n)

added-some : (p : Text) (a : Page) (t t' : Table) → add_route p a t ≡ some t' → (p, a) ∷ t ≡ t'
unfolding add_route
added-some p a t t' h = by_test (is_plain p && not (is_there (find p t))) h
  where
    by_test : (b : Bool) → added b p a t ≡ some t' → (p, a) ∷ t ≡ t'
    by_test true k = cc
    by_test false k = cc

add_first : (p : Text) (a : Page) → is_plain p ≡ true → (t : Table) × (add_route p a [] ≡ some t)
unfolding add_route find
add_first p a h = ((p, a) ∷ [], rw h refl)

find_here :
    (p : Text) (a : Page) (t t' : Table)
    → is_plain p ≡ true
    → add_route p a t ≡ some t'
    → find p t' ≡ some a
unfolding find
find_here p a t t' h k =
    subst (λ x. find p x ≡ some a) (added-some p a t t' k) (rw (same_refl p) refl)

find_elsewhere :
    (p q : Text) (a : Page) (t t' : Table)
    → is_plain p ≡ true
    → q ≢ p
    → add_route p a t ≡ some t'
    → find q t' ≡ find q t
unfolding find
find_elsewhere p q a t t' h n k =
    subst (λ x. find q x ≡ find q t) (added-some p a t t' k) (rw (same_not p q n) refl)

add_second :
    (p q : Text) (a b : Page) (t : Table)
    → add_route p a [] ≡ some t
    → is_plain p ≡ true
    → is_plain q ≡ true
    → q ≢ p
    → (t' : Table) × (add_route q b t ≡ some t')
unfolding add_route
add_second p q a b t h x y n =
    let free : find q t ≡ none = find_elsewhere p q a [] t x n h in ((q, b) ∷ t, rw (y, free) refl)

add_twice :
    (p : Text) (a b : Page) (t t' : Table) → add_route p a t ≡ some t' → add_route p b t' ≡ none
unfolding add_route
add_twice p a b t t' h = elim (Bool-cases (is_plain p)) [
  | inl e ↦ let there = find_here p a t t' e h in rw (e, there) refl
  | inr e ↦ rw e refl
]

abbrev listed : ServeMux
listed = record {
  Table = Table;
  no_routes = [];
  handle = add_route;
  route = find;
  handle_plain_first = add_first;
  handle_plain_second = add_second;
  handle_twice = add_twice;
  route_here = find_here;
  route_elsewhere = find_elsewhere;
}

abbrev usual : MetricsServer
usual = record { address = codes "0.0.0.0:2112"; path = codes "/metrics" }

usual_made : new_metrics_server [] (pos 0) [] ≡ usual
unfolding new_metrics_server decimal
usual_made = refl

-- A path that Validate accepts and on which Handler panics.
health_path_panics : metrics_handler listed (record usual { path = codes "/healthz" }) ≡ none
unfolding metrics_handler add_route find is_plain same_text text_discrete
health_path_panics = refl

metrics_handler_routes_example :
    ((usual.path ≡ codes "/healthz") × (metrics_handler listed usual ≡ none))
    ⊎ ((t : Table) × (metrics_handler listed usual ≡ some t)
        × (find usual.path t ≡ some metrics_page)
        × (find (codes "/healthz") t ≡ some health_page))
unfolding is_plain
metrics_handler_routes_example = metrics_handler_routes listed usual refl

-- A handler that counts its calls and answers with what it is given.
abbrev echo : Text → ℕ → ℕ × Text
echo message n = (n + 1, message)

abbrev two_calls : List (Request (λ x. x) echo)
two_calls =
    record { full_method = codes "GetTop"; took = pos 1; message = codes "OK" }
    ∷ record { full_method = codes "GetTop"; took = pos 1; message = codes "Internal" }
    ∷ []

serve_intercepted-eq-serve_example :
    ((serve_intercepted (λ x. x) echo two_calls (0, [])).0.0 ≡ (serve (λ x. x) echo two_calls 0).0)
    × ((serve_intercepted (λ x. x) echo two_calls (0, [])).1 ≡ (serve (λ x. x) echo two_calls 0).1)
    × (counted (codes "GetTop") (codes "OK") (serve_intercepted (λ x. x) echo two_calls (0, [])).0.1
        ≡ answered
            (λ x. x)
            echo
            (codes "GetTop")
            (codes "OK")
            two_calls
            (serve (λ x. x) echo two_calls 0).1
          + counted (codes "GetTop") (codes "OK") [])
serve_intercepted-eq-serve_example =
    serve_intercepted-eq-serve (λ x. x) echo two_calls 0 [] (codes "GetTop") (codes "OK")

abbrev no_words : SearchTrendsHandler
no_words = record { stop_words = new_manager ascii []; metrics = none }

abbrev after_tea : SearchTrendsHandler
after_tea = (add_stop_word ascii none (some (codes " Tea")) no_words).0

abbrev tea_added : StopWordResponse
tea_added = record { word = codes "tea"; applied = true; message = codes "added" }

tea_answer :
    add_stop_word ascii none (some (codes " Tea")) no_words ≡ (after_tea, replied tea_added)
unfolding add_stop_word new_manager lower text_discrete
tea_answer = refl

contains-add_stop_word_example : contains ascii after_tea.stop_words (codes "TEA") ≡ (
    same_text (codes "tea") (normalize ascii (codes "TEA"))
    || contains ascii no_words.stop_words (codes "TEA"))
contains-add_stop_word_example =
    contains-add_stop_word ascii no_words after_tea (codes " Tea") tea_added (codes "TEA")
      tea_answer

abbrev no_items : GetTopResponse
no_items = record { items = []; generated_at = fresh.top_generated_at; window_seconds = 3 }

no_items_answer : get_top_response none (some 7) fresh ≡ replied no_items
unfolding get_top_response rounded_seconds
no_items_answer = refl

length-get_top_response_example :
    (length no_items.items ≤ pos_part fresh.cfg.max_limit)
    × ((requested (some 7) ≡ 0) ⊎ (length no_items.items ≤ requested (some 7)))
length-get_top_response_example =
    length-get_top_response none (some 7) fresh no_items (omega arith) no_items_answer

abbrev word_missing : Status
word_missing = invalid_argument (codes "word is required")

blank_refused :
    edit ascii none (removing (some (codes " "))) no_words ≡ (no_words, rejected word_missing)
unfolding edit remove_stop_word
blank_refused = refl

abbrev no_context : Context
no_context = none

edit-rejected_example :
    (no_words.stop_words ≡ no_words.stop_words)
    × (((c : ContextError) × (no_context ≡ some c) × (word_missing ≡ to_status_error (context c)))
        ⊎ (validate_stop_word_request ascii (request_of ascii (removing (some (codes " "))))
            ≡ rejected word_missing))
edit-rejected_example =
    edit-rejected ascii no_context (removing (some (codes " "))) no_words no_words word_missing
      blank_refused
