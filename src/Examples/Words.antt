-- ===== src/Examples/Words.antt =====
-- Stop words.
use wb_test_task.Base.{◌≡◌, refl, false, List, [], ◌∷◌, length}
use wb_test_task.Base.Text.{Text, codes, text_discrete}
use wb_test_task.Normalizer.{normalize_query}
use wb_test_task.Base.{◌++◌}
use wb_test_task.Base.Int.{pos}
use wb_test_task.Runtime.{ok}
use wb_test_task.Stoplist.{Manager, new_manager, contains, load, has_word, list_words, size}
use wb_test_task.Stoplist.Words.{
  Change, added, removed, change_all, settled, among, contains-history,
}
use wb_test_task.Stoplist.Listing.{listed, IsAscending, list_words-change_all}
use wb_test_task.Examples.Ascii.{lower, ascii}

abbrev start : List Text
start = codes "Spam" ∷ codes " " ∷ []

abbrev two_changes : List Change
two_changes = added (codes "eggs") ∷ removed (codes "SPAM") ∷ []

abbrev stop_list : Manager
stop_list = new_manager ascii start

spam_removed : contains ascii (change_all ascii two_changes stop_list) (codes "spam") ≡ false
unfolding contains change_all new_manager lower text_discrete
spam_removed = refl

contains-history_example :
    contains ascii (change_all ascii two_changes (new_manager ascii start)) (codes "eggs")
    ≡ settled ascii two_changes (codes "eggs") (among ascii start (codes "eggs"))
contains-history_example = contains-history ascii start two_changes (codes "eggs")

list_words-change_all_example :
    IsAscending (list_words (change_all ascii two_changes (new_manager ascii start)))
    × ((v : Text)
        → listed v (list_words (change_all ascii two_changes (new_manager ascii start)))
          ≡ has_word v (load (change_all ascii two_changes (new_manager ascii start))))
    × (length (list_words (change_all ascii two_changes (new_manager ascii start)))
        ≡ size (change_all ascii two_changes (new_manager ascii start)))
list_words-change_all_example = list_words-change_all ascii start two_changes

-- A tab between two words: no stop word to the one, a space to the other.
abbrev tabbed : Text
tabbed = codes "foo" ++ 9 ∷ codes "bar"

tabbed_stop_word : contains ascii (new_manager ascii (codes "foo bar" ∷ [])) tabbed ≡ false
unfolding contains new_manager lower text_discrete
tabbed_stop_word = refl

tabbed_query : normalize_query ascii tabbed (pos 256) ≡ ok (codes "foo bar")
unfolding normalize_query lower
tabbed_query = refl
