-- ===== src/Stoplist.antt =====
-- internal/stoplist/stoplist.go: the Manager. The mutex makes Add and Remove one step each, and the
-- readers load one set, so that each method is a function of the set it loads.
pub mod Agree
pub mod Words
pub mod Same
pub mod Listing
use wb_test_task.Base.{
  Bool, true, false, not, ◌&&◌, ◌≡◌, Option, none, some, List, [], ◌∷◌, ◌++◌, ℕ, length,
  if◌then◌else◌,
}
use wb_test_task.Base.Text.{Text, text_less}
use wb_test_task.Unicode.{Unicode, is_space, is_control, trim_space}
use wb_test_task.TextMap.{TextMap, lookup, insert, delete}
use wb_test_task.Normalizer.{is_empty, space}

-- map[string]struct{}
abbrev pub WordSet : Type 0
WordSet = TextMap Unit

-- What the atomic value holds: `none` before the first Store.
pub record Manager : Type 0 where
  pub words : Option WordSet

-- The variables of the loop of normalize.
pub record WordScan : Type 0 where
  pub builder : Text
  pub previous_was_space : Bool

module _ (u : Unicode) where
  -- one round of the loop of normalize
  unfoldable pub scan_word_rune : WordScan → ℕ → WordScan
  unfolding is_space is_control
  scan_word_rune s r =
      if is_control r
      then s
      else if is_space r
      then if not (is_empty s.builder) && not s.previous_was_space
        then record { builder = s.builder ++ space ∷ []; previous_was_space = true }
        else s
      else record { builder = s.builder ++ u.to_lower r ∷ []; previous_was_space = false }

  unfoldable pub scan_word : WordScan → Text → WordScan
  unfolding scan_word_rune
  scan_word s [] = s
  scan_word s (r ∷ word) = scan_word (scan_word_rune s r) word

  -- normalize
  unfoldable pub normalize : Text → Text
  unfolding scan_word trim_space
  normalize word =
      let trimmed = trim_space word in
      if is_empty trimmed
      then []
      else trim_space
          (scan_word (record { builder = []; previous_was_space = false }) trimmed).builder

  -- buildSet
  unfoldable pub build_set_from : List Text → WordSet → WordSet
  unfolding normalize insert
  build_set_from [] set = set
  build_set_from (word ∷ words) set =
      let normalized = normalize word in
      build_set_from words (if is_empty normalized then set else insert normalized tt set)

  -- NewManager
  unfoldable pub new_manager : List Text → Manager
  unfolding build_set_from
  new_manager initial = record { words = some (build_set_from initial []) }

-- load
unfoldable pub load : Manager → WordSet
load m = elim m.words [ none ↦ [] | some set ↦ set ]

-- _, ok := set[word]
unfoldable pub has_word : Text → WordSet → Bool
unfolding lookup
has_word word set = elim (lookup word set) [ none ↦ false | some _ ↦ true ]

-- cloneSet
unfoldable pub clone_set : WordSet → WordSet
unfolding insert
clone_set [] = []
clone_set ((word, _) ∷ source) = insert word tt (clone_set source)

-- what Add does with the normalized word
unfoldable pub add_normal : Text → Manager → Manager × Bool
unfolding load has_word clone_set insert
add_normal word m =
    if is_empty word
    then (m, false)
    else if has_word word (load m)
    then (m, false)
    else (record { words = some (insert word tt (clone_set (load m))) }, true)

-- what Remove does with the normalized word
unfoldable pub remove_normal : Text → Manager → Manager × Bool
unfolding load has_word clone_set delete
remove_normal word m =
    if is_empty word
    then (m, false)
    else if not (has_word word (load m))
    then (m, false)
    else (record { words = some (delete word (clone_set (load m))) }, true)

module _ (u : Unicode) where
  -- Contains
  unfoldable pub contains : Manager → Text → Bool
  unfolding normalize load has_word
  contains m word = has_word (normalize u word) (load m)

  -- Add
  unfoldable pub add_word : Manager → Text → Manager × Bool
  unfolding normalize add_normal
  add_word m word = add_normal (normalize u word) m

  -- Remove
  unfoldable pub remove_word : Manager → Text → Manager × Bool
  unfolding normalize remove_normal
  remove_word m word = remove_normal (normalize u word) m

-- sort.Strings
unfoldable pub insert_word : Text → List Text → List Text
unfolding text_less
insert_word w [] = w ∷ []
insert_word w (v ∷ words) = if text_less w v then w ∷ v ∷ words else v ∷ insert_word w words

unfoldable pub sort_words : List Text → List Text
unfolding insert_word
sort_words [] = []
sort_words (w ∷ words) = insert_word w (sort_words words)

-- the loop of List
unfoldable pub words_of : WordSet → List Text
words_of [] = []
words_of ((word, _) ∷ set) = word ∷ words_of set

-- List
unfoldable pub list_words : Manager → List Text
unfolding load sort_words words_of
list_words m = sort_words (words_of (load m))

-- Size
unfoldable pub size : Manager → ℕ
unfolding load
size m = length (load m)
