-- ===== src/Stoplist/Listing.antt =====
-- List and Size of the Manager: the listing is the set, in strict order.
use wb_test_task.Base.{
  suc, ◌≡◌, refl, sym, ap, ◌∙◌, Bool, true, false, ◌||◌, none, List, [], ◌∷◌, length, arith, inl,
  inr, Bool-cases,
}
use wb_test_task.Base.Text.{Text, text_less, text_less_trans, text_less_total, same_text}
use wb_test_task.Unicode.{Unicode}
use wb_test_task.TextMap.{
  lookup, insert, HasDistinctKeys, insert-HasDistinctKeys, delete-HasDistinctKeys,
}
use wb_test_task.Normalizer.{is_empty}
use wb_test_task.Stoplist.{
  WordSet, Manager, normalize, build_set_from, new_manager, load, has_word, clone_set, add_normal,
  remove_normal, add_word, remove_word, insert_word, sort_words, words_of, list_words, size,
}
use wb_test_task.Stoplist.Words.{
  has_word-cons, has_word-nil, Change, added, removed, change, change_all,
}

-- A word stands in a list.
unfoldable pub listed : Text → List Text → Bool
listed v [] = false
listed v (w ∷ words) = same_text w v || listed v words

-- Each word is less than all that follow it.
abbrev LessAll : Text → List Text → Type 0
LessAll w [] = Unit
LessAll w (v ∷ words) = (text_less w v ≡ true) × LessAll w words

abbrev pub IsAscending : List Text → Type 0
IsAscending [] = Unit
IsAscending (w ∷ words) = LessAll w words × IsAscending words

listed-insert_word :
    (v w : Text) (words : List Text)
    → listed v (insert_word w words) ≡ (same_text w v || listed v words)
unfolding listed insert_word
listed-insert_word v w [] = refl
listed-insert_word v w (x ∷ words) = ground (arith, listed-insert_word v w words)

listed-sort_words : (v : Text) (words : List Text) → listed v (sort_words words) ≡ listed v words
unfolding listed sort_words
listed-sort_words v [] = refl
listed-sort_words v (w ∷ words) =
    listed-insert_word v w (sort_words words)
    ∙ ap (λ b. same_text w v || b) (listed-sort_words v words)

listed-words_of : (v : Text) (set : WordSet) → listed v (words_of set) ≡ has_word v set
unfolding listed words_of
listed-words_of v [] = sym (has_word-nil v)
listed-words_of v ((w, x) ∷ set) =
    ap (λ b. same_text w v || b) (listed-words_of v set) ∙ sym (has_word-cons w v x set)

LessAll-insert_word :
    (w x : Text) (words : List Text)
    → text_less w x ≡ true
    → LessAll w words
    → LessAll w (insert_word x words)
unfolding insert_word
LessAll-insert_word w x [] p v = (p, tt)
LessAll-insert_word w x (y ∷ words) p (q, v) = elim (Bool-cases (text_less x y)) [
  | inl e ↦ rw e (p, (q, v))
  | inr e ↦ rw e (q, LessAll-insert_word w x words p v)
]

LessAll-trans :
    (w x : Text) (words : List Text) → text_less w x ≡ true → LessAll x words → LessAll w words
LessAll-trans w x [] p v = tt
LessAll-trans w x (y ∷ words) p (q, v) = (text_less_trans w x y p q, LessAll-trans w x words p v)

IsAscending-insert_word :
    (w : Text) (words : List Text)
    → listed w words ≡ false
    → IsAscending words
    → IsAscending (insert_word w words)
unfolding insert_word listed same_text
IsAscending-insert_word w [] n v = (tt, tt)
IsAscending-insert_word w (x ∷ words) n (p, v) = elim (Bool-cases (text_less w x)) [
  | inl e ↦ rw e ((e, LessAll-trans w x words e p), (p, v))
  | inr e ↦ rw e (
    LessAll-insert_word x w words (ground (arith, text_less_total w x)) p,
    IsAscending-insert_word w words (ground arith) v,
  )
]

absent : (w : Text) (set : WordSet) → lookup w set ≡ none → has_word w set ≡ false
unfolding has_word
absent w set e = rw (has_word, e) refl

not_listed : (w : Text) (set : WordSet) → lookup w set ≡ none → listed w (words_of set) ≡ false
not_listed w set e = listed-words_of w set ∙ absent w set e

IsAscending-sort_words :
    (set : WordSet) → HasDistinctKeys set → IsAscending (sort_words (words_of set))
unfolding sort_words words_of
IsAscending-sort_words [] h = tt
IsAscending-sort_words ((w, x) ∷ set) (h, hs) =
    IsAscending-insert_word w (sort_words (words_of set))
      (listed-sort_words w (words_of set) ∙ not_listed w set h) (IsAscending-sort_words set hs)

clone_set-HasDistinctKeys : (set : WordSet) → HasDistinctKeys (clone_set set)
unfolding clone_set
clone_set-HasDistinctKeys [] = tt
clone_set-HasDistinctKeys ((w, x) ∷ set) =
    insert-HasDistinctKeys w tt (clone_set set) (clone_set-HasDistinctKeys set)

length-insert_word :
    (w : Text) (words : List Text) → length (insert_word w words) ≡ suc (length words)
unfolding insert_word
length-insert_word w [] = refl
length-insert_word w (x ∷ words) = ground (arith, length-insert_word w words)

length-sort_words : (set : WordSet) → length (sort_words (words_of set)) ≡ length set
unfolding sort_words words_of
length-sort_words [] = refl
length-sort_words ((w, x) ∷ set) =
    length-insert_word w (sort_words (words_of set)) ∙ ap suc (length-sort_words set)

add_normal-distinct :
    (w : Text) (m : Manager) → HasDistinctKeys (load m) → HasDistinctKeys (load (add_normal w m).0)
unfolding add_normal load
add_normal-distinct w m h =
    ground
      (arith, insert-HasDistinctKeys w tt (clone_set (load m)) (clone_set-HasDistinctKeys (load m)))

remove_normal-distinct :
    (w : Text) (m : Manager)
    → HasDistinctKeys (load m)
    → HasDistinctKeys (load (remove_normal w m).0)
unfolding remove_normal load
remove_normal-distinct w m h =
    ground
      (arith, delete-HasDistinctKeys w (clone_set (load m)) (clone_set-HasDistinctKeys (load m)))

module _ (u : Unicode) where
  build_set_from-distinct :
      (words : List Text) (set : WordSet)
      → HasDistinctKeys set
      → HasDistinctKeys (build_set_from u words set)
  unfolding build_set_from
  build_set_from-distinct [] set h = h
  build_set_from-distinct (word ∷ words) set h = elim (Bool-cases (is_empty (normalize u word))) [
    | inl e ↦ rw e (build_set_from-distinct words set h)
    | inr e ↦ rw e (
        build_set_from-distinct words (insert (normalize u word) tt set)
          (insert-HasDistinctKeys (normalize u word) tt set h))
  ]

  change-distinct :
      (c : Change) (m : Manager) → HasDistinctKeys (load m) → HasDistinctKeys (load (change u c m))
  unfolding change add_word remove_word
  change-distinct (added word) m h = add_normal-distinct (normalize u word) m h
  change-distinct (removed word) m h = remove_normal-distinct (normalize u word) m h

  change_all-distinct :
      (changes : List Change) (m : Manager)
      → HasDistinctKeys (load m)
      → HasDistinctKeys (load (change_all u changes m))
  unfolding change_all
  change_all-distinct [] m h = h
  change_all-distinct (c ∷ changes) m h =
      change_all-distinct changes (change u c m) (change-distinct c m h)

  new_manager-distinct : (initial : List Text) → HasDistinctKeys (load (new_manager u initial))
  unfolding new_manager load
  new_manager-distinct initial = build_set_from-distinct initial [] tt

  list_words-holds :
      (m : Manager)
      → HasDistinctKeys (load m)
      → IsAscending (list_words m)
        × ((v : Text) → listed v (list_words m) ≡ has_word v (load m))
        × (length (list_words m) ≡ size m)
  unfolding list_words size
  list_words-holds m h = (
    IsAscending-sort_words (load m) h,
    λ v. listed-sort_words v (words_of (load m)) ∙ listed-words_of v (load m),
    length-sort_words (load m),
  )

  -- After any sequence of Add and Remove on a new Manager, List gives the words of the set and no
  -- others, in strictly ascending order, and Size is how many they are.
  pub list_words-change_all :
      (initial : List Text) (changes : List Change)
      → IsAscending (list_words (change_all u changes (new_manager u initial)))
        × ((v : Text)
            → listed v (list_words (change_all u changes (new_manager u initial)))
              ≡ has_word v (load (change_all u changes (new_manager u initial))))
        × (length (list_words (change_all u changes (new_manager u initial)))
            ≡ size (change_all u changes (new_manager u initial)))
  list_words-change_all initial changes =
      list_words-holds (change_all u changes (new_manager u initial))
        (change_all-distinct changes (new_manager u initial) (new_manager-distinct initial))
