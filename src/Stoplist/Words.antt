-- ===== src/Stoplist/Words.antt =====
-- The Manager as a set of normal words: what Contains answers after each change.
use wb_test_task.Base.{
  ◌≡◌, refl, sym, ap, ◌∙◌, Bool, true, false, not, ◌&&◌, ◌||◌, List, [], ◌∷◌, subst, arith, inl,
  inr, Bool-cases,
}
use wb_test_task.Base.Text.{Text, same_text}
use wb_test_task.Unicode.{Unicode}
use wb_test_task.TextMap.{lookup, insert, delete, lookup-insert, lookup-delete}
use wb_test_task.Normalizer.{is_empty}
use wb_test_task.Stoplist.{
  WordSet, Manager, normalize, build_set_from, new_manager, load, has_word, clone_set, contains,
  add_normal, remove_normal, add_word, remove_word,
}

pub has_word-insert :
    (w v : Text) (set : WordSet) → has_word v (insert w tt set) ≡ (same_text w v || has_word v set)
unfolding has_word same_text
has_word-insert w v set = ground (arith, lookup-insert w v tt set)

pub has_word-delete :
    (w v : Text) (set : WordSet)
    → has_word v (delete w set) ≡ (not (same_text w v) && has_word v set)
unfolding has_word same_text
has_word-delete w v set = ground (arith, lookup-delete w v set)

pub has_word-cons :
    (w v : Text) (x : Unit) (set : WordSet)
    → has_word v ((w, x) ∷ set) ≡ (same_text w v || has_word v set)
unfolding has_word same_text lookup
has_word-cons w v x set = ground arith

pub has_word-nil : (v : Text) → has_word v [] ≡ false
unfolding has_word lookup
has_word-nil v = refl

pub has_word-clone_set : (v : Text) (set : WordSet) → has_word v (clone_set set) ≡ has_word v set
unfolding clone_set
has_word-clone_set v [] = refl
has_word-clone_set v ((w, x) ∷ set) =
    has_word-insert w v (clone_set set)
    ∙ ap (λ b. same_text w v || b) (has_word-clone_set v set)
    ∙ sym (has_word-cons w v x set)

pub same_text_refl : (v : Text) → same_text v v ≡ true
unfolding same_text
same_text_refl v = ground arith

same_text-eq : (w v : Text) → same_text w v ≡ true → w ≡ v
unfolding same_text
same_text-eq w v e = ground arith

has_word-same :
    (w v : Text) (set : WordSet)
    → has_word w set ≡ true
    → same_text w v ≡ true
    → has_word v set ≡ true
has_word-same w v set h e = subst (λ x. has_word x set ≡ true) (same_text-eq w v e) h

has_word-other :
    (w v : Text) (set : WordSet)
    → has_word w set ≡ false
    → same_text w v ≡ true
    → has_word v set ≡ false
has_word-other w v set h e = subst (λ x. has_word x set ≡ false) (same_text-eq w v e) h

has_word-add_normal :
    (w v : Text) (m : Manager)
    → has_word v (load (add_normal w m).0)
      ≡ ((not (is_empty w) && same_text w v) || has_word v (load m))
unfolding add_normal load
has_word-add_normal w v m = ground (
  arith,
  has_word-insert w v (clone_set (load m)),
  has_word-clone_set v (load m),
  has_word-same w v (load m),
)

has_word-remove_normal :
    (w v : Text) (m : Manager)
    → has_word v (load (remove_normal w m).0)
      ≡ (not (not (is_empty w) && same_text w v) && has_word v (load m))
unfolding remove_normal load
has_word-remove_normal w v m = ground (
  arith,
  has_word-delete w v (clone_set (load m)),
  has_word-clone_set v (load m),
  has_word-other w v (load m),
)

-- The calls that change the Manager.
pub data Change : Type 0 where
  added removed : Text → Change

module _ (u : Unicode) where
  -- After Add, Contains answers true for the words it did before, and for the words of the same normal
  -- form as the new one, unless that form is empty.
  pub contains-add_word :
      (m : Manager) (word other : Text)
      → contains u (add_word u m word).0 other ≡ (
          (not (is_empty (normalize u word)) && same_text (normalize u word) (normalize u other))
          || contains u m other)
  unfolding contains add_word
  contains-add_word m word other = has_word-add_normal (normalize u word) (normalize u other) m

  -- After Remove, Contains answers true for the words it did before, but those of the same normal form
  -- as the given one, unless that form is empty.
  pub contains-remove_word :
      (m : Manager) (word other : Text)
      → contains u (remove_word u m word).0 other ≡ (
          not
            (not (is_empty (normalize u word)) && same_text (normalize u word) (normalize u other))
          && contains u m other)
  unfolding contains remove_word
  contains-remove_word m word other =
      has_word-remove_normal (normalize u word) (normalize u other) m

  unfoldable pub change : Change → Manager → Manager
  unfolding add_word remove_word
  change (added word) m = (add_word u m word).0
  change (removed word) m = (remove_word u m word).0

  unfoldable pub change_all : List Change → Manager → Manager
  unfolding change
  change_all [] m = m
  change_all (c ∷ changes) m = change_all changes (change c m)

  -- The word of a change is the same stop word as v.
  abbrev pub concerns : Text → Text → Bool
  concerns word v =
      not (is_empty (normalize u word)) && same_text (normalize u word) (normalize u v)

  -- The last change that concerns a word decides, and the start where there is none.
  unfoldable pub settled : List Change → Text → Bool → Bool
  settled [] v b = b
  settled (added word ∷ changes) v b = settled changes v (concerns word v || b)
  settled (removed word ∷ changes) v b = settled changes v (not (concerns word v) && b)

  -- A word is among those given.
  unfoldable pub among : List Text → Text → Bool
  among [] v = false
  among (word ∷ words) v = concerns word v || among words v

  has_word-build_set_from :
      (words : List Text) (v : Text) (set : WordSet)
      → has_word (normalize u v) (build_set_from u words set)
        ≡ (among words v || has_word (normalize u v) set)
  unfolding build_set_from among
  has_word-build_set_from [] v set = refl
  has_word-build_set_from (word ∷ words) v set = elim (Bool-cases (is_empty (normalize u word))) [
    | inl e ↦ rw e (has_word-build_set_from words v set)
    | inr e ↦ ground (
      arith,
      has_word-build_set_from words v (insert (normalize u word) tt set),
      has_word-insert (normalize u word) (normalize u v) set,
    )
  ]

  contains-new_manager :
      (initial : List Text) (v : Text) → contains u (new_manager u initial) v ≡ among initial v
  unfolding contains new_manager load
  contains-new_manager initial v =
      has_word-build_set_from initial v [] ∙ ground (arith, has_word-nil (normalize u v))

  contains-change_all :
      (changes : List Change) (m : Manager) (v : Text)
      → contains u (change_all changes m) v ≡ settled changes v (contains u m v)
  unfolding change_all settled change
  contains-change_all [] m v = refl
  contains-change_all (added word ∷ changes) m v =
      contains-change_all changes (add_word u m word).0 v
      ∙ ap (settled changes v) (contains-add_word m word v)
  contains-change_all (removed word ∷ changes) m v =
      contains-change_all changes (remove_word u m word).0 v
      ∙ ap (settled changes v) (contains-remove_word m word v)

  -- After any sequence of Add and Remove on a new Manager, Contains answers for a word by the last of
  -- them whose word has the same normal form, where that form is not empty, and if there is none, by
  -- whether the initial list has such a word.
  pub contains-history :
      (initial : List Text) (changes : List Change) (v : Text)
      → contains u (change_all changes (new_manager u initial)) v
        ≡ settled changes v (among initial v)
  contains-history initial changes v =
      contains-change_all changes (new_manager u initial) v
      ∙ ap (settled changes v) (contains-new_manager initial v)
