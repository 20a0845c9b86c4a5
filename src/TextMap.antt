-- ===== src/TextMap.antt =====
-- Go's `map[string]V`: an association list in the order in which a `range` loop visits it. Go leaves
-- that order open, so a loop over a map is modelled over a list whose order is not relied on.
use wb_test_task.Base.{ℕ, zero, suc, ◌≡◌, refl, Option, none, some, List, [], ◌∷◌, arith, ite}
use wb_test_task.Base.Text.{Text, text_discrete}

abbrev pub TextMap {ℓ} : Type ℓ → Type ℓ
TextMap V = List (Text × V)

module _ {ℓ} {V : Type ℓ} where
  -- v, ok := m[k]
  unfoldable pub lookup : Text → TextMap V → Option V
  lookup k [] = none
  lookup k ((j, v) ∷ m) = ite (text_discrete j k) (some v) (lookup k m)

  -- m[k] = v
  unfoldable pub insert : Text → V → TextMap V → TextMap V
  insert k v [] = (k, v) ∷ []
  insert k v ((j, w) ∷ m) = ite (text_discrete j k) ((k, v) ∷ m) ((j, w) ∷ insert k v m)

  -- delete(m, k)
  unfoldable pub delete : Text → TextMap V → TextMap V
  delete k [] = []
  delete k ((j, w) ∷ m) = ite (text_discrete j k) (delete k m) ((j, w) ∷ delete k m)

  -- The keys of a Go map are distinct.
  abbrev pub HasDistinctKeys : TextMap V → Type ℓ
  HasDistinctKeys [] = Unit
  HasDistinctKeys ((k, v) ∷ m) = (lookup k m ≡ none) × HasDistinctKeys m

  pub lookup-insert :
      (k j : Text) (v : V) (m : TextMap V)
      → lookup j (insert k v m) ≡ ite (text_discrete k j) (some v) (lookup j m)
  unfolding lookup insert
  lookup-insert k j v [] = refl
  lookup-insert k j v ((i, w) ∷ m) = ground (arith, lookup-insert k j v m)

  pub lookup-delete :
      (k j : Text) (m : TextMap V)
      → lookup j (delete k m) ≡ ite (text_discrete k j) none (lookup j m)
  unfolding lookup delete
  lookup-delete k j [] = ground arith
  lookup-delete k j ((i, w) ∷ m) = ground (arith, lookup-delete k j m)

  pub insert-HasDistinctKeys :
      (k : Text) (v : V) (m : TextMap V) → HasDistinctKeys m → HasDistinctKeys (insert k v m)
  unfolding lookup insert
  insert-HasDistinctKeys k v [] h = ground arith
  insert-HasDistinctKeys k v ((j, w) ∷ m) h =
      ground (arith, lookup-insert k j v m, insert-HasDistinctKeys k v m)

  pub delete-HasDistinctKeys :
      (k : Text) (m : TextMap V) → HasDistinctKeys m → HasDistinctKeys (delete k m)
  unfolding lookup delete
  delete-HasDistinctKeys k [] h = ground arith
  delete-HasDistinctKeys k ((j, w) ∷ m) h =
      ground (arith, lookup-delete k j m, delete-HasDistinctKeys k m)

-- m[k], which is 0 for a missing key
unfoldable pub count_of : Text → TextMap ℕ → ℕ
unfolding lookup
count_of k m = elim (lookup k m) [ none ↦ 0 | some c ↦ c ]

-- The entry of a key that is counted n times: a count of 0 has no entry.
abbrev pub entry : ℕ → Option ℕ
entry zero = none
entry (suc n) = some (suc n)
