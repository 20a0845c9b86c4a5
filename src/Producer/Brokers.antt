-- ===== src/Producer/Brokers.antt =====
-- splitBrokers: what it keeps of a list of addresses, and that it reads back a list that was joined by
-- commas.
use wb_test_task.Base.{◌≡◌, refl, ap, ◌∙◌, false, List, [], ◌∷◌, ◌++◌, ◌==◌, inl, inr, Bool-cases}
use wb_test_task.Base.Prop.{All}
use wb_test_task.Base.Text.{Text}
use wb_test_task.Unicode.{trim_space, trim_space_idem}
use wb_test_task.Normalizer.{is_empty}
use wb_test_task.Producer.{comma, split, keep_brokers, split_brokers}

-- A text without a comma.
abbrev pub HasNoComma : Text → Type 0
HasNoComma [] = Unit
HasNoComma (r ∷ s) = ((r == comma) ≡ false) × HasNoComma s

-- An address as the producer keeps it.
abbrev pub IsBroker : Text → Type 0
IsBroker b = (is_empty b ≡ false) × (trim_space b ≡ b)

-- strings.Join by a comma.
unfoldable pub join : List Text → Text
join [] = []
join (b ∷ []) = b
join (b ∷ c ∷ bs) = b ++ comma ∷ join (c ∷ bs)

kept_brokers : (parts : List Text) → All IsBroker (keep_brokers parts)
unfolding keep_brokers
kept_brokers [] = tt
kept_brokers (part ∷ parts) = elim (Bool-cases (is_empty (trim_space part))) [
  | inl e ↦ rw e (kept_brokers parts)
  | inr e ↦ rw e ((e, trim_space_idem part), kept_brokers parts)
]

split_last : (s : Text) → HasNoComma s → split s ≡ s ∷ []
unfolding split
split_last [] h = refl
split_last (r ∷ s) (p, h) = rw (p, split_last s h) refl

split-append : (s t : Text) → HasNoComma s → split (s ++ comma ∷ t) ≡ s ∷ split t
unfolding split
split-append [] t h = refl
split-append (r ∷ s) t (p, h) = rw (p, split-append s t h) refl

keep_brokers-id : (bs : List Text) → All IsBroker bs → keep_brokers bs ≡ bs
unfolding keep_brokers
keep_brokers-id [] h = refl
keep_brokers-id (b ∷ bs) ((full, trimmed), h) = rw (trimmed, full, keep_brokers-id bs h) refl

split-join : (b : Text) (bs : List Text) → All HasNoComma (b ∷ bs) → split (join (b ∷ bs)) ≡ b ∷ bs
unfolding join
split-join b [] (p, h) = split_last b p
split-join b (c ∷ bs) (p, h) =
    split-append b (join (c ∷ bs)) p ∙ ap (λ parts. b ∷ parts) (split-join c bs h)

-- splitBrokers gives only texts that are not empty and that have no space at their ends; and a list of
-- at least one such text without commas, joined by commas, is what it reads back.
pub split_brokers-join :
    (value b : Text) (bs : List Text)
    → All IsBroker (b ∷ bs)
    → All HasNoComma (b ∷ bs)
    → All IsBroker (split_brokers value) × (split_brokers (join (b ∷ bs)) ≡ b ∷ bs)
unfolding split_brokers
split_brokers-join value b bs good plain = (
  kept_brokers (split value),
  ap keep_brokers (split-join b bs plain) ∙ keep_brokers-id (b ∷ bs) good,
)
