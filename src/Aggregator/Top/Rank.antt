-- ===== src/Aggregator/Top/Rank.antt =====
-- The ranking of items that the top list is specified by: a sort by "better", which depends on the
-- items alone and not on their order, and its prefixes.
use mathlib.Core.List.{Perm, Permᴰ}
use mathlib.Core.Logic.{∥∥₁_elim}
use wb_test_task.Base.{
  ℕ, zero, suc, ◌+◌, ◌≤◌, ◌≡◌, refl, sym, ap, ◌∙◌, true, false, List, [], ◌∷◌, ◌++◌, length, take,
  if◌then◌else◌, arith, inl, inr, Bool-cases,
}
use wb_test_task.Aggregator.Top.{TopItem}
use wb_test_task.Aggregator.Top.Order.{better, better_trans, better_total, better_asym, worse_trans}

TopItem-set : IsSet TopItem
TopItem-set = hlevel

pub items_set : IsSet (List TopItem)
items_set = hlevel TopItem-set

unfoldable pub rank_insert : TopItem → List TopItem → List TopItem
rank_insert x [] = x ∷ []
rank_insert x (y ∷ s) = if better x y then x ∷ y ∷ s else y ∷ rank_insert x s

-- The items, the best first.
unfoldable pub ranking : List TopItem → List TopItem
unfolding rank_insert
ranking [] = []
ranking (x ∷ s) = rank_insert x (ranking s)

-- The items, inserted one after the other.
unfoldable pub rank_all : List TopItem → List TopItem → List TopItem
unfolding rank_insert
rank_all [] s = s
rank_all (x ∷ xs) s = rank_all xs (rank_insert x s)

rank_insert_eq :
    (x y : TopItem) (s : List TopItem)
    → x ≡ y
    → rank_insert x (rank_insert y s) ≡ rank_insert y (rank_insert x s)
rank_insert_eq x y s e =
    ap (λ w. rank_insert w (rank_insert y s)) e ∙ sym (ap (λ w. rank_insert y (rank_insert w s)) e)

pub rank_insert_comm :
    (x y : TopItem) (s : List TopItem)
    → rank_insert x (rank_insert y s) ≡ rank_insert y (rank_insert x s)
unfolding rank_insert
rank_insert_comm x y [] = elim (better_total x y) [
  | inl p ↦ ground (arith, better_asym x y p)
  | inr (inl e) ↦ rank_insert_eq x y [] e
  | inr (inr p) ↦ ground (arith, better_asym y x p)
]
rank_insert_comm x y (z ∷ s) = elim (better_total x y) [
  | inl p ↦
      ground
        (arith, better_asym x y p, better_trans x y z, better_trans y x z, rank_insert_comm x y s)
  | inr (inl e) ↦ rank_insert_eq x y (z ∷ s) e
  | inr (inr p) ↦
      ground
        (arith, better_asym y x p, better_trans x y z, better_trans y x z, rank_insert_comm x y s)
]

ranking-permᴰ : {a b : List TopItem} → Permᴰ a b → ranking a ≡ ranking b
unfolding ranking
ranking-permᴰ Permᴰ.nil = refl
ranking-permᴰ (Permᴰ.cons e p) = rw (e, ranking-permᴰ p) refl
ranking-permᴰ (Permᴰ.swap {l = l} e f) = rw (e, f) (rank_insert_comm _ _ (ranking l))
ranking-permᴰ (Permᴰ.trans p q) = ranking-permᴰ p ∙ ranking-permᴰ q

-- The ranking forgets the order of the items.
pub ranking-perm : {a b : List TopItem} → Perm a b → ranking a ≡ ranking b
ranking-perm p = ∥∥₁_elim p (items_set _ _) ranking-permᴰ

pub rank_all-insert :
    (xs : List TopItem) (x : TopItem) (s : List TopItem)
    → rank_all xs (rank_insert x s) ≡ rank_insert x (rank_all xs s)
unfolding rank_all
rank_all-insert [] x s = refl
rank_all-insert (y ∷ xs) x s =
    ap (rank_all xs) (rank_insert_comm y x s) ∙ rank_all-insert xs x (rank_insert y s)

pub rank_all-nil : (xs : List TopItem) → rank_all xs [] ≡ ranking xs
unfolding rank_all ranking
rank_all-nil [] = refl
rank_all-nil (x ∷ xs) = rank_all-insert xs x [] ∙ ap (rank_insert x) (rank_all-nil xs)

pub length-rank_insert : (x : TopItem) (s : List TopItem) → length (rank_insert x s) ≡ length s + 1
unfolding rank_insert
length-rank_insert x [] = refl
length-rank_insert x (y ∷ s) = ground (arith, length-rank_insert x s)

pub length-ranking : (s : List TopItem) → length (ranking s) ≡ length s
unfolding ranking
length-ranking [] = refl
length-ranking (x ∷ s) = omega (arith, length-rank_insert x (ranking s), length-ranking s)

pub take-all : (n : ℕ) (s : List TopItem) → length s ≤ n → take n s ≡ s
take-all zero [] h = refl
take-all zero (x ∷ s) h = absurd (omega arith)
take-all (suc n) [] h = refl
take-all (suc n) (x ∷ s) h = ap (λ t. x ∷ t) (take-all n s (omega arith))

pub take-take : (n : ℕ) (s : List TopItem) → take n (take n s) ≡ take n s
take-take zero s = refl
take-take (suc n) [] = refl
take-take (suc n) (x ∷ s) = ap (λ t. x ∷ t) (take-take n s)

take-take-suc : (n : ℕ) (s : List TopItem) → take n (take (suc n) s) ≡ take n s
take-take-suc zero s = refl
take-take-suc (suc n) [] = refl
take-take-suc (suc n) (x ∷ s) = ap (λ t. x ∷ t) (take-take-suc n s)

take-cons_take : (n : ℕ) (x : TopItem) (s : List TopItem) → take n (x ∷ take n s) ≡ take n (x ∷ s)
take-cons_take zero x s = refl
take-cons_take (suc n) x s = ap (λ t. x ∷ t) (take-take-suc n s)

-- An item beyond the first n does not get among them.
take-rank_insert :
    (n : ℕ) (x : TopItem) (s : List TopItem)
    → take n (rank_insert x (take n s)) ≡ take n (rank_insert x s)
unfolding rank_insert
take-rank_insert zero x s = refl
take-rank_insert (suc n) x [] = refl
take-rank_insert (suc n) x (y ∷ s) = elim (Bool-cases (better x y)) [
  | inl e ↦ rw e (ap (λ t. x ∷ t) (take-cons_take n y s))
  | inr e ↦ rw e (ap (λ t. y ∷ t) (take-rank_insert n x s))
]

pub take-rank_all :
    (n : ℕ) (xs s : List TopItem) → take n (rank_all xs (take n s)) ≡ take n (rank_all xs s)
unfolding rank_all
take-rank_all n [] s = take-take n s
take-rank_all n (x ∷ xs) s =
    sym (take-rank_all n xs (rank_insert x (take n s)))
    ∙ ap (λ t. take n (rank_all xs t)) (take-rank_insert n x s)
    ∙ take-rank_all n xs (rank_insert x s)

-- An item that is better than no other comes last.
abbrev pub NoneWorse : TopItem → List TopItem → Type 0
NoneWorse x [] = Unit
NoneWorse x (y ∷ s) = (better x y ≡ false) × NoneWorse x s

NoneWorse-rank_insert :
    (x y : TopItem) (s : List TopItem)
    → better x y ≡ false
    → NoneWorse x s
    → NoneWorse x (rank_insert y s)
unfolding rank_insert
NoneWorse-rank_insert x y [] p v = (p, tt)
NoneWorse-rank_insert x y (z ∷ s) p (q, v) = elim (Bool-cases (better y z)) [
  | inl e ↦ rw e (p, (q, v))
  | inr e ↦ rw e (q, NoneWorse-rank_insert x y s p v)
]

pub NoneWorse-ranking : (x : TopItem) (s : List TopItem) → NoneWorse x s → NoneWorse x (ranking s)
unfolding ranking
NoneWorse-ranking x [] v = tt
NoneWorse-ranking x (y ∷ s) (p, v) =
    NoneWorse-rank_insert x y (ranking s) p (NoneWorse-ranking x s v)

pub NoneWorse-trans :
    (x r : TopItem) (s : List TopItem) → better x r ≡ false → NoneWorse r s → NoneWorse x s
NoneWorse-trans x r [] p v = tt
NoneWorse-trans x r (y ∷ s) p (q, v) = (worse_trans x r y p q, NoneWorse-trans x r s p v)

pub rank_insert-last :
    (x : TopItem) (s : List TopItem) → NoneWorse x s → rank_insert x s ≡ s ++ x ∷ []
unfolding rank_insert
rank_insert-last x [] v = refl
rank_insert-last x (y ∷ s) (p, v) = rw p (ap (λ t. y ∷ t) (rank_insert-last x s v))

pub take-append : (n : ℕ) (s t : List TopItem) → length s ≡ n → take n (s ++ t) ≡ s
take-append zero [] t e = refl
take-append zero (x ∷ s) t e = absurd (omega arith)
take-append (suc n) [] t e = absurd (omega arith)
take-append (suc n) (x ∷ s) t e = ap (λ r. x ∷ r) (take-append n s t (omega arith))

-- A better item takes the place of the last one.
pub take-replace_last :
    (n : ℕ) (x r : TopItem) (s : List TopItem)
    → length s + 1 ≡ n
    → better x r ≡ true
    → take n (rank_insert x (s ++ r ∷ [])) ≡ rank_insert x s
unfolding rank_insert
take-replace_last zero x r s e p = absurd (omega arith)
take-replace_last (suc n) x r [] e p = let one : n ≡ 0 = omega arith in rw (p, one) refl
take-replace_last (suc n) x r (y ∷ s) e p = elim (Bool-cases (better x y)) [
  | inl b ↦ rw b (ap (λ t. x ∷ t) (take-append n (y ∷ s) (r ∷ []) (omega arith)))
  | inr b ↦ rw b (ap (λ t. y ∷ t) (take-replace_last n x r s (omega arith) p))
]
