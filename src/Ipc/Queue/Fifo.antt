-- ===== src/Ipc/Queue/Fifo.antt =====
-- What src/ipc/Queue.hpp promises: a bounded list, oldest item first. `Remove` takes out the first
-- item that is equal to its argument, and puts the last item in its place.
use mathlib.Core.List.{Perm, perm_middle, append-nil}
use mathlib.Core.List.Perm
use libazul.Base.{
  ℕ, ◌≡◌, refl, ap, Bool, true, false, Result, ok, throw, Option, none, some, List, [], ◌∷◌, ◌++◌,
  ltb, if◌then◌else◌, length, arith, Bool-cases, Option-cases, subst, ◌⊎◌, inl, inr,
}
use libazul.Ipc.Queue.{QueueError, no_item_available, no_space_available, ItemEq}

abbrev pub or_no_item {ℓ} : {B : Type ℓ} → Option B → Result QueueError B
or_no_item none = throw no_item_available
or_no_item (some b) = ok b

module _ {A : Type 0} where
  unfoldable pub get_last? : List A → Option A
  get_last? [] = none
  get_last? (x ∷ []) = some x
  get_last? (x ∷ y ∷ xs) = get_last? (y ∷ xs)

  unfoldable pub drop_last : List A → List A
  drop_last [] = []
  drop_last (x ∷ []) = []
  drop_last (x ∷ y ∷ xs) = x ∷ drop_last (y ∷ xs)

  unfoldable pub pop : List A → Result QueueError (List A)
  pop [] = throw no_item_available
  pop (x ∷ xs) = ok xs

  unfoldable pub front : List A → Result QueueError A
  front [] = throw no_item_available
  front (x ∷ xs) = ok x

  unfoldable pub pop_back : List A → Result QueueError (List A)
  pop_back [] = throw no_item_available
  pop_back (x ∷ xs) = ok (drop_last (x ∷ xs))

  unfoldable pub back : List A → Result QueueError A
  unfolding get_last?
  back xs = or_no_item (get_last? xs)

  unfoldable pub push_back : ℕ → List A → A → Result QueueError (List A)
  push_back cap xs x = if ltb (length xs) cap then ok (xs ++ x ∷ []) else throw no_space_available

  -- The rest of a list whose head goes away, its last item in the head's place.
  unfoldable pub refill : List A → List A
  unfolding get_last? drop_last
  refill xs = elim (get_last? xs) [ none ↦ [] | some y ↦ y ∷ drop_last xs ]

  pub get_last?-snoc : (xs : List A) (y : A) → get_last? (xs ++ y ∷ []) ≡ some y
  unfolding get_last?
  get_last?-snoc [] y = refl
  get_last?-snoc (x ∷ []) y = refl
  get_last?-snoc (x ∷ z ∷ xs) y = get_last?-snoc (z ∷ xs) y

  pub drop_last-snoc : (xs : List A) (y : A) → drop_last (xs ++ y ∷ []) ≡ xs
  unfolding drop_last
  drop_last-snoc [] y = refl
  drop_last-snoc (x ∷ []) y = refl
  drop_last-snoc (x ∷ z ∷ xs) y = ap (λ ys. x ∷ ys) (drop_last-snoc (z ∷ xs) y)

  pub back-snoc : (xs : List A) (y : A) → back (xs ++ y ∷ []) ≡ ok y
  unfolding back
  back-snoc xs y = ap or_no_item (get_last?-snoc xs y)

  pub pop_back-snoc : (xs : List A) (y : A) → pop_back (xs ++ y ∷ []) ≡ ok xs
  unfolding pop_back
  pop_back-snoc [] y = ap ok (drop_last-snoc [] y)
  pop_back-snoc (x ∷ xs) y = ap ok (drop_last-snoc (x ∷ xs) y)

  pub refill-snoc : (xs : List A) (y : A) → refill (xs ++ y ∷ []) ≡ y ∷ xs
  unfolding refill
  refill-snoc xs y = rw (refill, get_last?-snoc xs y, drop_last-snoc xs y)

  -- A list is empty or ends with an item.
  pub snoc_cases : (xs : List A) → (xs ≡ []) ⊎ ((zs : List A) × (y : A) × (xs ≡ zs ++ y ∷ []))
  snoc_cases [] = inl refl
  snoc_cases (x ∷ xs) = elim (snoc_cases xs) [
    | inl e ↦ inr ([], x, ap (λ ys. x ∷ ys) e)
    | inr (zs, y, e) ↦ inr (x ∷ zs, y, ap (λ ys. x ∷ ys) e)
  ]

  pub refill-perm : (xs : List A) → Perm xs (refill xs)
  unfolding refill
  refill-perm xs = elim (snoc_cases xs) [
    | inl e ↦ rw e (Perm.refl [])
    | inr (zs, y, e) ↦
        rw (e, refill-snoc zs y)
          (subst (λ ws. Perm (zs ++ y ∷ []) (y ∷ ws)) (append-nil zs) (perm_middle zs []))
  ]

  module _ (e : ItemEq A) where
    unfoldable pub contains : List A → A → Bool
    contains [] item = false
    contains (x ∷ xs) item = if e.beq x item then true else contains xs item

    -- `none` where no item is equal.
    unfoldable pub swap_remove : A → List A → Option (List A)
    swap_remove item [] = none
    swap_remove item (x ∷ xs) =
        if e.beq x item
        then some (refill xs)
        else elim (swap_remove item xs) [ none ↦ none | some ys ↦ some (x ∷ ys) ]

    unfoldable pub remove : List A → A → List A × Bool
    remove xs item = elim (swap_remove item xs) [ none ↦ (xs, false) | some ys ↦ (ys, true) ]

    -- `Remove` loses one item that is equal to its argument, and nothing else.
    pub swap_remove-perm :
        (item : A) (xs ys : List A) → swap_remove item xs ≡ some ys → Perm xs (item ∷ ys)
    unfolding swap_remove
    swap_remove-perm item [] ys h = cc
    swap_remove-perm item (x ∷ xs) ys h = elim (Bool-cases (e.beq x item)) [
      | inl t ↦
          let same : x ∷ refill xs ≡ item ∷ ys = ground (arith, (e.beq_iff x item).0 t) in
          subst (Perm (x ∷ xs)) same (Perm.cons x (refill-perm xs))
      | inr f ↦ elim (Option-cases (swap_remove item xs)) [
        | inl n ↦ absurd (ground arith)
        | inr (zs, s) ↦
            let rest : x ∷ zs ≡ ys = ground arith in
            subst (λ ws. Perm (x ∷ xs) (item ∷ ws)) rest
              (Perm.trans (Perm.cons x (swap_remove-perm item xs zs s)) (Perm.swap item x zs))
      ]
    ]
