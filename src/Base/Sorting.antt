-- ===== src/Base/Sorting.antt =====
-- Lists up to order, sorted lists, and sorting by insertion.
use Prim.Native.Nat.{ℕ, zero, suc}
use mathlib.Core.Path.{ap, refl, ◌≡◌}
use mathlib.Core.Logic.{◌⊎◌, inl, inr}
use mathlib.Core.Bool.{Bool, true, false}
use mathlib.Core.List.{List, [], ◌∷◌, map}
use truthmetal.Base.Tests.{if◌then◌else◌, Bool-cases}
use truthmetal.Base.Lists.{All, filter, take, drop, length}

module _ {A : Type 0} where
  -- The items of the lists are the same, each as often.
  pub data Reorders : List A → List A → Type 0 where
    same : (xs : List A) → Reorders xs xs
    skip : (x : A) {xs ys : List A} → Reorders xs ys → Reorders (x ∷ xs) (x ∷ ys)
    swap : (x y : A) (xs : List A) → Reorders (x ∷ y ∷ xs) (y ∷ x ∷ xs)
    chain : {xs ys zs : List A} → Reorders xs ys → Reorders ys zs → Reorders xs zs

  pub All-Reorders : (P : A → Type 0) {xs ys : List A} → Reorders xs ys → All P xs → All P ys
  All-Reorders P (same xs) h = h
  All-Reorders P (skip x r) h = (h.0, All-Reorders P r h.1)
  All-Reorders P (swap x y xs) h = (h.1.0, (h.0, h.1.1))
  All-Reorders P (chain r s) h = All-Reorders P s (All-Reorders P r h)

  pub Reorders-sym : {xs ys : List A} → Reorders xs ys → Reorders ys xs
  Reorders-sym (same xs) = same xs
  Reorders-sym (skip x r) = skip x (Reorders-sym r)
  Reorders-sym (swap x y xs) = swap y x xs
  Reorders-sym (chain r s) = chain (Reorders-sym s) (Reorders-sym r)

  pub Reorders-nil : {xs ys : List A} → Reorders xs ys → xs ≡ [] → ys ≡ []
  Reorders-nil (same xs) e = e
  Reorders-nil (skip x r) e = cc
  Reorders-nil (swap x y xs) e = cc
  Reorders-nil (chain r s) e = Reorders-nil s (Reorders-nil r e)

  pub All-filter :
      (P : A → Type 0) (p : A → Bool) (xs : List A)
      → All P xs
      → All (λ x. P x × (p x ≡ true)) (filter p xs)
  All-filter P p [] h = tt
  All-filter P p (x ∷ xs) (a, h) = elim (Bool-cases (p x)) [
    | inl t ↦ rw t ((a, t), All-filter P p xs h)
    | inr f ↦ rw f (All-filter P p xs h)
  ]

  pub filter_nil : (p : A → Bool) (xs : List A) → filter p xs ≡ [] → All (λ x. p x ≡ false) xs
  filter_nil p [] e = tt
  filter_nil p (x ∷ xs) e = elim (Bool-cases (p x)) [
    | inl t ↦ absurd (rest t (rw t at e))
    | inr f ↦ (f, filter_nil p xs (rw f at e))
  ]
    where
      rest : p x ≡ true → x ∷ filter p xs ≡ [] → ⊥
      rest t h = cc

  -- No item stands before one that `le` puts strictly in front of it.
  abbrev pub IsSorted : (A → A → Bool) → List A → Type 0
  IsSorted le [] = Unit
  IsSorted le (x ∷ xs) = All (λ y. le x y ≡ true) xs × IsSorted le xs

module _ {A : Type 0} (le : A → A → Bool) where
  pub insert : A → List A → List A
  insert x [] = x ∷ []
  insert x (y ∷ ys) = if le x y then x ∷ y ∷ ys else y ∷ insert x ys

  unfoldable pub sort : List A → List A
  unfolding insert
  sort [] = []
  sort (x ∷ xs) = insert x (sort xs)

  insert-Reorders : (x : A) (ys : List A) → Reorders (insert x ys) (x ∷ ys)
  unfolding insert
  insert-Reorders x [] = same _
  insert-Reorders x (y ∷ ys) = elim (Bool-cases (le x y)) [
    | inl t ↦ rw t (same _)
    | inr f ↦ rw f (chain (skip y (insert-Reorders x ys)) (swap y x ys))
  ]

  pub sort-Reorders : (xs : List A) → Reorders (sort xs) xs
  unfolding sort
  sort-Reorders [] = same []
  sort-Reorders (x ∷ xs) = chain (insert-Reorders x (sort xs)) (skip x (sort-Reorders xs))

  module _ (total : (x y : A) → (le x y ≡ true) ⊎ (le y x ≡ true))
      (trans : (x y z : A) → le x y ≡ true → le y z ≡ true → le x z ≡ true) where
    All-le :
        (x y : A) (ys : List A)
        → le x y ≡ true
        → All (λ z. le y z ≡ true) ys
        → All (λ z. le x z ≡ true) ys
    All-le x y [] h k = tt
    All-le x y (z ∷ zs) h (a, k) = (trans x y z h a, All-le x y zs h k)

    insert-IsSorted : (x : A) (ys : List A) → IsSorted le ys → IsSorted le (insert x ys)
    unfolding insert
    insert-IsSorted x [] h = (tt, tt)
    insert-IsSorted x (y ∷ ys) (b, h) = elim (Bool-cases (le x y)) [
      | inl t ↦ rw t ((t, All-le x y ys t b), (b, h))
      | inr f ↦ rw f (
        All-Reorders (λ z. le y z ≡ true) (Reorders-sym (insert-Reorders x ys)) (below f, b),
        insert-IsSorted x ys h,
      )
    ]
      where
        below : le x y ≡ false → le y x ≡ true
        below f = elim (total x y) [ inl t ↦ cc | inr t ↦ t ]

    pub sort-IsSorted : (xs : List A) → IsSorted le (sort xs)
    unfolding sort
    sort-IsSorted [] = tt
    sort-IsSorted (x ∷ xs) = insert-IsSorted x (sort xs) (sort-IsSorted xs)

-- What a function on the items keeps.
module _ {A B : Type 0} (f : A → B) where
  pub Reorders-map : {xs ys : List A} → Reorders xs ys → Reorders (map f xs) (map f ys)
  Reorders-map (same xs) = same (map f xs)
  Reorders-map (skip x r) = skip (f x) (Reorders-map r)
  Reorders-map (swap x y xs) = swap (f x) (f y) (map f xs)
  Reorders-map (chain r s) = chain (Reorders-map r) (Reorders-map s)

  All-map :
      (P : A → Type 0) (Q : B → Type 0) (xs : List A)
      → ((x : A) → P x → Q (f x))
      → All P xs
      → All Q (map f xs)
  All-map P Q [] h k = tt
  All-map P Q (x ∷ xs) h (a, k) = (h x a, All-map P Q xs h k)

  pub IsSorted-map :
      (le : A → A → Bool) (le' : B → B → Bool) (xs : List A)
      → ((x y : A) → le x y ≡ true → le' (f x) (f y) ≡ true)
      → IsSorted le xs
      → IsSorted le' (map f xs)
  IsSorted-map le le' [] h k = tt
  IsSorted-map le le' (x ∷ xs) h (a, k) = (
    All-map (λ y. le x y ≡ true) (λ y. le' (f x) y ≡ true) xs (h x) a,
    IsSorted-map le le' xs h k,
  )

  pub take-map : (n : ℕ) (xs : List A) → take n (map f xs) ≡ map f (take n xs)
  take-map zero xs = refl
  take-map (suc n) [] = refl
  take-map (suc n) (x ∷ xs) = ap (λ ys. f x ∷ ys) (take-map n xs)

  pub drop-map : (n : ℕ) (xs : List A) → drop n (map f xs) ≡ map f (drop n xs)
  drop-map zero xs = refl
  drop-map (suc n) [] = refl
  drop-map (suc n) (x ∷ xs) = drop-map n xs

  pub length-map : (xs : List A) → length (map f xs) ≡ length xs
  length-map [] = refl
  length-map (x ∷ xs) = ap suc (length-map xs)
