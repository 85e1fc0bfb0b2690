-- ===== src/Base/Pigeonhole.antt =====
-- Counting with sets of strings as lists: distinct members of a list are no more than it has.
use truthmetal.Base.{
  suc, ◌≤◌, String, ◌≡◌, ◌≢◌, inl, inr, true, List, [], ◌∷◌, arith, ◌==◌, ==_iff, length, All,
  member, NotMember, Distinct, Bool-cases, if◌then◌else◌,
}

abbrev pub Member : List String → String → Type 0
Member ys x = member x ys ≡ true

-- The list without the first occurrence of `x`.
remove : String → List String → List String
remove x [] = []
remove x (y ∷ ys) = if x == y then ys else y ∷ remove x ys

length-remove :
    (x : String) (ys : List String) → Member ys x → length ys ≡ suc (length (remove x ys))
unfolding remove
length-remove x [] h = cc
length-remove x (y ∷ ys) h = ground (arith, length-remove x ys)

Member-remove : (x z : String) (ys : List String) → z ≢ x → Member ys z → Member (remove x ys) z
unfolding remove
Member-remove x z [] n h = cc
Member-remove x z (y ∷ ys) n h = ground (arith, Member-remove x z ys n)

All-remove :
    (x : String) (ys zs : List String)
    → NotMember zs x
    → All (Member ys) zs
    → All (Member (remove x ys)) zs
All-remove x ys [] n h = tt
All-remove x ys (z ∷ zs) n (m, h) =
    (Member-remove x z ys (ground arith) m, All-remove x ys zs (ground arith) h)

pub length-le_of_subset :
    (xs ys : List String) → Distinct xs → All (Member ys) xs → length xs ≤ length ys
length-le_of_subset [] ys d h = omega arith
length-le_of_subset (x ∷ xs) ys (n, d) (m, h) =
    omega
      (arith, length-remove x ys m, length-le_of_subset xs (remove x ys) d (All-remove x ys xs n h))

-- Distinct members that are as many as the list are all of it.
pub subset_covers :
    (xs ys : List String)
    → Distinct xs
    → All (Member ys) xs
    → length ys ≤ length xs
    → (y : String) → Member ys y
    → Member xs y
subset_covers xs ys d h l y m = elim (Bool-cases (member y xs)) [
  | inl e ↦ e
  | inr e ↦ absurd (omega (arith, length-le_of_subset (y ∷ xs) ys (e, d) (m, h)))
]

module _ {ℓ} (P : String → Type ℓ) where
  pub All-member : (xs : List String) → All P xs → (x : String) → Member xs x → P x
  All-member [] h x m = absurd (ground arith)
  All-member (y ∷ ys) (p, h) x m = elim (Bool-cases (x == y)) [
    | inl e ↦ rw ((==_iff x y).0 e) p
    | inr e ↦ All-member ys h x (ground arith)
  ]

  pub All-subset : (xs ys : List String) → All (Member xs) ys → All P xs → All P ys
  All-subset xs [] h a = tt
  All-subset xs (y ∷ ys) (m, h) a = (All-member xs a y m, All-subset xs ys h a)

  pub All-of_members : (ys : List String) → ((y : String) → Member ys y → P y) → All P ys
  All-of_members [] f = tt
  All-of_members (y ∷ ys) f = (f y (ground arith), All-of_members ys (λ z m. f z (ground arith)))
