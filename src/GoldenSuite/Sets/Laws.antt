-- ===== src/GoldenSuite/Sets/Laws.antt =====
-- What `hasDuplicates` decides, and laws of the sets that the loops keep.
use truthmetal.Base.{
  String, ◌≡◌, refl, ◌≢◌, ◌↔◌, false, List, [], ◌∷◌, arith, All, NotMember, Distinct,
  UniqueNonempty,
}
use truthmetal.GoldenSuite.Sets.{has_duplicates, has_duplicates_from}

-- None of the strings is empty, seen before or repeated.
pub record Fresh (seen xs : List String) : Type 0 where
  pub nonempty : All (λ x. x ≢ "") xs
  pub unseen : All (NotMember seen) xs
  pub distinct : Distinct xs

-- Adding a key to the set asks of each string that it is another.
pub unseen-cons :
    (y : String) (seen xs : List String)
    → All (NotMember (y ∷ seen)) xs ↔ (All (NotMember seen) xs × NotMember xs y)
unseen-cons y seen [] = (λ _. (tt, refl), λ _. tt)
unseen-cons y seen (x ∷ xs) = (
  λ (a, rest). ground (arith, (unseen-cons y seen xs).0 rest),
  λ (b, n). ground (arith, (unseen-cons y seen xs).1),
)

pub Fresh-empty : (seen : List String) → Fresh seen []
Fresh-empty seen = record { nonempty = tt; unseen = tt; distinct = tt }

pub Fresh-cons :
    (seen : List String) (x : String) (xs : List String)
    → Fresh seen (x ∷ xs) ↔ ((x ≢ "") × NotMember seen x × Fresh (x ∷ seen) xs)
Fresh-cons seen x xs = (
  λ h. (
    h.nonempty.0,
    h.unseen.0,
    record {
      nonempty = h.nonempty.1;
      unseen = (unseen-cons x seen xs).1 (h.unseen.1, h.distinct.0);
      distinct = h.distinct.1;
    },
  ),
  λ (n, u, h).
      let (us, d) = (unseen-cons x seen xs).0 h.unseen in
      record { nonempty = (n, h.nonempty); unseen = (u, us); distinct = (d, h.distinct) },
)

pub All-unseen-nil : (xs : List String) → All (NotMember []) xs
All-unseen-nil [] = tt
All-unseen-nil (x ∷ xs) = (refl, All-unseen-nil xs)

pub Fresh-nil : (xs : List String) → Fresh [] xs ↔ UniqueNonempty xs
Fresh-nil xs = (
  λ h. record { nonempty = h.nonempty; distinct = h.distinct },
  λ h. record { nonempty = h.nonempty; unseen = All-unseen-nil xs; distinct = h.distinct },
)

has_duplicates_from_iff :
    (seen xs : List String) → (has_duplicates_from seen xs ≡ false) ↔ Fresh seen xs
unfolding has_duplicates_from
has_duplicates_from_iff seen [] =
    (λ _. record { nonempty = tt; unseen = tt; distinct = tt }, λ _. refl)
has_duplicates_from_iff seen (x ∷ xs) = (
  λ h. (Fresh-cons seen x xs).1 (ground (arith, (has_duplicates_from_iff (x ∷ seen) xs).0)),
  λ h.
      let p = (Fresh-cons seen x xs).0 h in
      ground (arith, p.0, p.1, (has_duplicates_from_iff (x ∷ seen) xs).1 p.2),
)

-- `hasDuplicates` is false exactly of the lists whose strings are non-empty and distinct.
pub has_duplicates_iff : (xs : List String) → (has_duplicates xs ≡ false) ↔ UniqueNonempty xs
unfolding has_duplicates
has_duplicates_iff xs = (
  λ h. (Fresh-nil xs).0 ((has_duplicates_from_iff [] xs).0 h),
  λ h. (has_duplicates_from_iff [] xs).1 ((Fresh-nil xs).1 h),
)
