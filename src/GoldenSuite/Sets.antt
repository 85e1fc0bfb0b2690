-- ===== src/GoldenSuite/Sets.antt =====
-- `hasDuplicates`, and the loops over a `seen` map of contract.go that it is the pattern of.
pub mod Laws
use truthmetal.Base.{String, Bool, true, false, ◌||◌, List, [], ◌∷◌, ◌==◌, member, if◌then◌else◌}

-- The loop of `hasDuplicates` from the keys of `seen` on.
has_duplicates_from : List String → List String → Bool
has_duplicates_from seen [] = false
has_duplicates_from seen (value ∷ values) =
    if value == "" || member value seen then true else has_duplicates_from (value ∷ seen) values

unfoldable pub has_duplicates : List String → Bool
unfolding has_duplicates_from
has_duplicates values = has_duplicates_from [] values
