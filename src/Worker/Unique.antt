-- ===== src/Worker/Unique.antt =====
-- `unique` (services/api/internal/worker/validator.go).
use data_trains.Base.{
  String, Bool, false, not, ◌&&◌, ◌||◌, ◌==◌, ◌≡◌, refl, arith, List, [], ◌∷◌, if◌then◌else◌,
  eq_iff, eq_refl,
}

-- The keys of a map or a set.
unfoldable pub contains : String → List String → Bool
contains k [] = false
contains k (x ∷ xs) = x == k || contains k xs

-- The loop, with the values that it has seen.
unfoldable pub unique_from : List String → List String → List String
unfolding contains
unique_from seen [] = []
unique_from seen (x ∷ xs) =
    let skipped = unique_from seen xs in
    let kept = x ∷ unique_from (x ∷ seen) xs in if contains x seen then skipped else kept

unfoldable pub unique : List String → List String
unfolding unique_from
unique xs = unique_from [] xs

-- No text stands in the list twice.
abbrev pub NoRepeats : List String → Type 0
NoRepeats [] = Unit
NoRepeats (x ∷ xs) = (contains x xs ≡ false) × NoRepeats xs

contains-unique_from :
    (k : String) (seen xs : List String)
    → contains k (unique_from seen xs) ≡ (contains k xs && not (contains k seen))
unfolding contains unique_from
contains-unique_from k seen [] = refl
contains-unique_from k seen (x ∷ xs) =
    ground (arith, contains-unique_from k seen xs, contains-unique_from k (x ∷ seen) xs, eq_iff x k)

unique_from-NoRepeats : (seen xs : List String) → NoRepeats (unique_from seen xs)
unfolding unique_from contains
unique_from-NoRepeats seen [] = tt
unique_from-NoRepeats seen (x ∷ xs) = ground (
  arith,
  unique_from-NoRepeats seen xs,
  unique_from-NoRepeats (x ∷ seen) xs,
  contains-unique_from x (x ∷ seen) xs,
  eq_refl x,
)

-- The result has the same members as the list, each of them once.
pub unique-NoRepeats :
    (xs : List String)
    → NoRepeats (unique xs) × ((k : String) → contains k (unique xs) ≡ contains k xs)
unfolding unique contains
unique-NoRepeats xs =
    (unique_from-NoRepeats [] xs, λ k. ground (arith, contains-unique_from k [] xs))
