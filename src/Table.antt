-- ===== src/Table.antt =====
-- A database table as the list of its rows, and what the SQL statements of
-- services/api/internal/database do to one: WHERE is a test of a row.
pub mod Laws
use data_trains.Base.{
  Bool, true, false, ◌||◌, List, [], ◌∷◌, ◌++◌, Option, none, some, if◌then◌else◌,
}

module _ {R : Type 0} where
  -- SELECT … WHERE p, at most one row wanted.
  unfoldable pub find : (R → Bool) → List R → Option R
  find p [] = none
  find p (r ∷ rs) = if p r then some r else find p rs

  -- SELECT … WHERE p
  unfoldable pub select : (R → Bool) → List R → List R
  select p [] = []
  select p (r ∷ rs) = let rest = select p rs in if p r then r ∷ rest else rest

  -- SELECT EXISTS (SELECT 1 … WHERE p)
  unfoldable pub exists : (R → Bool) → List R → Bool
  exists p [] = false
  exists p (r ∷ rs) = p r || exists p rs

  -- UPDATE … SET f WHERE p
  unfoldable pub update_where : (R → Bool) → (R → R) → List R → List R
  update_where p f [] = []
  update_where p f (r ∷ rs) = (if p r then f r else r) ∷ update_where p f rs

  -- DELETE … WHERE p
  unfoldable pub delete_where : (R → Bool) → List R → List R
  delete_where p [] = []
  delete_where p (r ∷ rs) = let rest = delete_where p rs in if p r then rest else r ∷ rest

  -- INSERT
  abbrev pub insert : R → List R → List R
  insert r rs = rs ++ r ∷ []

  pub keep_first : (R → R → Bool) → R → Option R → Option R
  keep_first before r none = some r
  keep_first before r (some q) = if before q r then some q else some r

  -- SELECT … WHERE p ORDER BY … LIMIT 1
  unfoldable pub first_by : (R → R → Bool) → (R → Bool) → List R → Option R
  unfolding keep_first
  first_by before p [] = none
  first_by before p (r ∷ rs) =
      let rest = first_by before p rs in if p r then keep_first before r rest else rest
