-- ===== src/Table/Laws.antt =====
-- Laws of the table statements.
use data_trains.Base.{
  Bool, true, false, List, Option, if◌then◌else◌, ◌⊎◌, [], ◌∷◌, none, some, ◌≡◌, refl, All, arith,
  Bool-cases, inl, inr,
}
use mathlib.Core.List.{Memᴰ}
use data_trains.Table.{find, exists, update_where, delete_where, insert, first_by, keep_first}

module _ {R : Type 0} where
  pub find-some : (p : R → Bool) (rs : List R) (r : R) → find p rs ≡ some r → p r ≡ true
  unfolding find
  find-some p [] r h = cc
  find-some p (q ∷ rs) r h = ground (arith, find-some p rs r)

  pub first_by-some :
      (before : R → R → Bool) (p : R → Bool) (rs : List R) (r : R)
      → first_by before p rs ≡ some r
      → p r ≡ true
  unfolding first_by
  first_by-some before p [] r h = cc
  first_by-some before p (q ∷ rs) r h = ground (arith, first_by-some before p rs r)

  -- A table in which every row has `P` gives rows with `P`.
  pub find-All {κ} :
      (P : R → Type κ) (p : R → Bool) (rs : List R) (r : R) → All P rs → find p rs ≡ some r → P r
  unfolding find
  find-All P p [] r a h = cc
  find-All P p (q ∷ rs) r a h = elim (Bool-cases (p q)) [
    | inl e ↦ subst_head (ground (arith, e)) a.0
    | inr e ↦ find-All P p rs r a.1 (ground (arith, e))
  ]
    where
      subst_head : q ≡ r → P q → P r
      subst_head e h = rw e at h

  pub exists-false-find : (p : R → Bool) (rs : List R) → exists p rs ≡ false → find p rs ≡ none
  unfolding exists find
  exists-false-find p [] h = refl
  exists-false-find p (r ∷ rs) h = ground (arith, exists-false-find p rs)

  -- An update of the row that `find` sees is what `find` sees afterwards, if the test still holds.
  pub find-update_self :
      (p : R → Bool) (f : R → R) (rs : List R) (r : R)
      → p (f r) ≡ true
      → find p rs ≡ some r
      → find p (update_where p f rs) ≡ some (f r)
  unfolding find update_where
  find-update_self p f [] r k h = cc
  find-update_self p f (q ∷ rs) r k h = ground (arith, find-update_self p f rs r)

  -- A row that passes the test is there.
  pub exists-Mem :
      (p : R → Bool) (rs : List R) → exists p rs ≡ true → (r : R) × Memᴰ r rs × (p r ≡ true)
  unfolding exists
  exists-Mem p [] h = cc
  exists-Mem p (r ∷ rs) h = elim (Bool-cases (p r)) [
    | inl e ↦ (r, Memᴰ.head refl, e)
    | inr e ↦ let rest = exists-Mem p rs (ground arith) in (rest.0, Memᴰ.tail rest.1, rest.2)
  ]

  pub find-insert_old :
      (p : R → Bool) (new : R) (rs : List R) (r : R)
      → find p rs ≡ some r
      → find p (insert new rs) ≡ some r
  unfolding find
  find-insert_old p new [] r h = cc
  find-insert_old p new (q ∷ rs) r h = ground (arith, find-insert_old p new rs r)

  pub exists-delete : (p : R → Bool) (rs : List R) → exists p (delete_where p rs) ≡ false
  unfolding exists delete_where
  exists-delete p [] = refl
  exists-delete p (r ∷ rs) = ground (arith, exists-delete p rs)

  pub find-delete : (p : R → Bool) (rs : List R) → find p (delete_where p rs) ≡ none
  find-delete p rs = exists-false-find p (delete_where p rs) (exists-delete p rs)

  pub find-insert_self :
      (p : R → Bool) (r : R) (rs : List R)
      → p r ≡ true
      → find p rs ≡ none
      → find p (insert r rs) ≡ some r
  unfolding find
  find-insert_self p r [] k h = ground arith
  find-insert_self p r (q ∷ rs) k h = ground (arith, find-insert_self p r rs)

  -- A row with `P` that the update keeps, or makes anew.
  pub All-update {κ} :
      (P : R → Type κ) (p : R → Bool) (f : R → R) (rs : List R)
      → ((r : R) → p r ≡ true → P r → P (f r))
      → All P rs
      → All P (update_where p f rs)
  unfolding update_where
  All-update P p f [] k a = tt
  All-update P p f (r ∷ rs) k a = elim (Bool-cases (p r)) [
    | inl e ↦ (rw e (k r e a.0), All-update P p f rs k a.1)
    | inr e ↦ (rw e a.0, All-update P p f rs k a.1)
  ]

  pub All-insert {κ} : (P : R → Type κ) (r : R) (rs : List R) → P r → All P rs → All P (insert r rs)
  All-insert P r [] h a = (h, tt)
  All-insert P r (q ∷ rs) h a = (a.0, All-insert P r rs h a.1)

  -- What holds of every row holds of the one that an ordered query picks.
  pub first_by-All {κ} :
      (P : R → Type κ) (before : R → R → Bool) (p : R → Bool) (rs : List R) (r : R)
      → All P rs
      → first_by before p rs ≡ some r
      → P r
  unfolding first_by
  first_by-All P before p [] r a h = cc
  first_by-All P before p (q ∷ rs) r a h = elim (picked (first_by before p rs) h) [
    | inl e ↦ rw e at a.0
    | inr e ↦ first_by-All P before p rs r a.1 e
  ]
    where
      picked :
          (rest : Option R)
          → (if p q then keep_first before q rest else rest) ≡ some r
          → (q ≡ r) ⊎ (rest ≡ some r)
      picked none e = ground arith
      picked (some x) e = ground arith
