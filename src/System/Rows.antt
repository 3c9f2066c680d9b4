-- ===== src/System/Rows.antt =====
-- The rows of `sessions` as a whole: distinct identifiers, and what an update of one row does to a
-- statement about all rows.
use data_trains.Base.{
  String, Bool, true, false, ◌==◌, some, List, [], ◌∷◌, ◌≡◌, refl, subst, arith, eq_iff, All,
  Bool-cases, inl, inr,
}
use data_trains.Table.{find, exists, insert, update_where}
use data_trains.Db.{SessionRow}

-- The primary key: no identifier stands twice.
abbrev pub IsDistinct : List SessionRow → Type 0
IsDistinct [] = Unit
IsDistinct (r ∷ rs) = (exists (λ q. q.id == r.id) rs ≡ false) × IsDistinct rs

absent_ne :
    (id : String) (rs : List SessionRow) (r : SessionRow)
    → exists (λ q. q.id == id) rs ≡ false
    → All (λ q. (q.id == id) ≡ true → q ≡ r) rs
unfolding exists
absent_ne id [] r h = tt
absent_ne id (q ∷ rs) r h = (λ e. ground arith, absent_ne id rs r (ground arith))

-- The row that is found is the only one with its identifier.
pub found_only :
    (id : String) (rs : List SessionRow) (r : SessionRow)
    → IsDistinct rs
    → find (λ q. q.id == id) rs ≡ some r
    → All (λ q. (q.id == id) ≡ true → q ≡ r) rs
unfolding find
found_only id [] r d h = tt
found_only id (q ∷ rs) r d h = elim (Bool-cases (q.id == id)) [
  | inl e ↦ (
    λ _. ground arith,
    absent_ne id rs r (subst (λ k. exists (λ p. p.id == k) rs ≡ false) ((eq_iff q.id id).0 e) d.0),
  )
  | inr e ↦ (λ e'. ground arith, found_only id rs r d.1 (ground arith))
]

-- A statement about all rows survives the update of the one that was found.
pub All-update_found :
    (P : SessionRow → Type 0) (id : String) (f : SessionRow → SessionRow) (rs : List SessionRow)
    (r : SessionRow)
    → All (λ q. (q.id == id) ≡ true → q ≡ r) rs
    → P (f r)
    → All P rs
    → All P (update_where (λ q. q.id == id) f rs)
unfolding update_where
All-update_found P id f [] r o k a = tt
All-update_found P id f (q ∷ rs) r o k a = elim (Bool-cases (q.id == id)) [
  | inl e ↦ (rw (e, o.0 e) k, All-update_found P id f rs r o.1 k a.1)
  | inr e ↦ (rw e a.0, All-update_found P id f rs r o.1 k a.1)
]

exists-update_id :
    (id : String) (p : SessionRow → Bool) (f : SessionRow → SessionRow) (rs : List SessionRow)
    → ((q : SessionRow) → (f q).id ≡ q.id)
    → exists (λ q. q.id == id) (update_where p f rs) ≡ exists (λ q. q.id == id) rs
unfolding exists update_where
exists-update_id id p f [] k = refl
exists-update_id id p f (q ∷ rs) k = ground (arith, k q, exists-update_id id p f rs k)

pub update-IsDistinct :
    (p : SessionRow → Bool) (f : SessionRow → SessionRow) (rs : List SessionRow)
    → ((q : SessionRow) → (f q).id ≡ q.id)
    → IsDistinct rs
    → IsDistinct (update_where p f rs)
unfolding update_where
update-IsDistinct p f [] k d = tt
update-IsDistinct p f (q ∷ rs) k d =
    (ground (arith, k q, exists-update_id q.id p f rs k), update-IsDistinct p f rs k d.1)

exists-insert_ne :
    (id : String) (r : SessionRow) (rs : List SessionRow)
    → (r.id == id) ≡ false
    → exists (λ q. q.id == id) rs ≡ false
    → exists (λ q. q.id == id) (insert r rs) ≡ false
unfolding exists
exists-insert_ne id r [] k h = ground arith
exists-insert_ne id r (q ∷ rs) k h = ground (arith, exists-insert_ne id r rs)

pub insert-IsDistinct :
    (r : SessionRow) (rs : List SessionRow)
    → exists (λ q. q.id == r.id) rs ≡ false
    → IsDistinct rs
    → IsDistinct (insert r rs)
unfolding exists
insert-IsDistinct r [] h d = (refl, tt)
insert-IsDistinct r (q ∷ rs) h d = (
  exists-insert_ne q.id r rs (ground (arith, eq_iff r.id q.id, eq_iff q.id r.id)) d.0,
  insert-IsDistinct r rs (ground arith) d.1,
)
