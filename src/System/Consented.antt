-- ===== src/System/Consented.antt =====
-- Consent before capture, as a statement about the table of sessions.
use data_trains.Base.{
  sym, Bool-cases, inl, inr, ◌⊎◌, subst, String, Bool, true, false, ◌==◌, ◌&&◌, some, List, [], ◌∷◌,
  ◌≡◌, refl, arith, eq_iff, All,
}
use data_trains.Domain.State.{
  SessionState, created, assigned, ready, failed, processing, cancelled, deleted,
  allowed_transition,
}
use data_trains.Domain.Model.{Time}
use data_trains.Table.{find, exists, insert, update_where}
use data_trains.Table.Laws.{find-some, All-update, All-insert}
use data_trains.Db.{SessionRow}
use data_trains.Store.Sessions.{is_none}
use data_trains.System.Rows.{
  IsDistinct, found_only, All-update_found, update-IsDistinct, insert-IsDistinct,
}

-- The states that a session enters with a consent only.
unfoldable pub needs_consent : SessionState → Bool
needs_consent created = false
needs_consent assigned = false
needs_consent cancelled = false
needs_consent deleted = false
needs_consent _ = true

abbrev pub HasConsent : SessionRow → Type 0
HasConsent r = (needs_consent r.state && is_none r.consent_acceptance_id) ≡ false

-- The identifiers are distinct, and every session has the consent that its state needs.
abbrev pub IsConsented : List SessionRow → Type 0
IsConsented rs = IsDistinct rs × All HasConsent rs

needs_before :
    (t u : SessionState)
    → allowed_transition t u ≡ true
    → needs_consent u ≡ true
    → (u ≡ ready) ⊎ (needs_consent t ≡ true)
unfolding allowed_transition needs_consent
needs_before created u a n = ground arith
needs_before assigned ready a n = inl refl
needs_before assigned u a n = ground arith
needs_before cancelled u a n = ground arith
needs_before deleted u a n = ground arith
needs_before t u a n = inr refl

find-All :
    (P : SessionRow → Type 0) (p : SessionRow → Bool) (rs : List SessionRow) (r : SessionRow)
    → All P rs
    → find p rs ≡ some r
    → P r
unfolding find
find-All P p [] r a f = cc
find-All P p (q ∷ rs) r a f = elim (Bool-cases (p q)) [
  | inl e ↦ subst P (ground arith) a.0
  | inr e ↦ find-All P p rs r a.1 (ground arith)
]

moved-HasConsent :
    (to : SessionState) (now : Time) (r : SessionRow)
    → allowed_transition r.state to ≡ true
    → (to ≡ ready → is_none r.consent_acceptance_id ≡ false)
    → HasConsent r
    → HasConsent (record r { state = to; updated_at = now })
moved-HasConsent to now r a k c = elim (Bool-cases (needs_consent to)) [
  | inl n ↦ elim (needs_before r.state to a n) [
    | inl e ↦ ground (arith, k e)
    | inr e ↦ ground arith
  ]
  | inr n ↦ ground arith
]

-- An update of the session that was found.
update_found-IsConsented :
    (id : String) (f : SessionRow → SessionRow) (rs : List SessionRow) (r : SessionRow)
    → ((q : SessionRow) → (f q).id ≡ q.id)
    → find (λ q. q.id == id) rs ≡ some r
    → (HasConsent r → HasConsent (f r))
    → IsConsented rs
    → IsConsented (update_where (λ q. q.id == id) f rs)
update_found-IsConsented id f rs r i e k c = (
  update-IsDistinct (λ q. q.id == id) f rs i c.0,
  All-update_found HasConsent id f rs r (found_only id rs r c.0 e)
      (k (find-All HasConsent (λ q. q.id == id) rs r c.1 e)) c.1,
)

-- A row moves on by an allowed transition, which finds a consent if it leads to READY.
pub move-IsConsented :
    (id : String) (to : SessionState) (now : Time) (rs : List SessionRow) (r : SessionRow)
    → find (λ q. q.id == id) rs ≡ some r
    → allowed_transition r.state to ≡ true
    → (to ≡ ready → is_none r.consent_acceptance_id ≡ false)
    → IsConsented rs
    → IsConsented
        (update_where (λ q. q.id == r.id) (λ q. record q { state = to; updated_at = now }) rs)
move-IsConsented id to now rs r f a k c =
    let moved : SessionRow → SessionRow = λ q. record q { state = to; updated_at = now } in
    subst (λ i. IsConsented (update_where (λ q. q.id == i) moved rs))
      (sym ((eq_iff r.id id).0 (find-some (λ q. q.id == id) rs r f)))
      (update_found-IsConsented id moved rs r (λ q. refl) f (moved-HasConsent to now r a k) c)

-- A failed session is processed again.
pub recover-IsConsented :
    (id : String) (now : Time) (rs : List SessionRow) (r : SessionRow)
    → find (λ q. q.id == id) rs ≡ some r
    → r.state ≡ failed
    → IsConsented rs
    → IsConsented
        (update_where (λ q. q.id == id) (λ q. record q { state = processing; updated_at = now }) rs)
unfolding needs_consent
recover-IsConsented id now rs r f s =
    update_found-IsConsented id (λ q. record q { state = processing; updated_at = now }) rs r
      (λ q. refl) f (λ c. ground arith)

-- An update that keeps the identifier and the consent of each row.
pub update-IsConsented :
    (p : SessionRow → Bool) (f : SessionRow → SessionRow) (rs : List SessionRow)
    → ((q : SessionRow) → (f q).id ≡ q.id)
    → ((q : SessionRow) → HasConsent q → HasConsent (f q))
    → IsConsented rs
    → IsConsented (update_where p f rs)
update-IsConsented p f rs i k c =
    (update-IsDistinct p f rs i c.0, All-update HasConsent p f rs (λ q e h. k q h) c.1)

-- A new session, assigned.
pub insert-IsConsented :
    (r : SessionRow) (rs : List SessionRow)
    → exists (λ q. q.id == r.id) rs ≡ false
    → r.state ≡ assigned
    → IsConsented rs
    → IsConsented (insert r rs)
unfolding needs_consent
insert-IsConsented r rs e s c =
    (insert-IsDistinct r rs e c.0, All-insert HasConsent r rs (ground arith) c.1)
