-- ===== src/Db/Statements.antt =====
-- Transactions: state passing with errors, and the statements that many operations share.
use data_trains.Base.{String, Bool, true, false, List, [], ◌∷◌, Option, none, some, ◌==◌}
use data_trains.Domain.Errors.{Error, Result, ok, err, message, constraint}
use data_trains.Domain.Model.{AuditEvent}
use data_trains.Domain.Session.{Session}
use data_trains.Table.{find, exists, update_where, insert}
use data_trains.Db.Rows.{Db, SessionRow}

abbrev pub Tx : Type 0 → Type 0
Tx A = Db → Result (A × Db)

abbrev pub pure : {A : Type 0} → A → Tx A
pure a db = ok (a, db)

infixl 5 ◌>>=◌ ◌>>◌
abbrev pub ◌>>=◌ : {A B : Type 0} → Tx A → (A → Tx B) → Tx B
◌>>=◌ m f db = elim (m db) [ ok (a, db') ↦ f a db' | err e ↦ err e ]

abbrev pub ◌>>◌ : {B : Type 0} → Tx (Unit {0}) → Tx B → Tx B
m >> k = m >>= λ _. k

abbrev pub raise : {A : Type 0} → Error → Tx A
raise e db = err e

-- `if b { return err }`
abbrev pub fail_if : Bool → Error → Tx (Unit {0})
fail_if true e db = err e
fail_if false e db = ok (tt, db)

abbrev pub fetch : {A : Type 0} → (Db → A) → Tx A
fetch q db = ok (q db, db)

-- A query for one row; no row is the error.
abbrev pub row : {A : Type 0} → (Db → Option A) → Error → Tx A
row q e db = elim (q db) [ none ↦ err e | some a ↦ ok (a, db) ]

abbrev pub write : (Db → Db) → Tx (Unit {0})
write f db = ok (tt, f db)

-- A row that is inserted may not repeat what a unique constraint tests.
abbrev pub fresh : {R : Type 0} → (Db → List R) → (R → Bool) → String → Tx (Unit {0})
fresh table same name db = elim (exists same (table db)) [
  | true ↦ err (constraint name)
  | false ↦ ok (tt, db)
]

abbrev pub lift : {A : Type 0} → Result A → Tx A
lift r db = elim r [ ok a ↦ ok (a, db) | err e ↦ err e ]

-- The database after a call: a transaction that fails changes nothing.
unfoldable pub after : {A : Type 0} → Tx A → Db → Db
after m db = elim (m db) [ ok (a, db') ↦ db' | err e ↦ db ]

-- `insertAudit`: the table of audit events is append-only.
unfoldable pub insert_audit : AuditEvent → Tx (Unit {0})
insert_audit event = write (λ db. record db { audit = insert event db.audit })

-- `pgx.ErrNoRows` passed on as it is.
abbrev pub no_rows : Error
no_rows = message "no rows in result set"

abbrev pub find_session : String → Db → Option SessionRow
find_session id db = find (λ r. r.id == id) db.sessions

-- SELECT id, assignment_id, state, updated_at FROM sessions WHERE id=$1
abbrev pub session_of : SessionRow → Session
session_of r = record {
  id = r.id;
  assignment_id = r.assignment_id;
  state = r.state;
  updated_at = r.updated_at;
  audit_events = [];
}

-- UPDATE sessions SET … WHERE id=$1
abbrev pub update_session : String → (SessionRow → SessionRow) → Tx (Unit {0})
update_session id f =
    write (λ db. record db { sessions = update_where (λ r. r.id == id) f db.sessions })

-- UPDATE sessions SET state=$1, updated_at=$2 WHERE id=$3
unfoldable pub save_session : Session → Tx (Unit {0})
save_session s = update_session s.id (λ r. record r { state = s.state; updated_at = s.updated_at })

abbrev last? : List AuditEvent → Option AuditEvent
last? [] = none
last? (e ∷ []) = some e
last? (e ∷ f ∷ es) = last? (f ∷ es)

-- `insertAudit(ctx, tx, session.AuditEvents[len(session.AuditEvents)-1])`
unfoldable pub insert_last_audit : Session → Tx (Unit {0})
unfolding insert_audit
insert_last_audit s = elim (last? s.audit_events) [
  | none ↦ raise (message "index out of range")
  | some e ↦ insert_audit e
]
