-- ===== src/Infrastructure/SqliteStore/Valid.antt =====
-- Every operation of relayq/infrastructure/sqlite_store.py keeps the constraints of the table, for the
-- rows that the connection sees and for those that a rollback restores.
use relayq.Prelude.{ℕ, String, ◌≡◌, refl, inl, inr, Bool, true, false, Option, List, arith}
use relayq.Effect.{Result, ok, err, Result-cases}
use relayq.Effect.Action.{Action}
use relayq.Domain.Job.{Codec, Job, JobStatus, value}
use relayq.Infrastructure.SqliteStore.{
  Row, Db, Txn, idle, deferred, writing, claim, insert_row, update_rows, row_of, insert_outbox,
  update_status, transaction, begin, begin_immediate, finish, rollback, restored,
}
use relayq.Infrastructure.SqliteStore.Unique.{IsUnique, IsUnique-append, IsUnique-updated}

abbrev IsUniqueSaved : Txn → Type 0
IsUniqueSaved (writing saved) = IsUnique saved
IsUniqueSaved _ = Unit

-- The rows that the connection sees are unique, and so are those that a rollback restores.
pub record IsValid (s : Db) : Type 0 where
  pub rows : IsUnique s.rows
  pub saved : IsUniqueSaved s.txn

-- `m` keeps the table valid, whether it returns or raises.
abbrev pub Keeps : {A : Type 0} → Action Db A → Type 0
Keeps m = (s : Db) → IsValid s → IsValid (m s).1

claim-IsValid : (t : Txn) (b : Bool) (s : Db) → s.txn ≡ t → IsValid s → IsValid (claim t b s).1
unfolding claim
claim-IsValid idle true s e v = ground arith
claim-IsValid idle false s e v = ground arith
claim-IsValid deferred true s e v = ground arith
claim-IsValid deferred false s e v = ground arith
claim-IsValid (writing saved) b s e v = ground arith

insert_row-Keeps : (r : Row) → Keeps (insert_row r)
unfolding insert_row
insert_row-Keeps r s v = ground (
  arith,
  claim-IsValid s.txn s.locked s refl v,
  IsUnique-append (claim s.txn s.locked s).1.rows r,
)

update_rows-Keeps : (i st : String) (n : Option ℕ) → Keeps (update_rows i st n)
unfolding update_rows
update_rows-Keeps i st n s v = ground (
  arith,
  claim-IsValid s.txn s.locked s refl v,
  IsUnique-updated i st n (claim s.txn s.locked s).1.rows,
)

pub insert_outbox-Keeps : (codec : Codec) (job : Job) → Keeps (insert_outbox codec job)
unfolding insert_outbox
insert_outbox-Keeps codec job s v = elim (Result-cases (row_of codec job)) [
  | inl (row, e) ↦ rw (e, insert_outbox) (insert_row-Keeps row s v)
  | inr (x, e) ↦ rw (e, insert_outbox) v
]

pub update_status-Keeps :
    (i : String) (st : JobStatus) (n : Option ℕ) → Keeps (update_status i st n)
unfolding update_status
update_status-Keeps i st n s v = update_rows-Keeps i (value st) n s v

restored-IsUnique :
    (t : Txn) (rows : List Row) → IsUnique rows → IsUniqueSaved t → IsUnique (restored t rows)
restored-IsUnique (writing saved) rows u k = k
restored-IsUnique _ rows u k = u

rollback-IsValid : (s : Db) → IsValid s → IsValid (rollback s)
unfolding rollback
rollback-IsValid s v = record { rows = restored-IsUnique s.txn s.rows v.rows v.saved; saved = tt }

finish-Keeps : {A : Type 0} (r : Result A) → Keeps (finish r)
unfolding finish
finish-Keeps (ok a) s v = ground arith
finish-Keeps (err e) s v = ground (arith, rollback-IsValid s v)

begin-IsValid : (t : Txn) (b : Bool) (s : Db) → IsValid s → IsValid (begin t b s).1
unfolding begin
begin-IsValid idle true s v = v
begin-IsValid idle false s v = ground arith
begin-IsValid deferred b s v = v
begin-IsValid (writing saved) b s v = v

-- A transaction keeps the table valid if its body does, whether it commits, rolls back or is refused.
pub transaction-Keeps : {A : Type 0} (body : Action Db A) → Keeps body → Keeps (transaction body)
unfolding transaction
transaction-Keeps body keep s v =
    let started = begin_immediate s in
    let valid = begin-IsValid s.txn s.locked s v in
    elim (Result-cases started.0) [
      | inl (a, e) ↦
          rw (e, transaction)
            (finish-Keeps (body started.1).0 (body started.1).1 (keep started.1 valid))
      | inr (x, e) ↦ rw (e, transaction) valid
    ]

-- Every operation that writes keeps ids and non-NULL keys unique, in the rows that are seen and in
-- those that a rollback restores, whether it returns or raises: the transactional insert, and the
-- update in or out of a transaction.
pub store-IsValid :
    (codec : Codec) (job : Job) (id : String) (st : JobStatus) (n : Option ℕ) (s : Db)
    → IsValid s
    → IsValid (transaction (insert_outbox codec job) s).1 × IsValid (update_status id st n s).1
store-IsValid codec job id st n s v = (
  transaction-Keeps (insert_outbox codec job) (insert_outbox-Keeps codec job) s v,
  update_status-Keeps id st n s v,
)
