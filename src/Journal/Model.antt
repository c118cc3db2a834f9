-- ===== src/Journal/Model.antt =====
-- The tables of the write journal and its statements: `RCWriteJournalInitialize` and the records
-- of source/shared/RCWriteJournal.h. A table is the list of its rows in ascending rowid order.
use retro_cloud_sync.Prelude.{
  ℕ, Bool, true, false, ◌&&◌, Option, none, some, List, [], ◌∷◌, ◌++◌, max, ◌==◌, if◌then◌else◌,
  Bytes, ℤ, same, any, Result, ok, err,
}

pub data Kind : Type 0 where
  create update delete : Kind

pub data State : Type 0 where
  queued uncertain applied conflict acknowledged cancelled : State

abbrev pub is_create : Kind → Bool
is_create create = true
is_create _ = false

abbrev pub is_update : Kind → Bool
is_update update = true
is_update _ = false

abbrev pub is_delete : Kind → Bool
is_delete delete = true
is_delete _ = false

abbrev pub same_kind : Kind → Kind → Bool
same_kind create k = is_create k
same_kind update k = is_update k
same_kind delete k = is_delete k

-- `state IN ('queued','uncertain')`.
abbrev pub is_attemptable : State → Bool
is_attemptable queued = true
is_attemptable uncertain = true
is_attemptable _ = false

-- `state NOT IN ('acknowledged','cancelled')`.
abbrev pub is_live : State → Bool
is_live acknowledged = false
is_live cancelled = false
is_live _ = true

abbrev pub is_queued : State → Bool
is_queued queued = true
is_queued _ = false

abbrev pub is_uncertain : State → Bool
is_uncertain uncertain = true
is_uncertain _ = false

abbrev pub is_applied : State → Bool
is_applied applied = true
is_applied _ = false

abbrev pub is_conflict : State → Bool
is_conflict conflict = true
is_conflict _ = false

abbrev pub is_acknowledged : State → Bool
is_acknowledged acknowledged = true
is_acknowledged _ = false

abbrev pub is_cancelled : State → Bool
is_cancelled cancelled = true
is_cancelled _ = false

-- A row of `write_bases`.
pub record Base : Type 0 where
  pub account : ℕ
  pub resource_key : Bytes
  pub href : Bytes
  pub etag : Option Bytes
  pub body : Bytes
  pub local_revision : ℤ

-- A row of `write_operations`.
pub record Operation : Type 0 where
  pub id : ℕ
  pub account : ℕ
  pub change_id : Bytes
  pub resource_key : Bytes
  pub href : Bytes
  pub kind : Kind
  pub state : State
  pub local_revision : ℤ
  pub base_etag : Option Bytes
  pub base_body : Option Bytes
  pub desired_body : Option Bytes
  pub attempts : ℕ
  pub retry_at : ℕ
  pub http_status : Option ℕ
  pub result_etag : Option Bytes
  pub result_body : Option Bytes

-- A row of `write_resolutions`.
pub record Resolution : Type 0 where
  pub operation_id : ℕ
  pub successor_id : ℕ
  pub receipt : Bytes
  pub mirror_committed : Bool

-- A row of `write_attention`.
pub record AttentionRow : Type 0 where
  pub operation_id : ℕ
  pub reason : Bytes

-- The connection: the tables, and whether no transaction is open (`sqlite3_get_autocommit`).
pub record Db : Type 0 where
  pub bases : List Base
  pub operations : List Operation
  pub resolutions : List Resolution
  pub attention : List AttentionRow
  pub autocommit : Bool

-- Which calls of SQLite succeed: `io k` is the outcome of the statement with number `k` of the
-- function at hand, in the order of its text.
abbrev pub Io : Type 0
Io = ℕ → Bool

abbrev pub db_error {ℓ} : {A : Type ℓ} → Result A
db_error = err 1 "Write journal database error: %s"

-- `sqlite3_last_insert_rowid` of an INSERT with no id: one more than the largest rowid.
unfoldable pub last_rowid : List Operation → ℕ
last_rowid [] = 0
last_rowid (o ∷ os) = max o.id (last_rowid os)

abbrev pub is_change : ℕ → Bytes → Operation → Bool
is_change account change o = o.account == account && same o.change_id change

-- `WHERE account_id=? AND id=?`.
abbrev pub is_operation : ℕ → ℕ → Operation → Bool
is_operation account id o = o.account == account && o.id == id

abbrev pub is_base : ℕ → Bytes → Base → Bool
is_base account key b = b.account == account && same b.resource_key key

-- INSERT INTO write_operations, refused by UNIQUE(account_id, change_id).
unfoldable pub insert_operation : Operation → Db → Option Db
insert_operation o db =
    if any (is_change o.account o.change_id) db.operations
    then none
    else some (record db { operations = db.operations ++ o ∷ [] })

-- Both functions that open a savepoint end so: RELEASE after success, and ROLLBACK TO, which
-- brings back the tables at the savepoint, after a failure or a failed RELEASE.
unfoldable pub close_savepoint {ℓ} : {A : Type ℓ} → Bool → Db → Db × Result A → Db × Result A
close_savepoint released before (after, ok a) =
    if released then (after, ok a) else (before, db_error)
close_savepoint released before (after, err c m) = (before, err c m)
