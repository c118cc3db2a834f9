-- ===== src/Journal/Resolve.antt =====
-- `RCWriteJournalResolveConflict` of source/shared/RCWriteJournal.c.
use retro_cloud_sync.Prelude.{
  ℕ, suc, ◌+◌, Bool, true, false, not, ◌&&◌, ◌||◌, Option, none, some, [], ◌∷◌, ◌++◌, ltb, ◌==◌,
  if◌then◌else◌, Bytes, Buffer, at, is_null, size, bytes_of, column_of, int_max, codes, pos,
  is_positive, same, find, any, delete_where, Result, ok, err, decimal, is_empty,
}
use retro_cloud_sync.Journal.Model.{
  Kind, queued, is_create, is_delete, same_kind, is_conflict, Operation, Resolution, AttentionRow,
  Db, Io, db_error, last_rowid, insert_operation, close_savepoint,
}
use retro_cloud_sync.Journal.Attempt.{get, cancel}
use retro_cloud_sync.Journal.Etag.{etag_is_strong}

-- The decision of a resolver. `kind` is `none` for NULL and for any string that names no kind.
pub record Decision : Type 0 where
  pub kind : Kind
  pub body : Buffer
  pub receipt : Bytes

-- The check of the arguments.
unfoldable pub check_decision : Option Kind → Buffer → Buffer → Result Decision
check_decision (some kind) body (at receipt) =
    if size (at receipt) == 0
      || ltb int_max (size (at receipt))
      || ltb int_max (size body)
      || (if is_delete kind
          then not (is_null body) || not (size body == 0)
          else is_null body || size body == 0)
    then err 1 "Invalid conflict resolution"
    else ok (record { kind = kind; body = body; receipt = receipt })
check_decision kind body receipt = err 1 "Invalid conflict resolution"

-- `sqlite3_column_int`: NULL is read as 0.
abbrev pub status_of : Operation → ℕ
status_of o = elim o.http_status [ none ↦ 0 | some n ↦ n ]

-- `!body || !length`.
abbrev is_missing : Option Bytes → Bool
is_missing none = true
is_missing (some body) = is_empty body

-- The conflict has a remote revision that this decision can be pinned to.
unfoldable pub is_usable : Kind → Operation → Bool
is_usable kind old = not (
    not (is_conflict old.state)
    || (is_delete kind
        && status_of old == 404
        && (not (etag_is_strong old.base_etag) || not (is_positive old.local_revision)))
    || (if status_of old == 404
        then not (is_create kind) && not (is_delete kind)
        else not (status_of old == 200)
          || not (etag_is_strong old.result_etag)
          || is_missing old.result_body
          || is_create kind))

-- `snprintf(change, …, "resolution:%lld", id)`.
unfoldable pub resolution_change : ℕ → Bytes
resolution_change id = codes "resolution:" ++ decimal id

abbrev gone : Operation → Bool
gone old = status_of old == 404

-- The row of the successor.
unfoldable pub successor : Operation → Decision → Db → Operation
successor old d db = record {
  id = suc (last_rowid db.operations);
  account = old.account;
  change_id = resolution_change old.id;
  resource_key = old.resource_key;
  href = old.href;
  kind = d.kind;
  state = queued;
  local_revision = if gone old && not (is_delete d.kind) then pos 0 else old.local_revision;
  base_etag =
      if gone old then (if is_delete d.kind then old.base_etag else none) else old.result_etag;
  base_body =
      if gone old then (if is_delete d.kind then old.base_body else none) else old.result_body;
  desired_body = if is_delete d.kind then none else column_of d.body;
  attempts = 0;
  retry_at = 0;
  http_status = none;
  result_etag = none;
  result_body = none;
}

-- The stored successor records the same decision.
unfoldable pub same_decision : Decision → Bytes → Operation → Bool
same_decision d receipt next =
    same d.receipt receipt
    && same_kind next.kind d.kind
    && same (bytes_of next.desired_body) (bytes_of (column_of d.body))

-- INSERT INTO write_resolutions, refused by its keys.
unfoldable pub insert_resolution : Resolution → Db → Option Db
insert_resolution r db =
    if any
      (λ (s : Resolution). s.operation_id == r.operation_id || s.successor_id == r.successor_id)
      db.resolutions
    then none
    else some (record db { resolutions = db.resolutions ++ r ∷ [] })

unfoldable pub without_attention : ℕ → Db → Db
without_attention id db = record db {
  attention = delete_where (λ (a : AttentionRow). a.operation_id == id) db.attention;
}

-- Statement 7, after the conflict was cancelled: its attention is cleared.
unfoldable pub clear_attention : Bool → ℕ → ℕ → Db × Result (Unit {0}) → Db × Result ℕ
clear_attention cleared id next (db, err c m) = (db, err c m)
clear_attention cleared id next (db, ok _) =
    if cleared then (without_attention id db, ok next) else (db, db_error)

abbrev pub resolution_of : Operation → Operation → Decision → Resolution
resolution_of old next d = record {
  operation_id = old.id;
  successor_id = next.id;
  receipt = d.receipt;
  mirror_committed = false;
}

-- Statements 4 to 7, once the successor stands in the table: its resolution is stored, and the
-- conflict is cancelled.
unfoldable pub retire : Io → ℕ → Operation → Operation → Decision → Db → Db × Result ℕ
retire io account old next d db = elim (insert_resolution (resolution_of old next d) db) [
  | none ↦ (db, db_error)
  | some db' ↦
      if not (io 4)
      then (db', db_error)
      else clear_attention (io 7) old.id next.id (cancel (λ k. io (5 + k)) account old.id db')
]

-- Statement 3 inserts the successor.
unfoldable pub resolve_new : Io → ℕ → Operation → Decision → Db → Db × Result ℕ
resolve_new io account old d db =
    if not (is_usable d.kind old)
    then (db, err 1 "Conflict has no usable remote revision for this decision")
    else if not (io 3)
    then (db, db_error)
    else elim (insert_operation (successor old d db) db) [
      | none ↦ (db, db_error)
      | some db' ↦ retire io account old (successor old d db) d db'
    ]

abbrev other_resolution : Result ℕ
other_resolution = err 1 "Conflict already has a different resolution"

-- A stored resolution is returned again for the same decision only. Statement 8 reads the successor.
unfoldable pub replay : Io → ℕ → Decision → Resolution → Db → Result ℕ
replay io account d r db = elim (get (λ k. io (8 + k)) account r.successor_id db) [
  | err c m ↦ other_resolution
  | ok next ↦ if same_decision d r.receipt next then ok r.successor_id else other_resolution
]

-- Between the savepoint and its end: statement 1 reads the operation, 2 looks for a resolution.
unfoldable pub resolve_inside : Io → ℕ → ℕ → Decision → Db → Db × Result ℕ
resolve_inside io account id d db = elim (get (λ k. io (1 + k)) account id db) [
  | err c m ↦ (db, err c m)
  | ok old ↦
      if not (io 2)
      then (db, db_error)
      else elim (find (λ (r : Resolution). r.operation_id == id) db.resolutions) [
        | some r ↦ (db, replay io account d r db)
        | none ↦ resolve_new io account old d db
      ]
]

-- `RCWriteJournalResolveConflict`: statement 0 opens the savepoint and statement 9 releases it.
unfoldable pub resolve_conflict : Io → ℕ → ℕ → Option Kind → Buffer → Buffer → Db → Db × Result ℕ
resolve_conflict io account id kind body receipt db = elim (check_decision kind body receipt) [
  | err c m ↦ (db, err c m)
  | ok d ↦
      if io 0 then close_savepoint (io 9) db (resolve_inside io account id d db) else (db, db_error)
]
