-- ===== src/Journal/Enqueue.antt =====
-- `RCWriteJournalSetBase` and `RCWriteJournalEnqueue` of source/shared/RCWriteJournal.c.
use retro_cloud_sync.Prelude.{
  ℕ, suc, Bool, not, ◌&&◌, ◌||◌, Option, none, some, List, [], ◌∷◌, ◌++◌, ltb, ◌==◌, if◌then◌else◌,
  Bytes, Buffer, at, is_null, size, bytes_of, column_of, int_max, codes, ℤ, pos, is_positive, eq_ℤ,
  non_empty, starts_with, same, find, any, delete_where, Result, ok, err,
}
use retro_cloud_sync.Journal.Model.{
  Kind, queued, is_create, is_delete, same_kind, is_live, Base, Operation, Db, Io, db_error,
  last_rowid, is_change, is_base, insert_operation, close_savepoint,
}
use retro_cloud_sync.Journal.Etag.{etag_is_strong}

-- `write_bases` after INSERT OR REPLACE of a row with this primary key.
unfoldable pub replace_base : Base → List Base → List Base
replace_base b bases = delete_where (is_base b.account b.resource_key) bases ++ b ∷ []

-- `RCWriteJournalSetBase`; statement 0 is the INSERT.
unfoldable pub set_base :
    Io → ℕ → Option Bytes → Option Bytes → Option Bytes → Buffer → ℤ → Db → Db × Result (Unit {0})
unfolding replace_base
set_base io account (some key) (some href) etag (at body) revision db =
    if not (non_empty (some key) && non_empty (some href))
      || ltb (size (at body)) 1
      || ltb int_max (size (at body))
      || not (is_positive revision)
    then (db, err 1 "Invalid published write base")
    else if not (io 0)
    then (db, db_error)
    else (
      record db {
        bases =
            replace_base
              (record {
                account = account;
                resource_key = key;
                href = href;
                etag = etag;
                body = body;
                local_revision = revision;
              })
              db.bases;
      },
      ok tt,
    )
set_base io account key href etag body revision db = (db, err 1 "Invalid published write base")

-- The arguments of an outgoing operation, past the checks for NULL.
pub record Intent : Type 0 where
  pub account : ℕ
  pub change : Bytes
  pub key : Bytes
  pub href : Bytes
  pub kind : Kind
  pub revision : ℤ
  pub body : Buffer

abbrev invalid_operation : Result Intent
invalid_operation = err 1 "Invalid outgoing operation"

-- The body is absent exactly for a delete, and the revision is 0 exactly for a create.
unfoldable pub has_valid_body : Intent → Bool
has_valid_body i =
    not (
      (is_delete i.kind && (not (is_null i.body) || ltb 0 (size i.body)))
      || (not (is_delete i.kind) && (is_null i.body || size i.body == 0)))
    && (if is_create i.kind then eq_ℤ i.revision (pos 0) else is_positive i.revision)

-- The two argument checks. `kind` is `none` for NULL and for any string that names no kind.
unfoldable pub check_intent :
    ℕ → Option Bytes → Option Bytes → Option Bytes → Option Kind → ℤ → Buffer → Result Intent
check_intent account (some change) (some key) (some href) (some kind) revision body =
    let i : Intent = record {
      account = account;
      change = change;
      key = key;
      href = href;
      kind = kind;
      revision = revision;
      body = body;
    } in
    if not (non_empty (some change) && non_empty (some key) && starts_with href (codes "https://"))
      || ltb int_max (size body)
    then invalid_operation
    else if not (has_valid_body i)
    then err 1 "Outgoing operation has no valid body or base revision"
    else ok i
check_intent account change key href kind revision body = invalid_operation

-- The stored operation with this change identifier is the same request.
unfoldable pub is_replay : Intent → Operation → Bool
is_replay i o =
    same i.key o.resource_key
    && same i.href o.href
    && same_kind i.kind o.kind
    && eq_ℤ i.revision o.local_revision
    && same (bytes_of (column_of i.body)) (bytes_of o.desired_body)

-- `(resource_key=? OR href=?) AND state NOT IN ('acknowledged','cancelled')`.
unfoldable pub blocks : Intent → Operation → Bool
blocks i o =
    o.account == i.account && (same o.resource_key i.key || same o.href i.href) && is_live o.state

-- A create has no published base; any other has the exact one, with a strong tag.
unfoldable pub base_allows : Intent → Option Base → Bool
base_allows i none = is_create i.kind
base_allows i (some b) =
    not (is_create i.kind)
    && same i.href b.href
    && etag_is_strong b.etag
    && eq_ℤ i.revision b.local_revision

abbrev base_etag : Option Base → Option Bytes
base_etag none = none
base_etag (some b) = b.etag

abbrev base_body : Option Base → Option Bytes
base_body none = none
base_body (some b) = some b.body

-- The row of the last INSERT.
unfoldable pub queued_operation : Intent → Db → Operation
queued_operation i db = record {
  id = suc (last_rowid db.operations);
  account = i.account;
  change_id = i.change;
  resource_key = i.key;
  href = i.href;
  kind = i.kind;
  state = queued;
  local_revision = i.revision;
  base_etag = base_etag (find (is_base i.account i.key) db.bases);
  base_body = base_body (find (is_base i.account i.key) db.bases);
  desired_body = column_of i.body;
  attempts = 0;
  retry_at = 0;
  http_status = none;
  result_etag = none;
  result_body = none;
}

-- The INSERT and the new rowid.
unfoldable pub insert_and_return : Operation → Db → Db × Result ℕ
insert_and_return o db = elim (insert_operation o db) [
  | none ↦ (db, db_error)
  | some db' ↦ (db', ok o.id)
]

-- Statements 2 to 4, once no operation has this change identifier.
unfoldable pub enqueue_new : Io → Intent → Db → Db × Result ℕ
unfolding insert_and_return
enqueue_new io i db =
    if not (io 2)
    then (db, db_error)
    else if any (blocks i) db.operations
    then (db, err 1 "Resource already has an unresolved write")
    else if not (io 3)
    then (db, db_error)
    else if not (base_allows i (find (is_base i.account i.key) db.bases))
    then (db, err 1 "Write requires the exact published base and a strong ETag")
    else if not (io 4)
    then (db, db_error)
    else insert_and_return (queued_operation i db) db

-- Between the savepoint and its end: statement 1 looks the change identifier up.
unfoldable pub enqueue_inside : Io → Intent → Db → Db × Result ℕ
enqueue_inside io i db =
    if not (io 1)
    then (db, db_error)
    else elim (find (is_change i.account i.change) db.operations) [
      | some o ↦ (
        db,
        (if is_replay i o
            then ok o.id
            else err 1 "Local change identifier was reused for a different operation"),
      )
      | none ↦ enqueue_new io i db
    ]

unfoldable pub enqueue_intent : Io → Intent → Db → Db × Result ℕ
enqueue_intent io i db =
    if io 0 then close_savepoint (io 5) db (enqueue_inside io i db) else (db, db_error)

-- `RCWriteJournalEnqueue`: statement 0 opens the savepoint and statement 5 releases it.
unfoldable pub enqueue :
    Io
    → ℕ
    → Option Bytes
    → Option Bytes
    → Option Bytes
    → Option Kind
    → ℤ
    → Buffer
    → Db
    → Db × Result ℕ
enqueue io account change key href kind revision body db =
    elim (check_intent account change key href kind revision body) [
      | ok i ↦ enqueue_intent io i db
      | err c m ↦ (db, err c m)
    ]
