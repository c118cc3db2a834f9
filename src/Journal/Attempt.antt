-- ===== src/Journal/Attempt.antt =====
-- Reading, attempting and finishing an operation: `RCWriteJournalGet`, `RCWriteJournalNext`,
-- `RCWriteJournalBeginAttempt`, `RCWriteJournalRecordResult`, `RCWriteJournalAcknowledge` and
-- `RCWriteJournalCancel` of source/shared/RCWriteJournal.c.
use retro_cloud_sync.Prelude.{
  ℕ, ◌+◌, ◌-◌, ◌*◌, ◌^◌, Bool, true, false, not, ◌&&◌, ◌||◌, Option, none, some, List, ltb, leb,
  ◌==◌, if◌then◌else◌, Bytes, Buffer, is_null, size, column_of, int_max, ℤ, pos, negsuc, leb_ℤ,
  find, any, update_where, count_where, Result, ok, err,
}
use retro_cloud_sync.Journal.Model.{
  State, uncertain, applied, conflict, acknowledged, cancelled, is_delete, is_attemptable,
  is_queued, is_uncertain, is_applied, is_conflict, is_acknowledged, is_cancelled, Operation,
  Resolution, Db, Io, db_error, is_operation,
}
use retro_cloud_sync.Journal.Etag.{etag_is_strong}

-- `RCWriteJournalGet`: the row of this account; statement 0 is the SELECT. Any outcome of its step
-- but a row gives the same error.
unfoldable pub get : Io → ℕ → ℕ → Db → Result Operation
get io account id db =
    if not (io 0) then db_error else elim (find (is_operation account id) db.operations) [
      | none ↦ err 1 "Outgoing operation is unavailable for this account"
      | some o ↦ ok o
    ]

-- `state IN ('queued','uncertain') AND retry_at<=?` of this account.
unfoldable pub is_due : ℕ → ℤ → Operation → Bool
is_due account now o = o.account == account && is_attemptable o.state && leb_ℤ o.retry_at now

-- An operation id, 0 if there is none.
abbrev pub id_or_zero : Option Operation → ℕ
id_or_zero none = 0
id_or_zero (some o) = o.id

-- `RCWriteJournalNext`: ORDER BY id LIMIT 1 over rows in ascending order.
unfoldable pub next : Io → ℕ → ℤ → Db → Result ℕ
next io account now db =
    if not (io 0) then db_error else ok (id_or_zero (find (is_due account now) db.operations))

abbrev pub llong_max : ℕ
llong_max = 2 ^ 63 - 1

-- `CASE WHEN attempts<10 THEN (5 << attempts) ELSE 3600 END`.
unfoldable pub backoff : ℕ → ℕ
backoff attempts = if ltb attempts 10 then 5 * 2 ^ attempts else 3600

-- The SET clause of an attempt.
unfoldable pub attempted : ℕ → Operation → Operation
attempted now o = record o {
  state = uncertain;
  retry_at = now + backoff o.attempts;
  attempts = o.attempts + 1;
  http_status = none;
  result_etag = none;
  result_body = none;
}

-- The WHERE clause of an attempt.
unfoldable pub may_attempt : ℕ → ℕ → ℕ → Operation → Bool
may_attempt account id now o =
    is_operation account id o && is_attemptable o.state && leb o.retry_at now

-- An UPDATE that has to change exactly one row. Statement 0 is the UPDATE: if it fails, no row is
-- changed. The message is the same for a failed step and for another number of rows.
unfoldable pub update_one :
    Bool
    → (Operation → Bool)
    → (Operation → Operation)
    → Result (Unit {0})
    → Db
    → Db × Result (Unit {0})
update_one stepped p f refusal db = if not stepped then (db, refusal) else (
  record db { operations = update_where p f db.operations },
  (if count_where p db.operations == 1 then ok tt else refusal),
)

-- `outsideTransaction`.
unfoldable pub outside_transaction : Db → Result (Unit {0})
outside_transaction db =
    if db.autocommit
    then ok tt
    else err 1 "Write journal operation requires a committed transaction"

-- `RCWriteJournalBeginAttempt`: statement 0 is prepared, statement 1 is its step.
unfoldable pub begin_attempt : Io → ℕ → ℕ → ℤ → Db → Db × Result (Unit {0})
begin_attempt io account id (negsuc n) db = (db, err 1 "Invalid outgoing attempt time")
begin_attempt io account id (pos now) db =
    if ltb (llong_max - 3600) now
    then (db, err 1 "Invalid outgoing attempt time")
    else elim (outside_transaction db) [
      | err c m ↦ (db, err c m)
      | ok _ ↦
          if not (io 0)
          then (db, db_error)
          else update_one (io 1) (may_attempt account id now) (attempted now)
              (err 1 "Outgoing operation is not due or cannot be attempted") db
    ]

-- The states that a result can have.
abbrev pub is_result_state : State → Bool
is_result_state uncertain = true
is_result_state applied = true
is_result_state conflict = true
is_result_state _ = false

-- The check of the arguments: `applied` wants a verified body with a strong tag, or a 404.
unfoldable pub is_valid_result : State → ℕ → Option Bytes → Buffer → Bool
is_valid_result state status etag body =
    is_result_state state
    && not (ltb int_max (size body))
    && not (is_null body && ltb 0 (size body))
    && not (
        is_applied state
        && not (status == 404)
        && (not (etag_is_strong etag) || is_null body || size body == 0))

-- The WHERE clause: an uncertain operation, and `applied` only with the status of its kind.
unfoldable pub may_record : ℕ → ℕ → State → ℕ → Operation → Bool
may_record account id state status o =
    is_operation account id o
    && is_uncertain o.state
    && (not (is_applied state)
        || (is_delete o.kind && status == 404)
        || (not (is_delete o.kind) && status == 200))

unfoldable pub recorded : State → ℕ → Option Bytes → Buffer → Operation → Operation
recorded state status etag body o = record o {
  state = state;
  http_status = some status;
  result_etag = etag;
  result_body = column_of body;
}

abbrev invalid_result : Result (Unit {0})
invalid_result = err 1 "Invalid outgoing write result"

-- `RCWriteJournalRecordResult`. `state` is `none` for NULL and for any string that names no state.
unfoldable pub record_result :
    Io → ℕ → ℕ → Option State → ℕ → Option Bytes → Buffer → Db → Db × Result (Unit {0})
record_result io account id none status etag body db = (db, invalid_result)
record_result io account id (some state) status etag body db =
    if not (is_valid_result state status etag body)
    then (db, invalid_result)
    else elim (outside_transaction db) [
      | err c m ↦ (db, err c m)
      | ok _ ↦
          if not (io 0)
          then (db, db_error)
          else update_one (io 1) (may_record account id state status)
              (recorded state status etag body)
              (err 1 "Outgoing write result cannot be recorded in this state") db
    ]

-- A successor whose mirror transaction is not committed.
unfoldable pub is_unmirrored : List Resolution → ℕ → Bool
is_unmirrored resolutions id =
    any (λ (r : Resolution). r.successor_id == id && not r.mirror_committed) resolutions

unfoldable pub may_acknowledge : ℕ → ℕ → Db → Operation → Bool
may_acknowledge account id db o =
    is_operation account id o
    && (is_applied o.state || is_acknowledged o.state)
    && not (is_unmirrored db.resolutions o.id)

unfoldable pub may_cancel : ℕ → ℕ → Operation → Bool
may_cancel account id o =
    is_operation account id o && (is_queued o.state || is_conflict o.state || is_cancelled o.state)

abbrev pub with_state : State → Operation → Operation
with_state s o = record o { state = s }

abbrev pub not_terminal : Result (Unit {0})
not_terminal = err 1 "Outgoing operation cannot be acknowledged or cancelled in this state"

-- `RCWriteJournalAcknowledge`, which is `terminal` with `ack`.
unfoldable pub acknowledge : Io → ℕ → ℕ → Db → Db × Result (Unit {0})
acknowledge io account id db =
    if not (io 0)
    then (db, db_error)
    else update_one (io 1) (may_acknowledge account id db) (with_state acknowledged) not_terminal db

-- `RCWriteJournalCancel`, which is `terminal` without `ack`.
unfoldable pub cancel : Io → ℕ → ℕ → Db → Db × Result (Unit {0})
cancel io account id db =
    if not (io 0)
    then (db, db_error)
    else update_one (io 1) (may_cancel account id) (with_state cancelled) not_terminal db
