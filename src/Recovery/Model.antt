-- ===== src/Recovery/Model.antt =====
-- `RCConflictRecover` and `RCConflictComplete` of source/shared/RCConflictRecovery.c. The callbacks of
-- RCConflictCallbacks are parameters; all of them are set, and they work on a committed database.
use retro_cloud_sync.Prelude.{
  ℕ, ◌+◌, Bool, true, false, not, ◌&&◌, ◌||◌, Option, none, some, ◌==◌, if◌then◌else◌, Bytes,
  Buffer, codes, is_empty, Result, ok, err,
}
use retro_cloud_sync.Journal.Model.{
  Kind, update, is_create, is_update, is_conflict, is_applied, is_acknowledged, Operation, Db, Io,
}
use retro_cloud_sync.Journal.Attempt.{get, acknowledge}
use retro_cloud_sync.Journal.Etag.{etag_is_strong}
use retro_cloud_sync.Journal.Resolve.{resolve_conflict, status_of}
use retro_cloud_sync.Journal.Attention.{conflict_attention, resolution_receipt, resolution_mirrored}

-- What the resolver answers. A resolved decision has a kind, `none` if it is NULL or names no kind.
pub data Disposition : Type 0 where
  deferred : Disposition
  resolved : Option Kind → Buffer → Buffer → Disposition
  needs_attention : Option Bytes → Disposition
  failed : ℕ → Disposition

-- `RCConflictCallbacks`.
pub record Callbacks : Type 0 where
  pub resolve : Operation → Disposition
  pub save_mirror : Operation → Db → Db × Result (Unit {0})
  pub accept_local : Operation → Bytes → Result (Unit {0})

-- No successor was queued.
abbrev pub no_successor : Db × Result (Unit {0}) → Db × Result ℕ
no_successor (db, ok _) = (db, ok 0)
no_successor (db, err c m) = (db, err c m)

abbrev is_missing : Option Bytes → Bool
is_missing none = true
is_missing (some body) = is_empty body

-- The conflict is kept for review, with a reason. Statements 2 and 3 of the journal are its.
unfoldable pub set_aside : Io → ℕ → Operation → Bytes → Db → Db × Result ℕ
set_aside io account o reason db =
    no_successor (conflict_attention (λ k. io (2 + k)) account o.id (some reason) db)

abbrev reason_or : Option Bytes → Bytes → Bytes
reason_or none default = default
reason_or (some reason) default = reason

-- After the resolver answered. Statements 4 and later of the journal resolve the conflict.
unfoldable pub apply_disposition : Io → ℕ → Operation → Disposition → Db → Db × Result ℕ
apply_disposition io account o deferred db = (db, ok 0)
apply_disposition io account o (needs_attention reason) db =
    set_aside io account o (reason_or reason (codes "unsupported-mapping")) db
apply_disposition io account o (failed code) db = (db, err code "")
apply_disposition io account o (resolved (some update) body receipt) db =
    resolve_conflict (λ k. io (4 + k)) account o.id (some update) body receipt db
apply_disposition io account o (resolved _ body receipt) db =
    set_aside io account o (codes "edit-delete") db

unfoldable pub has_remote_revision : Operation → Bool
has_remote_revision o = etag_is_strong o.result_etag && not (is_missing o.result_body)

-- `RCConflictRecover`: statement 0 reads the operation.
unfoldable pub recover : Io → Callbacks → ℕ → ℕ → Db → Db × Result ℕ
recover io callbacks account id db =
    if not db.autocommit
    then (db, err 1 "Conflict recovery requires a resolver outside a transaction")
    else elim (get io account id db) [
      | err c m ↦ (db, err c m)
      | ok o ↦
          if not (is_conflict o.state)
          then (db, err 1 "Operation is not awaiting conflict resolution")
          else if not (is_update o.kind) || not (status_of o == 200)
          then set_aside io account o
              (if is_create o.kind then codes "create-collision" else codes "edit-delete") db
          else if not (has_remote_revision o)
          then set_aside io account o (codes "unusable-remote-revision") db
          else apply_disposition io account o (callbacks.resolve o) db
    ]

abbrev completion_error : Result (Unit {0})
completion_error = err 1 "Conflict completion database error: %s"

-- COMMIT, or ROLLBACK to the database before the transaction.
unfoldable pub end_transaction : Bool → Db → Db × Result (Unit {0}) → Db × Result (Unit {0})
end_transaction committed before (after, err c m) = (before, err c m)
end_transaction committed before (after, ok _) =
    if committed then (record after { autocommit = true }, ok tt) else (before, completion_error)

-- The checkpoint joins the mirror's transaction. Statements 3 and 4 are its.
unfoldable pub set_checkpoint : Io → ℕ → ℕ → Db × Result (Unit {0}) → Db × Result (Unit {0})
set_checkpoint io account id (db, err c m) = (db, err c m)
set_checkpoint io account id (db, ok _) = resolution_mirrored (λ k. io (3 + k)) account id db

-- The mirror is saved and its checkpoint set in one transaction. Statement 2 is BEGIN, 5 is COMMIT.
unfoldable pub mirror_transaction : Io → Callbacks → ℕ → Operation → Db → Db × Result (Unit {0})
mirror_transaction io callbacks account o db =
    if not (io 2)
    then (db, completion_error)
    else end_transaction (io 5) db (
        set_checkpoint io account o.id (callbacks.save_mirror o (record db { autocommit = false })))

-- Local acceptance and the final acknowledgement. Statements 6 and 7 are its.
unfoldable pub accept_and_acknowledge :
    Io → Callbacks → ℕ → Operation → Bytes → Db × Result (Unit {0}) → Db × Result (Unit {0})
accept_and_acknowledge io callbacks account o receipt (db, err c m) = (db, err c m)
accept_and_acknowledge io callbacks account o receipt (db, ok _) =
    elim (callbacks.accept_local o receipt) [
      | err c m ↦ (db, err c m)
      | ok _ ↦ acknowledge (λ k. io (6 + k)) account o.id db
    ]

-- `RCConflictComplete`: statement 0 reads the operation and 1 its receipt.
unfoldable pub complete : Io → Callbacks → ℕ → ℕ → Db → Db × Result (Unit {0})
complete io callbacks account id db =
    if not db.autocommit
    then (db, err 1 "Conflict completion requires callbacks outside a transaction")
    else elim (get io account id db) [
      | err c m ↦ (db, err c m)
      | ok o ↦ elim (resolution_receipt (λ k. io (1 + k)) account id db) [
        | err c m ↦ (db, err c m)
        | ok (receipt, mirrored) ↦
            if is_acknowledged o.state
            then (db, ok tt)
            else if not (is_applied o.state)
            then (db, err 1 "Resolution has no verified remote success")
            else accept_and_acknowledge io callbacks account o receipt
                (if mirrored then (db, ok tt) else mirror_transaction io callbacks account o db)
      ]
    ]
