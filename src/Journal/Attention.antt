-- ===== src/Journal/Attention.antt =====
-- Conflicts that wait: `RCWriteJournalConflictAttention`, `RCWriteJournalNextConflict`,
-- `RCWriteJournalRecoveryNext`, `RCWriteJournalResolutionReceipt` and
-- `RCWriteJournalResolutionMirrored` of source/shared/RCWriteJournal.c.
use retro_cloud_sync.Prelude.{
  ℕ, Bool, true, not, ◌&&◌, ◌||◌, Option, none, some, [], ◌∷◌, ◌++◌, ltb, ◌==◌, if◌then◌else◌,
  Bytes, length, is_empty, find, any, update_where, count_where, delete_where, Result, ok, err,
}
use retro_cloud_sync.Journal.Model.{
  is_applied, is_conflict, Operation, Resolution, AttentionRow, Db, Io, db_error, is_operation,
}
use retro_cloud_sync.Journal.Attempt.{get, id_or_zero}
use retro_cloud_sync.Journal.Resolve.{without_attention}

-- Every byte is a small letter or a dash.
unfoldable pub is_reason_code : Bytes → Bool
is_reason_code [] = true
is_reason_code (c ∷ rest) =
    not ((ltb c b'a' || ltb b'z' c) && not (c == b'-')) && is_reason_code rest

-- INSERT OR REPLACE, or DELETE for NULL.
unfoldable pub set_attention : ℕ → Option Bytes → Db → Db
set_attention id none db = without_attention id db
set_attention id (some reason) db = record db {
  attention =
      delete_where (λ (a : AttentionRow). a.operation_id == id) db.attention
      ++ (record { operation_id = id; reason = reason }) ∷ [];
}

unfoldable pub check_reason : Option Bytes → Result (Unit {0})
check_reason none = ok tt
check_reason (some reason) =
    if is_empty reason || ltb 80 (length reason)
    then err 1 "Invalid attention reason"
    else if not (is_reason_code reason)
    then err 1 "Attention requires a diagnostic reason code"
    else ok tt

-- `RCWriteJournalConflictAttention`: statement 0 reads the operation, 1 changes the table.
unfoldable pub conflict_attention : Io → ℕ → ℕ → Option Bytes → Db → Db × Result (Unit {0})
conflict_attention io account id reason db = elim (check_reason reason) [
  | err c m ↦ (db, err c m)
  | ok _ ↦ elim (get io account id db) [
    | err c m ↦ (db, err c m)
    | ok o ↦
        if not (is_conflict o.state)
        then (db, err 1 "Attention requires a conflicted operation")
        else if not (io 1)
        then (db, db_error)
        else (set_attention id reason db, ok tt)
  ]
]

unfoldable pub has_attention : Db → ℕ → Bool
has_attention db id = any (λ (a : AttentionRow). a.operation_id == id) db.attention

unfoldable pub awaits_resolver : ℕ → Db → Operation → Bool
awaits_resolver account db o =
    o.account == account && is_conflict o.state && not (has_attention db o.id)

-- `RCWriteJournalNextConflict`.
unfoldable pub next_conflict : Io → ℕ → Db → Result ℕ
next_conflict io account db =
    if not (io 0)
    then db_error
    else ok (id_or_zero (find (awaits_resolver account db) db.operations))

unfoldable pub is_successor : Db → ℕ → Bool
is_successor db id = any (λ (r : Resolution). r.successor_id == id) db.resolutions

unfoldable pub awaits_recovery : ℕ → ℕ → Db → Operation → Bool
awaits_recovery account after db o =
    o.account == account
    && ltb after o.id
    && not (has_attention db o.id)
    && (is_conflict o.state || (is_applied o.state && is_successor db o.id))

-- `RCWriteJournalRecoveryNext`.
unfoldable pub recovery_next : Io → ℕ → ℕ → Db → Result ℕ
recovery_next io account after db =
    if not (io 0)
    then db_error
    else ok (id_or_zero (find (awaits_recovery account after db) db.operations))

-- The JOIN of resolutions with operations on the successor, at one operation of the account.
unfoldable pub is_resolution_of : ℕ → ℕ → Db → Resolution → Bool
is_resolution_of account id db r =
    r.successor_id == id && any (is_operation account id) db.operations

-- `RCWriteJournalResolutionReceipt`: the receipt, and whether the mirror is committed.
unfoldable pub resolution_receipt : Io → ℕ → ℕ → Db → Result (Bytes × Bool)
resolution_receipt io account id db =
    if not (io 0) then db_error else elim (find (is_resolution_of account id db) db.resolutions) [
      | none ↦ err 1 "Resolution receipt is unavailable"
      | some r ↦ ok (r.receipt, r.mirror_committed)
    ]

-- `successor_id IN (SELECT id … WHERE account_id=? AND id=? AND state='applied')`.
unfoldable pub may_mirror : ℕ → ℕ → Db → Resolution → Bool
may_mirror account id db r =
    r.successor_id == id
    && any (λ (o : Operation). is_operation account id o && is_applied o.state) db.operations

abbrev pub mirrored : Resolution → Resolution
mirrored r = record r { mirror_committed = true }

-- `RCWriteJournalResolutionMirrored`, inside the mirror's transaction: statement 0 is prepared,
-- statement 1 is its step.
unfoldable pub resolution_mirrored : Io → ℕ → ℕ → Db → Db × Result (Unit {0})
resolution_mirrored io account id db =
    if db.autocommit
    then (db, err 1 "Mirror checkpoint must join the mirror transaction")
    else if not (io 0)
    then (db, db_error)
    else if not (io 1)
    then (db, err 1 "Resolution is not ready for mirror completion")
    else (
      record db { resolutions = update_where (may_mirror account id db) mirrored db.resolutions },
      (if count_where (may_mirror account id db) db.resolutions == 1
          then ok tt
          else err 1 "Resolution is not ready for mirror completion"),
    )
