-- ===== src/Journal/Calls.antt =====
-- Sequences of calls of the journal, as its users make them: every function of
-- source/shared/RCWriteJournal.h that changes the database, and the caller's BEGIN and COMMIT.
use retro_cloud_sync.Prelude.{
  ℕ, ◌≡◌, sym, subst, Bool, true, Option, List, [], ◌∷◌, arith, Bytes, Buffer, ℤ, at, null, some,
  none,
}
use retro_cloud_sync.Journal.Model.{Kind, State, Db, Io}
use retro_cloud_sync.Journal.Enqueue.{set_base, enqueue}
use retro_cloud_sync.Journal.Attempt.{begin_attempt, record_result, acknowledge, cancel}
use retro_cloud_sync.Journal.Resolve.{resolve_conflict, without_attention}
use retro_cloud_sync.Journal.Attention.{conflict_attention, resolution_mirrored, set_attention}
use retro_cloud_sync.Journal.Invariant.{WellFormed}
use retro_cloud_sync.Journal.Invariant.Kept.Updates.{
  begin_attempt-WellFormed, record_result-WellFormed, acknowledge-WellFormed, cancel-WellFormed,
}
use retro_cloud_sync.Journal.Invariant.Kept.Inserts.{enqueue-WellFormed}
use retro_cloud_sync.Journal.Invariant.Kept.Successors.{resolve_conflict-WellFormed}

-- A call with its arguments, and with the outcomes of its statements.
pub data Call : Type 0 where
  set_base_call : Io → ℕ → Option Bytes → Option Bytes → Option Bytes → Buffer → ℤ → Call
  enqueue_call :
      Io → ℕ → Option Bytes → Option Bytes → Option Bytes → Option Kind → ℤ → Buffer → Call
  begin_attempt_call : Io → ℕ → ℕ → ℤ → Call
  record_result_call : Io → ℕ → ℕ → Option State → ℕ → Option Bytes → Buffer → Call
  acknowledge_call : Io → ℕ → ℕ → Call
  cancel_call : Io → ℕ → ℕ → Call
  resolve_conflict_call : Io → ℕ → ℕ → Option Kind → Buffer → Buffer → Call
  conflict_attention_call : Io → ℕ → ℕ → Option Bytes → Call
  resolution_mirrored_call : Io → ℕ → ℕ → Call
  transaction : Bool → Call

unfoldable pub step : Call → Db → Db
step (set_base_call io a key href etag body revision) db =
    (set_base io a key href etag body revision db).0
step (enqueue_call io a change key href kind revision body) db =
    (enqueue io a change key href kind revision body db).0
step (begin_attempt_call io a id now) db = (begin_attempt io a id now db).0
step (record_result_call io a id state status etag body) db =
    (record_result io a id state status etag body db).0
step (acknowledge_call io a id) db = (acknowledge io a id db).0
step (cancel_call io a id) db = (cancel io a id db).0
step (resolve_conflict_call io a id kind body receipt) db =
    (resolve_conflict io a id kind body receipt db).0
step (conflict_attention_call io a id reason) db = (conflict_attention io a id reason db).0
step (resolution_mirrored_call io a id) db = (resolution_mirrored io a id db).0
step (transaction auto) db = record db { autocommit = auto }

unfoldable pub run : List Call → Db → Db
run [] db = db
run (c ∷ cs) db = run cs (step c db)

-- `write_operations` after `RCWriteJournalInitialize` made the tables.
unfoldable pub initialized : Db
initialized = record {
  bases = [];
  operations = [];
  resolutions = [];
  attention = [];
  autocommit = true;
}

pub set_base-operations :
    (io : Io) (a : ℕ) (key href etag : Option Bytes) (body : Buffer) (revision : ℤ) (db : Db)
    → (set_base io a key href etag body revision db).0.operations ≡ db.operations
unfolding set_base
set_base-operations io a (some key) (some href) etag (at body) revision db = ground arith
set_base-operations io a (some key) (some href) etag (null n) revision db = ground arith
set_base-operations io a (some key) none etag body revision db = ground arith
set_base-operations io a none href etag body revision db = ground arith

pub conflict_attention-operations :
    (io : Io) (a id : ℕ) (reason : Option Bytes) (db : Db)
    → (conflict_attention io a id reason db).0.operations ≡ db.operations
unfolding conflict_attention set_attention without_attention
conflict_attention-operations io a id none db = ground arith
conflict_attention-operations io a id (some reason) db = ground arith

pub resolution_mirrored-operations :
    (io : Io) (a id : ℕ) (db : Db) → (resolution_mirrored io a id db).0.operations ≡ db.operations
unfolding resolution_mirrored
resolution_mirrored-operations io a id db = ground arith

step-WellFormed :
    (c : Call) (db : Db) → WellFormed db.operations → WellFormed (step c db).operations
unfolding step
step-WellFormed (set_base_call io a key href etag body revision) db w =
    subst WellFormed (sym (set_base-operations io a key href etag body revision db)) w
step-WellFormed (enqueue_call io a change key href kind revision body) db w =
    enqueue-WellFormed io a change key href kind revision body db w
step-WellFormed (begin_attempt_call io a id now) db w = begin_attempt-WellFormed io a id now db w
step-WellFormed (record_result_call io a id state status etag body) db w =
    record_result-WellFormed io a id state status etag body db w
step-WellFormed (acknowledge_call io a id) db w = acknowledge-WellFormed io a id db w
step-WellFormed (cancel_call io a id) db w = cancel-WellFormed io a id db w
step-WellFormed (resolve_conflict_call io a id kind body receipt) db w =
    resolve_conflict-WellFormed io a id kind body receipt db w
step-WellFormed (conflict_attention_call io a id reason) db w =
    subst WellFormed (sym (conflict_attention-operations io a id reason db)) w
step-WellFormed (resolution_mirrored_call io a id) db w =
    subst WellFormed (sym (resolution_mirrored-operations io a id db)) w
step-WellFormed (transaction auto) db w = w

pub run-WellFormed :
    (cs : List Call) (db : Db) → WellFormed db.operations → WellFormed (run cs db).operations
unfolding run
run-WellFormed [] db w = w
run-WellFormed (c ∷ cs) db w = run-WellFormed cs (step c db) (step-WellFormed c db w)

-- Whatever calls are made on a new journal, with whatever arguments, in whatever order, and
-- whichever of their statements fail: rowids rise, no two operations of an account share a
-- change identifier, no two live ones share a resource or an href, every operation but a create
-- is pinned to a strong tag, a body is stored exactly for creates and updates, and an applied or
-- acknowledged operation has a verified result.
pub run-initialized-WellFormed : (cs : List Call) → WellFormed (run cs initialized).operations
unfolding initialized
run-initialized-WellFormed cs =
    run-WellFormed cs initialized (record { distinct = tt; proper = tt })
