-- ===== src/Sync/Tokens.antt =====
-- source/shared/RCDAVSyncState.c: the sync token and scope of every collection, in the mirror's
-- database. The table is made by the first save.
use retro_cloud_sync.Prelude.{
  ℕ, Bool, not, ◌&&◌, Option, none, some, List, [], ◌∷◌, ◌++◌, ◌==◌, if◌then◌else◌, Bytes, bytes_of,
  same, delete_where, find, Result, ok, err,
}
use retro_cloud_sync.Journal.Model.{Io}

-- A row of `dav_sync_state`.
pub record TokenRow : Type 0 where
  pub account : ℕ
  pub url : Bytes
  pub token : Option Bytes
  pub scope : Bytes
  pub seen_run : ℕ

-- The mirror's database: whether no transaction is open, and the table if it exists.
pub record TokenDb : Type 0 where
  pub autocommit : Bool
  pub table : Option (List TokenRow)

abbrev pub sync_error {ℓ} : {A : Type ℓ} → Result A
sync_error = err 1 "DAV sync state: %s"

abbrev pub rows_of : TokenDb → List TokenRow
rows_of db = elim db.table [ none ↦ [] | some rows ↦ rows ]

abbrev pub is_token : ℕ → Bytes → TokenRow → Bool
is_token account url row = row.account == account && same row.url url

-- The columns of the row: token and scope, both NULL if there is none.
abbrev pub columns : Option TokenRow → Option Bytes × Option Bytes
columns none = (none, none)
columns (some row) = (row.token, some row.scope)

-- `RCDAVSyncStateLoad`: statement 0 looks for the table, 1 is prepared, 2 is its step. It reads only.
unfoldable pub sync_state_load : Io → ℕ → Bytes → TokenDb → Result (Option Bytes × Option Bytes)
sync_state_load io account url db = if not (io 0) then sync_error else elim db.table [
  | none ↦ ok (none, none)
  | some rows ↦
      if not (io 1)
      then sync_error
      else if not (io 2)
      then err 1 "Could not read durable DAV sync state"
      else ok (columns (find (is_token account url) rows))
]

-- `prepare`: statement 0 makes the table, statement 1 is the one prepared.
unfoldable pub prepare_sync : Io → TokenDb → TokenDb × Result (Unit {0})
prepare_sync io db =
    if db.autocommit
    then (db, err 1 "DAV sync state requires the mirror transaction")
    else if not (io 0)
    then (db, sync_error)
    else (record db { table = some (rows_of db) }, (if io 1 then ok tt else sync_error))

-- INSERT OR REPLACE under the primary key (account_id, collection_url).
unfoldable pub replace_token : TokenRow → List TokenRow → List TokenRow
replace_token row rows = delete_where (is_token row.account row.url) rows ++ row ∷ []

-- `RCDAVSyncStateSave`: statement 2 is the step.
unfoldable pub sync_state_save :
    Io → ℕ → Bytes → Option Bytes → Option Bytes → ℕ → TokenDb → TokenDb × Result (Unit {0})
sync_state_save io account url token scope run db =
    let (prepared, result) = prepare_sync io db in
    elim result [
      | err c m ↦ (prepared, err c m)
      | ok _ ↦ if not (io 2) then (prepared, sync_error) else (
        record prepared {
          table = some (
              replace_token
                (record {
                  account = account;
                  url = url;
                  token = token;
                  scope = bytes_of scope;
                  seen_run = run;
                })
                (rows_of prepared));
        },
        ok tt,
      )
    ]

abbrev pub is_unseen : ℕ → ℕ → TokenRow → Bool
is_unseen account run row = row.account == account && not (row.seen_run == run)

-- `RCDAVSyncStateFinish`: statement 2 is the step.
unfoldable pub sync_state_finish : Io → ℕ → ℕ → TokenDb → TokenDb × Result (Unit {0})
sync_state_finish io account run db =
    let (prepared, result) = prepare_sync io db in
    elim result [
      | err c m ↦ (prepared, err c m)
      | ok _ ↦ if not (io 2) then (prepared, sync_error) else (
        record prepared { table = some (delete_where (is_unseen account run) (rows_of prepared)) },
        ok tt,
      )
    ]
