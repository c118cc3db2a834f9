-- ===== src/Sync/Committed.antt =====
-- The sync state as a map from (account, collection) to the last row noted for it.
use retro_cloud_sync.Prelude.{
  ap, subst, sym, ◌∙◌, ℕ, ◌≡◌, refl, Bool, true, false, not, ◌&&◌, Option, none, some, List, [],
  ◌∷◌, ◌==◌, if◌then◌else◌, Bytes, bytes_of, same, delete_where, find, ok, arith,
}
use retro_cloud_sync.Journal.Model.{Io}
use retro_cloud_sync.Sync.Keys.{
  kept, Single, find-delete_where, Single-delete_where, find-replace_token, Single-replace_token,
}
use retro_cloud_sync.Sync.Tokens.{
  TokenRow, TokenDb, rows_of, is_token, columns, prepare_sync, replace_token, sync_state_save,
  sync_state_load, sync_state_finish, is_unseen,
}

-- A call that writes the sync state: whether a transaction is open, and the outcomes of its statements.
pub data SyncCall : Type 0 where
  save_token : Bool → Io → ℕ → Bytes → Option Bytes → Option Bytes → ℕ → SyncCall
  finish_run : Bool → Io → ℕ → ℕ → SyncCall

unfoldable pub sync_step : SyncCall → TokenDb → TokenDb
sync_step (save_token inside io account url token scope run) db =
    (sync_state_save io account url token scope run (record db { autocommit = not inside })).0
sync_step (finish_run inside io account run) db =
    (sync_state_finish io account run (record db { autocommit = not inside })).0

unfoldable pub sync_run : List SyncCall → TokenDb → TokenDb
sync_run [] db = db
sync_run (call ∷ calls) db = sync_run calls (sync_step call db)

abbrev pub writes : Bool → Io → Bool
writes inside io = inside && io 0 && io 1 && io 2

-- The abstract map at one key: what a call does to the row that stands there.
unfoldable pub noted : ℕ → Bytes → SyncCall → Option TokenRow → Option TokenRow
noted a u (save_token inside io account url token scope run) now =
    if writes inside io && (account == a && same url u)
    then some (record {
      account = account;
      url = url;
      token = token;
      scope = bytes_of scope;
      seen_run = run;
    })
    else now
noted a u (finish_run inside io account run) now =
    if writes inside io then kept (is_unseen account run) now else now

unfoldable pub noted_run : ℕ → Bytes → List SyncCall → Option TokenRow → Option TokenRow
noted_run a u [] now = now
noted_run a u (call ∷ calls) now = noted_run a u calls (noted a u call now)

rows_of-prepare_sync : (io : Io) (db : TokenDb) → rows_of (prepare_sync io db).0 ≡ rows_of db
unfolding prepare_sync
rows_of-prepare_sync io db = ground arith

rows_of-save :
    (inside : Bool) (io : Io) (account : ℕ) (url : Bytes) (token scope : Option Bytes) (run : ℕ)
    (table : Option (List TokenRow))
    → rows_of
        (sync_state_save io account url token scope run
          (record { autocommit = not inside; table = table })).0
      ≡ (if writes inside io
          then replace_token
              (record {
                account = account;
                url = url;
                token = token;
                scope = bytes_of scope;
                seen_run = run;
              })
              (rows_of (record { autocommit = not inside; table = table }))
          else rows_of (record { autocommit = not inside; table = table }))
unfolding sync_state_save prepare_sync
rows_of-save inside io account url token scope run table = ground arith

rows_of-finish :
    (inside : Bool) (io : Io) (account run : ℕ) (table : Option (List TokenRow))
    → rows_of
        (sync_state_finish io account run (record { autocommit = not inside; table = table })).0
      ≡ (if writes inside io
          then delete_where
              (is_unseen account run)
              (rows_of (record { autocommit = not inside; table = table }))
          else rows_of (record { autocommit = not inside; table = table }))
unfolding sync_state_finish prepare_sync
rows_of-finish inside io account run table = ground arith

-- The rows hold one row for a key at most, and it is this one.
abbrev Agrees : ℕ → Bytes → List TokenRow → Option TokenRow → Type 0
Agrees a u rows row = Single (is_token a u) rows × (find (is_token a u) rows ≡ row)

replace_token-Agrees :
    (a : ℕ) (u : Bytes) (b : Bool) (row : TokenRow) (rows : List TokenRow) (now : Option TokenRow)
    → Agrees a u rows now
    → Agrees a u
        (if b then replace_token row rows else rows)
        (if b && is_token a u row then some row else now)
replace_token-Agrees a u false row rows now h = h
replace_token-Agrees a u true row rows now (s, e) =
    (Single-replace_token a u row rows s, find-replace_token a u row rows ∙ rw e refl)

delete_where-Agrees :
    (a : ℕ) (u : Bytes) (b : Bool) (q : TokenRow → Bool) (rows : List TokenRow)
    (now : Option TokenRow)
    → Agrees a u rows now
    → Agrees a u (if b then delete_where q rows else rows) (if b then kept q now else now)
delete_where-Agrees a u false q rows now h = h
delete_where-Agrees a u true q rows now (s, e) = (
  Single-delete_where (is_token a u) q rows s,
  find-delete_where (is_token a u) q rows s ∙ ap (kept q) e,
)

sync_step-noted :
    (a : ℕ) (u : Bytes) (call : SyncCall) (db : TokenDb) (now : Option TokenRow)
    → Agrees a u (rows_of db) now
    → Agrees a u (rows_of (sync_step call db)) (noted a u call now)
unfolding sync_step noted
sync_step-noted a u (save_token inside io account url token scope run) db now h =
    subst
      (λ rows. Agrees a u rows (noted a u (save_token inside io account url token scope run) now))
      (sym (rows_of-save inside io account url token scope run db.table))
      (replace_token-Agrees a u (writes inside io)
        (record {
          account = account;
          url = url;
          token = token;
          scope = bytes_of scope;
          seen_run = run;
        })
        (rows_of db) now h)
sync_step-noted a u (finish_run inside io account run) db now h =
    subst (λ rows. Agrees a u rows (noted a u (finish_run inside io account run) now))
      (sym (rows_of-finish inside io account run db.table))
      (delete_where-Agrees a u (writes inside io) (is_unseen account run) (rows_of db) now h)

sync_run-noted_run :
    (a : ℕ) (u : Bytes) (calls : List SyncCall) (db : TokenDb) (now : Option TokenRow)
    → Agrees a u (rows_of db) now
    → Agrees a u (rows_of (sync_run calls db)) (noted_run a u calls now)
unfolding sync_run noted_run
sync_run-noted_run a u [] db now h = h
sync_run-noted_run a u (call ∷ calls) db now h =
    sync_run-noted_run a u calls (sync_step call db) (noted a u call now)
      (sync_step-noted a u call db now h)

loaded :
    (io : Io) (a : ℕ) (u : Bytes) (db : TokenDb)
    → io 0 ≡ true
    → io 1 ≡ true
    → io 2 ≡ true
    → sync_state_load io a u db ≡ ok (columns (find (is_token a u) (rows_of db)))
unfolding sync_state_load find
loaded io a u db h0 h1 h2 = ground arith

-- After any sequence of saves and finished runs, some of which may fail, from a database without
-- the table, the token and scope that are read for an account and a collection are those that an
-- abstract map has there, in which a save replaces one entry and the end of a run removes the
-- entries of the account that the run has not seen; the statements of the read must succeed.
pub sync_state_load-sync_run :
    (io : Io) (a : ℕ) (u : Bytes) (calls : List SyncCall)
    → io 0 ≡ true
    → io 1 ≡ true
    → io 2 ≡ true
    → sync_state_load io a u (sync_run calls (record { autocommit = true; table = none }))
      ≡ ok (columns (noted_run a u calls none))
unfolding Single find
sync_state_load-sync_run io a u calls h0 h1 h2 =
    let fresh : TokenDb = record { autocommit = true; table = none } in
    loaded io a u (sync_run calls fresh) h0 h1 h2
    ∙ ap (λ row. ok (columns row)) (sync_run-noted_run a u calls fresh none (tt, refl)).1
