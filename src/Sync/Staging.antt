-- ===== src/Sync/Staging.antt =====
-- source/shared/RCDAVStaging.c: the private table of what a download found. Rows stand in ascending
-- `sequence`, the rowid, so ORDER BY sequence is the order of the list.
use retro_cloud_sync.Prelude.{
  ◌||◌, ℕ, suc, Bool, true, false, not, ◌&&◌, Option, none, some, List, [], ◌∷◌, ◌++◌, ltb, ◌==◌,
  if◌then◌else◌, Bytes, Buffer, size, column_of, int_max, same, any, delete_where, Result, ok, err,
}
use retro_cloud_sync.Journal.Model.{Io}
use retro_cloud_sync.Http.Request.{cancelled_code}

-- `RCDAVStageSeen`, `RCDAVStageDownloaded`, `RCDAVStageDeleted`.
pub data Action : Type 0 where
  seen downloaded deleted : Action

-- What a row says of one resource.
pub record Entry : Type 0 where
  pub action : Action
  pub href : Bytes
  pub etag : Option Bytes
  pub body : Option Bytes

-- A row of `resources`.
pub record StageRow : Type 0 where
  pub collection : ℕ
  pub entry : Entry

-- `Failed`.
abbrev pub stage_failed {ℓ} : {A : Type ℓ} → Result A
stage_failed = err 1 "Could not stage DAV inventory"

-- A blob without bytes is read as NULL.
unfoldable pub column_blob : Option Bytes → Option Bytes
column_blob none = none
column_blob (some []) = none
column_blob (some (c ∷ body)) = some (c ∷ body)

abbrev pub in_collection : ℕ → StageRow → Bool
in_collection collection row = row.collection == collection

-- `RCDAVStageReset`: statement 0 is prepared, statement 1 is its step.
unfoldable pub stage_reset : Io → ℕ → List StageRow → List StageRow × Result (Unit {0})
stage_reset io collection rows =
    if io 0 && io 1
    then (delete_where (in_collection collection) rows, ok tt)
    else (rows, stage_failed)

-- `RCDAVStageHasResource`.
unfoldable pub stage_has_resource : Io → ℕ → Bytes → List StageRow → Result Bool
stage_has_resource io collection href rows =
    if io 0 && io 1
    then ok
        (any (λ (row : StageRow). in_collection collection row && same row.entry.href href) rows)
    else stage_failed

-- `RCDAVStageSave`: `href` is NOT NULL.
unfoldable pub stage_save :
    Io
    → ℕ
    → Action
    → Option Bytes
    → Option Bytes
    → Buffer
    → List StageRow
    → List StageRow × Result (Unit {0})
stage_save io collection action none etag body rows = (rows, stage_failed)
stage_save io collection action (some href) etag body rows =
    if ltb int_max (size body) || not (io 0 && io 1) then (rows, stage_failed) else (
      rows
          ++ (record {
            collection = collection;
            entry = record { action = action; href = href; etag = etag; body = column_of body };
          })
            ∷ [],
      ok tt,
    )

module _ {World : Type 0} (cancelled : World → Bool)
    (apply : Entry → World → World × Result (Unit {0})) where
  -- One row, its body as `sqlite3_column_blob` gives it: a stop is noticed before its callback.
  unfoldable pub apply_entry : Entry → World → World × Result (Unit {0})
  apply_entry entry world =
      if cancelled world
      then (world, err cancelled_code "Shutdown requested")
      else apply (record entry { body = column_blob entry.body }) world

  -- The loop of `RCDAVStageApply` over the rows of a collection; statement `k` is the next step.
  unfoldable pub apply_rows : Io → ℕ → ℕ → List StageRow → World → World × Result (Unit {0})
  apply_rows io k collection [] world = (world, (if io k then ok tt else stage_failed))
  apply_rows io k collection (row ∷ rows) world = elim (in_collection collection row) [
    | false ↦ apply_rows io k collection rows world
    | true ↦ elim (io k) [
      | false ↦ (world, stage_failed)
      | true ↦
          let (after, result) = apply_entry row.entry world in
          elim result [
            | err c m ↦ (after, err c m)
            | ok _ ↦ apply_rows io (suc k) collection rows after
          ]
    ]
  ]

  -- `RCDAVStageApply`: statement 0 is prepared.
  unfoldable pub stage_apply : Io → ℕ → List StageRow → World → World × Result (Unit {0})
  stage_apply io collection rows world =
      if io 0 then apply_rows io 1 collection rows world else (world, stage_failed)
