-- ===== src/Sync/Staged.antt =====
-- The stage as a log for each collection.
use Prim.Native.String.{String}
use retro_cloud_sync.Prelude.{
  ◌||◌, ℕ, suc, ◌≡◌, refl, ap, ◌∙◌, Bool, true, false, not, ◌&&◌, Bool-cases, inl, inr, Option,
  none, some, List, [], ◌∷◌, ◌++◌, append-nil, ltb, ◌==◌, if◌then◌else◌, Bytes, Buffer, size,
  column_of, int_max, delete_where, Result, ok, err, arith,
}
use retro_cloud_sync.Journal.Model.{Io}
use retro_cloud_sync.Sync.Staging.{
  Action, Entry, StageRow, stage_failed, in_collection, stage_reset, stage_save, apply_entry,
  apply_rows, stage_apply,
}

-- A call that changes the stage, with the outcomes of its statements.
pub data StageCall : Type 0 where
  reset_call : Io → ℕ → StageCall
  save_call : Io → ℕ → Action → Option Bytes → Option Bytes → Buffer → StageCall

unfoldable pub stage_step : StageCall → List StageRow → List StageRow
stage_step (reset_call io c) rows = (stage_reset io c rows).0
stage_step (save_call io c action href etag body) rows =
    (stage_save io c action href etag body rows).0

unfoldable pub stage_run : List StageCall → List StageRow → List StageRow
stage_run [] rows = rows
stage_run (call ∷ calls) rows = stage_run calls (stage_step call rows)

-- The abstract stage: what one collection has recorded, as a plain list.
unfoldable pub logged : ℕ → StageCall → List Entry → List Entry
logged c (reset_call io d) log = if d == c && io 0 && io 1 then [] else log
logged c (save_call io d action none etag body) log = log
logged c (save_call io d action (some href) etag body) log =
    if not (ltb int_max (size body) || not (io 0 && io 1)) && d == c
    then log ++ (record { action = action; href = href; etag = etag; body = column_of body }) ∷ []
    else log

unfoldable pub log_of : ℕ → List StageCall → List Entry → List Entry
log_of c [] log = log
log_of c (call ∷ calls) log = log_of c calls (logged c call log)

module _ {World : Type 0} (cancelled : World → Bool)
    (apply : Entry → World → World × Result (Unit {0})) where
  -- The callback over a log, until one entry fails or a stop is noticed.
  unfoldable pub apply_log : Io → ℕ → List Entry → World → World × Result (Unit {0})
  apply_log io k [] world = (world, (if io k then ok tt else stage_failed))
  apply_log io k (entry ∷ log) world = elim (io k) [
    | false ↦ (world, stage_failed)
    | true ↦
        let (after, result) = apply_entry cancelled apply entry world in
        elim result [ err c m ↦ (after, err c m) | ok _ ↦ apply_log io (suc k) log after ]
  ]

-- The entries of one collection.
unfoldable pub entries_of : ℕ → List StageRow → List Entry
entries_of c [] = []
entries_of c (row ∷ rows) =
    if in_collection c row then row.entry ∷ entries_of c rows else entries_of c rows

entries_of-append :
    (c : ℕ) (rows more : List StageRow)
    → entries_of c (rows ++ more) ≡ entries_of c rows ++ entries_of c more
unfolding entries_of
entries_of-append c [] more = refl
entries_of-append c (row ∷ rows) more = ground (arith, entries_of-append c rows more)

entries_of-delete_where :
    (c d : ℕ) (rows : List StageRow)
    → entries_of c (delete_where (in_collection d) rows)
      ≡ (if d == c then [] else entries_of c rows)
unfolding entries_of delete_where
entries_of-delete_where c d [] = ground arith
entries_of-delete_where c d (row ∷ rows) = ground (arith, entries_of-delete_where c d rows)

appended :
    (b : Bool) (log : List Entry) (e : Entry)
    → log ++ (if b then e ∷ [] else []) ≡ (if b then log ++ e ∷ [] else log)
appended true log e = refl
appended false log e = append-nil log

entries_of-stage_step :
    (c : ℕ) (call : StageCall) (rows : List StageRow)
    → entries_of c (stage_step call rows) ≡ logged c call (entries_of c rows)
unfolding stage_step logged stage_reset stage_save entries_of
entries_of-stage_step c (reset_call io d) rows = ground (arith, entries_of-delete_where c d rows)
entries_of-stage_step c (save_call io d action none etag body) rows = refl
entries_of-stage_step c (save_call io d action (some href) etag body) rows =
    let added : StageRow = record {
      collection = d;
      entry = record { action = action; href = href; etag = etag; body = column_of body };
    } in
    elim (Bool-cases (ltb int_max (size body) || not (io 0 && io 1))) [
      | inl t ↦ rw (t, stage_step, stage_save, logged) refl
      | inr t ↦
          rw (t, stage_step, stage_save, logged)
            (entries_of-append c rows (added ∷ [])
              ∙ appended (d == c) (entries_of c rows) added.entry)
    ]

entries_of-stage_run :
    (c : ℕ) (calls : List StageCall) (rows : List StageRow)
    → entries_of c (stage_run calls rows) ≡ log_of c calls (entries_of c rows)
unfolding stage_run log_of
entries_of-stage_run c [] rows = refl
entries_of-stage_run c (call ∷ calls) rows =
    entries_of-stage_run c calls (stage_step call rows)
    ∙ ap (log_of c calls) (entries_of-stage_step c call rows)

settled :
    {A : Type 0} {x y : A} (f : ℕ → String → A) (r : Result (Unit {0}))
    → x ≡ y
    → (elim r [ err c m ↦ f c m | ok _ ↦ x ]) ≡ (elim r [ err c m ↦ f c m | ok _ ↦ y ])
settled f (ok _) e = e
settled f (err c m) e = refl

module _ {World : Type 0} (cancelled : World → Bool)
    (apply : Entry → World → World × Result (Unit {0})) where
  apply_rows-entries_of :
      (io : Io) (k c : ℕ) (rows : List StageRow) (world : World)
      → apply_rows cancelled apply io k c rows world
        ≡ apply_log cancelled apply io k (entries_of c rows) world
  unfolding apply_rows apply_log entries_of
  apply_rows-entries_of io k c [] world = refl
  apply_rows-entries_of io k c (row ∷ rows) world = elim (Bool-cases (in_collection c row)) [
    | inl t ↦ elim (Bool-cases (io k)) [
      | inl u ↦
          rw (t, u, apply_rows, apply_log, entries_of)
            (settled _ (apply_entry cancelled apply row.entry world).1 (
              apply_rows-entries_of io (suc k) c rows
                (apply_entry cancelled apply row.entry world).0))
      | inr u ↦ rw (t, u, apply_rows, apply_log, entries_of) refl
    ]
    | inr t ↦ rw (t, apply_rows, entries_of) (apply_rows-entries_of io k c rows world)
  ]

  -- After any sequence of saves and resets of any collections, some of which may fail,
  -- applying a collection runs the callback over the log of what was saved for it since its
  -- last reset, in this order, up to the first failure or stop; the statement that reads the
  -- stage must be prepared.
  pub stage_apply-stage_run :
      (io : Io) (c : ℕ) (calls : List StageCall) (world : World)
      → io 0 ≡ true
      → stage_apply cancelled apply io c (stage_run calls []) world
        ≡ apply_log cancelled apply io 1 (log_of c calls []) world
  unfolding stage_apply
  stage_apply-stage_run io c calls world t =
      let same : entries_of c (stage_run calls []) ≡ log_of c calls [] =
        unfold entries_of in entries_of-stage_run c calls [] in
      rw t (
        apply_rows-entries_of io 1 c (stage_run calls []) world
        ∙ ap (λ log. apply_log cancelled apply io 1 log world) same)
