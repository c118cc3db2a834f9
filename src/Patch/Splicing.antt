-- ===== src/Patch/Splicing.antt =====
-- `RCResourcePatch` and `RCResourceEnqueueEdits` of source/shared/RCResourcePatch.c. The edits are a list,
-- so the check for NULL in place of edits falls away.
use retro_cloud_sync.Prelude.{
  ℕ, ◌+◌, ◌-◌, false, not, ◌||◌, Option, none, some, List, [], ◌∷◌, ◌==◌, ltb, length, take, drop,
  any, find, if◌then◌else◌, Bytes, Buffer, null, at, same, is_empty, int_max, ℤ, eq_ℤ, Result, ok,
  err, ◌>>=◌,
}
use retro_cloud_sync.Journal.Model.{Io, Db, Operation, Base, update, is_change, is_base}
use retro_cloud_sync.Journal.Enqueue.{enqueue}
use retro_cloud_sync.Vcard.Document.{Parser, vcard_parse}
use retro_cloud_sync.Icalendar.Parsing.{Library, icalendar_parse}
use retro_cloud_sync.Patch.Folding.{add}
use retro_cloud_sync.Patch.Edits.{
  Format, vcard, calendar, Edit, edit_invalid, patch_invalid, is_refused,
}
use retro_cloud_sync.Patch.Scanning.{Patch, Target, Scan, out_of_memory, scan_lines}

-- The insertion sort: the patches before the one at hand, the last first.
unfoldable pub insert_patch : Patch → List Patch → List Patch
insert_patch p [] = p ∷ []
insert_patch p (q ∷ before) =
    if ltb p.start q.start then q ∷ insert_patch p before else p ∷ q ∷ before

unfoldable pub sort_patches : List Patch → List Patch → List Patch
sort_patches sorted [] = sorted
sort_patches sorted (p ∷ patches) = sort_patches (insert_patch p sorted) patches

unfoldable pub in_order : List Patch → List Patch → List Patch
in_order behind [] = behind
in_order behind (p ∷ patches) = in_order (p ∷ behind) patches

abbrev pub or_memory : Option Bytes → Result Bytes
or_memory none = out_of_memory
or_memory (some bytes) = ok bytes

-- The loop that puts the result together, from the cursor on.
unfoldable pub splice : Bytes → ℕ → Bytes → List Patch → Result Bytes
splice base cursor result [] = or_memory (add result (drop cursor base))
splice base cursor result (p ∷ patches) =
    if ltb p.start cursor
    then patch_invalid
    else or_memory (add result (take (p.start - cursor) (drop cursor base))) >>= λ kept.
        or_memory (add kept p.replacement) >>= λ replaced. splice base p.until replaced patches

abbrev pub fresh : Edit → Target
fresh edit = record {
  edit = edit;
  patch = record { start = 0; until = 0; replacement = []; found = false; seen = 0 };
}

unfoldable pub targets_of : List Edit → List Target
targets_of [] = []
targets_of (edit ∷ edits) = fresh edit ∷ targets_of edits

unfoldable pub patches_of : List Target → List Patch
patches_of [] = []
patches_of (target ∷ targets) = target.patch ∷ patches_of targets

-- From the end of the loop over the lines to the result.
unfoldable pub apply_patches : Bytes → Scan → Result Bytes
apply_patches base s =
    if not (is_empty s.stack) || not s.closed
    then patch_invalid
    else if any (λ (t : Target). not t.patch.found) s.targets
    then edit_invalid
    else splice base 0 [] (in_order [] (sort_patches [] (patches_of s.targets)))

abbrev pub first_scan : List Edit → Scan
first_scan edits = record { stack = []; components = 0; closed = false; targets = targets_of edits }

-- What the SELECT of `RCResourceEnqueueEdits` returns: href, body, revision and key.
abbrev pub Published : Type 0
Published = Bytes × (Option Bytes × (ℤ × Bytes))

abbrev pub own_operation : ℕ → Option Bytes → Db → Option Operation
own_operation account none db = none
own_operation account (some change) db = find (is_change account change) db.operations

abbrev pub own_base : ℕ → Option Bytes → Db → Option Base
own_base account none db = none
own_base account (some key) db = find (is_base account key) db.bases

-- The base of the change's own operation, or else the published one.
unfoldable pub published_base : ℕ → Option Bytes → Option Bytes → Db → Option Published
published_base account change key db = elim (own_operation account change db) [
  | some o ↦ some (o.href, (o.base_body, (o.local_revision, o.resource_key)))
  | none ↦ elim (own_base account key db) [
    | none ↦ none
    | some b ↦ some (b.href, (some b.body, (b.local_revision, b.resource_key)))
  ]
]

abbrev pub buffer_of : Option Bytes → Buffer
buffer_of none = null 0
buffer_of (some bytes) = at bytes

abbrev pub no_revision : Result ℕ
no_revision = err 1 "No matching published revision for local edits"

module _ {Root : Type 0} (parser : Parser) (library : Library Root) where
  -- `valid`.
  unfoldable pub check_resource : Format → Buffer → Result (Unit {0})
  check_resource vcard text = vcard_parse parser text >>= λ _. ok tt
  check_resource calendar text = icalendar_parse library text >>= λ _. ok tt

  -- `RCResourcePatch`.
  unfoldable pub patch_resource : Format → Buffer → List Edit → Result Bytes
  patch_resource format (null n) edits = err 1 "Invalid resource patch input"
  patch_resource format (at base) edits =
      if is_empty base
        || ltb int_max (length base)
        || any (λ c. c == 0) base
        || ltb 10000 (length edits)
      then err 1 "Invalid resource patch input"
      else check_resource format (at base) >>= λ _.
          if any (is_refused format) edits
          then edit_invalid
          else scan_lines (length base) format (length base) base (first_scan edits) >>= λ s.
              apply_patches base s >>= λ result.
              check_resource format (at result) >>= λ _. ok result

  -- `RCResourceEnqueueEdits`: statement 0 is prepared, statement 1 is its step.
  unfoldable pub enqueue_edits :
      Io → ℕ → Option Bytes → Option Bytes → ℤ → Format → List Edit → Db → Db × Result ℕ
  enqueue_edits io account change key revision format edits db =
      if not (io 0)
      then (db, err 1 "Could not read published write base: %s")
      else elim (published_base account change key db) [
        | none ↦ (db, no_revision)
        | some row ↦ elim key [
          | none ↦ (db, no_revision)
          | some k ↦
              if not (io 1) || not (same k row.1.1.1) || not (eq_ℤ row.1.1.0 revision)
              then (db, no_revision)
              else elim (patch_resource format (buffer_of row.1.0) edits) [
                | err c m ↦ (db, err c m)
                | ok patched ↦
                    enqueue (λ n. io (2 + n)) account change (some k) (some row.0) (some update)
                      revision (at patched) db
              ]
        ]
      ]
