-- ===== src/Tests/Journal.antt =====
-- The journal's theorems on the edited contact.
use retro_cloud_sync.Prelude.{
  ◌<◌, ℕ, ◌<◌, count_where, ◌≡◌, refl, subst, starts_with, ◌⊎◌, inl, ◌↔◌, true, false, some, [],
  ◌∷◌, ◌++◌, Bytes, at, codes, pos, Row, All, Result, ok, find, delete_where, same, any,
}
use retro_cloud_sync.Journal.Model.{
  Operation, Db, acknowledged, update, close_savepoint, insert_operation, last_rowid,
}
use retro_cloud_sync.Journal.Etag.{etag_is_strong, IsOpaque, etag_is_strong_iff, closes}
use retro_cloud_sync.Journal.Attempt.{
  begin_attempt, outside_transaction, update_one, may_attempt, is_due, next,
}
use retro_cloud_sync.Journal.Enqueue.{
  enqueue, set_base, replace_base, check_intent, has_valid_body, enqueue_intent, enqueue_inside,
  enqueue_new, base_allows, blocks, insert_and_return, queued_operation, is_replay,
}
use retro_cloud_sync.Journal.Invariant.{WellFormed, SameIntent}
use retro_cloud_sync.Journal.Calls.{
  run, step, initialized, run-WellFormed, run-initialized-WellFormed,
}
use retro_cloud_sync.Journal.History.{Evolves}
use retro_cloud_sync.Journal.History.Resolved.{run-Evolves, run_terminal}
use retro_cloud_sync.Journal.Due.{Attempt, Scheduled, begin_attempt_ok, next_lem}
use retro_cloud_sync.Journal.Replay.{enqueue-enqueue}
use retro_cloud_sync.Tests.Scenario.{
  works, key, href, old_tag, new_body, merged, published, waiting, done, done_operation, edit,
  try_write, succeed, publish,
}

run-initialized-WellFormed_example : WellFormed (run merged initialized).operations
run-initialized-WellFormed_example = run-initialized-WellFormed merged

run-Evolves_example : Evolves waiting.operations (run (try_write ∷ succeed ∷ []) waiting).operations
run-Evolves_example = run-Evolves (try_write ∷ succeed ∷ []) waiting

run_terminal_example :
    (o : Operation) × Row o (run merged done).operations
    × SameIntent done_operation o
    × (o.state ≡ acknowledged)
run_terminal_example = run_terminal merged done {o = done_operation} Row.here (inl refl)

published_lem : run (publish ∷ []) initialized ≡ published
unfolding run step initialized set_base replace_base delete_where
published_lem = refl

pub published-WellFormed : WellFormed published.operations
published-WellFormed =
    subst (λ (db : Db). WellFormed db.operations) published_lem
      (run-initialized-WellFormed (publish ∷ []))

accepted :
    enqueue works 7
      (some (codes "edit"))
      (some key)
      (some href)
      (some update)
      (pos 3)
      (at new_body)
      published
    ≡ (waiting, ok 1)
unfolding enqueue check_intent has_valid_body starts_with enqueue_intent close_savepoint
    enqueue_inside enqueue_new base_allows blocks insert_and_return insert_operation
    queued_operation last_rowid is_replay find same any etag_is_strong closes
accepted = refl

pub waiting-WellFormed : WellFormed waiting.operations
unfolding run step
waiting-WellFormed =
    subst (λ (r : Db × Result ℕ). WellFormed r.0.operations) accepted
      (run-WellFormed (edit ∷ []) published published-WellFormed)

enqueue-enqueue_example :
    enqueue works 7
      (some (codes "edit"))
      (some key)
      (some href)
      (some update)
      (pos 3)
      (at new_body)
      (run (try_write ∷ succeed ∷ []) waiting)
    ≡ (run (try_write ∷ succeed ∷ []) waiting, ok 1)
enqueue-enqueue_example =
    enqueue-enqueue works works 7 (some (codes "edit")) (some key) (some href) (some update) (pos 3)
      (at new_body) published (try_write ∷ succeed ∷ []) {db' = waiting} {n = 1}
      published-WellFormed accepted (λ k. refl)

begin_attempt_ok_example :
    Attempt 7 1 100 waiting.operations (begin_attempt works 7 1 (pos 100) waiting).0.operations
unfolding begin_attempt outside_transaction update_one count_where may_attempt
begin_attempt_ok_example = begin_attempt_ok works 7 1 100 waiting refl

next_lem_example :
    ((next works 7 (pos 100) waiting ≡ ok 0)
      × ((x : Operation) → Row x waiting.operations → is_due 7 (pos 100) x ≡ false))
    ⊎ ((o : Operation) × (next works 7 (pos 100) waiting ≡ ok o.id)
        × (0 < o.id)
        × Scheduled 7 (pos 100) waiting.operations o)
next_lem_example = next_lem works 7 (pos 100) waiting waiting-WellFormed refl

etag_is_strong_iff_example :
    (etag_is_strong (some old_tag) ≡ true)
    ↔ ((m : Bytes) × (some old_tag ≡ some (b'"' ∷ (m ++ b'"' ∷ []))) × All IsOpaque m)
etag_is_strong_iff_example = etag_is_strong_iff (some old_tag)
