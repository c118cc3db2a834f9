-- ===== src/Journal/History/Resolved.antt =====
-- Resolving a conflict lets the operations evolve, and so does every sequence of calls.
use retro_cloud_sync.Prelude.{
  ℕ, ◌+◌, ◌≡◌, refl, sym, subst, ◌⊎◌, inl, inr, Bool, true, false, Option, List, [], ◌∷◌, ◌++◌,
  arith, Result-cases, Buffer, Row, Result, ok, err,
}
use retro_cloud_sync.Journal.Model.{
  Kind, State, acknowledged, cancelled, Operation, Db, Io, insert_operation, close_savepoint,
}
use retro_cloud_sync.Journal.Attempt.{get, cancel}
use retro_cloud_sync.Journal.Resolve.{
  Decision, check_decision, resolve_conflict, resolve_inside, resolve_new, retire, clear_attention,
  insert_resolution, without_attention, successor, resolution_of,
}
use retro_cloud_sync.Journal.Calls.{
  Call, set_base_call, enqueue_call, begin_attempt_call, record_result_call, acknowledge_call,
  cancel_call, resolve_conflict_call, conflict_attention_call, resolution_mirrored_call,
  transaction, step, run, set_base-operations, conflict_attention-operations,
  resolution_mirrored-operations,
}
use retro_cloud_sync.Journal.History.{
  SameIntent, ◌⟶◌, begin, retry, verify, collide, accept, withdraw, give_up, ◌⟶*◌, stay, move,
  Descends, Evolves, new, row, Evolves-refl, Evolves-trans, Evolves-append,
}
use retro_cloud_sync.Journal.History.Steps.{
  enqueue-Evolves, begin_attempt-Evolves, record_result-Evolves, acknowledge-Evolves,
  cancel-Evolves,
}

clear_attention-operations :
    (cleared : Bool) (id n : ℕ) (r : Db × Result (Unit {0}))
    → (clear_attention cleared id n r).0.operations ≡ r.0.operations
unfolding clear_attention without_attention
clear_attention-operations true id n (db, ok _) = refl
clear_attention-operations false id n (db, ok _) = refl
clear_attention-operations cleared id n (db, err c m) = refl

retire-Evolves :
    (io : Io) (account : ℕ) (old next : Operation) (d : Decision) (db : Db)
    → Evolves db.operations (retire io account old next d db).0.operations
unfolding retire insert_resolution
retire-Evolves io account old next d db =
    let db' : Db = record db { resolutions = db.resolutions ++ resolution_of old next d ∷ [] } in
    ground (
      arith,
      Evolves-refl db.operations,
      clear_attention-operations (io 7) old.id next.id
          (cancel (λ k. io (5 + k)) account old.id db'),
      cancel-Evolves (λ k. io (5 + k)) account old.id db',
    )

resolve_new-Evolves :
    (io : Io) (account : ℕ) (old : Operation) (d : Decision) (db : Db)
    → Evolves db.operations (resolve_new io account old d db).0.operations
unfolding resolve_new insert_operation
resolve_new-Evolves io account old d db =
    let n = successor old d db in
    ground (
      arith,
      Evolves-refl db.operations,
      Evolves-trans (Evolves-append db.operations (n ∷ []))
          (retire-Evolves io account old n d (record db { operations = db.operations ++ n ∷ [] })),
    )

resolve_inside-Evolves :
    (io : Io) (account id : ℕ) (d : Decision) (db : Db)
    → Evolves db.operations (resolve_inside io account id d db).0.operations
unfolding resolve_inside
resolve_inside-Evolves io account id d db =
    elim (Result-cases (get (λ k. io (1 + k)) account id db)) [
      | inr (c, m, g) ↦ ground (arith, g, Evolves-refl db.operations)
      | inl (old, g) ↦
          ground (arith, g, Evolves-refl db.operations, resolve_new-Evolves io account old d db)
    ]

resolve_conflict-Evolves :
    (io : Io) (account id : ℕ) (kind : Option Kind) (body receipt : Buffer) (db : Db)
    → Evolves db.operations (resolve_conflict io account id kind body receipt db).0.operations
unfolding resolve_conflict close_savepoint
resolve_conflict-Evolves io account id kind body receipt db =
    elim (Result-cases (check_decision kind body receipt)) [
      | inl (d, e) ↦
          ground (arith, e, Evolves-refl db.operations, resolve_inside-Evolves io account id d db)
      | inr (c, m, e) ↦ ground (arith, e, Evolves-refl db.operations)
    ]

step-Evolves : (c : Call) (db : Db) → Evolves db.operations (step c db).operations
unfolding step
step-Evolves (set_base_call io a key href etag body revision) db =
    subst (Evolves db.operations) (sym (set_base-operations io a key href etag body revision db))
      (Evolves-refl db.operations)
step-Evolves (enqueue_call io a change key href kind revision body) db =
    enqueue-Evolves io a change key href kind revision body db
step-Evolves (begin_attempt_call io a id now) db = begin_attempt-Evolves io a id now db
step-Evolves (record_result_call io a id state status etag body) db =
    record_result-Evolves io a id state status etag body db
step-Evolves (acknowledge_call io a id) db = acknowledge-Evolves io a id db
step-Evolves (cancel_call io a id) db = cancel-Evolves io a id db
step-Evolves (resolve_conflict_call io a id kind body receipt) db =
    resolve_conflict-Evolves io a id kind body receipt db
step-Evolves (conflict_attention_call io a id reason) db =
    subst (Evolves db.operations) (sym (conflict_attention-operations io a id reason db))
      (Evolves-refl db.operations)
step-Evolves (resolution_mirrored_call io a id) db =
    subst (Evolves db.operations) (sym (resolution_mirrored-operations io a id db))
      (Evolves-refl db.operations)
step-Evolves (transaction auto) db = Evolves-refl db.operations

-- Whatever calls are made, whichever of their statements fail: every stored operation stays in
-- its place with its identifier, resource, href, kind, revision, base and desired body
-- unchanged, its state has moved along the edges of the state machine only, its attempts were
-- not lowered, and new operations stand behind the old ones.
pub run-Evolves : (cs : List Call) (db : Db) → Evolves db.operations (run cs db).operations
unfolding run
run-Evolves [] db = Evolves-refl db.operations
run-Evolves (c ∷ cs) db = Evolves-trans (step-Evolves c db) (run-Evolves cs (step c db))

pub Evolves-Row :
    {os os' : List Operation} {o : Operation}
    → Evolves os os'
    → Row o os
    → (o' : Operation) × Row o' os' × Descends o o'
Evolves-Row new r = elim r [ ]
Evolves-Row (row d e) Row.here = (_, Row.here, d)
Evolves-Row (row d e) (Row.there r) = let (o', s, d') = Evolves-Row e r in (o', Row.there s, d')

no_edge : {s t : State} → s ⟶ t → ((s ≡ acknowledged) ⊎ (s ≡ cancelled)) → ⊥
no_edge begin h = ground arith
no_edge retry h = ground arith
no_edge verify h = ground arith
no_edge collide h = ground arith
no_edge accept h = ground arith
no_edge withdraw h = ground arith
no_edge give_up h = ground arith

terminal-stays : {s t : State} → s ⟶* t → ((s ≡ acknowledged) ⊎ (s ≡ cancelled)) → t ≡ s
terminal-stays stay h = refl
terminal-stays (move e p) h = absurd (no_edge e h)

-- An acknowledged or cancelled operation is still there after any calls, with the same intent,
-- in the same state.
pub run_terminal :
    (cs : List Call) (db : Db) {o : Operation}
    → Row o db.operations
    → ((o.state ≡ acknowledged) ⊎ (o.state ≡ cancelled))
    → (o' : Operation) × Row o' (run cs db).operations × SameIntent o o' × (o'.state ≡ o.state)
run_terminal cs db r h =
    let (o', s, d) = Evolves-Row (run-Evolves cs db) r in
    (o', s, d.intent, terminal-stays d.moves h)
