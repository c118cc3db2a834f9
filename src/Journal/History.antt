-- ===== src/Journal/History.antt =====
-- What a sequence of calls does to the operations that are there: an intent is never rewritten, and
-- a state moves only along the edges of the journal's state machine.
pub mod Steps
pub mod Resolved
use retro_cloud_sync.Prelude.{
  ℕ, suc, ◌+◌, ◌≤◌, ◌≡◌, refl, sym, subst, ◌⊎◌, inl, inr, Bool, true, false, Option, none, some,
  List, [], ◌∷◌, ◌++◌, arith, if◌then◌else◌, Bool-cases, Option-cases, Result-cases, Bytes, Buffer,
  ℤ, pos, negsuc, Row, update_where, Result, ok, err, find, any,
}
use retro_cloud_sync.Journal.Model.{
  Kind, State, queued, uncertain, applied, conflict, acknowledged, cancelled, is_attemptable,
  Operation, Resolution, Db, Io, is_change, insert_operation, close_savepoint,
}
use retro_cloud_sync.Journal.Attempt.{
  attempted, may_attempt, update_one, outside_transaction, begin_attempt, is_valid_result,
  may_record, recorded, record_result, may_acknowledge, may_cancel, with_state, acknowledge, cancel,
  get,
}
use retro_cloud_sync.Journal.Enqueue.{
  enqueue, enqueue_intent, enqueue_inside, enqueue_new, insert_and_return, check_intent,
}
use retro_cloud_sync.Journal.Resolve.{
  Decision, check_decision, resolve_conflict, resolve_inside, resolve_new, retire, clear_attention,
  insert_resolution, without_attention, successor,
}
use retro_cloud_sync.Journal.Invariant.{SameIntent}
use retro_cloud_sync.Journal.Calls.{
  Call, step, run, set_base-operations, conflict_attention-operations,
  resolution_mirrored-operations,
}

-- The state machine of an operation.
infix 40 ◌⟶◌ ◌⟶*◌
pub data ◌⟶◌ : State → State → Type 0 where
  begin : queued ⟶ uncertain
  retry : uncertain ⟶ uncertain
  verify : uncertain ⟶ applied
  collide : uncertain ⟶ conflict
  accept : applied ⟶ acknowledged
  withdraw : queued ⟶ cancelled
  give_up : conflict ⟶ cancelled

pub data ◌⟶*◌ : State → State → Type 0 where
  stay : {s : State} → s ⟶* s
  move : {s t u : State} → s ⟶ t → t ⟶* u → s ⟶* u

⟶*_trans : {s t u : State} → s ⟶* t → t ⟶* u → s ⟶* u
⟶*_trans stay q = q
⟶*_trans (move e p) q = move e (⟶*_trans p q)

-- The later version of an operation.
pub record Descends (o o' : Operation) : Type 0 where
  pub intent : SameIntent o o'
  pub moves : o.state ⟶* o'.state
  pub attempts : o.attempts ≤ o'.attempts

-- The later table: the versions of the old rows in their places, and new rows behind them.
pub data Evolves : List Operation → List Operation → Type 0 where
  new : {os : List Operation} → Evolves [] os
  row :
      {o o' : Operation} {os os' : List Operation}
      → Descends o o'
      → Evolves os os'
      → Evolves (o ∷ os) (o' ∷ os')

Descends-refl : (o : Operation) → Descends o o
Descends-refl o = record { intent = ground arith; moves = stay; attempts = omega arith }

SameIntent-trans : {a b c : Operation} → SameIntent a b → SameIntent b c → SameIntent a c
SameIntent-trans p q = ground arith

Descends-trans : {a b c : Operation} → Descends a b → Descends b c → Descends a c
Descends-trans p q = record {
  intent = SameIntent-trans p.intent q.intent;
  moves = ⟶*_trans p.moves q.moves;
  attempts = omega (arith, p.attempts, q.attempts);
}

Evolves-refl : (os : List Operation) → Evolves os os
Evolves-refl [] = new
Evolves-refl (o ∷ os) = row (Descends-refl o) (Evolves-refl os)

Evolves-trans : {a b c : List Operation} → Evolves a b → Evolves b c → Evolves a c
Evolves-trans new q = new
Evolves-trans (row p ps) (row q qs) = row (Descends-trans p q) (Evolves-trans ps qs)

Evolves-append : (os ns : List Operation) → Evolves os (os ++ ns)
Evolves-append [] ns = new
Evolves-append (o ∷ os) ns = row (Descends-refl o) (Evolves-append os ns)

Evolves-update_where :
    (p : Operation → Bool) (f : Operation → Operation) (os : List Operation)
    → ((o : Operation) → p o ≡ true → Descends o (f o))
    → Evolves os (update_where p f os)
unfolding update_where
Evolves-update_where p f [] d = new
Evolves-update_where p f (o ∷ os) d = elim (Bool-cases (p o)) [
  | inl t ↦ rw t (row (d o t) (Evolves-update_where p f os d))
  | inr t ↦ rw t (row (Descends-refl o) (Evolves-update_where p f os d))
]
