-- ===== src/Recovery/Complete.antt =====
-- A successor is acknowledged only after its mirror is committed and its receipt accepted locally.
use retro_cloud_sync.Prelude.{
  update_where_row, Bool, Row, ap, find-none, count_where_none, ℕ, ◌+◌, ◌≡◌, refl, sym, subst, ◌∙◌,
  ◌⊎◌, inl, inr, true, false, some, arith, if◌then◌else◌, Bool-cases, Option-cases, Result-cases,
  Bytes, find, find_sound, Result, ok, err,
}
use retro_cloud_sync.Journal.Model.{
  State, Resolution, is_applied, is_acknowledged, is_operation, Operation, Db, Io,
}
use retro_cloud_sync.Journal.Attempt.{
  with_state, get, acknowledge, update_one, may_acknowledge, is_unmirrored,
}
use retro_cloud_sync.Journal.Attention.{is_resolution_of, resolution_receipt}
use retro_cloud_sync.Recovery.Model.{
  end_transaction, set_checkpoint, Callbacks, mirror_transaction, accept_and_acknowledge, complete,
}

-- The end of a completion: the receipt is accepted, then the operation is acknowledged, which no
-- resolution without its mirror checkpoint allows.
pub record Settled (callbacks : Callbacks) (o : Operation) (id : ℕ) (receipt : Bytes) (after : Db)
    : Type 0 where
  pub accepted : callbacks.accept_local o receipt ≡ ok tt
  pub settled : Operation
  pub row : Row settled after.operations
  pub named : settled.id ≡ id
  pub final : is_acknowledged settled.state ≡ true
  pub committed : is_unmirrored after.resolutions id ≡ false

-- An applied operation whose stored receipt is accepted. Where the checkpoint was not set before, the
-- mirror has saved the operation inside a transaction.
pub record Accepted (callbacks : Callbacks) (o : Operation) (id : ℕ) (before after : Db)
    : Type 0 where
  pub applied : is_applied o.state ≡ true
  pub resolution : Resolution
  pub kept : Row resolution before.resolutions
  pub names_it : resolution.successor_id ≡ id
  pub has_mirror :
      (resolution.mirror_committed ≡ true)
      ⊎ ((saved : Db) × (callbacks.save_mirror o (record before { autocommit = false })
            ≡ (saved, ok tt)))
  pub end : Settled callbacks o id resolution.receipt after

-- A completion that goes through.
pub record Completed (callbacks : Callbacks) (account id : ℕ) (before after : Db) : Type 0 where
  pub operation : Operation
  pub stored : find (is_operation account id) before.operations ≡ some operation
  pub outcome :
      ((is_acknowledged operation.state ≡ true) × (after ≡ before))
      ⊎ Accepted callbacks operation id before after

may_acknowledge_lem :
    (account id : ℕ) (db : Db) (o : Operation)
    → may_acknowledge account id db o ≡ true
    → is_unmirrored db.resolutions id ≡ false
unfolding may_acknowledge
may_acknowledge_lem account id db o h =
    let same : o.id ≡ id = ground arith in
    subst (λ n. is_unmirrored db.resolutions n ≡ false) same (ground arith)

acknowledge_ok :
    (io : Io) (callbacks : Callbacks) (account id : ℕ) (receipt : Bytes) (o : Operation) (db : Db)
    → callbacks.accept_local o receipt ≡ ok tt
    → (acknowledge io account id db).1 ≡ ok tt
    → Settled callbacks o id receipt (acknowledge io account id db).0
unfolding acknowledge update_one
acknowledge_ok io callbacks account id receipt o db f e =
    elim (Option-cases (find (may_acknowledge account id db) db.operations)) [
      | inl n ↦ absurd (ground (arith, count_where_none _ _ (find-none _ _ n)))
      | inr (x, g) ↦
          let (t, r) = find_sound (may_acknowledge account id db) db.operations g in
          record {
            accepted = f;
            settled = with_state State.acknowledged x;
            row = ground (
              arith,
              update_where_row (may_acknowledge account id db) (with_state State.acknowledged) t r,
            );
            named = unfold may_acknowledge in ground arith;
            final = refl;
            committed = ground (arith, may_acknowledge_lem account id db x t);
          }
    ]

checkpoint_ok :
    (io : Io) (account id : ℕ) (db : Db) (saved : Db × Result (Unit {0}))
    → (end_transaction (io 5) db (set_checkpoint io account id saved)).1 ≡ ok tt
    → saved.1 ≡ ok tt
unfolding set_checkpoint end_transaction
checkpoint_ok io account id db (saved, err c m) e = absurd (ground arith)
checkpoint_ok io account id db (saved, ok u) e = refl

-- The mirror's transaction is committed only behind a save that went through.
mirror_transaction_ok :
    (io : Io) (callbacks : Callbacks) (account : ℕ) (o : Operation) (db : Db)
    → (mirror_transaction io callbacks account o db).1 ≡ ok tt
    → (saved : Db) × (callbacks.save_mirror o (record db { autocommit = false }) ≡ (saved, ok tt))
unfolding mirror_transaction set_checkpoint end_transaction
mirror_transaction_ok io callbacks account o db e =
    let saved = callbacks.save_mirror o (record db { autocommit = false }) in
    elim (Bool-cases (io 2)) [
      | inr t ↦ absurd (ground (arith, t))
      | inl t ↦ (
        saved.0,
        ap (λ (r : Result (Unit {0})). (saved.0, r))
            (checkpoint_ok io account o.id db saved (ground (arith, t, e))),
      )
    ]

start_ok :
    (io : Io) (callbacks : Callbacks) (account : ℕ) (o : Operation) (db : Db) (committed : Bool)
    → (if committed then (db, ok tt) else mirror_transaction io callbacks account o db).1 ≡ ok tt
    → (committed ≡ true)
      ⊎ ((saved : Db) × (callbacks.save_mirror o (record db { autocommit = false })
            ≡ (saved, ok tt)))
start_ok io callbacks account o db true e = inl refl
start_ok io callbacks account o db false e = inr (mirror_transaction_ok io callbacks account o db e)

accept_and_acknowledge_ok :
    (io : Io) (callbacks : Callbacks) (account id : ℕ) (o : Operation) (receipt : Bytes)
    (r : Db × Result (Unit {0}))
    → o.id ≡ id
    → (accept_and_acknowledge io callbacks account o receipt r).1 ≡ ok tt
    → (r.1 ≡ ok tt)
      × Settled callbacks o id receipt (accept_and_acknowledge io callbacks account o receipt r).0
unfolding accept_and_acknowledge
accept_and_acknowledge_ok io callbacks account id o receipt (db, err c m) named e =
    absurd (ground arith)
accept_and_acknowledge_ok io callbacks account id o receipt (db, ok u) named e =
    elim (Result-cases (callbacks.accept_local o receipt)) [
      | inr (c, m, f) ↦ absurd (ground arith)
      | inl (u, f) ↦
          let journal : Io = λ k. io (6 + k) in
          let same : accept_and_acknowledge io callbacks account o receipt (db, ok tt)
              ≡ acknowledge journal account o.id db =
            rw (f, accept_and_acknowledge) refl in
          (
            refl,
            subst
                (λ n.
                  Settled callbacks o n receipt
                    (accept_and_acknowledge io callbacks account o receipt (db, ok tt)).0)
                named
                (rw same (
                  acknowledge_ok journal callbacks account o.id receipt o db f
                    (sym (ap (λ x. x.1) same) ∙ e))),
          )
    ]

receipt_ok :
    (io : Io) (account id : ℕ) (db : Db) {p : Bytes × Bool}
    → resolution_receipt io account id db ≡ ok p
    → (r : Resolution) × Row r db.resolutions
      × (r.successor_id ≡ id)
      × (p ≡ (r.receipt, r.mirror_committed))
unfolding resolution_receipt
receipt_ok io account id db {p} e =
    elim (Option-cases (find (is_resolution_of account id db) db.resolutions)) [
      | inl n ↦ absurd (ground arith)
      | inr (r, f) ↦
          let (t, row) = find_sound (is_resolution_of account id db) db.resolutions f in
          (r, row, (unfold is_resolution_of in ground arith), ground arith)
    ]

get_ok :
    (io : Io) (account id : ℕ) (db : Db) {o : Operation}
    → get io account id db ≡ ok o
    → find (is_operation account id) db.operations ≡ some o
unfolding get
get_ok io account id db e = elim (Option-cases (find (is_operation account id) db.operations)) [
  | inl n ↦ absurd (ground arith)
  | inr (o, f) ↦ ground arith
]

-- A completion that goes through: the operation is stored, and either it was acknowledged before
-- and nothing is changed, or it was applied and is a successor of a stored resolution; then the
-- local side has accepted the receipt of that resolution, the mirror has saved the operation
-- unless the checkpoint was there before, and afterwards the table has an acknowledged operation
-- with this id, and no resolution with this successor lacks its checkpoint.
pub complete_ok :
    (io : Io) (callbacks : Callbacks) (account id : ℕ) (db : Db)
    → (complete io callbacks account id db).1 ≡ ok tt
    → Completed callbacks account id db (complete io callbacks account id db).0
unfolding complete
complete_ok io callbacks account id db e = elim (Bool-cases db.autocommit) [
  | inr a ↦ absurd (ground arith)
  | inl a ↦ elim (Result-cases (get io account id db)) [
    | inr (c, m, f) ↦ absurd (ground arith)
    | inl (o, f) ↦ elim (Result-cases (resolution_receipt (λ k. io (1 + k)) account id db)) [
      | inr (c, m, g) ↦ absurd (ground arith)
      | inl ((receipt, committed), g) ↦ record {
        operation = o;
        stored = get_ok io account id db f;
        outcome = elim (Bool-cases (is_acknowledged o.state)) [
          | inl q ↦ inl (q, ground arith)
          | inr q ↦ elim (Bool-cases (is_applied o.state)) [
            | inr s ↦ absurd (ground arith)
            | inl s ↦
                let start =
                  if committed then (db, ok tt) else mirror_transaction io callbacks account o db in
                let same : complete io callbacks account id db
                    ≡ accept_and_acknowledge io callbacks account o receipt start =
                  ground (arith, f, g, a, q, s) in
                let named : o.id ≡ id =
                  ground (arith, (find_sound _ _ (get_ok io account id db f)).0) in
                let (started, end) =
                  accept_and_acknowledge_ok io callbacks account id o receipt start named
                    (sym (ap (λ x. x.1) same) ∙ e) in
                let (resolution, kept, successor, told) =
                  receipt_ok (λ k. io (1 + k)) account id db g in
                inr (
                  rw same (record {
                    applied = s;
                    resolution = resolution;
                    kept = kept;
                    names_it = successor;
                    has_mirror =
                        subst
                          (λ b.
                            (b ≡ true)
                            ⊎ ((saved : Db) × (callbacks.save_mirror o
                                    (record db { autocommit = false })
                                  ≡ (saved, ok tt))))
                          (ap (λ p. p.1) told)
                          (start_ok io callbacks account o db committed started);
                    end =
                        subst
                          (λ b.
                            Settled callbacks o id b
                              (accept_and_acknowledge io callbacks account o receipt start).0)
                          (ap (λ p. p.0) told) end;
                  }))
          ]
        ];
      }
    ]
  ]
]
