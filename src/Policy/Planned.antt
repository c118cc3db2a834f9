-- ===== src/Policy/Planned.antt =====
-- Source: source/shared/RCSyncPolicy.c. What a plan does to each group of fields.
use retro_cloud_sync.Prelude.{
  subst, ℕ, zero, suc, ◌+◌, ◌≤◌, ◌<◌, ◌≡◌, ◌≢◌, refl, sym, ◌∙◌, ◌⊎◌, inl, inr, Bool, true, false,
  ◌==◌, Bool-cases, arith,
}
use retro_cloud_sync.Policy.Plan.{
  Plan, plan_group, plan_groups, plan_structure, plan_independent_fields,
}

-- An adapter whose groups are independent: what it does for one group is not seen in another one.
pub record IsIndependent {Context View : Type 0} (view : ℕ → Context → View) (ops : Plan Context)
    : Type 0 where
  pub changed : (i j : ℕ) (c : Context) → i ≢ j → view j (ops.group_changed i c).0 ≡ view j c
  pub encoded : (i j : ℕ) (c : Context) → i ≢ j → view j (ops.encode_group i c).0 ≡ view j c
  pub rejected : (i j : ℕ) (c : Context) → i ≢ j → view j (ops.reject_group i c) ≡ view j c

-- One group: left alone if it has not changed, and else encoded, or rejected behind a failed try.
pub data Handled {Context : Type 0} (ops : Plan Context) (i : ℕ) (c after : Context) : Type 0 where
  unchanged :
      (ops.group_changed i c).1 ≡ false → after ≡ (ops.group_changed i c).0 → Handled ops i c after
  encodes :
      (ops.group_changed i c).1 ≡ true
      → (ops.encode_group i (ops.group_changed i c).0).1 ≡ true
      → after ≡ (ops.encode_group i (ops.group_changed i c).0).0
      → Handled ops i c after
  rejects :
      (ops.group_changed i c).1 ≡ true
      → (ops.encode_group i (ops.group_changed i c).0).1 ≡ false
      → after ≡ ops.reject_group i (ops.encode_group i (ops.group_changed i c).0).0
      → Handled ops i c after

-- A group that was handled once, as if it were the only one.
pub record IsSettled {Context View : Type 0} (view : ℕ → Context → View) (ops : Plan Context)
    (i : ℕ) (c after : Context) : Type 0 where
  pub before : Context
  pub behind : Context
  pub handled : Handled ops i before behind
  pub same_before : view i before ≡ view i c
  pub same_behind : view i after ≡ view i behind

-- The structure was encoded, at once or after it was restored.
abbrev pub IsStructured : {Context : Type 0} → Plan Context → Context → Context → Type 0
IsStructured ops c base =
    (((ops.encode_structure c).1 ≡ true) × (base ≡ (ops.encode_structure c).0))
    ⊎ (((ops.encode_structure c).1 ≡ false)
        × ((ops.encode_structure (ops.restore_structure (ops.encode_structure c).0)).1 ≡ true)
        × (base ≡ (ops.encode_structure (ops.restore_structure (ops.encode_structure c).0)).0))

-- What a plan leaves.
pub data Planned {Context View : Type 0} (view : ℕ → Context → View) (ops : Plan Context)
    (groups : ℕ) (c : Context) (after : Context × Bool) : Type 0 where
  fails :
      (ops.encode_structure c).1 ≡ false
      → (ops.encode_structure (ops.restore_structure (ops.encode_structure c).0)).1 ≡ false
      → after ≡ ops.encode_structure (ops.restore_structure (ops.encode_structure c).0)
      → Planned view ops groups c after
  plans :
      (base : Context)
      → IsStructured ops c base
      → after.1 ≡ true
      → ((i : ℕ) → i < groups → IsSettled view ops i base after.0)
      → ((i : ℕ) → groups ≤ i → view i after.0 ≡ view i base)
      → Planned view ops groups c after

module _ {Context View : Type 0} (view : ℕ → Context → View) (ops : Plan Context)
    (adapter : IsIndependent view ops) where
  plan_group-Handled : (i : ℕ) (c : Context) → Handled ops i c (plan_group ops i c)
  unfolding plan_group
  plan_group-Handled i c = elim (Bool-cases (ops.group_changed i c).1) [
    | inr f ↦ unchanged f (rw (f, plan_group) refl)
    | inl t ↦ elim (Bool-cases (ops.encode_group i (ops.group_changed i c).0).1) [
      | inl e ↦ encodes t e (rw (t, e, plan_group) refl)
      | inr e ↦ rejects t e (rw (t, e, plan_group) refl)
    ]
  ]

  view-Handled :
      (i j : ℕ) (c after : Context) → i ≢ j → Handled ops i c after → view j after ≡ view j c
  view-Handled i j c after n (unchanged f e) = rw e (adapter.changed i j c n)
  view-Handled i j c after n (encodes t f e) =
      rw e (adapter.encoded i j (ops.group_changed i c).0 n ∙ adapter.changed i j c n)
  view-Handled i j c after n (rejects t f e) = rw e (
      adapter.rejected i j (ops.encode_group i (ops.group_changed i c).0).0 n
      ∙ adapter.encoded i j (ops.group_changed i c).0 n
      ∙ adapter.changed i j c n)

  other_view : (k j : ℕ) (c : Context) → k ≢ j → view j (plan_group ops k c) ≡ view j c
  other_view k j c n = view-Handled k j c (plan_group ops k c) n (plan_group-Handled k c)

  plan_groups_others :
      (n k i : ℕ) (c : Context) → (i < k) ⊎ (k + n ≤ i) → view i (plan_groups ops n k c) ≡ view i c
  unfolding plan_groups
  plan_groups_others zero k i c h = refl
  plan_groups_others (suc n) k i c h =
      plan_groups_others n (suc k) i (plan_group ops k c) (ground arith)
      ∙ other_view k i c (λ e. absurd (ground arith))

  plan_groups-IsSettled :
      (n k i : ℕ) (c : Context) → k ≤ i → i < k + n → IsSettled view ops i c (plan_groups ops n k c)
  unfolding plan_groups
  plan_groups-IsSettled zero k i c l m = absurd (omega (arith, l, m))
  plan_groups-IsSettled (suc n) k i c l m = elim (Bool-cases (k == i)) [
    | inl t ↦
        let same : k ≡ i = ground arith in
        subst (λ j. IsSettled view ops j c (plan_groups ops n (suc k) (plan_group ops k c))) same
          (record {
            before = c;
            behind = plan_group ops k c;
            handled = plan_group-Handled k c;
            same_before = refl;
            same_behind = plan_groups_others n (suc k) k (plan_group ops k c) (inl (omega arith));
          })
    | inr t ↦
        let differ : k ≢ i = λ e. absurd (ground (arith, t, e)) in
        let rest =
          plan_groups-IsSettled n (suc k) i (plan_group ops k c) (ground (arith, t, l))
            (omega (arith, m)) in
        record {
          before = rest.before;
          behind = rest.behind;
          handled = rest.handled;
          same_before = rest.same_before ∙ other_view k i c differ;
          same_behind = rest.same_behind;
        }
  ]

  plan_from :
      (groups : ℕ) (c base : Context)
      → IsStructured ops c base
      → Planned view ops groups c (plan_groups ops groups 0 base, true)
  plan_from groups c base s =
      plans base s refl
        (λ i l. plan_groups-IsSettled groups 0 i base (omega arith) (omega (arith, l)))
        (λ i l. plan_groups_others groups 0 i base (inr (omega (arith, l))))

  -- For an adapter whose steps on one group are not seen in another one: a plan fails only if
  -- the structure is encoded neither at once nor after it was restored, and then no group is
  -- touched; else each of its groups is handled once, as it was behind the structure: left
  -- alone if it has not changed, encoded, or rejected behind a failed try; and no other group
  -- changes.
  pub plan_independent_fields-Planned :
      (groups : ℕ) (c : Context) → Planned view ops groups c (plan_independent_fields ops groups c)
  unfolding plan_independent_fields plan_structure
  plan_independent_fields-Planned groups c =
      let again = ops.restore_structure (ops.encode_structure c).0 in
      elim (Bool-cases (ops.encode_structure c).1) [
        | inl t ↦
            let step : plan_independent_fields ops groups c
                ≡ (plan_groups ops groups 0 (ops.encode_structure c).0, true) =
              rw (t, plan_independent_fields) refl in
            subst (Planned view ops groups c) (sym step)
              (plan_from groups c (ops.encode_structure c).0 (inl (t, refl)))
        | inr f ↦ elim (Bool-cases (ops.encode_structure again).1) [
          | inl t ↦
              let step : plan_independent_fields ops groups c
                  ≡ (plan_groups ops groups 0 (ops.encode_structure again).0, true) =
                rw (f, t, plan_independent_fields) refl in
              subst (Planned view ops groups c) (sym step)
                (plan_from groups c (ops.encode_structure again).0 (inr (f, t, refl)))
          | inr g ↦
              let step : plan_independent_fields ops groups c ≡ ops.encode_structure again =
                ground (arith, f, g) in
              fails f g step
        ]
      ]
