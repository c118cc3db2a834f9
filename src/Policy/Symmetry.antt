-- ===== src/Policy/Symmetry.antt =====
-- The comparison of two records does not depend on their order.
use retro_cloud_sync.Prelude.{
  ◌∙◌, Bool, true, false, ◌||◌, Option, none, some, is_some, ◌≡◌, ◌↔◌, ◌⊎◌, inl, inr, arith, pos,
  eq_ℤ, Bytes, Row, same_iff, Bool-cases, sym, refl, ap,
}
use retro_cloud_sync.Policy.Lists.{is}
use retro_cloud_sync.Policy.Records.{
  Access, all, all_row, all_of_row, common_entity, alarm_of, field_equal, records_equal,
}

-- What RCSyncPolicy.h asks of an adapter: its comparisons are symmetric, and a record has a value for
-- a key exactly if it lists the key.
pub record IsAdapter {Key : Type 0} (ops : Access Key) : Type 0 where
  pub property_equal_comm :
      (entity name : Option Bytes) (x y : Option Key)
      → ops.property_equal entity name x y ≡ ops.property_equal entity name y x
  pub unordered_equal_comm : (x y : Option Key) → ops.unordered_equal x y ≡ ops.unordered_equal y x
  pub alarm_equal_comm : (x y : Option Key) → ops.alarm_equal x y ≡ ops.alarm_equal y x
  pub listed :
      (a : Key) (key : Key) → (is_some (ops.get (some a) key) ≡ true) ↔ Row key (ops.keys (some a))

or_true : (a : Bool) {b : Bool} → b ≡ true → (a || b) ≡ true
or_true a h = ground arith

same_truth : {a b : Bool} → (a ≡ true → b ≡ true) → (b ≡ true → a ≡ true) → a ≡ b
same_truth {a = true} f g = sym (f refl)
same_truth {a = false} {b = true} f g = g refl
same_truth {a = false} {b = false} f g = refl

module _ {Key : Type 0} (ops : Access Key) (adapter : IsAdapter ops) where
  is_comm : (a b : Option Bytes) → is a b ≡ is b a
  is_comm none none = refl
  is_comm none (some b) = refl
  is_comm (some a) none = refl
  is_comm (some a) (some b) = ground (arith, same_iff a b, same_iff b a)

  is_lem : (a b : Option Bytes) → is a b ≡ true → a ≡ b
  is_lem (some a) (some b) h = ap some ((same_iff a b).0 h)
  is_lem none b h = absurd (ground arith)
  is_lem (some a) none h = absurd (ground arith)

  common_entity_comm : (a b : Option Key) → common_entity ops a b ≡ common_entity ops b a
  unfolding common_entity
  common_entity_comm a b =
      ground (arith, is_comm (ops.entity a) (ops.entity b), is_lem (ops.entity a) (ops.entity b))

  alarm_of_comm : (a b : Option Key) → alarm_of ops a b ≡ alarm_of ops b a
  unfolding alarm_of
  alarm_of_comm a b = rw (common_entity_comm a b, adapter.alarm_equal_comm a b) refl

  field_equal_comm :
      (a b : Option Key) (key : Key) → field_equal ops a b key ≡ field_equal ops b a key
  unfolding field_equal
  field_equal_comm a b key =
      rw
        (
          alarm_of_comm a b,
          common_entity_comm a b,
          adapter.property_equal_comm (common_entity ops b a) (ops.text key) (ops.get a key)
              (ops.get b key),
          adapter.unordered_equal_comm (ops.get a key) (ops.get b key),
        )
        refl

  -- For an adapter with symmetric comparisons that lists exactly the keys with a value, two
  -- records are equal exactly if the alarm does not tell them apart and every field that one
  -- of them has is equal or left out.
  pub records_equal_iff :
      (a b : Key)
      → (records_equal ops (some a) (some b) ≡ true) ↔ (
          (eq_ℤ (alarm_of ops (some a) (some b)) (pos 0) ≡ false)
          × ((key : Key)
              → Row key (ops.keys (some a)) ⊎ Row key (ops.keys (some b))
              → field_equal ops (some a) (some b) key ≡ true))
  unfolding records_equal
  records_equal_iff a b = (
    λ h.
        let first : all (field_equal ops (some a) (some b)) (ops.keys (some a)) ≡ true =
          ground (arith, h) in
        let second : all
              (λ key. is_some (ops.get (some a) key) || field_equal ops (some a) (some b) key)
              (ops.keys (some b))
            ≡ true =
          ground (arith, h) in
        (
          ground (arith, h),
          λ key r. elim r [
            | inl r ↦ all_row _ _ first r
            | inr r ↦ elim (Bool-cases (is_some (ops.get (some a) key))) [
              | inl t ↦ all_row _ _ first ((adapter.listed a key).0 t)
              | inr n ↦ ground (arith, all_row _ _ second r, n)
            ]
          ],
        ),
    λ h. ground (
      arith,
      h.0,
      all_of_row _ _ (λ key r. h.1 key (inl r)),
      all_of_row (λ key. is_some (ops.get (some a) key) || field_equal ops (some a) (some b) key)
          (ops.keys (some b)) (λ key r. or_true (is_some (ops.get (some a) key)) (h.1 key (inr r))),
    ),
  )

  implied :
      (a b : Key)
      → records_equal ops (some a) (some b) ≡ true
      → records_equal ops (some b) (some a) ≡ true
  implied a b h =
      let (alarm, fields) = (records_equal_iff a b).0 h in
      (records_equal_iff b a).1 (
        ground (arith, alarm, alarm_of_comm (some a) (some b)),
        λ key r.
            sym (field_equal_comm (some a) (some b) key)
            ∙ fields key (elim r [ inl x ↦ inr x | inr x ↦ inl x ]),
      )

  -- For an adapter with symmetric comparisons that lists exactly the keys with a value, the
  -- comparison of two records does not depend on their order, NULL records included.
  pub records_equal_comm : (a b : Option Key) → records_equal ops a b ≡ records_equal ops b a
  unfolding records_equal
  records_equal_comm none none = refl
  records_equal_comm none (some b) = refl
  records_equal_comm (some a) none = refl
  records_equal_comm (some a) (some b) = same_truth (implied a b) (implied b a)
