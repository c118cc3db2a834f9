-- ===== src/Tests/Policies.antt =====
-- The theorems on field rules and record comparison at small inputs.
use retro_cloud_sync.Prelude.{
  ltb, not, inr, inl, ◌&&◌, subst, Bool-cases, if◌then◌else◌, ℕ, ◌≡◌, ◌↔◌, refl, ◌⊎◌, Bool, true,
  false, Option, none, some, is_some, List, [], ◌∷◌, arith, ◌==◌, pos, negsuc, eq_ℤ, codes, Row,
  same, if◌then◌else◌, ◌&&◌, Bool-cases, inl, inr, subst,
}
use retro_cloud_sync.Policy.Lists.{field_list_contains, fields_of}
use retro_cloud_sync.Policy.Fields.{writable_field_names, independent_field_group, groups_of}
use retro_cloud_sync.Policy.Records.{Access, records_equal, alarm_of, field_equal}
use retro_cloud_sync.Policy.Writable.{independent_field_group_writable}
use retro_cloud_sync.Policy.Plan.{Plan, plan_independent_fields}
use retro_cloud_sync.Policy.Planned.{IsIndependent, Planned, plan_independent_fields-Planned}
use retro_cloud_sync.Policy.Symmetry.{IsAdapter, records_equal_iff}

independent_field_group_writable_example :
    field_list_contains
      (writable_field_names (some (codes "com.apple.contacts.Contact")))
      (some (codes "department"))
    ≡ true
unfolding independent_field_group groups_of same fields_of
independent_field_group_writable_example =
    independent_field_group_writable (some (codes "com.apple.contacts.Contact")) 1
      {group = codes "company name|department"} {field = codes "department"} refl
      (Row.there Row.here)

-- Records are numbers: 1 has the key 5, with itself as its value, and 2 has no key.
abbrev keys_of : Option ℕ → List ℕ
keys_of none = []
keys_of (some n) = if n == 1 then 5 ∷ [] else []

abbrev value_at : Option ℕ → ℕ → Option ℕ
value_at none key = none
value_at (some n) key = if n == 1 && key == 5 then some n else none

abbrev equal_numbers : Option ℕ → Option ℕ → Bool
equal_numbers none none = true
equal_numbers (some a) (some b) = a == b
equal_numbers _ _ = false

abbrev numbers : Access ℕ
numbers = record {
  count = λ r. 0;
  keys = keys_of;
  get = value_at;
  text = λ key. some (codes "notes");
  entity = λ r. some (codes "com.apple.contacts.Contact");
  property_equal = λ entity name x y. equal_numbers x y;
  unordered_equal = λ x y. false;
  alarm_equal = λ x y. negsuc 0;
  tombstone = λ r. false;
  scoped_equal = λ a b fields. equal_numbers a b;
}

equal_numbers_comm : (x y : Option ℕ) → equal_numbers x y ≡ equal_numbers y x
equal_numbers_comm none none = refl
equal_numbers_comm none (some b) = refl
equal_numbers_comm (some a) none = refl
equal_numbers_comm (some a) (some b) = ground arith

key_row : (key : ℕ) → (key == 5) ≡ true → Row key (5 ∷ [])
key_row key h = subst (λ k. Row k (5 ∷ [])) (ground arith) Row.here

row_key : (key : ℕ) → Row key (5 ∷ []) → (key == 5) ≡ true
row_key key Row.here = refl
row_key key (Row.there r) = elim r [ ]

listed_number : (n key : ℕ) → (is_some (value_at (some n) key) ≡ true) ↔ Row key (keys_of (some n))
listed_number n key = elim (Bool-cases (n == 1)) [
  | inl t ↦ rw t (λ h. key_row key (ground arith), λ r. ground (arith, row_key key r))
  | inr f ↦ rw f (λ h. absurd (ground arith), λ r. elim r [ ])
]

numbers-IsAdapter : IsAdapter numbers
numbers-IsAdapter = record {
  property_equal_comm = λ entity name x y. equal_numbers_comm x y;
  unordered_equal_comm = λ x y. refl;
  alarm_equal_comm = λ x y. refl;
  listed = listed_number;
}

records_equal_iff_example : (records_equal numbers (some 1) (some 2) ≡ true) ↔ (
    (eq_ℤ (alarm_of numbers (some 1) (some 2)) (pos 0) ≡ false)
    × ((key : ℕ)
        → Row key (keys_of (some 1)) ⊎ Row key (keys_of (some 2))
        → field_equal numbers (some 1) (some 2) key ≡ true))
records_equal_iff_example = records_equal_iff numbers numbers-IsAdapter 1 2

-- A context has a number for each group: 1 where it has changed, 2 behind its encoding, which fails
-- for group 1. The structure is encoded at the second try.
abbrev put : ℕ → ℕ → (ℕ → ℕ) → ℕ → ℕ
put i v c j = if j == i then v else c j

abbrev numbered : Plan (ℕ → ℕ)
numbered = record {
  encode_structure = λ c. (c, c 9 == 1);
  restore_structure = put 9 1;
  group_changed = λ i c. (c, c i == 1);
  encode_group = λ i c. (put i 2 c, not (i == 1));
  reject_group = λ i. put i 0;
}

abbrev number_of : ℕ → (ℕ → ℕ) → ℕ
number_of i c = c i

numbered-IsIndependent : IsIndependent number_of numbered
numbered-IsIndependent = record {
  changed = λ i j c n. refl;
  encoded = λ i j c n. ground arith;
  rejected = λ i j c n. ground arith;
}

abbrev edited : ℕ → ℕ
edited i = if ltb i 3 then 1 else 0

plan_independent_fields-Planned_example :
    Planned number_of numbered 3 edited (plan_independent_fields numbered 3 edited)
plan_independent_fields-Planned_example =
    plan_independent_fields-Planned number_of numbered numbered-IsIndependent 3 edited
