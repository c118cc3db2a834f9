-- ===== src/Policy/Writable.antt =====
-- The tables of source/shared/RCSyncPolicy.c agree with each other.
use retro_cloud_sync.Prelude.{
  ℕ, zero, suc, Bool, true, false, ◌&&◌, Option, none, some, List, [], ◌∷◌, get_elem?, ◌≡◌, refl,
  ap, subst, inl, inr, arith, Bool-cases, Bytes, codes, same, same_iff, Row, find, any,
}
use retro_cloud_sync.Policy.Lists.{field_list_contains, fields_of}
use retro_cloud_sync.Policy.Fields.{
  named, entries, writable_field_names, groups_of, independent_field_group,
}
use retro_cloud_sync.Policy.Records.{all, all_row}

get_elem?-Row {ℓ} : {A : Type ℓ} (xs : List A) (i : ℕ) {x : A} → get_elem? xs i ≡ some x → Row x xs
get_elem?-Row [] i h = absurd (ground arith)
get_elem?-Row (y ∷ xs) zero h = subst (λ z. Row z (y ∷ xs)) (ground arith) Row.here
get_elem?-Row (y ∷ xs) (suc i) h = Row.there (get_elem?-Row xs i h)

-- Every field of every group is a writable field of the entity.
covered : Option Bytes → Bool
covered entity =
    all (λ g. all (λ f. field_list_contains (writable_field_names entity) (some f)) (fields_of g))
      (groups_of entity)

named_lem : (entity : Option Bytes) (name : Bytes) → named entity name ≡ true → entity ≡ some name
named_lem none name h = absurd (ground arith)
named_lem (some e) name h = ap some ((same_iff e name).0 h)

abbrev contact : Bytes
contact = codes "com.apple.contacts.Contact"

abbrev street : Bytes
street = codes "com.apple.contacts.Street Address"

abbrev phone : Bytes
phone = codes "com.apple.contacts.Phone Number"

abbrev email : Bytes
email = codes "com.apple.contacts.Email Address"

abbrev url : Bytes
url = codes "com.apple.contacts.URL"

abbrev event : Bytes
event = codes "com.apple.calendars.Event"

abbrev audio : Bytes
audio = codes "com.apple.calendars.AudioAlarm"

covered_or :
    (name : Bytes) (entity : Option Bytes)
    → covered (some name) ≡ true
    → (named entity name ≡ false → covered entity ≡ true)
    → covered entity ≡ true
covered_or name entity h other = elim (Bool-cases (named entity name)) [
  | inl t ↦ rw (named_lem entity name t) h
  | inr n ↦ other n
]

tables :
    (covered (some contact)
      && covered (some street)
      && covered (some phone)
      && covered (some email)
      && covered (some url)
      && covered (some event)
      && covered (some audio))
    ≡ true
unfolding covered all any field_list_contains writable_field_names entries find fields_of groups_of
    same
tables = refl

covered_all : (entity : Option Bytes) → covered entity ≡ true
unfolding covered
covered_all entity = covered_or contact entity (ground (arith, tables)) λ a.
    covered_or street entity (ground (arith, tables)) λ b.
      covered_or phone entity (ground (arith, tables)) λ c.
        covered_or email entity (ground (arith, tables)) λ d.
          covered_or url entity (ground (arith, tables)) λ e.
            covered_or event entity (ground (arith, tables)) λ f.
              covered_or audio entity (ground (arith, tables))
                λ g. unfold groups_of all in rw (a, b, c, d, e, f, g) refl

-- Every field of an independent group is a writable field of its entity.
pub independent_field_group_writable :
    (entity : Option Bytes) (index : ℕ) {group field : Bytes}
    → independent_field_group entity index ≡ some group
    → Row field (fields_of group)
    → field_list_contains (writable_field_names entity) (some field) ≡ true
unfolding independent_field_group covered
independent_field_group_writable entity index {group} {field} h r =
    let inside =
      all_row
        (λ g. all (λ f. field_list_contains (writable_field_names entity) (some f)) (fields_of g))
        (groups_of entity) (covered_all entity) (get_elem?-Row (groups_of entity) index h) in
    all_row (λ f. field_list_contains (writable_field_names entity) (some f)) (fields_of group)
      inside r
