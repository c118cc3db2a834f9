-- ===== src/Policy/Lists.antt =====
-- Field lists: `Is` and `RCFieldListContains` of source/shared/RCSyncPolicy.c.
use retro_cloud_sync.Prelude.{
  ℕ, Bool, true, false, Option, some, List, [], ◌∷◌, ◌++◌, ◌==◌, if◌then◌else◌, Bytes, same,
  same_iff, same_refl, ◌≡◌, ◌↔◌, refl, subst, any, All, Row, arith, Bool-cases, inl, inr, is_empty,
}

-- `Is`: neither is NULL and the strings are equal.
abbrev pub is : Option Bytes → Option Bytes → Bool
is (some a) (some b) = same a b
is _ _ = false

-- One character more in front of the first field.
abbrev pub longer : ℕ → List Bytes → List Bytes
longer c [] = (c ∷ []) ∷ []
longer c (field ∷ fields) = (c ∷ field) ∷ fields

-- The fields that the loop visits: those that end at a '|' or at the end of the list, but nothing
-- behind a '|' at its end.
unfoldable pub fields_of : Bytes → List Bytes
fields_of [] = []
fields_of (c ∷ list) = if c == b'|' then [] ∷ fields_of list else longer c (fields_of list)

-- `RCFieldListContains`.
unfoldable pub field_list_contains : Option Bytes → Option Bytes → Bool
field_list_contains (some list) (some field) = any (λ f. same f field) (fields_of list)
field_list_contains _ _ = false

-- A list as the tables of the program write it.
unfoldable pub joined : List Bytes → Bytes
joined [] = []
joined (field ∷ []) = field
joined (field ∷ next ∷ fields) = field ++ b'|' ∷ joined (next ∷ fields)

-- A name without '|' that is not empty.
abbrev pub IsField : Bytes → Type 0
IsField field = (is_empty field ≡ false) × (any (λ c. c == b'|') field ≡ false)

fields_of-last :
    (c : ℕ) (field : Bytes)
    → any (λ d. d == b'|') (c ∷ field) ≡ false
    → fields_of (c ∷ field) ≡ (c ∷ field) ∷ []
unfolding fields_of any
fields_of-last c [] h = ground arith
fields_of-last c (d ∷ field) h = ground (arith, fields_of-last d field)

fields_of-append :
    (field list : Bytes)
    → any (λ d. d == b'|') field ≡ false
    → fields_of (field ++ b'|' ∷ list) ≡ field ∷ fields_of list
unfolding fields_of any
fields_of-append [] list h = refl
fields_of-append (c ∷ field) list h = ground (arith, fields_of-append field list)

-- The loop visits exactly the fields of a list that was joined.
pub fields_of-joined :
    (fields : List Bytes) → All IsField fields → fields_of (joined fields) ≡ fields
unfolding joined
fields_of-joined [] h = unfold fields_of in refl
fields_of-joined ([] ∷ []) h = absurd (ground arith)
fields_of-joined ((c ∷ field) ∷ []) h = fields_of-last c field h.0.1
fields_of-joined (field ∷ next ∷ fields) h =
    rw (fields_of-append field (joined (next ∷ fields)) h.0.1, fields_of-joined (next ∷ fields) h.1)
      refl

any_row :
    (field : Bytes) (fields : List Bytes) → any (λ f. same f field) fields ≡ true → Row field fields
unfolding any
any_row field [] h = absurd (ground arith)
any_row field (f ∷ fields) h = elim (Bool-cases (same f field)) [
  | inl t ↦ subst (λ x. Row x (f ∷ fields)) ((same_iff f field).0 t) Row.here
  | inr n ↦ Row.there (any_row field fields (ground (arith, n)))
]

row_any :
    (field : Bytes) (fields : List Bytes) → Row field fields → any (λ f. same f field) fields ≡ true
unfolding any
row_any field [] r = elim r [ ]
row_any field (_ ∷ fields) Row.here = ground (arith, same_refl field)
row_any field (f ∷ fields) (Row.there r) = ground (arith, row_any field fields r)

-- For names that are not empty and have no '|', the test finds a name in a joined list exactly
-- if it is one of its fields.
pub field_list_contains_iff :
    (fields : List Bytes) (field : Bytes)
    → All IsField fields
    → (field_list_contains (some (joined fields)) (some field) ≡ true) ↔ Row field fields
unfolding field_list_contains
field_list_contains_iff fields field h =
    rw (fields_of-joined fields h) (any_row field fields, row_any field fields)
