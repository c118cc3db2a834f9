-- ===== src/Vcard/Projected.antt =====
-- The identifier of a document against its properties.
use retro_cloud_sync.Prelude.{
  append_assoc, append-nil, bytes_of, ℕ, suc, Bool, true, false, Option, none, some, List, [], ◌∷◌,
  ◌++◌, if◌then◌else◌, Bytes, at, codes, same_case, to_lower, find, arith, ◌≡◌, refl, sym, ◌∙◌, ap,
  subst, inl, inr, Bool-cases, Option-cases, Result-cases, ok,
}
use retro_cloud_sync.Vcard.Text.{decode_value, unfold_text}
use retro_cloud_sync.Vcard.Document.{
  parse_parts, value_type_of, Parameter, map_parameters, Component, Parser, Property, Document,
  set_projection, project, property_of, add_property, map_property, map_properties, empty_document,
  vcard_parse,
}

abbrev pub is_named : Bytes → Property → Bool
is_named name p = same_case p.name name

abbrev pub decoded_or_null : Option Property → Option Bytes
decoded_or_null none = none
decoded_or_null (some p) = some p.decoded_value

-- The decoded value of the first property with this name.
unfoldable pub first_value : Bytes → List Property → Option Bytes
first_value name properties = decoded_or_null (find (is_named name) properties)

first_value-append :
    (name : Bytes) (ps : List Property) (p : Property)
    → first_value name (ps ++ p ∷ []) ≡ (
        if is_named name p
        then set_projection (first_value name ps) p.decoded_value
        else first_value name ps)
unfolding first_value find
first_value-append name [] p = ground arith
first_value-append name (q ∷ ps) p = ground (arith, first_value-append name ps p)

same_case-same_case :
    (a b c : Bytes) → same_case a b ≡ true → same_case a c ≡ true → same_case b c ≡ true
unfolding same_case
same_case-same_case [] [] [] h k = refl
same_case-same_case [] [] (z ∷ c) h k = absurd (ground arith)
same_case-same_case [] (y ∷ b) c h k = absurd (ground arith)
same_case-same_case (x ∷ a) [] c h k = absurd (ground arith)
same_case-same_case (x ∷ a) (y ∷ b) [] h k = absurd (ground arith)
same_case-same_case (x ∷ a) (y ∷ b) (z ∷ c) h k =
    ground (arith, same_case-same_case a b c (ground arith) (ground arith))

no_uid : same_case (codes "VERSION") (codes "UID") ≡ false
unfolding same_case to_lower
no_uid = refl

version_is_no_uid :
    (name : Bytes) → same_case name (codes "VERSION") ≡ true → same_case name (codes "UID") ≡ false
version_is_no_uid name h = elim (Bool-cases (same_case name (codes "UID"))) [
  | inr f ↦ f
  | inl t ↦
      absurd (ground (arith, same_case-same_case name (codes "VERSION") (codes "UID") h t, no_uid))
]

project-uid :
    (p : Property) (d : Document)
    → (project p d).uid
      ≡ (if is_named (codes "UID") p then set_projection d.uid p.decoded_value else d.uid)
unfolding project
project-uid p d = elim (Bool-cases (same_case p.name (codes "VERSION"))) [
  | inl t ↦ rw (t, version_is_no_uid p.name t) refl
  | inr f ↦ ground (arith, f)
]

project-properties : (p : Property) (d : Document) → (project p d).properties ≡ d.properties
unfolding project
project-properties p d = ground arith

-- The parameters of a content line, in their order and numbered.
pub data ParametersOf : ℕ → List (Option Bytes × Option Bytes) → List Parameter → Type 0 where
  no_parameters : {n : ℕ} → ParametersOf n [] []
  one_parameter :
      {n : ℕ} {p : Parameter} {pairs : List (Option Bytes × Option Bytes)} {ps : List Parameter}
      → p.position ≡ n
      → ParametersOf (suc n) pairs ps
      → ParametersOf n ((some p.name, some p.value) ∷ pairs) (p ∷ ps)

-- The property of the content line with number `n`.
pub record IsPropertyOf (n : ℕ) (c : Component) (p : Property) : Type 0 where
  pub group : p.group ≡ c.group
  pub named : c.name ≡ some p.name
  pub original : p.original_value ≡ bytes_of c.value
  pub decoded : p.decoded_value ≡ decode_value (bytes_of c.value)
  pub position : p.position ≡ n
  pub parameters : ParametersOf 0 c.parameters p.parameters

-- One property for each content line, in their order.
pub data PropertiesOf : ℕ → List Component → List Property → Type 0 where
  no_properties : {n : ℕ} → PropertiesOf n [] []
  one_property :
      {n : ℕ} {c : Component} {p : Property} {cs : List Component} {ps : List Property}
      → IsPropertyOf n c p
      → PropertiesOf (suc n) cs ps
      → PropertiesOf n (c ∷ cs) (p ∷ ps)

map_parameters-ParametersOf :
    (n : ℕ) (pairs : List (Option Bytes × Option Bytes)) {ps : List Parameter}
    → map_parameters n pairs ≡ some ps
    → ParametersOf n pairs ps
unfolding map_parameters
map_parameters-ParametersOf n [] h = subst (ParametersOf n []) (ground arith) no_parameters
map_parameters-ParametersOf n ((some name, some value) ∷ pairs) h =
    elim (Option-cases (map_parameters (suc n) pairs)) [
      | inl f ↦ absurd (ground (arith, f))
      | inr (rest, f) ↦
          let p : Parameter = record { name = name; value = value; position = n } in
          subst (ParametersOf n ((some name, some value) ∷ pairs)) (ground (arith, f))
            (one_parameter {p = p} refl (map_parameters-ParametersOf (suc n) pairs f))
    ]
map_parameters-ParametersOf n ((none, v) ∷ pairs) h = absurd (ground arith)
map_parameters-ParametersOf n ((some name, none) ∷ pairs) h = absurd (ground arith)

property_of-IsPropertyOf :
    (c : Component) (n : ℕ) {p : Property} → property_of c n ≡ ok p → IsPropertyOf n c p
unfolding property_of
property_of-IsPropertyOf c n {p} h = elim (Option-cases c.name) [
  | inl f ↦ absurd (ground (arith, f))
  | inr (name, f) ↦ elim (Option-cases (map_parameters 0 c.parameters)) [
    | inl g ↦ absurd (ground (arith, f, g))
    | inr (parameters, g) ↦
        let found : Property = record {
          group = c.group;
          name = name;
          decoded_value = decode_value (bytes_of c.value);
          original_value = bytes_of c.value;
          value_type = value_type_of parameters;
          position = n;
          parameters = parameters;
          parts = parse_parts name (bytes_of c.value);
        } in
        let same : found ≡ p = ground (arith, f, g) in
        subst (IsPropertyOf n c) same (record {
          group = refl;
          named = f;
          original = refl;
          decoded = refl;
          position = refl;
          parameters = map_parameters-ParametersOf 0 c.parameters g;
        })
  ]
]

-- What the properties behind those of `d` add to it.
record Adds (n : ℕ) (components : List Component) (d e : Document) : Type 0 where
  more : List Property
  added : e.properties ≡ d.properties ++ more
  mapped : PropertiesOf n components more
  uid :
      d.uid ≡ first_value (codes "UID") d.properties
      → e.uid ≡ first_value (codes "UID") e.properties

map_properties-Adds :
    (components : List Component) (n : ℕ) (d : Document) {e : Document}
    → map_properties components n d ≡ ok e
    → Adds n components d e
unfolding map_properties map_property
map_properties-Adds [] n d {e} k =
    let same : d ≡ e = ground arith in
    subst (Adds n [] d) same (record {
      more = [];
      added = sym (append-nil d.properties);
      mapped = no_properties;
      uid = λ h. h;
    })
map_properties-Adds (c ∷ components) n d {e} k = elim (Result-cases (property_of c n)) [
  | inr (code, m, f) ↦ absurd (ground (arith, f))
  | inl (p, f) ↦
      let next = project p (add_property d p) in
      let rest = map_properties-Adds components (suc n) next {e = e} (ground (arith, f)) in
      let grown : next.properties ≡ d.properties ++ p ∷ [] =
        project-properties p (add_property d p) in
      record {
        more = p ∷ rest.more;
        added =
            rest.added
            ∙ ap (λ l. l ++ rest.more) grown
            ∙ append_assoc d.properties (p ∷ []) rest.more;
        mapped = one_property (property_of-IsPropertyOf c n f) rest.mapped;
        uid = λ h. rest.uid (
            project-uid p (add_property d p)
            ∙ ap (λ u. if is_named (codes "UID") p then set_projection u p.decoded_value else u) h
            ∙ sym (first_value-append (codes "UID") d.properties p)
            ∙ ap (first_value (codes "UID")) (sym grown));
      }
]

-- A document that was parsed has one property for each content line of the card, in their order
-- and numbered, with the group, the name, the raw value, the decoded value and the numbered
-- parameters of that line; and its identifier is the decoded value of the first property that is
-- named UID in any case, or NULL if none is.
pub vcard_parse_uid :
    (parser : Parser) (bytes : Bytes) {d : Document}
    → vcard_parse parser (at bytes) ≡ ok d
    → (components : List Component) × (trailing : Bytes) × (parser (unfold_text bytes)
        ≡ some (components, trailing))
      × PropertiesOf 0 components d.properties
      × (d.uid ≡ first_value (codes "UID") d.properties)
unfolding vcard_parse
vcard_parse_uid parser bytes {d} h = elim (Option-cases (parser (unfold_text bytes))) [
  | inl n ↦ absurd (ground (arith, n))
  | inr ((components, trailing), f) ↦
      let mapped : map_properties components 0 empty_document ≡ ok d = ground (arith, f) in
      let p = map_properties-Adds components 0 empty_document {e = d} mapped in
      (
        components,
        trailing,
        f,
        subst (PropertiesOf 0 components) (sym p.added) p.mapped,
        p.uid (unfold first_value find in refl),
      )
]
