-- ===== src/Vcard/Document.antt =====
-- Mapping of a parsed card to a document: `RCParseParts`, `RCMapProperty` and `RCVCardParse` of
-- source/shared/RCVCard.c. Memory, streams and the mutex do not fail.
use retro_cloud_sync.Prelude.{
  ℕ, suc, ◌-◌, Bool, false, not, ◌||◌, Option, none, some, List, [], ◌∷◌, ◌++◌, length, ltb, ◌==◌,
  if◌then◌else◌, Bytes, Buffer, null, at, codes, same_case, any, is_empty, int_max, bytes_of,
  Result, ok, err,
}
use retro_cloud_sync.Vcard.Text.{decode_value, unfold_text, split_parts}

-- A content line as libvc hands it out: its group, name and value, and its parameters.
pub record Component : Type 0 where
  pub group : Option Bytes
  pub name : Option Bytes
  pub value : Option Bytes
  pub parameters : List (Option Bytes × Option Bytes)

-- `parse_vcard_file`: the content lines of the first card, and the text behind it.
abbrev pub Parser : Type 0
Parser = Bytes → Option (List Component × Bytes)

-- `RCVCardParameter`.
pub record Parameter : Type 0 where
  pub name : Bytes
  pub value : Bytes
  pub position : ℕ

-- `RCVCardValuePart`.
pub record ValuePart : Type 0 where
  pub value : Bytes
  pub component : ℕ
  pub position : ℕ

-- `RCVCardProperty`.
pub record Property : Type 0 where
  pub group : Option Bytes
  pub name : Bytes
  pub decoded_value : Bytes
  pub original_value : Bytes
  pub value_type : Option Bytes
  pub position : ℕ
  pub parameters : List Parameter
  pub parts : List ValuePart

-- `RCVCardDocument`.
pub record Document : Type 0 where
  pub version : Option Bytes
  pub uid : Option Bytes
  pub formatted_name : Option Bytes
  pub given_name : Option Bytes
  pub family_name : Option Bytes
  pub organization : Option Bytes
  pub title : Option Bytes
  pub birthday : Option Bytes
  pub properties : List Property

-- `RCAddParameter` for every parameter, numbered from `position`; one without a name or a value is
-- an error.
unfoldable pub map_parameters : ℕ → List (Option Bytes × Option Bytes) → Option (List Parameter)
map_parameters position [] = some []
map_parameters position ((some name, some value) ∷ parameters) =
    elim (map_parameters (suc position) parameters) [
      | none ↦ none
      | some rest ↦ some ((record { name = name; value = value; position = position }) ∷ rest)
    ]
map_parameters position (_ ∷ parameters) = none

-- `valueType`: the first VALUE parameter.
unfoldable pub value_type_of : List Parameter → Option Bytes
value_type_of [] = none
value_type_of (p ∷ parameters) =
    if same_case p.name (codes "VALUE") then some p.value else value_type_of parameters

-- `RCAddPart` for every part, numbered from `component`.
unfoldable pub number_parts : ℕ → List Bytes → List ValuePart
number_parts component [] = []
number_parts component (part ∷ parts) =
    (record { value = decode_value part; component = component; position = 0 })
    ∷ number_parts (suc component) parts

-- `RCParseParts`: only N, ADR and ORG have parts.
unfoldable pub parse_parts : Bytes → Bytes → List ValuePart
parse_parts name value =
    if not
      (same_case name (codes "N") || same_case name (codes "ADR") || same_case name (codes "ORG"))
    then []
    else number_parts 0 (split_parts false value)

-- `RCSetProjection`: the first value stays.
abbrev pub set_projection : Option Bytes → Bytes → Option Bytes
set_projection none value = some value
set_projection (some first) value = some first

abbrev pub set_part : Option Bytes → List ValuePart → Option Bytes
set_part field [] = field
set_part field (part ∷ parts) = set_projection field part.value

abbrev pub later_parts : List ValuePart → List ValuePart
later_parts [] = []
later_parts (part ∷ parts) = parts

-- The projection of one property.
unfoldable pub project : Property → Document → Document
project p d =
    if same_case p.name (codes "VERSION")
    then record d { version = set_projection d.version p.decoded_value }
    else if same_case p.name (codes "UID")
    then record d { uid = set_projection d.uid p.decoded_value }
    else if same_case p.name (codes "FN")
    then record d { formatted_name = set_projection d.formatted_name p.decoded_value }
    else if same_case p.name (codes "N")
    then record d {
      family_name = set_part d.family_name p.parts;
      given_name = set_part d.given_name (later_parts p.parts);
    }
    else if same_case p.name (codes "ORG")
    then record d {
      organization =
          if is_empty p.parts
          then set_projection d.organization p.decoded_value
          else set_part d.organization p.parts;
    }
    else if same_case p.name (codes "TITLE")
    then record d { title = set_projection d.title p.decoded_value }
    else if same_case p.name (codes "BDAY")
    then record d { birthday = set_projection d.birthday p.decoded_value }
    else d

-- The property of a content line.
unfoldable pub property_of : Component → ℕ → Result Property
property_of c position = elim c.name [
  | none ↦ err 1 "Out of memory mapping libvc property"
  | some name ↦ elim (map_parameters 0 c.parameters) [
    | none ↦ err 1 "Unable to map libvc parameter"
    | some parameters ↦ ok (record {
      group = c.group;
      name = name;
      decoded_value = decode_value (bytes_of c.value);
      original_value = bytes_of c.value;
      value_type = value_type_of parameters;
      position = position;
      parameters = parameters;
      parts = parse_parts name (bytes_of c.value);
    })
  ]
]

abbrev pub add_property : Document → Property → Document
add_property d p = record d { properties = d.properties ++ p ∷ [] }

-- `RCMapProperty`. What it leaves after an error is cleared by its caller.
unfoldable pub map_property : Component → ℕ → Document → Result Document
map_property c position d = elim (property_of c position) [
  | err code m ↦ err code m
  | ok p ↦ ok (project p (add_property d p))
]

unfoldable pub map_properties : List Component → ℕ → Document → Result Document
map_properties [] position d = ok d
map_properties (c ∷ components) position d = elim (map_property c position d) [
  | err code m ↦ err code m
  | ok e ↦ map_properties components (suc position) e
]

-- `RCVCardDocumentInit`.
abbrev pub empty_document : Document
empty_document = record {
  version = none;
  uid = none;
  formatted_name = none;
  given_name = none;
  family_name = none;
  organization = none;
  title = none;
  birthday = none;
  properties = [];
}

abbrev pub is_trailing : ℕ → Bool
is_trailing c = c == 13 || c == 10 || c == b' ' || c == 9

abbrev pub incomplete : Result Document
incomplete = err 1 "Response is not a complete vCard"

-- `RCVCardParse`: exactly one card, with white space behind it at most.
unfoldable pub vcard_parse : Parser → Buffer → Result Document
vcard_parse parser (null n) = incomplete
vcard_parse parser (at bytes) =
    if is_empty bytes || ltb (int_max - 2) (length bytes) || any (λ c. c == 0) bytes
    then incomplete
    else elim (parser (unfold_text bytes)) [
      | none ↦ incomplete
      | some (components, trailing) ↦
          if any (λ c. not (is_trailing c)) trailing
          then incomplete
          else map_properties components 0 empty_document
    ]
