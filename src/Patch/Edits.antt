-- ===== src/Patch/Edits.antt =====
-- The edits of source/shared/RCResourcePatch.h and their checks in source/shared/RCResourcePatch.c.
use retro_cloud_sync.Prelude.{
  ℕ, zero, suc, ◌-◌, Bool, true, false, not, ◌&&◌, ◌||◌, Option, none, some, is_some, [], ◌∷◌, ◌++◌,
  ◌==◌, ltb, leb, length, any, contains, if◌then◌else◌, Bytes, codes, is_empty, same, ℤ, pos,
  negsuc, eq_ℤ, Result, err,
}

-- `RCResourceFormat`.
pub data Format : Type 0 where
  vcard calendar : Format

-- `RCResourceEdit`.
pub record Edit : Type 0 where
  pub component : ℕ
  pub property : Option Bytes
  pub group : Option Bytes
  pub occurrence : ℤ
  pub value : Option Bytes
  pub parameters : Option Bytes
  pub replacement_group : Option Bytes
  pub replacement_property : Option Bytes

-- The two ways to report an edit.
abbrev pub edit_invalid {ℓ} : {A : Type ℓ} → Result A
edit_invalid = err 1 "Resource patch edit %lu (component %lu, property %.64s, occurrence %d): %s"

abbrev pub patch_invalid {ℓ} : {A : Type ℓ} → Result A
patch_invalid = err 1 "Resource patch: %s"

abbrev pub is_letter : ℕ → Bool
is_letter c = (leb b'A' c && leb c b'Z') || (leb b'a' c && leb c b'z')

abbrev pub is_token_char : ℕ → Bool
is_token_char c = is_letter c || (leb b'0' c && leb c b'9') || c == b'-'

-- `token`.
unfoldable pub is_token_text : Option Bytes → Bool
is_token_text none = false
is_token_text (some s) = not (is_empty s) && not (any (λ c. not (is_token_char c)) s)

unfoldable pub upper : Bytes → Bytes
upper [] = []
upper (c ∷ text) = (if leb b'a' c && leb c b'z' then c - 32 else c) ∷ upper text

abbrev pub fields_of_component : Bytes → Bytes
fields_of_component component =
    if same component (codes "VCARD")
    then codes
        "|N|FN|NICKNAME|ORG|TITLE|BDAY|NOTE|PHOTO|TEL|EMAIL|ADR|URL|X-ABLABEL|X-ABADR|X-ABSHOWAS|X-PHONETIC-FIRST-NAME|X-PHONETIC-MIDDLE-NAME|X-PHONETIC-LAST-NAME|X-PHONETIC-ORG|X-ABDATE|X-ABRELATEDNAMES|IMPP|X-AIM|X-JABBER|X-MSN|X-YAHOO|X-ICQ|"
    else if same component (codes "VEVENT")
    then codes
        "|SUMMARY|DESCRIPTION|LOCATION|URL|DTSTART|DTEND|DURATION|STATUS|CLASS|PRIORITY|RRULE|EXDATE|ORGANIZER|ATTENDEE|"
    else if same component (codes "VALARM")
    then codes "|DESCRIPTION|SUMMARY|TRIGGER|REPEAT|DURATION|ACTION|ATTACH|"
    else []

-- `allowed`: `wanted` has room for 77 characters of the name.
unfoldable pub allowed : Bytes → Bytes → Bool
allowed component name =
    not (is_empty (fields_of_component component))
    && not (ltb 77 (length name))
    && contains (b'|' ∷ upper name ++ b'|' ∷ []) (fields_of_component component)

abbrev pub is_append : Edit → Bool
is_append edit = eq_ℤ edit.occurrence (negsuc 0)

abbrev pub is_below : ℤ → Bool
is_below (pos n) = false
is_below (negsuc zero) = false
is_below (negsuc (suc n)) = true

abbrev pub refused_token : Option Bytes → Bool
refused_token text = is_some text && not (is_token_text text)

abbrev pub is_parameter_char : ℕ → Bool
is_parameter_char c =
    is_letter c || (leb b'0' c && leb c b'9') || any (λ d. d == c) (codes "=,;-_./")

abbrev pub refused_parameters : Option Bytes → Bool
refused_parameters none = false
refused_parameters (some text) =
    (not (is_empty text) && not (any (λ c. c == b'=') text))
    || any (λ c. not (is_parameter_char c)) text

abbrev pub has_line_end : Option Bytes → Bool
has_line_end none = false
has_line_end (some text) = any (λ c. c == b'\r' || c == b'\n') text

abbrev pub is_vcard : Format → Bool
is_vcard vcard = true
is_vcard calendar = false

-- The checks of one edit.
unfoldable pub is_refused : Format → Edit → Bool
is_refused format edit =
    not (is_token_text edit.property)
    || refused_token edit.group
    || refused_token edit.replacement_property
    || (is_some edit.replacement_group
        && (not (is_vcard format) || not (is_token_text edit.replacement_group)))
    || is_below edit.occurrence
    || (is_append edit && (is_some edit.replacement_group || is_some edit.replacement_property))
    || (is_append edit && not (is_some edit.value))
    || has_line_end edit.value
    || refused_parameters edit.parameters
