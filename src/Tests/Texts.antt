-- ===== src/Tests/Texts.antt =====
-- The theorems on vCards, calendars and the follow-up delay at small texts.
use retro_cloud_sync.Prelude.{
  pos, arith, negsuc, ◌<◌, ◌≡◌, refl, ◌⊎◌, true, false, none, some, List, [], ◌∷◌, length, Bytes,
  codes, All, is_empty, starts_with_case, same_case, to_lower, any,
}
use retro_cloud_sync.Vcard.Text.{decode_value, decode_from, unfold_text}
use retro_cloud_sync.Vcard.Document.{
  Component, Parser, Document, empty_document, vcard_parse, map_properties, map_property,
  property_of, map_parameters, project, value_type_of, parse_parts,
}
use retro_cloud_sync.Vcard.Escapes.{
  escaped, folded_text, plain_text, decode_value-escaped, unfold_text-folded_text,
}
use retro_cloud_sync.Vcard.Streams.{
  Output, append_bytes, append_bytes_lem, Input, StreamAccess, reading, seeking, from_end,
  from_position,
}
use retro_cloud_sync.Vcard.Projected.{PropertiesOf, first_value, vcard_parse_uid}
use retro_cloud_sync.Icalendar.Framing.{
  accepts, drop_return, frame_lines, frame_line, open_component, close_component,
}
use retro_cloud_sync.Icalendar.Truncated.{accepts_truncated}
use retro_cloud_sync.Followup.{sync_followup_delay, sync_followup_delay-sync_followup_delay}

decode_value-escaped_example : decode_value (escaped (codes "a,b;c\\d")) ≡ codes "a,b;c\\d"
decode_value-escaped_example = decode_value-escaped (codes "a,b;c\\d")

abbrev lines : List (List Bytes)
lines = (codes "BEGIN:VCARD" ∷ []) ∷ (codes "FN:Ad" ∷ codes "a Lovelace" ∷ []) ∷ []

unfold_text-folded_text_example : unfold_text (folded_text lines) ≡ plain_text lines
unfolding any
unfold_text-folded_text_example =
    unfold_text-folded_text lines ((refl, (refl, tt)), ((refl, (refl, (refl, tt))), tt))

-- A parser that finds one UID in every text.
abbrev parser : Parser
parser text = some (
  (record {
    group = none;
    name = some (codes "uid");
    value = some (codes "a\\,b");
    parameters = [];
  })
      ∷ [],
  [],
)

abbrev card : Bytes
card = codes "UID:a"

abbrev document : Document
document = record empty_document {
  uid = some (codes "a,b");
  properties =
      (record {
        group = none;
        name = codes "uid";
        decoded_value = codes "a,b";
        original_value = codes "a\\,b";
        value_type = none;
        position = 0;
        parameters = [];
        parts = [];
      })
      ∷ [];
}

vcard_parse_uid_example :
    (components : List Component) × (trailing : Bytes) × (parser (unfold_text card)
      ≡ some (components, trailing))
    × PropertiesOf 0 components document.properties
    × (document.uid ≡ first_value (codes "UID") document.properties)
unfolding vcard_parse any map_properties map_property property_of map_parameters project same_case
    to_lower decode_value value_type_of parse_parts decode_from
vcard_parse_uid_example = vcard_parse_uid parser card {d = document} refl

abbrev calendar : List Bytes
calendar =
    codes "BEGIN:VCALENDAR"
    ∷ codes "BEGIN:VEVENT"
    ∷ codes "SUMMARY:x"
    ∷ codes "END:VEVENT"
    ∷ codes "END:vcalendar"
    ∷ []

accepts_truncated_example : All (λ line. is_empty (drop_return line) ≡ true) ([] ∷ [])
unfolding accepts frame_lines frame_line drop_return starts_with_case to_lower open_component
    same_case close_component
accepts_truncated_example = accepts_truncated calendar ([] ∷ []) refl refl

abbrev event : Bytes
event = codes "SUMMARY:x\nURL:\nEND:VEVENT\n"

sync_followup_delay-sync_followup_delay_example :
    let one = sync_followup_delay true false 300 in
    let two = sync_followup_delay true one.0 300 in (one.1 ≡ 300) ⊎ (two.1 ≡ 300)
sync_followup_delay-sync_followup_delay_example =
    sync_followup_delay-sync_followup_delay true true false 300

append_bytes_lem_example :
    (o' : Output) × (append_bytes card (record { written = []; capacity = 0 }) ≡ some o')
    × (o'.written ≡ card)
    × (length o'.written < o'.capacity)
append_bytes_lem_example =
    append_bytes_lem card (record { written = []; capacity = 0 }) (omega arith)

abbrev input : Input
input = record { bytes = codes "BEGIN:VCARD"; position = 6 }

abbrev moves : List StreamAccess
moves = seeking (negsuc 2) from_end ∷ reading (pos 100) ∷ seeking (negsuc 20) from_position ∷ []
