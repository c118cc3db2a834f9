-- ===== src/Policy/Fields.antt =====
-- The field rules of source/shared/RCSyncPolicy.c: which fields are written, in which groups, with
-- which defaults, and which ones a comparison leaves out.
use retro_cloud_sync.Prelude.{
  ℕ, Bool, true, not, ◌&&◌, ◌||◌, Option, none, some, List, [], ◌∷◌, get_elem?, if◌then◌else◌,
  Bytes, codes, find,
}
use retro_cloud_sync.Policy.Lists.{is, field_list_contains}

-- The rows of the table in `RCWritableFieldNames`.
unfoldable pub entries : List (Bytes × Bytes)
entries =
    (
      codes "com.apple.contacts.Contact",
      codes
          "first name|last name|middle name|title|suffix|nickname|company name|department|job title|birthday|notes|image|first name yomi|middle name yomi|last name yomi|company name yomi|dates|related names|IMs|primary phone number|primary email address|primary street address|primary URL|display as company|phone numbers|email addresses|street addresses|URLs",
    )
    ∷ (
      codes "com.apple.contacts.Street Address",
      codes "contact|street|city|state|postal code|country|country code|type|label",
    )
    ∷ (codes "com.apple.contacts.Phone Number", codes "contact|value|type|label")
    ∷ (codes "com.apple.contacts.Email Address", codes "contact|value|type|label")
    ∷ (codes "com.apple.contacts.URL", codes "contact|value|type|label")
    ∷ (codes "com.apple.contacts.Date", codes "contact|value|type|label")
    ∷ (codes "com.apple.contacts.Related Name", codes "contact|value|type|label")
    ∷ (codes "com.apple.contacts.IM", codes "contact|user|service|type|label")
    ∷ (
      codes "com.apple.calendars.Event",
      codes
          "summary|description|location|url|status|classification|calendar|main event|original date|start date|end date|all day|exception dates|detached events|recurrences|attendees|organizer|display alarms|audio alarms",
    )
    ∷ (
      codes "com.apple.calendars.Recurrence",
      codes
          "owner|frequency|interval|count|until|bymonth|bymonthday|byyearday|byweeknumber|bysetpos|bydaydays|bydayfreq|weekstartday",
    )
    ∷ (
      codes "com.apple.calendars.Attendee",
      codes "owner|email|common name|role|status|user type|rsvp",
    )
    ∷ (
      codes "com.apple.calendars.Organizer",
      codes "owner|email|common name|role|status|user type|rsvp",
    )
    ∷ (
      codes "com.apple.calendars.AudioAlarm",
      codes
          "owner|description|triggerdate|triggerduration|repeat count|repeat interval|sound|com.apple.ical.sound",
    )
    ∷ (
      codes "com.apple.calendars.DisplayAlarm",
      codes
          "owner|description|triggerdate|triggerduration|repeat count|repeat interval|sound|com.apple.ical.sound",
    )
    ∷ []

abbrev pub fields_or_null : Option (Bytes × Bytes) → Option Bytes
fields_or_null none = none
fields_or_null (some entry) = some entry.1

-- `RCWritableFieldNames`.
unfoldable pub writable_field_names : Option Bytes → Option Bytes
writable_field_names entity = fields_or_null (find (λ e. is entity (some e.0)) entries)

abbrev pub named : Option Bytes → Bytes → Bool
named entity name = is entity (some name)

-- The arrays `groups` of `RCIndependentFieldGroup`.
unfoldable pub groups_of : Option Bytes → List Bytes
groups_of entity =
    if named entity (codes "com.apple.contacts.Contact")
    then codes "first name|last name|middle name|title|suffix"
      ∷ codes "company name|department"
      ∷ codes "first name yomi"
      ∷ codes "middle name yomi"
      ∷ codes "last name yomi"
      ∷ codes "company name yomi"
      ∷ codes "notes"
      ∷ codes "image"
      ∷ codes "job title"
      ∷ codes "nickname"
      ∷ codes "birthday"
      ∷ codes "display as company"
      ∷ []
    else if named entity (codes "com.apple.contacts.Street Address")
    then codes "street|city|state|postal code|country" ∷ []
    else if named entity (codes "com.apple.contacts.Phone Number")
        || named entity (codes "com.apple.contacts.Email Address")
        || named entity (codes "com.apple.contacts.URL")
    then codes "value" ∷ []
    else if named entity (codes "com.apple.calendars.Event")
    then codes "summary"
      ∷ codes "description"
      ∷ codes "location"
      ∷ codes "url"
      ∷ codes "status"
      ∷ codes "classification"
      ∷ []
    else if named entity (codes "com.apple.calendars.AudioAlarm")
    then codes "sound|com.apple.ical.sound" ∷ []
    else []

-- `RCIndependentFieldGroup`.
unfoldable pub independent_field_group : Option Bytes → ℕ → Option Bytes
independent_field_group entity index = get_elem? (groups_of entity) index

-- `RCContactTypeSupported`.
unfoldable pub contact_type_supported : Option Bytes → Option Bytes → Bool
contact_type_supported entity type =
    if field_list_contains (some (codes "home|work|other")) type
    then true
    else if named entity (codes "com.apple.contacts.Phone Number")
    then field_list_contains (some (codes "mobile|pager|home fax|work fax")) type
    else if named entity (codes "com.apple.contacts.URL")
    then named type (codes "home page")
    else if named entity (codes "com.apple.contacts.Date")
    then named type (codes "anniversary")
    else named entity (codes "com.apple.contacts.Related Name")
      && field_list_contains
          (some (
            codes
              "father|mother|parent|child|brother|sister|friend|spouse|partner|assistant|manager"))
          type

-- `RCFollowChildRelationship`.
unfoldable pub follow_child_relationship : Option Bytes → Option Bytes → Bool
follow_child_relationship field entity =
    not (field_list_contains (some (codes "contact|owner|calendar|main event|parent groups")) field)
    && not (named entity (codes "com.apple.calendars.Calendar"))
    && not (named entity (codes "com.apple.contacts.Contact"))

-- `RCUnorderedField`.
unfoldable pub unordered_field : Option Bytes → Bool
unordered_field field =
    field_list_contains
      (some (
        codes
          "phone numbers|email addresses|street addresses|URLs|events|tasks|detached events|exception dates|attendees|organizer|recurrences|display alarms|audio alarms|mail alarms"))
      field

abbrev pub native_fields : Bytes
native_fields =
    codes
      "com.apple.ical.uid|com.apple.ical.sequence|com.apple.ical.creationdate|com.apple.ical.datestamp|invitationId|invitationSequence|invitationTimestamp"

-- `RCIgnoredNativeField`.
unfoldable pub ignored_native_field : Option Bytes → Option Bytes → Bool
ignored_native_field entity field =
    named entity (codes "com.apple.calendars.Event")
    && field_list_contains (some native_fields) field

-- `RCFieldDefault`: a text, a number (where the text is NULL), or nothing.
pub data FieldDefault : Type 0 where
  text : Bytes → FieldDefault
  number : ℕ → FieldDefault
  missing : FieldDefault

abbrev pub typed_entities : Bytes
typed_entities =
    codes
      "com.apple.contacts.Phone Number|com.apple.contacts.Email Address|com.apple.contacts.Street Address|com.apple.contacts.URL|com.apple.contacts.Date|com.apple.contacts.Related Name|com.apple.contacts.IM"

-- `RCSyncFieldDefault`.
unfoldable pub sync_field_default : Option Bytes → Option Bytes → FieldDefault
sync_field_default entity field =
    if named entity (codes "com.apple.calendars.Event")
    then (if named field (codes "summary")
        then text (codes "Untitled event")
        else if named field (codes "all day")
        then number 0
        else if named field (codes "status")
        then text (codes "none")
        else if named field (codes "classification")
        then text (codes "public")
        else missing)
    else if named entity (codes "com.apple.calendars.Recurrence")
    then (if named field (codes "interval")
        then number 1
        else if named field (codes "count")
        then number 0
        else if named field (codes "weekstartday")
        then text (codes "monday")
        else missing)
    else if named entity (codes "com.apple.calendars.Attendee")
    then (if named field (codes "rsvp")
        then number 0
        else if named field (codes "role")
        then text (codes "requiredparticipant")
        else if named field (codes "status")
        then text (codes "needsaction")
        else if named field (codes "user type")
        then text (codes "individual")
        else missing)
    else if named entity (codes "com.apple.contacts.Contact")
        && named field (codes "display as company")
    then text (codes "person")
    else if field_list_contains (some typed_entities) entity && named field (codes "type")
    then text (codes "other")
    else missing
