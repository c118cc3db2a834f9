-- ===== src/Icalendar/Parsing.antt =====
-- `RCOmitEmptyOptionalProperties` and `RCICalendarParse` of source/shared/RCICalendar.c.
use retro_cloud_sync.Prelude.{
  length-take_le, ℕ, zero, suc, ◌-◌, ◌+◌, ◌*◌, ◌≤◌, ◌≡◌, Bool, true, false, not, ◌&&◌, ◌||◌, Option,
  none, some, [], ◌∷◌, ◌++◌, length, length-append, take, ltb, ◌==◌, if◌then◌else◌, Bytes, Buffer,
  null, at, codes, same_case, any, is_empty, Result, ok, err, arith, refl,
}
use retro_cloud_sync.Vcard.Text.{split_line, skip, is_fold}
use retro_cloud_sync.Icalendar.Framing.{framing}

-- A URL or CATEGORIES line with no value.
unfoldable pub is_empty_optional : Bytes → Bool
is_empty_optional line =
    same_case line (codes "URL:")
    || same_case line (codes "URL;VALUE=URI:")
    || same_case line (codes "CATEGORIES:")

abbrev pub goes_on : Bytes → Bool
goes_on [] = false
goes_on (c ∷ text) = is_fold c

-- The end of a line that stands in front of `rest`.
abbrev pub line_end : Bytes → Bytes → Bytes
line_end text rest = take (length text - length rest) text

-- The loop of `RCOmitEmptyOptionalProperties`; every turn takes at least one character.
unfoldable pub omit_lines : ℕ → Bytes → Bytes
omit_lines zero text = []
omit_lines (suc fuel) [] = []
omit_lines (suc fuel) (c ∷ text) =
    let split = split_line (c ∷ text) in
    let next = skip 10 (skip 13 split.1) in
    let rest = omit_lines fuel next in
    if is_empty_optional split.0 && not (goes_on next)
    then rest
    else split.0 ++ line_end split.1 next ++ rest

-- `RCOmitEmptyOptionalProperties`.
unfoldable pub omit_empty_optional_properties : Bytes → Bytes
omit_empty_optional_properties text = omit_lines (length text) text

-- libical: a parsed component, whether it is a VCALENDAR, and how many errors it counts.
pub record Library (Root : Type 0) : Type 0 where
  pub parse : Bytes → Option Root
  pub is_calendar : Root → Bool
  pub count_errors : Root → ℕ

abbrev pub longest_calendar : ℕ
longest_calendar = 32 * 1024 * 1024

abbrev invalid_framing {ℓ} : {A : Type ℓ} → Result A
invalid_framing = err 1 "Invalid or incomplete iCalendar component framing"

abbrev invalid_values {ℓ} : {A : Type ℓ} → Result A
invalid_values = err 1 "iCalendar contains invalid properties or values"

-- `RCICalendarParse`.
unfoldable pub icalendar_parse : {Root : Type 0} → Library Root → Buffer → Result Root
icalendar_parse library (null n) = invalid_framing
icalendar_parse library (at bytes) =
    if is_empty bytes
      || ltb longest_calendar (length bytes)
      || any (λ c. c == 0) bytes
      || not (framing bytes)
    then invalid_framing
    else elim (library.parse (omit_empty_optional_properties bytes)) [
      | none ↦ invalid_values
      | some root ↦
          if not (library.is_calendar root) || not (library.count_errors root == 0)
          then invalid_values
          else ok root
    ]

length-split_line :
    (text : Bytes) → length (split_line text).0 + length (split_line text).1 ≡ length text
unfolding split_line
length-split_line [] = refl
length-split_line (c ∷ text) = ground (arith, length-split_line text)

length-skip_le : (c : ℕ) (text : Bytes) → length (skip c text) ≤ length text
length-skip_le c [] = omega arith
length-skip_le c (d ∷ text) = ground arith

turn_bounded :
    (omitted : Bool) (line tail next rest : Bytes)
    → length next ≤ length tail
    → length rest ≤ length next
    → length (if omitted then rest else line ++ line_end tail next ++ rest)
      ≤ length line + length tail
turn_bounded true line tail next rest h k = ground (arith, h, k)
turn_bounded false line tail next rest h k = ground (
  arith,
  h,
  k,
  length-append (line ++ line_end tail next) rest,
  length-append line (line_end tail next),
  length-take_le (length tail - length next) tail,
)

omit_lines_bounded : (fuel : ℕ) (text : Bytes) → length (omit_lines fuel text) ≤ length text
unfolding omit_lines
omit_lines_bounded zero text = omega arith
omit_lines_bounded (suc fuel) [] = omega arith
omit_lines_bounded (suc fuel) (c ∷ text) =
    let split = split_line (c ∷ text) in
    let next = skip 10 (skip 13 split.1) in
    let shorter : length next ≤ length split.1 =
      omega (arith, length-skip_le 13 split.1, length-skip_le 10 (skip 13 split.1)) in
    omega (
      arith,
      length-split_line (c ∷ text),
      turn_bounded (is_empty_optional split.0 && not (goes_on next)) split.0 split.1 next
          (omit_lines fuel next) shorter (omit_lines_bounded fuel next),
    )

-- What is left of a text is not longer than the text, so it fits where the text stands.
pub omit_empty_optional_properties_bounded :
    (text : Bytes) → length (omit_empty_optional_properties text) ≤ length text
unfolding omit_empty_optional_properties
omit_empty_optional_properties_bounded text = omit_lines_bounded (length text) text
