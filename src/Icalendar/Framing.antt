-- ===== src/Icalendar/Framing.antt =====
-- `RCFraming` of source/shared/RCICalendar.c.
use retro_cloud_sync.Prelude.{
  ℕ, suc, Bool, false, not, ◌&&◌, ◌||◌, Option, none, some, List, [], ◌∷◌, length, drop, ltb, leb,
  ◌==◌, if◌then◌else◌, Bytes, codes, same_case, starts_with_case, is_empty,
}
use retro_cloud_sync.Vcard.Text.{in_front, is_fold}

-- The lines, without their line feeds; there is none behind the last line feed.
unfoldable pub lines_of : Bytes → List Bytes
lines_of [] = []
lines_of (c ∷ text) = if c == 10 then [] ∷ lines_of text else in_front c (lines_of text)

-- A line without a carriage return at its end.
unfoldable pub drop_return : Bytes → Bytes
drop_return [] = []
drop_return (c ∷ line) = if c == 13 && is_empty line then [] else c ∷ drop_return line

-- The names of the open components, the innermost first, and the number of outermost ones.
pub record Framing : Type 0 where
  pub stack : List Bytes
  pub roots : ℕ

-- A BEGIN line with this name. The outermost component is VCALENDAR, and there is one.
unfoldable pub open_component : Bytes → Framing → Option Framing
open_component name f =
    if length f.stack == 32 || leb 64 (length name)
    then none
    else if length f.stack == 0 && (not (f.roots == 0) || not (same_case name (codes "VCALENDAR")))
    then none
    else some (record {
      stack = name ∷ f.stack;
      roots = if is_empty f.stack then suc f.roots else f.roots;
    })

-- An END line with this name.
unfoldable pub close_component : Bytes → Framing → Option Framing
close_component name f = elim f.stack [
  | [] ↦ none
  | innermost ∷ stack ↦ if same_case innermost name then some (record f { stack = stack }) else none
]

-- A line inside a component.
abbrev pub inside : Framing → Option Framing
inside f = if is_empty f.stack then none else some f

-- One turn of the loop; `none` is `return 0`.
unfoldable pub frame_line : Bytes → Framing → Option Framing
frame_line [] f = some f
frame_line (c ∷ line) f =
    if is_fold c
    then inside f
    else if ltb 6 (length (c ∷ line)) && starts_with_case (c ∷ line) (codes "BEGIN:")
    then open_component (drop 6 (c ∷ line)) f
    else if ltb 4 (length (c ∷ line)) && starts_with_case (c ∷ line) (codes "END:")
    then close_component (drop 4 (c ∷ line)) f
    else inside f

unfoldable pub frame_lines : List Bytes → Framing → Option Framing
frame_lines [] f = some f
frame_lines (line ∷ lines) f = elim (frame_line (drop_return line) f) [
  | none ↦ none
  | some g ↦ frame_lines lines g
]

abbrev pub unframed : Framing
unframed = record { stack = []; roots = 0 }

-- `roots == 1 && depth == 0`.
abbrev pub is_complete : Option Framing → Bool
is_complete none = false
is_complete (some f) = f.roots == 1 && is_empty f.stack

-- The result for a text of these lines.
unfoldable pub accepts : List Bytes → Bool
accepts lines = is_complete (frame_lines lines unframed)

-- `RCFraming`.
unfoldable pub framing : Bytes → Bool
framing text = accepts (lines_of text)
