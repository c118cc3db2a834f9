-- ===== src/Patch/Scanning.antt =====
-- The loop of `RCResourcePatch` over the lines of the base (source/shared/RCResourcePatch.c). A logical
-- line is not longer than the base, so `add` does not refuse it.
use retro_cloud_sync.Prelude.{
  ℕ, zero, suc, ◌+◌, ◌-◌, Bool, true, not, ◌&&◌, ◌||◌, Option, none, some, is_some, List, [], ◌∷◌,
  ◌++◌, ◌==◌, leb, length, if◌then◌else◌, Bytes, bytes_of, codes, is_empty, same_case,
  starts_with_case, pos, eq_ℤ, Result, ok, err, ◌>>=◌,
}
use retro_cloud_sync.Patch.Folding.{add_all, colon, logical_line, fold_line}
use retro_cloud_sync.Patch.Edits.{
  Format, Edit, edit_invalid, patch_invalid, allowed, is_append, is_vcard, upper,
}

-- `Patch`: the range of the base that is replaced, and what replaces it.
pub record Patch : Type 0 where
  pub start : ℕ
  pub until : ℕ
  pub replacement : Bytes
  pub found : Bool
  pub seen : ℕ

-- An edit and its patch, `edits[i]` and `patches[i]`.
pub record Target : Type 0 where
  pub edit : Edit
  pub patch : Patch

-- The open components, the innermost first, each with its number and its kind in upper case.
pub record Scan : Type 0 where
  pub stack : List (ℕ × Bytes)
  pub components : ℕ
  pub closed : Bool
  pub targets : List Target

abbrev pub out_of_memory {ℓ} : {A : Type ℓ} → Result A
out_of_memory = err 1 "Out of memory applying resource edits"

-- The loop over the edits: the first one that is refused ends it.
unfoldable pub each_target : (Target → Result Target) → List Target → Result (List Target)
each_target f [] = ok []
each_target f (target ∷ targets) =
    f target >>= λ target'. each_target f targets >>= λ targets'. ok (target' ∷ targets')

unfoldable pub outer_kind : Format → Bytes
outer_kind format = if is_vcard format then codes "VCARD" else codes "VCALENDAR"

-- A BEGIN line with what stands behind its separator.
unfoldable pub begin_component : Format → Bytes → Scan → Result Scan
begin_component format kind s =
    if s.closed || length s.stack == 64 || leb 32 (length kind)
    then patch_invalid
    else if is_empty s.stack && not (same_case kind (outer_kind format))
    then patch_invalid
    else if is_vcard format && not (is_empty s.stack)
    then patch_invalid
    else ok
        (record s { stack = (s.components, upper kind) ∷ s.stack; components = s.components + 1 })

-- The part of a line in front of the separator, and the parameters that are put there.
abbrev pub group_parts : Option Bytes → List Bytes
group_parts none = []
group_parts (some group) = group ∷ codes "." ∷ []

abbrev pub parameter_parts : Bytes → Option Bytes → List Bytes
parameter_parts kept none = kept ∷ []
parameter_parts kept (some parameters) =
    if is_empty parameters then [] else codes ";" ∷ parameters ∷ []

unfoldable pub prefix_of : Option Bytes → Option Bytes → List Bytes → Option Bytes
prefix_of group property parts =
    add_all [] (group_parts group ++ bytes_of property ∷ parts ++ codes ":" ∷ [])

-- `replacement` behind `folded`, for a prefix that may be refused by `add`.
unfoldable pub folded_with : Option Bytes → Edit → Patch → Result Bytes
folded_with none edit patch = out_of_memory
folded_with (some prefix) edit patch =
    elim (fold_line patch.replacement prefix (bytes_of edit.value)) [
      | none ↦ out_of_memory
      | some replacement ↦ ok replacement
    ]

-- An END line: an edit that appends to this component.
unfoldable pub append_at : ℕ → ℕ × Bytes → Target → Result Target
append_at start top target =
    let edit = target.edit in
    if not (edit.component == top.0 && is_append edit)
    then ok target
    else if not (allowed top.1 (bytes_of edit.property))
    then edit_invalid
    else folded_with (prefix_of edit.group edit.property (parameter_parts [] edit.parameters)) edit
        target.patch
      >>= λ replacement. ok (record target {
        patch = record (target.patch) {
          start = start;
          until = start;
          replacement = replacement;
          found = true;
        };
      })

unfoldable pub end_component : ℕ → Bytes → ℕ × Bytes → List (ℕ × Bytes) → Scan → Result Scan
end_component start kind top below s =
    if not (same_case kind top.1)
    then patch_invalid
    else each_target (append_at start top) s.targets >>= λ targets.
        ok (record s { stack = below; closed = is_empty below || s.closed; targets = targets })

-- What stands before a character, and from it on.
unfoldable pub before_char : ℕ → Bytes → Bytes × Bytes
before_char d [] = ([], [])
before_char d (c ∷ text) =
    let rest = before_char d text in if c == d then ([], c ∷ text) else (c ∷ rest.0, rest.1)

-- The group and the name of a property, and its parameters.
pub record Label : Type 0 where
  pub group : Bytes
  pub name : Bytes
  pub parameters : Bytes

unfoldable pub label_of : Bytes → Label
label_of text =
    let named = before_char b';' text in
    let dotted = before_char b'.' named.0 in
    elim dotted.1 [
      | [] ↦ record { group = []; name = named.0; parameters = named.1 }
      | dot ∷ name ↦ record { group = dotted.0; name = name; parameters = named.1 }
    ]

unfoldable pub addresses : ℕ → Label → Edit → Bool
addresses component label edit =
    edit.component == component
    && not (is_append edit)
    && same_case (bytes_of edit.property) label.name
    && same_case (bytes_of edit.group) label.group

abbrev pub or_else : Option Bytes → Option Bytes → Option Bytes
or_else none text = text
or_else (some text) _ = some text

-- The new text of a property: none for an edit that removes it.
unfoldable pub replacement_of : Bytes → Label → Target → Result Bytes
replacement_of text label target =
    let edit = target.edit in
    if not (is_some edit.value)
    then ok target.patch.replacement
    else if is_some edit.parameters
        || is_some edit.replacement_group
        || is_some edit.replacement_property
    then folded_with
        (prefix_of (or_else edit.replacement_group edit.group)
          (or_else edit.replacement_property edit.property)
          (parameter_parts label.parameters edit.parameters))
        edit target.patch
    else folded_with (some (text ++ codes ":")) edit target.patch

-- A line of a property, between `start` and `until`: `text` stands before its separator.
unfoldable pub edit_property : ℕ → ℕ → ℕ × Bytes → Bytes → Target → Result Target
edit_property start until top text target =
    let edit = target.edit in
    let label = label_of text in
    let counted = record (target.patch) { seen = target.patch.seen + 1 } in
    if not (addresses top.0 label edit)
    then ok target
    else if not (eq_ℤ (pos target.patch.seen) edit.occurrence)
    then ok (record target { patch = counted })
    else if not (allowed top.1 (bytes_of edit.property))
        || (is_some edit.replacement_property
            && not (allowed top.1 (bytes_of edit.replacement_property)))
    then edit_invalid
    else replacement_of text label target >>= λ replacement. ok (record target {
      patch = record counted {
        start = start;
        until = until;
        replacement = replacement;
        found = true;
      };
    })

-- A line in the component on top: its end, or a property.
unfoldable pub line_in :
    ℕ → ℕ → Bytes → Bytes × Bytes → ℕ × Bytes → List (ℕ × Bytes) → Scan → Result Scan
line_in start until line parts top below s =
    if starts_with_case line (codes "END:")
    then end_component start parts.1 top below s
    else each_target (edit_property start until top parts.0) s.targets >>= λ targets.
        ok (record s { targets = targets })

-- A line inside the innermost component, if one is open.
unfoldable pub inner_line : ℕ → ℕ → Bytes → Bytes × Bytes → Scan → List (ℕ × Bytes) → Result Scan
inner_line start until line parts s [] = patch_invalid
inner_line start until line parts s (top ∷ below) = line_in start until line parts top below s

-- One logical line; an empty one is passed over.
unfoldable pub scan_line : Format → ℕ → ℕ → Bytes → Scan → Result Scan
scan_line format start until line s = if is_empty line then ok s else elim (colon line) [
  | none ↦ patch_invalid
  | some parts ↦
      if starts_with_case line (codes "BEGIN:")
      then begin_component format parts.1 s
      else inner_line start until line parts s s.stack
]

-- The loop; `total` is the length of the base, and every turn takes a character of it.
unfoldable pub scan_lines : ℕ → Format → ℕ → Bytes → Scan → Result Scan
scan_lines zero format total text s = ok s
scan_lines (suc fuel) format total [] s = ok s
scan_lines (suc fuel) format total (c ∷ text) s =
    let (line, rest) = logical_line (length (c ∷ text)) (c ∷ text) in
    scan_line format (total - length (c ∷ text)) (total - length rest) line s >>= λ s'.
    scan_lines fuel format total rest s'
