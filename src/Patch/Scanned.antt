-- ===== src/Patch/Scanned.antt =====
-- Source: source/shared/RCResourcePatch.c. What the loop over the lines keeps of the edits and their
-- patches.
use retro_cloud_sync.Prelude.{
  ℕ, zero, suc, ◌-◌, ◌≤◌, ◌≡◌, refl, ap, sym, subst, ◌∙◌, inl, inr, true, false, not, ◌&&◌, ◌||◌,
  Option, none, some, is_some, Option-cases, List, [], ◌∷◌, ◌==◌, leb, length, if◌then◌else◌, if_ok,
  bind_ok, ok_injective, err≢ok, Bytes, bytes_of, codes, is_empty, same_case, starts_with_case,
  arith, pos, eq_ℤ, Result, ok, All,
}
use retro_cloud_sync.Vcard.Text.{split_line, skip, after_fold}
use retro_cloud_sync.Patch.Folding.{colon, logical_line, fold_line}
use retro_cloud_sync.Patch.Edits.{Format, Edit, patch_invalid, allowed, is_append, is_vcard}
use retro_cloud_sync.Patch.Scanning.{
  Patch, Target, Scan, Label, each_target, outer_kind, begin_component, end_component, append_at,
  parameter_parts, prefix_of, label_of, addresses, folded_with, replacement_of, edit_property,
  line_in, inner_line, scan_line, scan_lines,
}

unfoldable pub edits_of : List Target → List Edit
edits_of [] = []
edits_of (target ∷ targets) = target.edit ∷ edits_of targets

-- What was folded from a value.
abbrev pub IsFolding : Bytes → Bytes → Type 0
IsFolding value replacement =
    (before : Bytes) × (prefix : Bytes) × (fold_line before prefix value ≡ some replacement)

-- The patch of an edit: a range of a base of this length, with nothing in its place if the edit
-- removes a property, and the folded value of the edit if it has one.
pub record IsPatch (total : ℕ) (target : Target) : Type 0 where
  pub ordered : target.patch.start ≤ target.patch.until
  pub inside : target.patch.until ≤ total
  pub removed :
      target.edit.value ≡ none → is_append target.edit ≡ false → target.patch.replacement ≡ []
  pub written :
      target.patch.found ≡ true
      → (value : Bytes) → target.edit.value ≡ some value
      → IsFolding value target.patch.replacement

pub record Keeps (total : ℕ) (before after : Target) : Type 0 where
  pub edit : after.edit ≡ before.edit
  pub patch : IsPatch total before → IsPatch total after

pub record KeepsAll (total : ℕ) (before after : List Target) : Type 0 where
  pub edits : edits_of after ≡ edits_of before
  pub patches : All (IsPatch total) before → All (IsPatch total) after

Keeps-refl : (total : ℕ) (t : Target) → Keeps total t t
Keeps-refl total t = record { edit = refl; patch = λ h. h }

KeepsAll-refl : (total : ℕ) (ts : List Target) → KeepsAll total ts ts
KeepsAll-refl total ts = record { edits = refl; patches = λ h. h }

KeepsAll-trans :
    (total : ℕ) {a b c : List Target} → KeepsAll total a b → KeepsAll total b c → KeepsAll total a c
KeepsAll-trans total p q = record {
  edits = q.edits ∙ p.edits;
  patches = λ h. q.patches (p.patches h);
}

each_target-KeepsAll :
    (total : ℕ) (f : Target → Result Target) (targets : List Target) {after : List Target}
    → ((t t' : Target) → f t ≡ ok t' → Keeps total t t')
    → each_target f targets ≡ ok after
    → KeepsAll total targets after
unfolding each_target edits_of
each_target-KeepsAll total f [] keeps e =
    subst (KeepsAll total []) (ok_injective e) (KeepsAll-refl total [])
each_target-KeepsAll total f (t ∷ targets) keeps e =
    let (t', first, e1) = bind_ok (f t) _ e in
    let (targets', rest, e2) = bind_ok (each_target f targets) _ e1 in
    let one = keeps t t' first in
    let more = each_target-KeepsAll total f targets keeps rest in
    subst (KeepsAll total (t ∷ targets)) (ok_injective e2) (record {
      edits = ap (λ x. x ∷ edits_of targets') one.edit ∙ ap (λ l. t.edit ∷ l) more.edits;
      patches = λ h. (one.patch h.0, more.patches h.1);
    })

folded_with_ok :
    (prefix : Option Bytes) (edit : Edit) (patch : Patch) {r : Bytes} (value : Bytes)
    → folded_with prefix edit patch ≡ ok r
    → edit.value ≡ some value
    → IsFolding value r
unfolding folded_with
folded_with_ok none edit patch value e h = absurd (err≢ok e)
folded_with_ok (some prefix) edit patch {r} value e h =
    elim (Option-cases (fold_line patch.replacement prefix (bytes_of edit.value))) [
      | inl n ↦ absurd (ground (arith, n))
      | inr (x, n) ↦
          let same : x ≡ r = ground (arith, n) in
          (
            patch.replacement,
            prefix,
            ap (λ v. fold_line patch.replacement prefix (bytes_of v)) (sym h) ∙ n ∙ ap some same,
          )
    ]

append_at-Keeps :
    (total start : ℕ) (top : ℕ × Bytes) (t : Target) {t' : Target}
    → start ≤ total
    → append_at start top t ≡ ok t'
    → Keeps total t t'
unfolding append_at
append_at-Keeps total start top t {t'} l e =
    elim (if_ok (not (t.edit.component == top.0 && is_append t.edit)) e) [
      | inl (u, f) ↦ subst (Keeps total t) (ok_injective f) (Keeps-refl total t)
      | inr (u, f) ↦ elim (if_ok (not (allowed top.1 (bytes_of t.edit.property))) f) [
        | inl (v, g) ↦ absurd (err≢ok g)
        | inr (v, g) ↦
            let prefix =
              prefix_of t.edit.group t.edit.property (parameter_parts [] t.edit.parameters) in
            let (r, folded, k) = bind_ok (folded_with prefix t.edit t.patch) _ g in
            subst (Keeps total t) (ok_injective k) (record {
              edit = refl;
              patch = λ h. record {
                ordered = omega arith;
                inside = l;
                removed = λ n a. absurd (ground (arith, u, a));
                written = λ _ value s. folded_with_ok prefix t.edit t.patch value folded s;
              };
            })
      ]
    ]

replacement_of_ok :
    (text : Bytes) (label : Label) (t : Target) {r : Bytes}
    → replacement_of text label t ≡ ok r
    → (t.edit.value ≡ none → r ≡ t.patch.replacement)
      × ((value : Bytes) → t.edit.value ≡ some value → IsFolding value r)
unfolding replacement_of
replacement_of_ok text label t {r} e = elim (if_ok (not (is_some t.edit.value)) e) [
  | inl (u, f) ↦ ((λ n. sym (ok_injective f)), (λ value s. absurd (ground (arith, u, s))))
  | inr (u, f) ↦
      elim (if_ok
        (is_some t.edit.parameters
          || is_some t.edit.replacement_group
          || is_some t.edit.replacement_property)
        f) [
          | inl (v, g) ↦ (
            (λ n. absurd (ground (arith, u, n))),
            (λ value s. folded_with_ok _ t.edit t.patch value g s),
          )
          | inr (v, g) ↦ (
            (λ n. absurd (ground (arith, u, n))),
            (λ value s. folded_with_ok _ t.edit t.patch value g s),
          )
        ]
]

edit_property-Keeps :
    (total start until : ℕ) (top : ℕ × Bytes) (text : Bytes) (t : Target) {t' : Target}
    → start ≤ until
    → until ≤ total
    → edit_property start until top text t ≡ ok t'
    → Keeps total t t'
unfolding edit_property
edit_property-Keeps total start until top text t {t'} l m e =
    elim (if_ok (not (addresses top.0 (label_of text) t.edit)) e) [
      | inl (u, f) ↦ subst (Keeps total t) (ok_injective f) (Keeps-refl total t)
      | inr (u, f) ↦ elim (if_ok (not (eq_ℤ (pos t.patch.seen) t.edit.occurrence)) f) [
        | inl (v, g) ↦ subst (Keeps total t) (ok_injective g) (record {
          edit = refl;
          patch = λ h. record {
            ordered = h.ordered;
            inside = h.inside;
            removed = h.removed;
            written = h.written;
          };
        })
        | inr (v, g) ↦
            elim (if_ok
              (not (allowed top.1 (bytes_of t.edit.property))
                || (is_some t.edit.replacement_property
                    && not (allowed top.1 (bytes_of t.edit.replacement_property))))
              g) [
                | inl (w, k) ↦ absurd (err≢ok k)
                | inr (w, k) ↦
                    let (r, found, k1) = bind_ok (replacement_of text (label_of text) t) _ k in
                    let (none_put, folded) = replacement_of_ok text (label_of text) t found in
                    subst (Keeps total t) (ok_injective k1) (record {
                      edit = refl;
                      patch = λ h. record {
                        ordered = l;
                        inside = m;
                        removed = λ n a. none_put n ∙ h.removed n a;
                        written = λ _ value s. folded value s;
                      };
                    })
              ]
      ]
    ]

begin_component-KeepsAll :
    (total : ℕ) (format : Format) (kind : Bytes) (s : Scan) {s' : Scan}
    → begin_component format kind s ≡ ok s'
    → KeepsAll total s.targets s'.targets
unfolding begin_component
begin_component-KeepsAll total format kind s e =
    elim (if_ok (s.closed || length s.stack == 64 || leb 32 (length kind)) e) [
      | inl (t, f) ↦ absurd (err≢ok f)
      | inr (t, f) ↦ elim (if_ok (is_empty s.stack && not (same_case kind (outer_kind format))) f) [
        | inl (u, g) ↦ absurd (err≢ok g)
        | inr (u, g) ↦ elim (if_ok (is_vcard format && not (is_empty s.stack)) g) [
          | inl (v, k) ↦ absurd (err≢ok k)
          | inr (v, k) ↦
              subst (λ (x : Scan). KeepsAll total s.targets x.targets) (ok_injective k)
                (KeepsAll-refl total s.targets)
        ]
      ]
    ]

line_in-KeepsAll :
    (total start until : ℕ) (line : Bytes) (parts : Bytes × Bytes) (top : ℕ × Bytes)
    (below : List (ℕ × Bytes)) (s : Scan) {s' : Scan}
    → start ≤ until
    → until ≤ total
    → line_in start until line parts top below s ≡ ok s'
    → KeepsAll total s.targets s'.targets
unfolding line_in end_component
line_in-KeepsAll total start until line parts top below s l m e =
    elim (if_ok (starts_with_case line (codes "END:")) e) [
      | inl (t, f) ↦ elim (if_ok (not (same_case parts.1 top.1)) f) [
        | inl (u, g) ↦ absurd (err≢ok g)
        | inr (u, g) ↦
            let (targets, h, k) = bind_ok (each_target (append_at start top) s.targets) _ g in
            subst (λ (x : Scan). KeepsAll total s.targets x.targets) (ok_injective k)
              (each_target-KeepsAll total (append_at start top) s.targets
                (λ t t' e. append_at-Keeps total start top t (omega (arith, l, m)) e) h)
      ]
      | inr (t, f) ↦
          let (targets, h, k) =
            bind_ok (each_target (edit_property start until top parts.0) s.targets) _ f in
          subst (λ (x : Scan). KeepsAll total s.targets x.targets) (ok_injective k)
            (each_target-KeepsAll total (edit_property start until top parts.0) s.targets
              (λ t t' e. edit_property-Keeps total start until top parts.0 t l m e) h)
    ]

inner_line-KeepsAll :
    (total start until : ℕ) (line : Bytes) (parts : Bytes × Bytes) (s : Scan)
    (stack : List (ℕ × Bytes)) {s' : Scan}
    → start ≤ until
    → until ≤ total
    → inner_line start until line parts s stack ≡ ok s'
    → KeepsAll total s.targets s'.targets
unfolding inner_line
inner_line-KeepsAll total start until line parts s [] l m e = absurd (err≢ok e)
inner_line-KeepsAll total start until line parts s (top ∷ below) l m e =
    line_in-KeepsAll total start until line parts top below s l m e

scan_line-KeepsAll :
    (total : ℕ) (format : Format) (start until : ℕ) (line : Bytes) (s : Scan) {s' : Scan}
    → start ≤ until
    → until ≤ total
    → scan_line format start until line s ≡ ok s'
    → KeepsAll total s.targets s'.targets
unfolding scan_line
scan_line-KeepsAll total format start until line s {s'} l m e = elim (if_ok (is_empty line) e) [
  | inl (t, f) ↦
      subst (λ (x : Scan). KeepsAll total s.targets x.targets) (ok_injective f)
        (KeepsAll-refl total s.targets)
  | inr (t, f) ↦ elim (Option-cases (colon line)) [
    | inl n ↦
        let step : scan_line format start until line s ≡ patch_invalid =
          rw (t, n, scan_line) refl in
        absurd (err≢ok (sym step ∙ e))
    | inr (parts, n) ↦
        let step : scan_line format start until line s ≡ (
            if starts_with_case line (codes "BEGIN:")
            then begin_component format parts.1 s
            else inner_line start until line parts s s.stack) =
          rw (t, n, scan_line) refl in
        elim (if_ok (starts_with_case line (codes "BEGIN:")) (sym step ∙ e)) [
          | inl (u, g) ↦ begin_component-KeepsAll total format parts.1 s g
          | inr (u, g) ↦ inner_line-KeepsAll total start until line parts s s.stack l m g
        ]
  ]
]

skip_le : (c : ℕ) (text : Bytes) → length (skip c text) ≤ length text
skip_le c [] = omega arith
skip_le c (d ∷ text) = ground arith

after_fold_le : (text : Bytes) → length (after_fold text).0 ≤ length text
after_fold_le [] = omega arith
after_fold_le (c ∷ text) = ground arith

split_line_le : (text : Bytes) → length (split_line text).1 ≤ length text
unfolding split_line
split_line_le [] = omega arith
split_line_le (c ∷ text) = ground (arith, split_line_le text)

logical_line_le : (fuel : ℕ) (text : Bytes) → length (logical_line fuel text).1 ≤ length text
unfolding logical_line
logical_line_le zero text = omega arith
logical_line_le (suc fuel) text =
    let ended = skip 10 (skip 13 (split_line text).1) in
    let shorter : length (after_fold ended).0 ≤ length text = omega (
      arith,
      after_fold_le ended,
      skip_le 10 (skip 13 (split_line text).1),
      skip_le 13 (split_line text).1,
      split_line_le text,
    ) in
    ground (arith, shorter, logical_line_le fuel (after_fold ended).0)

pub scan_lines-KeepsAll :
    (fuel : ℕ) (format : Format) (total : ℕ) (text : Bytes) (s : Scan) {s' : Scan}
    → scan_lines fuel format total text s ≡ ok s'
    → KeepsAll total s.targets s'.targets
unfolding scan_lines
scan_lines-KeepsAll zero format total text s e =
    subst (λ (x : Scan). KeepsAll total s.targets x.targets) (ok_injective e)
      (KeepsAll-refl total s.targets)
scan_lines-KeepsAll (suc fuel) format total [] s e =
    subst (λ (x : Scan). KeepsAll total s.targets x.targets) (ok_injective e)
      (KeepsAll-refl total s.targets)
scan_lines-KeepsAll (suc fuel) format total (c ∷ text) s e =
    let (line, rest) = logical_line (length (c ∷ text)) (c ∷ text) in
    let start = total - length (c ∷ text) in
    let shorter : length rest ≤ length (c ∷ text) =
      logical_line_le (length (c ∷ text)) (c ∷ text) in
    let (next, f, g) =
      bind_ok (scan_line format start (total - length rest) line s)
        (λ s. scan_lines fuel format total rest s) e in
    KeepsAll-trans total
      (scan_line-KeepsAll total format start (total - length rest) line s (omega (arith, shorter))
        (omega arith) f)
      (scan_lines-KeepsAll fuel format total rest next g)
