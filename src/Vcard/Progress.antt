-- ===== src/Vcard/Progress.antt =====
-- The loops over lines in source/shared/RCVCard.c and source/shared/RCICalendar.c take a character
-- in every turn, so the length of the text is enough fuel.
use retro_cloud_sync.Prelude.{
  ℕ, zero, suc, ◌≤◌, ◌≡◌, refl, true, inl, inr, Bool-cases, [], ◌∷◌, length, Bytes, arith,
}
use retro_cloud_sync.Vcard.Text.{split_line, skip, is_line_end, after_fold, unfold_lines}
use retro_cloud_sync.Icalendar.Parsing.{omit_lines}

length-tail_le : (text : Bytes) → length (split_line text).1 ≤ length text
unfolding split_line
length-tail_le [] = omega arith
length-tail_le (c ∷ text) = ground (arith, length-tail_le text)

skip_le : (c : ℕ) (text : Bytes) → length (skip c text) ≤ length text
skip_le c [] = omega arith
skip_le c (d ∷ text) = ground arith

skip_end :
    (c : ℕ) (text : Bytes)
    → is_line_end c ≡ true
    → length (skip 10 (skip 13 (c ∷ text))) ≤ length text
skip_end c text h = ground (arith, skip_le 10 text)

next_le :
    (c : ℕ) (text : Bytes) → length (skip 10 (skip 13 (split_line (c ∷ text)).1)) ≤ length text
unfolding split_line
next_le c text = elim (Bool-cases (is_line_end c)) [
  | inl t ↦ rw t (skip_end c text t)
  | inr f ↦ rw f (
      omega (
        arith,
        length-tail_le text,
        skip_le 13 (split_line text).1,
        skip_le 10 (skip 13 (split_line text).1),
      ))
]

after_fold_le : (text : Bytes) → length (after_fold text).0 ≤ length text
after_fold_le [] = omega arith
after_fold_le (c ∷ text) = ground arith

-- Any two amounts of fuel that are not less than the length of the text give the same lines.
pub unfold_lines_fuel :
    (f g : ℕ) (text : Bytes)
    → length text ≤ f
    → length text ≤ g
    → unfold_lines f text ≡ unfold_lines g text
unfolding unfold_lines
unfold_lines_fuel zero zero text h k = refl
unfold_lines_fuel zero (suc g) [] h k = refl
unfold_lines_fuel zero (suc g) (c ∷ text) h k = absurd (omega arith)
unfold_lines_fuel (suc f) zero [] h k = refl
unfold_lines_fuel (suc f) zero (c ∷ text) h k = absurd (omega arith)
unfold_lines_fuel (suc f) (suc g) [] h k = refl
unfold_lines_fuel (suc f) (suc g) (c ∷ text) h k =
    let next = skip 10 (skip 13 (split_line (c ∷ text)).1) in
    let rest =
      unfold_lines_fuel f g (after_fold next).0 (omega (arith, next_le c text, after_fold_le next))
        (omega (arith, next_le c text, after_fold_le next)) in
    rw rest refl

-- The same for the lines that stay when empty optional ones are left out.
pub omit_lines_fuel :
    (f g : ℕ) (text : Bytes)
    → length text ≤ f
    → length text ≤ g
    → omit_lines f text ≡ omit_lines g text
unfolding omit_lines
omit_lines_fuel zero zero text h k = refl
omit_lines_fuel zero (suc g) [] h k = refl
omit_lines_fuel zero (suc g) (c ∷ text) h k = absurd (omega arith)
omit_lines_fuel (suc f) zero [] h k = refl
omit_lines_fuel (suc f) zero (c ∷ text) h k = absurd (omega arith)
omit_lines_fuel (suc f) (suc g) [] h k = refl
omit_lines_fuel (suc f) (suc g) (c ∷ text) h k =
    let next = skip 10 (skip 13 (split_line (c ∷ text)).1) in
    let rest =
      omit_lines_fuel f g next (omega (arith, next_le c text)) (omega (arith, next_le c text)) in
    rw rest refl
