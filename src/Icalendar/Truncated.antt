-- ===== src/Icalendar/Truncated.antt =====
-- A calendar that was cut off between two lines is not accepted.
use retro_cloud_sync.Prelude.{
  sym, subst, ℕ, ◌≡◌, inl, inr, true, some, List, [], ◌∷◌, ◌++◌, All, Bytes, is_empty, arith,
  Option-cases,
}
use retro_cloud_sync.Icalendar.Framing.{
  Framing, drop_return, open_component, close_component, frame_line, frame_lines, unframed,
  is_complete, accepts,
}

frame_lines-append :
    (xs ys : List Bytes) (f : Framing) {g : Framing}
    → frame_lines xs f ≡ some g
    → frame_lines (xs ++ ys) f ≡ frame_lines ys g
unfolding frame_lines
frame_lines-append [] ys f h = ground arith
frame_lines-append (x ∷ xs) ys f {g} h = elim (Option-cases (frame_line (drop_return x) f)) [
  | inl n ↦ absurd (ground (arith, n))
  | inr (e, k) ↦ ground (arith, k, frame_lines-append xs ys e {g = g})
]

closed_refuses :
    (c : ℕ) (line : Bytes) (stack : List Bytes) (roots : ℕ) {g : Framing}
    → is_complete (some (record { stack = stack; roots = roots })) ≡ true
    → frame_line (c ∷ line) (record { stack = stack; roots = roots }) ≡ some g
    → ⊥
unfolding frame_line open_component close_component
closed_refuses c line [] roots h k = ground arith
closed_refuses c line (name ∷ stack) roots h k = ground arith

-- Behind the end of the calendar, only an empty line is read.
closed_line :
    (line : Bytes) (f : Framing) {g : Framing}
    → is_complete (some f) ≡ true
    → frame_line line f ≡ some g
    → (is_empty line ≡ true) × (g ≡ f)
unfolding frame_line open_component close_component
closed_line [] f h k = ground arith
closed_line (c ∷ line) f h k = absurd (closed_refuses c line f.stack f.roots h k)

closed_lines :
    (lines : List Bytes) (f : Framing)
    → is_complete (some f) ≡ true
    → is_complete (frame_lines lines f) ≡ true
    → All (λ line. is_empty (drop_return line) ≡ true) lines
unfolding frame_lines
closed_lines [] f h k = tt
closed_lines (line ∷ lines) f h k = elim (Option-cases (frame_line (drop_return line) f)) [
  | inl n ↦ absurd (ground (arith, n))
  | inr (g, e) ↦
      let (empty, same) = closed_line (drop_return line) f h e in
      (
        empty,
        closed_lines lines g (subst (λ x. is_complete (some x) ≡ true) (sym same) h)
            (ground (arith, e)),
      )
]

-- If a calendar is accepted and its first lines alone are accepted too, all other lines are
-- empty: a calendar that lost lines at its end, other than empty ones, is refused.
pub accepts_truncated :
    (xs ys : List Bytes)
    → accepts (xs ++ ys) ≡ true
    → accepts xs ≡ true
    → All (λ line. is_empty (drop_return line) ≡ true) ys
unfolding accepts
accepts_truncated xs ys h k = elim (Option-cases (frame_lines xs unframed)) [
  | inl n ↦ absurd (ground (arith, n))
  | inr (f, e) ↦
      closed_lines ys f (ground (arith, e)) (ground (arith, frame_lines-append xs ys unframed e, h))
]
