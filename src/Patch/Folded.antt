-- ===== src/Patch/Folded.antt =====
-- source/shared/RCResourcePatch.c: the lines that `folded` writes, read again by `RCUnfold`
-- (source/shared/RCVCard.c).
use retro_cloud_sync.Prelude.{
  ◌⊎◌, ℕ, zero, suc, ◌≤◌, ◌≡◌, ◌≢◌, refl, ap, sym, subst, ◌∙◌, inl, inr, Bool, true, false,
  Bool-cases, none, some, Option-cases, List, [], ◌∷◌, ◌++◌, append-nil, append_assoc, ◌==◌, length,
  length-take_le, length-drop_le, take-drop, take, drop, any, if◌then◌else◌, Bytes, All, arith,
}
use retro_cloud_sync.Vcard.Text.{is_line_end, is_fold, unfold_text}
use retro_cloud_sync.Vcard.Escapes.{folded, whole, folded_text, plain_text, unfold_text-folded_text}
use retro_cloud_sync.Patch.Folding.{
  add, add_all, back, line_limit, piece_length, fold_pieces, fold_line,
}

back_le : (text : Bytes) (n : ℕ) → back text n ≤ n
unfolding back
back_le text zero = omega arith
back_le text (suc n) = ground (arith, back_le text n)

piece_length_le : (first : Bool) (text : Bytes) → piece_length first text ≤ line_limit first
piece_length_le first text = ground (arith, back_le text (line_limit first))

add-some :
    (buffer bytes : Bytes) {out : Bytes} → add buffer bytes ≡ some out → out ≡ buffer ++ bytes
unfolding add
add-some buffer bytes e = ground arith

add_all-some :
    (buffer : Bytes) (part : Bytes) (parts : List Bytes) {out : Bytes}
    → add_all buffer (part ∷ parts) ≡ some out
    → add_all (buffer ++ part) parts ≡ some out
unfolding add_all
add_all-some buffer part parts {out} e = elim (Option-cases (add buffer part)) [
  | inl n ↦ absurd (ground arith)
  | inr (more, f) ↦
      subst (λ b. add_all b parts ≡ some out) (add-some buffer part f)
        (sym (rw (f, add_all) refl) ∙ e)
]

add_all_end : (buffer : Bytes) {out : Bytes} → add_all buffer [] ≡ some out → out ≡ buffer
unfolding add_all
add_all_end buffer e = ground arith

abbrev lead : Bool → Bytes
lead first = if first then [] else b' ' ∷ []

-- What the rest of a line becomes: its pieces, folded, behind what is there.
record Folds (first : Bool) (c : ℕ) (text out after : Bytes) : Type 0 where
  tail : Bytes
  pieces : List Bytes
  made : after ≡ out ++ (lead first ++ folded ((c ∷ tail) ∷ pieces) [])
  same : whole ((c ∷ tail) ∷ pieces) ≡ c ∷ text
  first_short : length (c ∷ tail) ≤ line_limit first
  rest_short : All (λ p. length p ≤ 74) pieces

list_cases : (text : Bytes) → (text ≡ []) ⊎ ((c : ℕ) × (rest : Bytes) × (text ≡ c ∷ rest))
list_cases [] = inl refl
list_cases (c ∷ rest) = inr (c, rest, refl)

none≢some : {A : Type 0} {a : A} → none ≢ some a
none≢some e = ground arith

positive : (n : ℕ) → (n == 0) ≡ false → (m : ℕ) × (n ≡ suc m)
positive zero h = absurd (ground arith)
positive (suc m) h = (m, refl)

suc_nonzero : (m : ℕ) → (suc m == 0) ≡ false
suc_nonzero m = ground arith

fold_pieces-nil : (fuel : ℕ) (first : Bool) (out : Bytes) → fold_pieces fuel first [] out ≡ some out
unfolding fold_pieces
fold_pieces-nil zero first out = refl
fold_pieces-nil (suc fuel) first out = refl

together : (a b p q : Bytes) → ((a ++ b) ++ p) ++ q ≡ a ++ (b ++ (p ++ q))
together a b p q = append_assoc (a ++ b) p q ∙ append_assoc a b (p ++ q)

abbrev crlf : Bytes
crlf = 13 ∷ 10 ∷ []

behind : (a b p z : Bytes) → (a ++ (b ++ (p ++ crlf))) ++ z ≡ a ++ (b ++ (p ++ 13 ∷ 10 ∷ z))
behind a b p z =
    append_assoc a (b ++ (p ++ crlf)) z
    ∙ ap (λ x. a ++ x) (append_assoc b (p ++ crlf) z ∙ ap (λ x. b ++ x) (append_assoc p crlf z))

some-injective : {A : Type 0} {a b : A} → some a ≡ some b → a ≡ b
some-injective {a = a} e = ap (λ o. elim o [ some x ↦ x | none ↦ a ]) e

-- A turn of the loop: the rest goes on behind one piece.
one_piece :
    (fuel : ℕ) (first : Bool) (c m : ℕ) (text out : Bytes) {after : Bytes}
    → piece_length first (c ∷ text) ≡ suc m
    → fold_pieces (suc fuel) first (c ∷ text) out ≡ some after
    → fold_pieces fuel false (drop m text) (out ++ (lead first ++ ((c ∷ take m text) ++ crlf)))
      ≡ some after
unfolding fold_pieces
one_piece fuel first c m text out {after} t e =
    let parts = lead first ∷ (c ∷ take m text) ∷ crlf ∷ [] in
    elim (Option-cases (add_all out parts)) [
      | inl n ↦
          let step : fold_pieces (suc fuel) first (c ∷ text) out ≡ none =
            rw (t, suc_nonzero m, t, n, fold_pieces) refl in
          absurd (none≢some (sym step ∙ e))
      | inr (r, f) ↦
          let step : fold_pieces (suc fuel) first (c ∷ text) out
              ≡ fold_pieces fuel false (drop m text) r =
            rw (t, suc_nonzero m, t, f, t, fold_pieces) refl in
          let made : r ≡ out ++ (lead first ++ ((c ∷ take m text) ++ crlf)) =
            add_all_end _ (
              add_all-some ((out ++ lead first) ++ (c ∷ take m text)) crlf [] (
                add_all-some (out ++ lead first) (c ∷ take m text) (crlf ∷ [])
                  (add_all-some out (lead first) ((c ∷ take m text) ∷ crlf ∷ []) f)))
            ∙ together out (lead first) (c ∷ take m text) crlf in
          subst (λ b. fold_pieces fuel false (drop m text) b ≡ some after) made (sym step ∙ e)
    ]

stuck :
    (fuel : ℕ) (first : Bool) (c : ℕ) (text out : Bytes)
    → (piece_length first (c ∷ text) == 0) ≡ true
    → fold_pieces (suc fuel) first (c ∷ text) out ≡ none
unfolding fold_pieces
stuck fuel first c text out t = rw (t, fold_pieces) refl

fold_pieces_lem :
    (fuel : ℕ) (first : Bool) (c : ℕ) (text out : Bytes) {after : Bytes}
    → length (c ∷ text) ≤ fuel
    → fold_pieces fuel first (c ∷ text) out ≡ some after
    → Folds first c text out after
unfolding folded whole
fold_pieces_lem zero first c text out l e = absurd (omega (arith, l))
fold_pieces_lem (suc fuel) first c text out {after} l e =
    elim (Bool-cases (piece_length first (c ∷ text) == 0)) [
      | inl t ↦ absurd (none≢some (sym (stuck fuel first c text out t) ∙ e))
      | inr t ↦
          let (m, n) = positive (piece_length first (c ∷ text)) t in
          let rest = one_piece fuel first c m text out n e in
          let sofar = out ++ (lead first ++ ((c ∷ take m text) ++ crlf)) in
          let short : length (c ∷ take m text) ≤ line_limit first =
            omega (arith, length-take_le (suc m) (c ∷ text), piece_length_le first (c ∷ text), n) in
          elim (list_cases (drop m text)) [
            | inl z ↦
                let whole_text : after ≡ out ++ (lead first ++ ((c ∷ take m text) ++ crlf)) =
                  some-injective (
                    sym (subst (λ x. fold_pieces fuel false x sofar ≡ some after) z rest)
                    ∙ fold_pieces-nil fuel false sofar) in
                record {
                  tail = take m text;
                  pieces = [];
                  made = whole_text;
                  same =
                      append-nil (c ∷ take m text)
                      ∙ sym (append-nil (c ∷ take m text))
                      ∙ ap (λ x. (c ∷ take m text) ++ x) (sym z)
                      ∙ ap (λ x. c ∷ x) (take-drop m text);
                  first_short = short;
                  rest_short = tt;
                }
            | inr (d, more, z) ↦
                let shorter : length (d ∷ more) ≤ fuel =
                  omega (arith, l, length-drop_le m text, ap length z) in
                let ih =
                  fold_pieces_lem fuel false d more
                    (out ++ (lead first ++ ((c ∷ take m text) ++ crlf))) shorter
                    (subst (λ x. fold_pieces fuel false x sofar ≡ some after) z rest) in
                record {
                  tail = take m text;
                  pieces = (d ∷ ih.tail) ∷ ih.pieces;
                  made =
                      ih.made
                      ∙ behind out (lead first) (c ∷ take m text)
                          (b' ' ∷ folded ((d ∷ ih.tail) ∷ ih.pieces) []);
                  same =
                      ap (λ x. (c ∷ take m text) ++ x) (ih.same ∙ sym z)
                      ∙ ap (λ x. c ∷ x) (take-drop m text);
                  first_short = short;
                  rest_short = (ih.first_short, ih.rest_short);
                }
          ]
    ]

any-append :
    (p : ℕ → Bool) (xs ys : Bytes)
    → any p (xs ++ ys) ≡ false
    → (any p xs ≡ false) × (any p ys ≡ false)
unfolding any
any-append p [] ys h = (refl, h)
any-append p (x ∷ xs) ys h = ground (arith, any-append p xs ys)

any-whole :
    (p : ℕ → Bool) (pieces : List Bytes)
    → any p (whole pieces) ≡ false
    → All (λ piece. any p piece ≡ false) pieces
unfolding whole
any-whole p [] h = tt
any-whole p (piece ∷ pieces) h =
    let (first, rest) = any-append p piece (whole pieces) h in (first, any-whole p pieces rest)

-- Pieces that fit in lines of 75 bytes, where all but the first stand behind a space.
abbrev pub Fit : List Bytes → Type 0
Fit [] = Unit
Fit (piece ∷ pieces) = (length piece ≤ 75) × All (λ p. length p ≤ 74) pieces

-- A line is folded behind `out`: in lines of at most 75 bytes, and unfolded to itself.
pub record IsFolded (out line after : Bytes) : Type 0 where
  pub pieces : List Bytes
  pub made : after ≡ out ++ folded pieces []
  pub fit : Fit pieces
  pub unfolded : unfold_text (folded pieces []) ≡ line ++ 10 ∷ []

Folds-IsFolded :
    (c : ℕ) (text out : Bytes) {after : Bytes}
    → any is_line_end (c ∷ text) ≡ false
    → is_fold c ≡ false
    → Folds true c text out after
    → IsFolded out (c ∷ text) after
unfolding folded_text plain_text folded whole any
Folds-IsFolded c text out h k f =
    let pieces = (c ∷ f.tail) ∷ f.pieces in
    record {
      pieces = pieces;
      made = f.made;
      fit = (f.first_short, f.rest_short);
      unfolded =
          unfold_text-folded_text (pieces ∷ [])
            ((k, any-whole is_line_end pieces (ap (any is_line_end) f.same ∙ h)), tt)
          ∙ ap (λ l. l ++ 10 ∷ []) f.same;
    }

-- A property that is not empty, has no line end in it and does not start with a blank, if it can
-- be folded, is added in lines of at most 75 bytes each, which are unfolded to the property
-- again.
pub fold_line_lem :
    (out prefix value : Bytes) (c : ℕ) (text : Bytes) {after : Bytes}
    → prefix ++ value ≡ c ∷ text
    → any is_line_end (c ∷ text) ≡ false
    → is_fold c ≡ false
    → fold_line out prefix value ≡ some after
    → IsFolded out (prefix ++ value) after
unfolding fold_line
fold_line_lem out prefix value c text {after} same h k e =
    elim (Option-cases (add_all [] (prefix ∷ value ∷ []))) [
      | inl n ↦
          let step : fold_line out prefix value ≡ none = rw (n, fold_line) refl in
          absurd (none≢some (sym step ∙ e))
      | inr (line, f) ↦
          let step : fold_line out prefix value ≡ fold_pieces (length line) true line out =
            rw (f, fold_line) refl in
          let made : line ≡ c ∷ text =
            add_all_end _ (add_all-some prefix value [] (add_all-some [] prefix (value ∷ []) f))
            ∙ same in
          subst (λ l. IsFolded out l after) (sym same)
            (Folds-IsFolded c text out h k (
              fold_pieces_lem (length (c ∷ text)) true c text out (omega arith)
                (subst (λ l. fold_pieces (length l) true l out ≡ some after) made (sym step ∙ e))))
    ]
