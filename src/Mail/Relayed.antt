-- ===== src/Mail/Relayed.antt =====
-- Source: source/macOS-daemon/RCMailProxy.c. What the relay between a mail program and its server keeps of
-- the bytes, in both directions.
use retro_cloud_sync.Prelude.{
  length, ℕ, suc, ◌≡◌, refl, ap, sym, subst, inl, inr, ◌∙◌, Bool, true, false, ◌||◌, Option, none,
  some, Option-cases, List, [], ◌∷◌, ◌++◌, append-nil, append_assoc, take, drop, take-drop, Bytes,
  if◌then◌else◌, arith,
}
use retro_cloud_sync.Mail.Sending.{
  Sending, takes, interrupted, fails, Sent, longest_write, send_all, ssl_write_all, SendsPart,
  nothing_sent, is_empty_lem, send_all-SendsPart,
}
use retro_cloud_sync.Mail.Relay.{
  select_fails, times_out, selects, Arrival, arrives, read_fails, RelayTurn, Direction, outcome_of,
  pass_on, Relayed, relay_inward, relay_ready, relay_selected, Selected, relay_turn,
  relay_connection,
}

drop-append : {A : Type 0} (l m : List A) → drop (length l) (l ++ m) ≡ m
drop-append [] m = refl
drop-append (x ∷ l) m = drop-append l m

-- A part of the first part, and what is left behind it.
take-take-drop :
    (m n : ℕ) (l : Bytes) → take m (take n l) ++ drop (length (take m (take n l))) l ≡ l
take-take-drop m n l =
    let part = take m (take n l) in
    let rest = drop m (take n l) ++ drop n l in
    let whole : l ≡ part ++ rest =
      sym (take-drop n l)
      ∙ ap (λ p. p ++ drop n l) (sym (take-drop m (take n l)))
      ∙ append_assoc part (drop m (take n l)) (drop n l) in
    ap (λ b. part ++ drop (length part) b) whole
    ∙ ap (λ b. part ++ b) (drop-append part rest)
    ∙ sym whole

ssl_write_all-SendsPart :
    (calls : List Sending) (sent bytes : Bytes)
    → SendsPart sent bytes (ssl_write_all calls sent bytes)
unfolding ssl_write_all
ssl_write_all-SendsPart calls sent [] = record {
  part = [];
  rest = [];
  whole = refl;
  added = sym (append-nil sent);
  told = refl;
}
ssl_write_all-SendsPart [] sent (c ∷ left) = nothing_sent [] sent c left
ssl_write_all-SendsPart (interrupted ∷ calls) sent (c ∷ left) = nothing_sent calls sent c left
ssl_write_all-SendsPart (fails ∷ calls) sent (c ∷ left) = nothing_sent calls sent c left
ssl_write_all-SendsPart (takes n ∷ calls) sent (c ∷ left) =
    let first = take (suc n) (take longest_write (c ∷ left)) in
    let later = ssl_write_all-SendsPart calls (sent ++ first) (drop (length first) (c ∷ left)) in
    record {
      part = first ++ later.part;
      rest = later.rest;
      whole =
          sym (take-take-drop (suc n) longest_write (c ∷ left))
          ∙ ap (λ l. first ++ l) later.whole
          ∙ sym (append_assoc first later.part later.rest);
      added = later.added ∙ append_assoc sent first later.part;
      told = later.told;
    }

unfoldable pub relay_failed : Option Bool → Bool
relay_failed (some false) = true
relay_failed (some true) = false
relay_failed none = false

-- What was written is a first part of what was read, and all of it unless the relay has failed.
pub record IsPassed (way : Direction) (returned : Option Bool) : Type 0 where
  pub held : Bytes
  pub whole : way.heard ≡ way.told ++ held
  pub clean : relay_failed returned ≡ false → held ≡ []

none_failed : (b : Bool) → relay_failed (outcome_of b) ≡ false → b ≡ true
unfolding relay_failed
none_failed true e = refl
none_failed false e = absurd (ground arith)

-- A direction in which nothing is held back stays so, whatever is returned.
same_way : (way : Direction) (returned : Option Bool) → IsPassed way none → IsPassed way returned
unfolding relay_failed
same_way way returned h = record { held = h.held; whole = h.whole; clean = λ _. h.clean refl }

none_clean : relay_failed none ≡ false
unfolding relay_failed
none_clean = refl

pass_on-IsPassed :
    (write : Bytes → Bytes → Sent) (arrival : Arrival) (way : Direction)
    → ((sent bytes : Bytes) → SendsPart sent bytes (write sent bytes))
    → IsPassed way none
    → IsPassed (pass_on write arrival way).0 (pass_on write arrival way).1
unfolding pass_on
pass_on-IsPassed write read_fails way s h = same_way way (some false) h
pass_on-IsPassed write (arrives []) way s h = same_way way (some true) h
pass_on-IsPassed write (arrives (c ∷ bytes)) way s h =
    let after = write way.told (c ∷ bytes) in
    let p = s way.told (c ∷ bytes) in
    let even : way.heard ≡ way.told =
      h.whole ∙ ap (λ l. way.told ++ l) (h.clean (none_clean)) ∙ append-nil way.told in
    record {
      held = p.rest;
      whole =
          ap (λ l. l ++ c ∷ bytes) even
          ∙ ap (λ l. way.told ++ l) p.whole
          ∙ sym (append_assoc way.told p.part p.rest)
          ∙ ap (λ l. l ++ p.rest) (sym p.added);
      clean = λ e. is_empty_lem p.rest (sym p.told ∙ none_failed after.all_sent e);
    }

-- No byte has come or gone.
abbrev pub unused : Direction
unused = record { heard = []; told = [] }

unused-IsPassed : IsPassed unused none
unused-IsPassed = record { held = []; whole = refl; clean = λ _. refl }

-- Both directions, with the value that the relay returns.
unfoldable pub IsRelayed : Relayed → Type 0
IsRelayed x = IsPassed x.outward x.returned × IsPassed x.inward x.returned

pass_if-IsPassed :
    (ready : Bool) (x : Direction × Option Bool) (way : Direction)
    → IsPassed way none
    → IsPassed x.0 x.1
    → IsPassed (if ready then x else (way, none)).0 (if ready then x else (way, none)).1
pass_if-IsPassed true x way h p = p
pass_if-IsPassed false x way h p = h

relay_inward-IsRelayed :
    (ready : Bool) (turn : RelayTurn) (outward inward : Direction)
    → IsPassed outward none
    → IsPassed inward none
    → IsRelayed (relay_inward ready turn outward inward)
unfolding relay_inward IsRelayed
relay_inward-IsRelayed ready turn outward inward o i =
    let write = send_all turn.sends in
    let test = turn.is_pending_then || ready in
    let x = pass_on write turn.from_remote inward in
    let x-IsPassed =
      pass_on-IsPassed write turn.from_remote inward (send_all-SendsPart turn.sends) i in
    (
      same_way outward (if test then x else (inward, none)).1 o,
      pass_if-IsPassed test x inward i x-IsPassed,
    )

relay_ready-IsRelayed :
    (local_ready remote_ready : Bool) (turn : RelayTurn) (outward inward : Direction)
    → IsPassed outward none
    → IsPassed inward none
    → IsRelayed (relay_ready local_ready remote_ready turn outward inward)
unfolding relay_ready IsRelayed
relay_ready-IsRelayed local_ready remote_ready turn outward inward o i =
    let write = ssl_write_all turn.writes in
    let x = pass_on write turn.from_local outward in
    let y : Direction × Option Bool = if local_ready then x else (outward, none) in
    let p : IsPassed y.0 y.1 =
      pass_if-IsPassed local_ready x outward o
        (pass_on-IsPassed write turn.from_local outward (ssl_write_all-SendsPart turn.writes) o) in
    elim (Option-cases y.1) [
      | inl n ↦
          rw (n, relay_ready)
            (relay_inward-IsRelayed remote_ready turn y.0 inward (subst (IsPassed y.0) n p) i)
      | inr (r, n) ↦ rw (n, relay_ready) (subst (IsPassed y.0) n p, same_way inward (some r) i)
    ]

relay_selected-IsRelayed :
    (selected : Selected) (turn : RelayTurn) (outward inward : Direction)
    → IsPassed outward none
    → IsPassed inward none
    → IsRelayed (relay_selected selected turn outward inward)
unfolding relay_selected IsRelayed
relay_selected-IsRelayed select_fails turn outward inward o i =
    (same_way outward (some false) o, same_way inward (some false) i)
relay_selected-IsRelayed times_out turn outward inward o i = (o, i)
relay_selected-IsRelayed (selects local_ready remote_ready) turn outward inward o i =
    relay_ready-IsRelayed local_ready remote_ready turn outward inward o i

if-IsRelayed :
    (test : Bool) (x y : Relayed) → IsRelayed x → IsRelayed y → IsRelayed (if test then x else y)
if-IsRelayed true x y h k = h
if-IsRelayed false x y h k = k

relay_turn-IsRelayed :
    (turn : RelayTurn) (outward inward : Direction)
    → IsPassed outward none
    → IsPassed inward none
    → IsRelayed (relay_turn turn outward inward)
unfolding relay_turn
relay_turn-IsRelayed turn outward inward o i =
    if-IsRelayed turn.is_pending (relay_ready false true turn outward inward)
      (relay_selected turn.selected turn outward inward)
      (relay_ready-IsRelayed false true turn outward inward o i)
      (relay_selected-IsRelayed turn.selected turn outward inward o i)

relay_on-IsRelayed :
    (turns : List RelayTurn) (outward inward : Direction)
    → IsPassed outward none
    → IsPassed inward none
    → IsRelayed (relay_connection turns outward inward)
unfolding relay_connection IsRelayed
relay_on-IsRelayed [] outward inward o i = (o, i)
relay_on-IsRelayed (turn ∷ turns) outward inward o i =
    let after = relay_turn turn outward inward in
    let h : IsRelayed after = relay_turn-IsRelayed turn outward inward o i in
    elim (Option-cases after.returned) [
      | inl n ↦
          rw (n, relay_connection)
            (relay_on-IsRelayed turns after.outward after.inward
              (subst (IsPassed after.outward) n h.0) (subst (IsPassed after.inward) n h.1))
      | inr (r, n) ↦ rw (n, relay_connection) h
    ]

-- Whatever the calls of a relay return, what was written at each end is a first part of what was
-- read at the other one, in its order, and all of it unless the relay returns 0.
pub relay_connection-IsRelayed :
    (turns : List RelayTurn) → IsRelayed (relay_connection turns unused unused)
relay_connection-IsRelayed turns =
    relay_on-IsRelayed turns unused unused unused-IsPassed unused-IsPassed
