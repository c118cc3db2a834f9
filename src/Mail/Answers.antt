-- ===== src/Mail/Answers.antt =====
-- Source: source/macOS-daemon/RCMailProxy.c. What a response that is read has taken from the socket, and
-- what is sent before TLS starts.
use retro_cloud_sync.Prelude.{
  ◌%◌, ◌/◌, All, ℕ, ◌+◌, ◌<◌, ◌≤◌, ◌≡◌, ◌≢◌, refl, ap, sym, subst, ◌∙◌, inl, inr, Bool, true, false,
  ◌||◌, Bool-cases, Option, none, some, Option-cases, List, [], ◌∷◌, ◌++◌, append-nil, append_assoc,
  ◌==◌, ltb, length, length-append, take, length-take_le, if◌then◌else◌, Bytes, arith,
}
use retro_cloud_sync.Mail.Sending.{is_empty_lem, send_all, send_all-SendsPart}
use retro_cloud_sync.Mail.Smtp.{
  Reading, got, again, ended, smtp_response_limit, is_final, names_start_tls, SmtpResponse,
  read_lines, read_smtp_response, Remote, hello, start_tls_command, hear, say, await_ready,
  order_tls, offers_tls, ask_features, greeting_of, request_tls, prepare_smtp_start_tls,
}

-- The bytes that calls of `recv` have returned.
unfoldable pub bytes_in : List Reading → Bytes
bytes_in [] = []
bytes_in (got c ∷ events) = c ∷ bytes_in events
bytes_in (again ∷ events) = bytes_in events
bytes_in (ended ∷ events) = bytes_in events

-- One line with its end.
abbrev pub IsLine : Bytes → Type 0
IsLine line = (text : Bytes) × (line ≡ text ++ b'\n' ∷ []) × All (λ c. c ≢ b'\n') text

-- The lines in front of the last one: none of them ends a response.
pub data Continues (code : ℕ) : Bytes → Type 0 where
  no_lines : Continues code []
  one_line :
      {lines line : Bytes}
      → Continues code lines
      → IsLine line
      → is_final code line ≡ false
      → Continues code (lines ++ line)

-- A line with the three digits of the code and a space.
pub record HasCode (code : ℕ) (line : Bytes) : Type 0 where
  pub text : Bytes
  pub digits :
      line ≡ (b'0' + code / 100) ∷ (b'0' + code / 10 % 10) ∷ (b'0' + code % 10) ∷ b' ' ∷ text

is_final-HasCode : (code : ℕ) (line : Bytes) → is_final code line ≡ true → HasCode code line
unfolding is_final
is_final-HasCode code [] h = absurd (ground arith)
is_final-HasCode code (a ∷ []) h = absurd (ground arith)
is_final-HasCode code (a ∷ b ∷ []) h = absurd (ground arith)
is_final-HasCode code (a ∷ b ∷ c ∷ []) h = absurd (ground arith)
is_final-HasCode code (a ∷ b ∷ c ∷ d ∷ text) h = record { text = text; digits = ground arith }

All-last : (P : ℕ → Type 0) (text : Bytes) {c : ℕ} → All P text → P c → All P (text ++ c ∷ [])
All-last P [] h p = (p, tt)
All-last P (d ∷ text) h p = (h.0, All-last P text h.1 p)

-- A response that was read behind `before`: it is what the calls that it took have returned, shorter than
-- the limit, and its last line is the only one that ends a response.
pub record IsRead (code : ℕ) (before : Bytes) (events left : List Reading) (response : Bytes)
    : Type 0 where
  pub taken : List Reading
  pub split : events ≡ taken ++ left
  pub heard : response ≡ before ++ bytes_in taken
  pub start : Bytes
  pub last : Bytes
  pub ends : response ≡ start ++ last
  pub earlier : Continues code start
  pub one : IsLine last
  pub final : HasCode code last
  pub fits : length response < smtp_response_limit

abbrev Reads : ℕ → Bytes → List Reading → SmtpResponse → Option (Bytes × Bool) → Type 0
Reads code before events answer none = Unit
Reads code before events answer (some p) = IsRead code before events answer.incoming p.0

again-Reads :
    (code : ℕ) (before : Bytes) (events : List Reading) (answer : SmtpResponse)
    (outcome : Option (Bytes × Bool))
    → Reads code before events answer outcome
    → Reads code before (again ∷ events) answer outcome
unfolding bytes_in
again-Reads code before events answer none h = tt
again-Reads code before events answer (some p) h = record {
  taken = again ∷ h.taken;
  split = ap (λ l. again ∷ l) h.split;
  heard = h.heard;
  start = h.start;
  last = h.last;
  ends = h.ends;
  earlier = h.earlier;
  one = h.one;
  final = h.final;
  fits = h.fits;
}

got-Reads :
    (code c : ℕ) (before : Bytes) (events : List Reading) (answer : SmtpResponse)
    (outcome : Option (Bytes × Bool))
    → Reads code (before ++ c ∷ []) events answer outcome
    → Reads code before (got c ∷ events) answer outcome
unfolding bytes_in
got-Reads code c before events answer none h = tt
got-Reads code c before events answer (some p) h = record {
  taken = got c ∷ h.taken;
  split = ap (λ l. got c ∷ l) h.split;
  heard = h.heard ∙ append_assoc before (c ∷ []) (bytes_in h.taken);
  start = h.start;
  last = h.last;
  ends = h.ends;
  earlier = h.earlier;
  one = h.one;
  final = h.final;
  fits = h.fits;
}

same_char : (c : ℕ) → (c == b'\n') ≡ true → c ≡ b'\n'
same_char c t = ground arith

no_newline : (c : ℕ) → (c == b'\n') ≡ false → c ≢ b'\n'
no_newline c t e = ground arith

fits_lem :
    (before : Bytes) (c : ℕ)
    → ltb (length before + 1) smtp_response_limit ≡ true
    → length (before ++ c ∷ []) < smtp_response_limit
fits_lem before c t = ground (arith, length-append before (c ∷ []))

read_lines-Reads :
    (code : ℕ) (events : List Reading) (before start line : Bytes) (start_tls : Bool)
    → before ≡ start ++ line
    → Continues code start
    → All (λ c. c ≢ b'\n') line
    → Reads code before events
        (read_lines code events before line start_tls)
        (read_lines code events before line start_tls).outcome
unfolding read_lines bytes_in
read_lines-Reads code [] before start line start_tls h b n = tt
read_lines-Reads code (again ∷ events) before start line start_tls h b n =
    elim (Bool-cases (ltb (length before + 1) smtp_response_limit)) [
      | inr t ↦ rw (t, read_lines) tt
      | inl t ↦
          let next = read_lines code events before line start_tls in
          let step : read_lines code (again ∷ events) before line start_tls ≡ next =
            rw (t, read_lines) refl in
          subst (λ (a : SmtpResponse). Reads code before (again ∷ events) a a.outcome) (sym step)
            (again-Reads code before events next next.outcome
              (read_lines-Reads code events before start line start_tls h b n))
    ]
read_lines-Reads code (ended ∷ events) before start line start_tls h b n =
    elim (Bool-cases (ltb (length before + 1) smtp_response_limit)) [
      | inr t ↦ rw (t, read_lines) tt
      | inl t ↦ rw (t, read_lines) tt
    ]
read_lines-Reads code (got c ∷ events) before start line start_tls h b n =
    elim (Bool-cases (ltb (length before + 1) smtp_response_limit)) [
      | inr t ↦ rw (t, read_lines) tt
      | inl t ↦
          let more = before ++ c ∷ [] in
          let whole = line ++ c ∷ [] in
          let grown : more ≡ start ++ whole =
            ap (λ b. b ++ c ∷ []) h ∙ append_assoc start line (c ∷ []) in
          elim (Bool-cases (c == b'\n')) [
            | inr u ↦
                let next = read_lines code events more whole start_tls in
                let step : read_lines code (got c ∷ events) before line start_tls ≡ next =
                  rw (t, u, read_lines) refl in
                subst (λ (a : SmtpResponse). Reads code before (got c ∷ events) a a.outcome)
                  (sym step)
                  (got-Reads code c before events next next.outcome (
                    read_lines-Reads code events more start whole start_tls grown b
                      (All-last _ line n (no_newline c u))))
            | inl u ↦
                let named = start_tls || names_start_tls whole in
                let one : IsLine whole = (line, ap (λ d. line ++ d ∷ []) (same_char c u), n) in
                elim (Bool-cases (is_final code whole)) [
                  | inr v ↦
                      let next = read_lines code events more [] named in
                      let step : read_lines code (got c ∷ events) before line start_tls ≡ next =
                        rw (t, u, v, read_lines) refl in
                      subst (λ (a : SmtpResponse). Reads code before (got c ∷ events) a a.outcome)
                        (sym step)
                        (got-Reads code c before events next next.outcome (
                          read_lines-Reads code events more more [] named (sym (append-nil more))
                            (subst (Continues code) (sym grown) (one_line b one v)) tt))
                  | inl v ↦
                      let found : SmtpResponse = record {
                        incoming = events;
                        outcome = some (more, named);
                      } in
                      let step : read_lines code (got c ∷ events) before line start_tls ≡ found =
                        rw (t, u, v, read_lines) refl in
                      subst (λ (a : SmtpResponse). Reads code before (got c ∷ events) a a.outcome)
                        (sym step)
                        (got-Reads code c before events found (some (more, named)) (record {
                          taken = [];
                          split = refl;
                          heard = sym (append-nil more);
                          start = start;
                          last = whole;
                          ends = grown;
                          earlier = b;
                          one = one;
                          final = is_final-HasCode code whole v;
                          fits = fits_lem before c t;
                        }))
                ]
          ]
    ]

-- A response that is read consists of the bytes that were received for it, in their order, is
-- shorter than the limit of 16384 bytes, and is a sequence of lines of which the last, and no
-- other, ends a response; the last one has the three digits of the expected code and a space,
-- and no byte behind its end is taken from the socket.
pub read_smtp_response-IsRead :
    (code : ℕ) (incoming : List Reading) {p : Bytes × Bool}
    → (read_smtp_response code incoming).outcome ≡ some p
    → IsRead code [] incoming (read_smtp_response code incoming).incoming p.0
unfolding read_smtp_response
read_smtp_response-IsRead code incoming e =
    subst (Reads code [] incoming (read_lines code incoming [] [] false)) e
      (read_lines-Reads code incoming [] [] [] false refl no_lines tt)

none≢some : {A : Type 0} {a : A} → none ≢ some a
none≢some e = ground arith

say_sent :
    (bytes : Bytes) (remote : Remote)
    → (say bytes remote).1 ≡ true
    → (say bytes remote).0.sent ≡ remote.sent ++ bytes
unfolding say
say_sent bytes remote e =
    let after = send_all remote.calls remote.sent bytes in
    let s = send_all-SendsPart remote.calls remote.sent bytes in
    let none_left : s.rest ≡ [] = is_empty_lem s.rest (sym s.told ∙ e) in
    s.added
    ∙ ap (λ l. remote.sent ++ l)
        (sym (append-nil s.part) ∙ ap (λ l. s.part ++ l) (sym none_left) ∙ sym s.whole)

hear_sent : (code : ℕ) (remote : Remote) → (hear code remote).0.sent ≡ remote.sent
unfolding hear
hear_sent code remote = refl

-- A step that goes on only behind a test, and has succeeded.
passed :
    (b : Bool) (x : Remote × Bool) (r : Remote)
    → (if b then x else (r, false)).1 ≡ true
    → (b ≡ true) × (x.1 ≡ true) × ((if b then x else (r, false)).0 ≡ x.0)
passed true x r e = (refl, e, refl)
passed false x r e = absurd (ground arith)

order_tls_sent :
    (remote : Remote)
    → (order_tls remote).1 ≡ true
    → (order_tls remote).0.sent ≡ remote.sent ++ start_tls_command
unfolding order_tls await_ready
order_tls_sent remote e =
    let (ordered, told) = say start_tls_command remote in
    let (t, _, same) = passed told (await_ready ordered) ordered e in
    ap (λ (r : Remote). r.sent) same ∙ hear_sent 220 ordered ∙ say_sent start_tls_command remote t

ask_features_sent :
    (remote : Remote)
    → (ask_features remote).1 ≡ true
    → (ask_features remote).0.sent ≡ remote.sent ++ start_tls_command
unfolding ask_features
ask_features_sent remote e =
    let (answered, features) = hear 250 remote in
    let (t, done, same) = passed (offers_tls features) (order_tls answered) answered e in
    ap (λ (r : Remote). r.sent) same
    ∙ order_tls_sent answered done
    ∙ ap (λ b. b ++ start_tls_command) (hear_sent 250 remote)

request_tls_sent :
    (remote : Remote)
    → (request_tls remote).1 ≡ true
    → (request_tls remote).0.sent ≡ remote.sent ++ (hello ++ start_tls_command)
unfolding request_tls
request_tls_sent remote e =
    let (asked, said) = say hello remote in
    let (t, done, same) = passed said (ask_features asked) asked e in
    ap (λ (r : Remote). r.sent) same
    ∙ ask_features_sent asked done
    ∙ ap (λ b. b ++ start_tls_command) (say_sent hello remote t)
    ∙ append_assoc remote.sent hello start_tls_command

greeting_of_lem :
    (capacity : ℕ) (done : Bool) (response : Bytes) {greeting : Bytes}
    → greeting_of capacity done response ≡ some greeting
    → (done ≡ true) × (greeting ≡ take capacity response)
greeting_of_lem capacity done response e = ground arith

-- If the dialogue in front of TLS succeeds, exactly the EHLO line and the STARTTLS line were
-- sent, and the saved greeting fits its buffer.
pub prepare_smtp_start_tls_lem :
    (capacity : ℕ) (remote : Remote) {greeting : Bytes}
    → (prepare_smtp_start_tls capacity remote).1 ≡ some greeting
    → ((prepare_smtp_start_tls capacity remote).0.sent
        ≡ remote.sent ++ (hello ++ start_tls_command))
      × (length greeting ≤ capacity)
unfolding prepare_smtp_start_tls
prepare_smtp_start_tls_lem capacity remote {greeting} e = elim (Option-cases (hear 220 remote).1) [
  | inl n ↦
      let step : prepare_smtp_start_tls capacity remote ≡ ((hear 220 remote).0, none) =
        rw (n, prepare_smtp_start_tls) refl in
      absurd (none≢some (sym (ap (λ x. x.1) step) ∙ e))
  | inr (p, n) ↦
      let (greeted, _) = hear 220 remote in
      let step : prepare_smtp_start_tls capacity remote
          ≡ ((request_tls greeted).0, greeting_of capacity (request_tls greeted).1 p.0) =
        rw (n, prepare_smtp_start_tls) refl in
      let (done, same) =
        greeting_of_lem capacity (request_tls greeted).1 p.0 (sym (ap (λ x. x.1) step) ∙ e) in
      (
        ap (λ (x : Remote × Option Bytes). x.0.sent) step
            ∙ request_tls_sent greeted done
            ∙ ap (λ b. b ++ (hello ++ start_tls_command)) (hear_sent 220 remote),
        subst (λ g. length g ≤ capacity) (sym same) (length-take_le capacity p.0),
      )
]
