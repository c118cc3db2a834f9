-- ===== src/Mail/Smtp.antt =====
-- `RCReadSMTPResponse` and `RCPrepareSMTPStartTLS` of source/macOS-daemon/RCMailProxy.c.
use retro_cloud_sync.Prelude.{
  ℕ, ◌+◌, ◌/◌, ◌%◌, Bool, true, false, ◌&&◌, ◌||◌, Option, none, some, is_some, List, [], ◌∷◌, ◌++◌,
  ◌==◌, ltb, leb, length, take, drop, if◌then◌else◌, Bytes, codes, starts_with_case,
}
use retro_cloud_sync.Mail.Sending.{Sending, send_all}

-- A call of `recv` for one byte.
pub data Reading : Type 0 where
  got : ℕ → Reading
  again ended : Reading

-- RC_SMTP_RESPONSE_LIMIT.
abbrev pub smtp_response_limit : ℕ
smtp_response_limit = 16384

-- The last line of a response: the expected code and a space.
unfoldable pub is_final : ℕ → Bytes → Bool
is_final code (a ∷ b ∷ c ∷ d ∷ line) =
    a == b'0' + code / 100 && b == b'0' + code / 10 % 10 && c == b'0' + code % 10 && d == b' '
is_final code _ = false

abbrev pub names_start_tls : Bytes → Bool
names_start_tls line = leb 12 (length line) && starts_with_case (drop 4 line) (codes "STARTTLS")

-- The calls of `recv` that are left, and the response with whether it names STARTTLS.
pub record SmtpResponse : Type 0 where
  pub incoming : List Reading
  pub outcome : Option (Bytes × Bool)

abbrev pub no_answer : List Reading → SmtpResponse
no_answer incoming = record { incoming = incoming; outcome = none }

-- The loop of `RCReadSMTPResponse`: `response` ends with `line`, the part from `lineStart` on.
unfoldable pub read_lines : ℕ → List Reading → Bytes → Bytes → Bool → SmtpResponse
read_lines code [] response line start_tls = no_answer []
read_lines code (event ∷ events) response line start_tls =
    elim (ltb (length response + 1) smtp_response_limit) [
      | false ↦ no_answer (event ∷ events)
      | true ↦ elim event [
        | again ↦ read_lines code events response line start_tls
        | ended ↦ no_answer events
        | got c ↦ elim (c == b'\n') [
          | false ↦ read_lines code events (response ++ c ∷ []) (line ++ c ∷ []) start_tls
          | true ↦ elim (is_final code (line ++ c ∷ [])) [
            | true ↦ record {
              incoming = events;
              outcome = some (response ++ c ∷ [], start_tls || names_start_tls (line ++ c ∷ []));
            }
            | false ↦
                read_lines code events (response ++ c ∷ []) []
                  (start_tls || names_start_tls (line ++ c ∷ []))
          ]
        ]
      ]
    ]

-- `RCReadSMTPResponse`.
unfoldable pub read_smtp_response : ℕ → List Reading → SmtpResponse
read_smtp_response code incoming = read_lines code incoming [] [] false

-- The remote socket: what it will receive and take, and what was sent to it.
pub record Remote : Type 0 where
  pub incoming : List Reading
  pub calls : List Sending
  pub sent : Bytes

abbrev pub hello : Bytes
hello = codes "EHLO localhost" ++ 13 ∷ 10 ∷ []

abbrev pub start_tls_command : Bytes
start_tls_command = codes "STARTTLS" ++ 13 ∷ 10 ∷ []

-- One read, and the test of what it returns.
unfoldable pub hear : ℕ → Remote → Remote × Option (Bytes × Bool)
hear code remote =
    let answer = read_smtp_response code remote.incoming in
    (record remote { incoming = answer.incoming }, answer.outcome)

unfoldable pub say : Bytes → Remote → Remote × Bool
say bytes remote =
    let after = send_all remote.calls remote.sent bytes in
    (record remote { calls = after.calls; sent = after.bytes }, after.all_sent)

-- The steps behind the greeting, the last one first.
unfoldable pub await_ready : Remote → Remote × Bool
await_ready ordered = let (ready, accepted) = hear 220 ordered in (ready, is_some accepted)

unfoldable pub order_tls : Remote → Remote × Bool
order_tls answered =
    let (ordered, told) = say start_tls_command answered in
    if told then await_ready ordered else (ordered, false)

abbrev pub offers_tls : Option (Bytes × Bool) → Bool
offers_tls none = false
offers_tls (some p) = p.1

unfoldable pub ask_features : Remote → Remote × Bool
ask_features asked =
    let (answered, features) = hear 250 asked in
    if offers_tls features then order_tls answered else (answered, false)

unfoldable pub request_tls : Remote → Remote × Bool
request_tls greeted =
    let (asked, said) = say hello greeted in if said then ask_features asked else (asked, false)

abbrev pub greeting_of : ℕ → Bool → Bytes → Option Bytes
greeting_of capacity done response = if done then some (take capacity response) else none

-- `RCPrepareSMTPStartTLS`: the saved greeting, if all goes well.
unfoldable pub prepare_smtp_start_tls : ℕ → Remote → Remote × Option Bytes
prepare_smtp_start_tls capacity remote =
    let (greeted, greeting) = hear 220 remote in
    elim greeting [
      | none ↦ (greeted, none)
      | some p ↦ let (ready, done) = request_tls greeted in (ready, greeting_of capacity done p.0)
    ]
