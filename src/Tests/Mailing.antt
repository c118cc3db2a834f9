-- ===== src/Tests/Mailing.antt =====
-- The theorems on the mail proxy at a short SMTP dialogue.
use retro_cloud_sync.Prelude.{
  true, false, ◌≤◌, ◌≡◌, refl, List, [], ◌∷◌, ◌++◌, codes, Bytes, length, starts_with_case,
  to_lower,
}
use retro_cloud_sync.Mail.Sending.{takes, interrupted, send_all, SendsPart, send_all-SendsPart}
use retro_cloud_sync.Mail.Relay.{selects, times_out, arrives, RelayTurn, relay_connection}
use retro_cloud_sync.Mail.Relayed.{unused, IsRelayed, relay_connection-IsRelayed}
use retro_cloud_sync.Mail.Smtp.{
  Reading, got, again, read_lines, is_final, hear, say, request_tls, ask_features, order_tls,
  await_ready, read_smtp_response, Remote, hello, start_tls_command, prepare_smtp_start_tls,
}
use retro_cloud_sync.Mail.Answers.{IsRead, read_smtp_response-IsRead, prepare_smtp_start_tls_lem}

abbrev received : Bytes → List Reading
received [] = []
received (c ∷ text) = got c ∷ received text

abbrev line : Bytes → Bytes
line text = text ++ 13 ∷ 10 ∷ []

abbrev greeting : Bytes
greeting = line (codes "220 mail")

abbrev remote : Remote
remote = record {
  incoming =
      again
      ∷ received (
          greeting
          ++ line (codes "250-mail")
          ++ line (codes "250 STARTTLS")
          ++ line (codes "220 go"));
  calls = takes 3 ∷ interrupted ∷ takes 100 ∷ takes 100 ∷ [];
  sent = [];
}

send_all-SendsPart_example : SendsPart [] hello (send_all remote.calls [] hello)
send_all-SendsPart_example = send_all-SendsPart remote.calls [] hello

read_smtp_response-IsRead_example :
    IsRead 220 [] remote.incoming (read_smtp_response 220 remote.incoming).incoming greeting
unfolding read_smtp_response read_lines is_final
read_smtp_response-IsRead_example =
    read_smtp_response-IsRead 220 remote.incoming {p = (greeting, false)} refl

prepare_smtp_start_tls_lem_example :
    ((prepare_smtp_start_tls 16384 remote).0.sent ≡ hello ++ start_tls_command)
    × (length greeting ≤ 16384)
unfolding prepare_smtp_start_tls hear read_smtp_response read_lines is_final request_tls say
    send_all ask_features starts_with_case to_lower order_tls await_ready
prepare_smtp_start_tls_lem_example =
    prepare_smtp_start_tls_lem 16384 remote {greeting = greeting} refl

-- A line goes out, the server answers while TLS holds the bytes, and the mail program closes.
abbrev turns : List RelayTurn
turns =
    record {
      is_pending = false;
      selected = selects true false;
      from_local = arrives (line (codes "NOOP"));
      writes = takes 1 ∷ takes 100 ∷ [];
      is_pending_then = false;
      from_remote = arrives [];
      sends = [];
    }
    ∷ record {
      is_pending = true;
      selected = times_out;
      from_local = arrives [];
      writes = [];
      is_pending_then = true;
      from_remote = arrives (line (codes "250 ok"));
      sends = interrupted ∷ takes 100 ∷ [];
    }
    ∷ record {
      is_pending = false;
      selected = selects true true;
      from_local = arrives [];
      writes = [];
      is_pending_then = false;
      from_remote = arrives [];
      sends = [];
    }
    ∷ []

relay_connection-IsRelayed_example : IsRelayed (relay_connection turns unused unused)
relay_connection-IsRelayed_example = relay_connection-IsRelayed turns
