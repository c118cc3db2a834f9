-- ===== src/Mail/Sending.antt =====
-- `RCSendAll` and `RCSSLWriteAll` of source/macOS-daemon/RCMailProxy.c. What `send` and `SSL_write`
-- return, call by call, is a parameter; past the end of the list they fail.
use retro_cloud_sync.Prelude.{
  length, ℕ, suc, ◌≡◌, refl, ap, sym, ◌∙◌, Bool, true, false, List, [], ◌∷◌, ◌++◌, append-nil,
  append_assoc, take, drop, take-drop, is_empty, Bytes, arith,
}

-- A call of `send`: it takes some bytes, at least one, or is interrupted, or fails.
pub data Sending : Type 0 where
  takes : ℕ → Sending
  interrupted fails : Sending

-- What is left of the calls, what was sent so far, and whether all was.
pub record Sent : Type 0 where
  pub calls : List Sending
  pub bytes : Bytes
  pub all_sent : Bool

-- `RCSendAll`: `takes n` is a return value of n + 1, or of all that is left.
unfoldable pub send_all : List Sending → Bytes → Bytes → Sent
send_all calls sent [] = record { calls = calls; bytes = sent; all_sent = true }
send_all [] sent (c ∷ left) = record { calls = []; bytes = sent; all_sent = false }
send_all (interrupted ∷ calls) sent (c ∷ left) = send_all calls sent (c ∷ left)
send_all (fails ∷ calls) sent (c ∷ left) = record { calls = calls; bytes = sent; all_sent = false }
send_all (takes n ∷ calls) sent (c ∷ left) =
    send_all calls (sent ++ take (suc n) (c ∷ left)) (drop (suc n) (c ∷ left))

abbrev pub longest_write : ℕ
longest_write = 2147483647

-- `RCSSLWriteAll`: a call offers 2147483647 bytes at most, and is not repeated when it fails.
unfoldable pub ssl_write_all : List Sending → Bytes → Bytes → Sent
ssl_write_all calls sent [] = record { calls = calls; bytes = sent; all_sent = true }
ssl_write_all [] sent (c ∷ left) = record { calls = []; bytes = sent; all_sent = false }
ssl_write_all (interrupted ∷ calls) sent (c ∷ left) = record {
  calls = calls;
  bytes = sent;
  all_sent = false;
}
ssl_write_all (fails ∷ calls) sent (c ∷ left) = record {
  calls = calls;
  bytes = sent;
  all_sent = false;
}
ssl_write_all (takes n ∷ calls) sent (c ∷ left) =
    let written = take (suc n) (take longest_write (c ∷ left)) in
    ssl_write_all calls (sent ++ written) (drop (length written) (c ∷ left))

-- What was sent is a first part of the bytes, and all of them exactly if the call says so.
pub record SendsPart (sent bytes : Bytes) (after : Sent) : Type 0 where
  pub part : Bytes
  pub rest : Bytes
  pub whole : bytes ≡ part ++ rest
  pub added : after.bytes ≡ sent ++ part
  pub told : after.all_sent ≡ is_empty rest

-- A call that gives up.
pub nothing_sent :
    (calls : List Sending) (sent : Bytes) (c : ℕ) (left : Bytes)
    → SendsPart sent (c ∷ left) (record { calls = calls; bytes = sent; all_sent = false })
nothing_sent calls sent c left = record {
  part = [];
  rest = c ∷ left;
  whole = refl;
  added = sym (append-nil sent);
  told = refl;
}

pub is_empty_lem : (text : Bytes) → is_empty text ≡ true → text ≡ []
is_empty_lem [] e = refl
is_empty_lem (c ∷ text) e = absurd (ground arith)

-- Whatever calls of send return, what was sent is a first part of the bytes, in their order and
-- each once, and the function says that it is complete exactly if nothing is left.
pub send_all-SendsPart :
    (calls : List Sending) (sent bytes : Bytes) → SendsPart sent bytes (send_all calls sent bytes)
unfolding send_all
send_all-SendsPart calls sent [] = record {
  part = [];
  rest = [];
  whole = refl;
  added = sym (append-nil sent);
  told = refl;
}
send_all-SendsPart [] sent (c ∷ left) = nothing_sent [] sent c left
send_all-SendsPart (interrupted ∷ calls) sent (c ∷ left) = send_all-SendsPart calls sent (c ∷ left)
send_all-SendsPart (fails ∷ calls) sent (c ∷ left) = nothing_sent calls sent c left
send_all-SendsPart (takes n ∷ calls) sent (c ∷ left) =
    let first = take (suc n) (c ∷ left) in
    let later = send_all-SendsPart calls (sent ++ first) (drop (suc n) (c ∷ left)) in
    record {
      part = first ++ later.part;
      rest = later.rest;
      whole =
          sym (take-drop (suc n) (c ∷ left))
          ∙ ap (λ l. first ++ l) later.whole
          ∙ sym (append_assoc first later.part later.rest);
      added = later.added ∙ append_assoc sent first later.part;
      told = later.told;
    }
