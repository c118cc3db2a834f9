-- ===== src/Mail/Relay.antt =====
-- `RCRelayConnection` of source/macOS-daemon/RCMailProxy.c. What `select`, `recv`, `SSL_read`, `SSL_pending`
-- and the calls that write return, turn by turn, is a parameter.
use retro_cloud_sync.Prelude.{
  Bool, true, false, ◌||◌, Option, none, some, List, [], ◌∷◌, ◌++◌, if◌then◌else◌, Bytes,
}
use retro_cloud_sync.Mail.Sending.{Sending, Sent, send_all, ssl_write_all}

-- The last call of `select` in a turn, the one that is not interrupted.
pub data Selected : Type 0 where
  select_fails times_out : Selected
  selects : (local_ready : Bool) → (remote_ready : Bool) → Selected

-- A call of `recv` or `SSL_read`: it returns 0 where the bytes are empty.
pub data Arrival : Type 0 where
  arrives : Bytes → Arrival
  read_fails : Arrival

-- What the calls of one turn of the loop return, of those that it makes.
pub record RelayTurn : Type 0 where
  pub is_pending : Bool
  pub selected : Selected
  pub from_local : Arrival
  pub writes : List Sending
  pub is_pending_then : Bool
  pub from_remote : Arrival
  pub sends : List Sending

-- What was read at one end, and what was written at the other.
pub record Direction : Type 0 where
  pub heard : Bytes
  pub told : Bytes

abbrev pub outcome_of : Bool → Option Bool
outcome_of all_sent = if all_sent then none else some false

-- A read and the write of what it returns, with the return value if the function returns.
unfoldable pub pass_on : (Bytes → Bytes → Sent) → Arrival → Direction → Direction × Option Bool
pass_on write read_fails way = (way, some false)
pass_on write (arrives []) way = (way, some true)
pass_on write (arrives (c ∷ bytes)) way =
    let after = write way.told (c ∷ bytes) in
    (record { heard = way.heard ++ c ∷ bytes; told = after.bytes }, outcome_of after.all_sent)

-- The bytes that went out and came in, and the return value if there is one.
pub record Relayed : Type 0 where
  pub outward : Direction
  pub inward : Direction
  pub returned : Option Bool

-- The second half of a turn.
unfoldable pub relay_inward : Bool → RelayTurn → Direction → Direction → Relayed
relay_inward ready turn outward inward =
    let (inward_then, returned) =
      if turn.is_pending_then || ready
      then pass_on (send_all turn.sends) turn.from_remote inward
      else (inward, none) in
    record { outward = outward; inward = inward_then; returned = returned }

-- Both halves: the second one is left out where the first one returns.
unfoldable pub relay_ready : Bool → Bool → RelayTurn → Direction → Direction → Relayed
relay_ready local_ready remote_ready turn outward inward =
    let (outward_then, returned) =
      if local_ready
      then pass_on (ssl_write_all turn.writes) turn.from_local outward
      else (outward, none) in
    elim returned [
      | none ↦ relay_inward remote_ready turn outward_then inward
      | some r ↦ record { outward = outward_then; inward = inward; returned = some r }
    ]

-- A turn with a `select`.
unfoldable pub relay_selected : Selected → RelayTurn → Direction → Direction → Relayed
relay_selected select_fails turn outward inward = record {
  outward = outward;
  inward = inward;
  returned = some false;
}
relay_selected times_out turn outward inward = record {
  outward = outward;
  inward = inward;
  returned = none;
}
relay_selected (selects local_ready remote_ready) turn outward inward =
    relay_ready local_ready remote_ready turn outward inward

-- One turn: where TLS holds bytes, there is no `select`, and the local socket waits.
unfoldable pub relay_turn : RelayTurn → Direction → Direction → Relayed
relay_turn turn outward inward =
    if turn.is_pending
    then relay_ready false true turn outward inward
    else relay_selected turn.selected turn outward inward

-- `RCRelayConnection`, as far as the turns go: it runs on where nothing is returned.
unfoldable pub relay_connection : List RelayTurn → Direction → Direction → Relayed
relay_connection [] outward inward = record { outward = outward; inward = inward; returned = none }
relay_connection (turn ∷ turns) outward inward =
    let after = relay_turn turn outward inward in
    elim after.returned [
      | none ↦ relay_connection turns after.outward after.inward
      | some r ↦ after
    ]
