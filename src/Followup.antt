-- ===== src/Followup.antt =====
-- The delay before the next sync: `RCSyncFollowupDelay` of source/shared/RCSyncFollowup.h.
use retro_cloud_sync.Prelude.{ℕ, ◌≡◌, ◌⊎◌, Bool, true, false, not, ◌&&◌, if◌then◌else◌, arith}

-- The flag `*followup` and the delay.
unfoldable pub sync_followup_delay : Bool → Bool → ℕ → Bool × ℕ
sync_followup_delay uploaded followup interval =
    if uploaded && not followup then (true, 0) else (false, interval)

-- Of two syncs in a row, one at least waits for the whole interval: uploads in a follow-up do
-- not start another one.
pub sync_followup_delay-sync_followup_delay :
    (first second followup : Bool) (interval : ℕ)
    → let one = sync_followup_delay first followup interval in
      let two = sync_followup_delay second one.0 interval in (one.1 ≡ interval) ⊎ (two.1 ≡ interval)
unfolding sync_followup_delay
sync_followup_delay-sync_followup_delay first second followup interval = ground arith
