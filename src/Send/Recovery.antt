-- ===== src/Send/Recovery.antt =====
-- `recoverAbandonedAttempts` of service.ts.
pub mod Laws
pub mod Expired
use personal_mail_hub.Base.{
  ℕ, ◌+◌, ◌-◌, ◌*◌, Bool, true, false, ◌&&◌, ◌||◌, Option, none, some, List, [], ◌∷◌, ◌++◌, String,
  ltb, select, if◌then◌else◌,
}
use personal_mail_hub.Database.{OutboundStatus, SentCopyStatus, is_status, is_copy_status}
use personal_mail_hub.Recovery.{ControlStatus, assess_job, JobAssessment}
use personal_mail_hub.Send.{OutboundMessage}
use personal_mail_hub.Send.World.{
  World, SendEvent, send_unknown, sent_copy_unknown, record_event, update_outbound,
}
use personal_mail_hub.Send.Commit.{is_sending}

abbrev pub attempt_lease_ms : ℕ
attempt_lease_ms = 10 * 60_000

abbrev pub is_ready : ControlStatus → Bool
is_ready (ControlStatus.ready g) = true
is_ready _ = false

abbrev pub is_stale : JobAssessment → Bool
is_stale JobAssessment.stale = true
is_stale _ = false

-- `lt(stamp, expiredBefore)`, which SQL answers with null for a missing stamp. Instants are not
-- negative, so the truncated difference does no harm.
abbrev pub stamped_before : ℕ → Option ℕ → Bool
stamped_before limit none = false
stamped_before limit (some t) = ltb t limit

abbrev pub abandoned_sending : ℕ → OutboundMessage → Bool
abandoned_sending limit r = is_sending r && stamped_before limit r.sending_started_at

abbrev unstamped_or_before : ℕ → Option ℕ → Bool
unstamped_or_before limit none = true
unstamped_or_before limit (some t) = ltb t limit

abbrev pub is_appending : OutboundMessage → Bool
is_appending r = is_copy_status SentCopyStatus.appending r.sent_copy_status

abbrev pub abandoned_append : ℕ → OutboundMessage → Bool
abandoned_append limit r = is_appending r && unstamped_or_before limit r.append_started_at

abbrev pub hold_send_row : OutboundMessage → OutboundMessage
hold_send_row r = record r {
  status = OutboundStatus.outcome_unknown;
  last_error = some (record {
    code = "sending_abandoned";
    message =
        "The submission attempt recorded no outcome before the process stopped; nothing was resubmitted.";
  });
}

abbrev pub hold_append_row : OutboundMessage → OutboundMessage
hold_append_row r = record r {
  sent_copy_status = SentCopyStatus.unknown;
  last_error = some (record {
    code = "append_abandoned";
    message =
        "The Sent append attempt recorded no outcome before the process stopped; it was not retried blindly.";
  });
}

-- One hold: the guarded update, and the event where it found its row.
after_hold : SendEvent → World × Option OutboundMessage → World × Bool
after_hold e (w, none) = (w, false)
after_hold e (w, some r) = (record_event e w, true)

unfoldable pub hold_send : OutboundMessage → World → World × Bool
unfolding after_hold
hold_send row w =
    after_hold (send_unknown row.id "sending_abandoned")
      (update_outbound row.id is_sending hold_send_row w)

unfoldable pub hold_append : OutboundMessage → World → World × Bool
unfolding after_hold
hold_append row w =
    after_hold (sent_copy_unknown row.id "append_abandoned")
      (update_outbound row.id is_appending hold_append_row w)

pub record Held : Type 0 where
  pub world : World
  pub held : ℕ
  pub skipped_stale : ℕ

abbrev count_held : Held → World × Bool → Held
count_held s (w, held) = record s { world = w; held = if held then s.held + 1 else s.held }

-- One of the two loops: stale rows are counted and left alone.
unfoldable pub hold_all :
    (OutboundMessage → World → World × Bool) → ControlStatus → List OutboundMessage → Held → Held
hold_all hold status [] s = s
hold_all hold status (row ∷ rows) s = hold_all hold status rows (
    if is_stale (assess_job status row.recovery_generation)
    then record s { skipped_stale = s.skipped_stale + 1 }
    else count_held s (hold row s.world))

pub record AbandonedAttemptSummary : Type 0 where
  pub held_sends : ℕ
  pub held_appends : ℕ
  pub skipped_stale : ℕ
  pub blocked : Bool

unfoldable pub hold_sends : ℕ → World → Held
hold_sends limit w =
    hold_all hold_send w.control (select (abandoned_sending limit) w.outbound)
      (record { world = w; held = 0; skipped_stale = 0 })

unfoldable pub hold_appends : ℕ → ControlStatus → Held → Held
hold_appends limit status s =
    hold_all hold_append status (select (abandoned_append limit) s.world.outbound)
      (record s { held = 0 })

unfoldable pub recover_abandoned_attempts : ℕ → World → World × AbandonedAttemptSummary
unfolding hold_sends hold_appends
recover_abandoned_attempts now w =
    if is_ready w.control
    then (let limit = now - attempt_lease_ms in
        let sends = hold_sends limit w in
        let appends = hold_appends limit w.control sends in
        (
          appends.world,
          record {
            held_sends = sends.held;
            held_appends = appends.held;
            skipped_stale = appends.skipped_stale;
            blocked = false;
          },
        ))
    else (w, record { held_sends = 0; held_appends = 0; skipped_stale = 0; blocked = true })
