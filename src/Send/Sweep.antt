-- ===== src/Send/Sweep.antt =====
-- The three sweeps of service.ts: `executeQueued`, `appendDueSentCopies` and
-- `reconcileUnknownOutcomes`.
pub mod Counts
pub mod Laws
use personal_mail_hub.Base.{
  ℕ, ◌+◌, Bool, true, false, not, ◌&&◌, Option, none, some, List, [], ◌∷◌, map, String, str_eq, ltb,
  leb, take, any, select, length, if◌then◌else◌,
}
use personal_mail_hub.Database.{
  OutboundStatus, SentCopyStatus, is_status, is_copy_status, is_sent_role,
}
use personal_mail_hub.Recovery.{ControlStatus, assess_job}
use personal_mail_hub.Send.{Folder, OutboundMessage}
use personal_mail_hub.Send.World.{World, Result, ok, err, Answer}
use personal_mail_hub.Send.Commit.{Env}
use personal_mail_hub.Send.SentCopy.{Session, is_open_copy, sweep_attempt_cap}
use personal_mail_hub.Send.Outbound
use personal_mail_hub.Send.Outbound.{is_queued, execute_outbound}
use personal_mail_hub.Send.Append
use personal_mail_hub.Send.Append.{execute_sent_copy_append}
use personal_mail_hub.Send.Reconcile
use personal_mail_hub.Send.Reconcile.{is_unknown, reconcile_unknown_outcome}
use personal_mail_hub.Send.Recovery.{is_ready, is_stale}

abbrev pub default_send_sweep_limit : ℕ
default_send_sweep_limit = 10

-- `orderBy(asc(createdAt))`, older rows first and equal instants in the order of the table.
abbrev insert_by_age : OutboundMessage → List OutboundMessage → List OutboundMessage
insert_by_age r [] = r ∷ []
insert_by_age r (x ∷ xs) =
    let rest = insert_by_age r xs in if leb r.created_at x.created_at then r ∷ x ∷ xs else x ∷ rest

abbrev by_age : List OutboundMessage → List OutboundMessage
by_age [] = []
by_age (r ∷ rs) = insert_by_age r (by_age rs)

-- The window of one pass.
abbrev pub window : ℕ → (OutboundMessage → Bool) → List OutboundMessage → List OutboundMessage
window limit due rows = take limit (by_age (select due rows))

pub record SweepSummary : Type 0 where
  pub scanned : ℕ
  -- `submitted`, `attempted` or `resolved`
  pub done : ℕ
  pub skipped_stale : ℕ
  pub row_errors : ℕ
  pub blocked : Bool

pub record Pass : Type 0 where
  pub world : World
  pub done : ℕ
  pub skipped_stale : ℕ
  pub row_errors : ℕ

-- One call for a row: whether it did its work, or nothing where it threw.
abbrev pub Call : Type 0
Call = String → World → Option Bool × World

abbrev pub count_call : Pass → Option Bool × World → Pass
count_call s (none, w) = record s { world = w; row_errors = s.row_errors + 1 }
count_call s (some done, w) = record s { world = w; done = if done then s.done + 1 else s.done }

-- The loop: a stale row is counted and left alone, and a row that throws does not end the pass.
unfoldable pub sweep_rows : Call → ControlStatus → List OutboundMessage → Pass → Pass
sweep_rows call status [] s = s
sweep_rows call status (row ∷ rows) s = sweep_rows call status rows (
    if is_stale (assess_job status row.recovery_generation)
    then record s { skipped_stale = s.skipped_stale + 1 }
    else count_call s (call row.id s.world))

abbrev pub started : World → Pass
started w = record { world = w; done = 0; skipped_stale = 0; row_errors = 0 }

abbrev summary_of : ℕ → Pass → World × SweepSummary
summary_of scanned s = (
  s.world,
  record {
    scanned = scanned;
    done = s.done;
    skipped_stale = s.skipped_stale;
    row_errors = s.row_errors;
    blocked = false;
  },
)

unfoldable pub sweep : Call → ℕ → (World → OutboundMessage → Bool) → World → World × SweepSummary
sweep call limit due w =
    if is_ready w.control
    then (let rows = window limit (due w) w.outbound in
        summary_of (length rows) (sweep_rows call w.control rows (started w)))
    else (w, record { scanned = 0; done = 0; skipped_stale = 0; row_errors = 0; blocked = true })

abbrev submitted_of : Outbound.Outcome → Option Bool × World
submitted_of (ok (row, submitted), w) = (some submitted, w)
submitted_of (err e, w) = (none, w)

abbrev attempted_of : Append.Outcome → Option Bool × World
attempted_of (ok (row, attempted), w) = (some attempted, w)
attempted_of (err e, w) = (none, w)

abbrev reconciled_of : Reconcile.Outcome → Option Bool × World
reconciled_of (ok (row, reconciled, reason), w) = (some reconciled, w)
reconciled_of (err e, w) = (none, w)

unfoldable pub execute_queued : Env → ℕ → World → World × SweepSummary
execute_queued env limit w =
    sweep (λ id v. submitted_of (execute_outbound env id v)) limit (λ v r. is_queued r) w

abbrev missing_sent_folder : List Folder → OutboundMessage → Bool
missing_sent_folder folders row = not (
    any
      (λ (f : Folder).
        str_eq f.account_id row.account_id
        && elim f.role [ none ↦ false | some role ↦ is_sent_role role ])
      folders)

abbrev pub copy_due : World → OutboundMessage → Bool
copy_due w r =
    is_status OutboundStatus.sent r.status
    && is_open_copy r.sent_copy_status
    && ltb r.sent_copy_attempts sweep_attempt_cap
    && not (
        not (is_copy_status SentCopyStatus.pending r.sent_copy_status)
        && missing_sent_folder w.folders r)

unfoldable pub append_due_sent_copies :
    Env → Option (String → Answer Session) → ℕ → World → World × SweepSummary
append_due_sent_copies env open_sent_copy limit w =
    sweep (λ id v. attempted_of (execute_sent_copy_append env open_sent_copy id v)) limit copy_due w

abbrev pub unknown_due : World → OutboundMessage → Bool
unknown_due w r =
    is_unknown r
    && ltb r.reconcile_attempts sweep_attempt_cap
    && not (missing_sent_folder w.folders r)

unfoldable pub reconcile_unknown_outcomes :
    Env → Option (String → Answer Session) → ℕ → World → World × SweepSummary
reconcile_unknown_outcomes env open_sent_copy limit w =
    sweep (λ id v. reconciled_of (reconcile_unknown_outcome env open_sent_copy id v)) limit
      unknown_due w
