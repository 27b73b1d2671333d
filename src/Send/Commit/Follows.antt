-- ===== src/Send/Commit/Follows.antt =====
-- The closing transactions as moves of rows.
use personal_mail_hub.Base.{true, ◌≡◌, refl, ap, inl, inr, arith, String}
use personal_mail_hub.Database.{OutboundStatus, is_status}
use personal_mail_hub.Send.{OutboundMessage, SmtpSubmitReport}
use personal_mail_hub.Send.World.{World}
use personal_mail_hub.Send.Status.{
  Step, refuse, lose, Reaches, here, next, Follows, Follows-refl, Follows-eq, update-Follows,
}
use personal_mail_hub.Send.Commit.{
  Env, FailureOutcome, is_sending, fail_row, unknown_row, record_failure, record_unknown,
  Acceptance, accept_row, commit_acceptance,
}
use personal_mail_hub.Send.Commit.Cases.{record_failure_cases, commit_acceptance_cases}

pub is_status-eq : (a b : OutboundStatus) → is_status a b ≡ true → b ≡ a
is_status-eq a b h = ground arith

-- One transition from the status that a guard admits.
pub Reaches-once :
    (a b : OutboundStatus) {c : OutboundStatus} → Step a c → is_status a b ≡ true → Reaches b c
Reaches-once a b step h = rw (is_status-eq a b h) (next here step)

-- What an operation leaves alone: the control state, the storage, the folders and the network.
pub record Quiet (w w' : World) : Type 0 where
  pub control : w'.control ≡ w.control
  pub durable : w'.durable ≡ w.durable
  pub folders : w'.folders ≡ w.folders
  pub submitted : w'.submitted ≡ w.submitted
  pub appended : w'.appended ≡ w.appended

pub Quiet-eq : {w w' : World} → w' ≡ w → Quiet w w'
Quiet-eq e =
    rw e
      (record { control = refl; durable = refl; folders = refl; submitted = refl; appended = refl })

module _ (row : OutboundMessage) (outcome : FailureOutcome) (w : World) where
  pub record_failure-Follows : Follows w.outbound (record_failure row outcome w).1.outbound
  record_failure-Follows = elim (record_failure_cases row outcome w) [
    | inl (r, _, _, e) ↦ rw e (
        update-Follows is_sending (fail_row outcome) (λ r. refl)
          (λ r h. Reaches-once OutboundStatus.sending r.status refuse h) row.id w.outbound)
    | inr (_, e) ↦ rw e (Follows-refl w.outbound)
  ]

  pub record_failure-Quiet : Quiet w (record_failure row outcome w).1
  record_failure-Quiet = elim (record_failure_cases row outcome w) [
    | inl (r, _, _, e) ↦ rw e (record {
      control = refl;
      durable = refl;
      folders = refl;
      submitted = refl;
      appended = refl;
    })
    | inr (_, e) ↦ Quiet-eq (ap (λ p. p.1) e)
  ]

module _ (row : OutboundMessage) (report : SmtpSubmitReport) (w : World) where
  pub record_unknown-Follows : Follows w.outbound (record_unknown row report w).1.outbound
  unfolding record_unknown
  record_unknown-Follows =
      update-Follows is_sending (unknown_row row report) (λ r. refl)
        (λ r h. Reaches-once OutboundStatus.sending r.status lose h) row.id w.outbound

  pub record_unknown-Quiet : Quiet w (record_unknown row report w).1
  unfolding record_unknown
  record_unknown-Quiet = record {
    control = refl;
    durable = refl;
    folders = refl;
    submitted = refl;
    appended = refl;
  }

module _ (env : Env) (row : OutboundMessage) (input : Acceptance) (w : World) where
  accept_row-snapshot :
      (message : String) (r : OutboundMessage)
      → (accept_row env.now input message r).snapshot ≡ r.snapshot
  accept_row-snapshot message r = ground arith

  accept_row-status :
      (message : String) (r : OutboundMessage)
      → (accept_row env.now input message r).status ≡ OutboundStatus.sent
  accept_row-status message r = ground arith

  pub commit_acceptance-Follows :
      Step input.from_status OutboundStatus.sent
      → Follows w.outbound (commit_acceptance env row input w).1.outbound
  commit_acceptance-Follows step = elim (commit_acceptance_cases env row input w) [
    | inl a ↦ rw (a.result) (
        update-Follows (λ r. is_status input.from_status r.status)
          (accept_row env.now input a.message) (accept_row-snapshot a.message)
          (λ r h.
            rw (accept_row-status a.message r) (Reaches-once input.from_status r.status step h))
          row.id w.outbound)
    | inr e ↦ Follows-eq (ap (λ (v : World). v.outbound) e)
  ]

  pub commit_acceptance-Quiet : Quiet w (commit_acceptance env row input w).1
  commit_acceptance-Quiet = elim (commit_acceptance_cases env row input w) [
    | inl a ↦ rw (a.result) (record {
      control = refl;
      durable = refl;
      folders = refl;
      submitted = refl;
      appended = refl;
    })
    | inr e ↦ Quiet-eq e
  ]
