-- ===== src/Send/Outbound/Moves.antt =====
-- Laws of `executeOutbound` on tables and on the network.
use personal_mail_hub.Base.{
  ℕ, true, false, ◌≡◌, ◌≢◌, refl, ap, ◌⊎◌, inl, inr, Option, none, some, [], ◌∷◌, ◌++◌, String,
  str_eq, eq_iff,
}
use personal_mail_hub.Database.{OutboundStatus, is_status}
use personal_mail_hub.Send.{
  Bytes, OutboundMessage, SmtpCredentials, SmtpSubmitReport, SmtpSubmitState,
}
use personal_mail_hub.Send.World.{
  World, Result, ok, err, find_outbound, find_outbound-update_self, storage_get, owns,
}
use personal_mail_hub.Send.Status.{
  claim, accept, refuse, lose, resolve, Reaches, here, next, FollowsRow, Follows, Follows-eq,
  Follows-trans, update-Follows,
}
use personal_mail_hub.Send.Commit.{
  Env, FailureOutcome, Acceptance, record_failure, record_unknown, commit_acceptance,
}
use personal_mail_hub.Send.Commit.Follows.{
  is_status-eq, Reaches-once, record_failure-Follows, record_unknown-Follows,
  commit_acceptance-Follows, record_failure-Quiet, record_unknown-Quiet, commit_acceptance-Quiet,
  Quiet,
}
use personal_mail_hub.Send.Outbound.{
  Outcome, as_submitted, is_queued, claim_row, claim_outbound, request_of, record_report,
  execute_outbound,
}
use personal_mail_hub.Send.Outbound.Cases.{
  Worked, failed_locally, did_submit, execute_outbound_cases,
}

pub as_submitted-world : (r : Result OutboundMessage × World) → (as_submitted r).1 ≡ r.1
as_submitted-world (ok row, w) = refl
as_submitted-world (err e, w) = refl

-- What holds after each of the three closing transactions holds after a report is recorded.
module _ (P : World → Type 0) (env : Env) (row : OutboundMessage) (bytes : Bytes) (w : World)
    (accepts : (input : Acceptance)
      → input.from_status ≡ OutboundStatus.sending
      → P (commit_acceptance env row input w).1)
    (fails : (o : FailureOutcome) → P (record_failure row o w).1)
    (loses : (report : SmtpSubmitReport) → P (record_unknown row report w).1) where
  as_submitted-holds : (r : Result OutboundMessage × World) → P r.1 → P (as_submitted r).1
  as_submitted-holds (ok row', w') h = h
  as_submitted-holds (err e, w') h = h

  record_report-holds : (report : SmtpSubmitReport) → P (record_report env row bytes report w).1
  unfolding record_report
  record_report-holds report = by_state report.state refl
    where
      by_state :
          (s : SmtpSubmitState) → report.state ≡ s → P (record_report env row bytes report w).1
      by_state SmtpSubmitState.accepted e =
          rw (e, record_report) (as_submitted-holds _ (accepts _ refl))
      by_state SmtpSubmitState.rejected e = rw (e, record_report) (as_submitted-holds _ (fails _))
      by_state SmtpSubmitState.unknown e = rw (e, record_report) (as_submitted-holds _ (loses _))

module _ (env : Env) (row : OutboundMessage) (bytes : Bytes) (w : World)
    (report : SmtpSubmitReport) where
  pub record_report-Follows : Follows w.outbound (record_report env row bytes report w).1.outbound
  record_report-Follows =
      record_report-holds (λ v. Follows w.outbound v.outbound) env row bytes w
        (λ input e. commit_acceptance-Follows env row input w (rw e accept))
        (λ o. record_failure-Follows row o w) (λ r. record_unknown-Follows row r w) report

  pub record_report-Quiet : Quiet w (record_report env row bytes report w).1
  record_report-Quiet =
      record_report-holds (Quiet w) env row bytes w
        (λ input e. commit_acceptance-Quiet env row input w) (λ o. record_failure-Quiet row o w)
        (λ r. record_unknown-Quiet row r w) report

module _ (env : Env) (row : OutboundMessage) (w : World) (r : Outcome) where
  Worked-Follows : Worked env row w r → Follows w.outbound r.1.outbound
  Worked-Follows (failed_locally o e) =
      rw e (rw (as_submitted-world (record_failure row o w)) (record_failure-Follows row o w))
  Worked-Follows (did_submit bytes credentials report stored same e) =
      rw e (record_report-Follows env row bytes _ report)

  -- The network after the claimer's work: at most one request more.
  Worked-submitted :
      Worked env row w r
      → (r.1.submitted ≡ w.submitted)
        ⊎ ((bytes : Bytes) × (credentials : SmtpCredentials) × (storage_get row.mime_storage_key
                w.durable
              ≡ some bytes)
            × (str_eq (env.sha256_hex bytes) row.mime_sha256 ≡ true)
            × (r.1.submitted ≡ w.submitted ++ request_of row credentials bytes ∷ []))
  Worked-submitted (failed_locally o e) = inl (
      rw e (
        rw (as_submitted-world (record_failure row o w))
          ((record_failure-Quiet row o w).submitted)))
  Worked-submitted (did_submit bytes credentials report stored same e) = inr (
    bytes,
    credentials,
    stored,
    same,
    rw e ((record_report-Quiet env row bytes _ report).submitted),
  )

claim-Follows :
    (now : ℕ) (id : String) (w : World) → Follows w.outbound (claim_outbound now id w).0.outbound
claim-Follows now id w =
    update-Follows is_queued (claim_row now) (λ r. refl)
      (λ r h. Reaches-once OutboundStatus.queued r.status claim h) id w.outbound

-- Whatever happens in a call, each row keeps its frozen snapshot and its status moves along the
-- transitions only; no row appears or disappears.
pub execute_outbound-Follows :
    (env : Env) (id : String) (w : World)
    → Follows w.outbound (execute_outbound env id w).1.outbound
execute_outbound-Follows env id w = elim (execute_outbound_cases env id w) [
  | inl same ↦ Follows-eq (ap (λ (v : World). v.outbound) same)
  | inr c ↦
      Follows-trans w.outbound (claim_outbound env.now id w).0.outbound _
        (claim-Follows env.now id w) (Worked-Follows env _ _ _ c.worked)
]

-- Nothing returns to the queue.
Reaches-not_queued :
    {s t : OutboundStatus}
    → Reaches s t
    → is_status OutboundStatus.queued s ≡ false
    → is_status OutboundStatus.queued t ≡ false
Reaches-not_queued here h = h
Reaches-not_queued (next p claim) h = refl
Reaches-not_queued (next p accept) h = refl
Reaches-not_queued (next p refuse) h = refl
Reaches-not_queued (next p lose) h = refl
Reaches-not_queued (next p resolve) h = refl

abbrev pub LeftQueue : Option OutboundMessage → Type 0
LeftQueue none = ⊥
LeftQueue (some r) = is_queued r ≡ false

pub FollowsRow-LeftQueue :
    (a b : Option OutboundMessage) → FollowsRow a b → LeftQueue a → LeftQueue b
FollowsRow-LeftQueue none b f h = absurd h
FollowsRow-LeftQueue (some r) none f h = f
FollowsRow-LeftQueue (some r) (some s) f h = Reaches-not_queued f.1 h

pub claimed-LeftQueue :
    (now : ℕ) (id : String) (w : World) (before : OutboundMessage)
    → find_outbound id w ≡ some before
    → is_queued before ≡ true
    → LeftQueue (find_outbound id (claim_outbound now id w).0)
claimed-LeftQueue now id w before found queued =
    rw (find_outbound-update_self is_queued (claim_row now) (λ r. refl) id w.outbound)
      (rw found (rw queued refl))

-- One request more: the stored bytes of a queued row, and the row has left the queue.
abbrev pub Handed : Env → String → World → World → Type 0
Handed env id w w' =
    (row : OutboundMessage) × (bytes : Bytes) × (credentials : SmtpCredentials) × (find_outbound id
        w
      ≡ some row)
    × (row.status ≡ OutboundStatus.queued)
    × (owns w.control row ≡ true)
    × (storage_get row.mime_storage_key w.durable ≡ some bytes)
    × (env.sha256_hex bytes ≡ row.mime_sha256)
    × (w'.submitted ≡ w.submitted ++ request_of row credentials bytes ∷ [])
    × LeftQueue (find_outbound id w')

-- A call hands at most one request to SMTP. It does so only for a queued row of the generation that
-- the service is ready under, the request carries the stored bytes under the frozen hash and the
-- frozen envelope, and the row has left the queue afterwards.
pub execute_outbound-submits :
    (env : Env) (id : String) (w : World)
    → let w' = (execute_outbound env id w).1 in (w'.submitted ≡ w.submitted) ⊎ Handed env id w w'
execute_outbound-submits env id w = elim (execute_outbound_cases env id w) [
  | inl same ↦ inl (ap (λ (v : World). v.submitted) same)
  | inr c ↦ elim (Worked-submitted env _ _ _ c.worked) [
    | inl none_sent ↦ inl none_sent
    | inr (bytes, credentials, stored, same, sent) ↦
        let left =
          FollowsRow-LeftQueue _ _ (Worked-Follows env _ _ _ c.worked id)
            (claimed-LeftQueue env.now id w c.before c.found c.queued) in
        inr (
          c.before,
          bytes,
          credentials,
          c.found,
          is_status-eq OutboundStatus.queued c.before.status c.queued,
          c.owned,
          stored,
          (eq_iff (env.sha256_hex bytes) c.before.mime_sha256).0 same,
          sent,
          left,
        )
  ]
]

-- A row that has left the queue is never submitted again: a call for it changes nothing at all.
pub execute_outbound_settled :
    (env : Env) (id : String) (w : World) (row : OutboundMessage)
    → find_outbound id w ≡ some row
    → row.status ≢ OutboundStatus.queued
    → (execute_outbound env id w).1 ≡ w
execute_outbound_settled env id w row found settled = elim (execute_outbound_cases env id w) [
  | inl same ↦ same
  | inr c ↦
      let same : row ≡ c.before = cc (found, c.found) in
      absurd (settled (is_status-eq OutboundStatus.queued row.status (rw same (c.queued))))
]
