-- ===== src/Send/Interleaving/Runs.antt =====
-- `executeOutbound` as steps of the interleaved system.
use personal_mail_hub.Base.{true, ◌≡◌, refl, sym, inl, inr, some, [], ◌∷◌, ◌++◌, String}
use personal_mail_hub.Send.{OutboundMessage}
use personal_mail_hub.Send.World.{World, find_outbound}
use personal_mail_hub.Send.Commit.{Env, record_failure}
use personal_mail_hub.Send.Outbound.{
  Outcome, is_queued, claim_row, claim_outbound, request_of, record_report, execute_outbound,
}
use personal_mail_hub.Send.Outbound.Cases.{
  Worked, failed_locally, did_submit, execute_outbound_cases,
}
use personal_mail_hub.Send.Outbound.Moves.{as_submitted-world}
use personal_mail_hub.Send.Interleaving.{
  System, handed_over, claim, submit, fail, report, Steps, done, more,
}

-- The calling worker is done, and the others stand where they stood.
abbrev Ran : System → World → Type 0
Ran s w =
    (s' : System) × Steps s s'
    × (s'.world ≡ w)
    × (s'.claimed ≡ s.claimed)
    × (s'.unrecorded ≡ s.unrecorded)

module _ (env : Env) (id : String) (s : System) where
  abbrev after_claim : OutboundMessage → System
  after_claim row = record s {
    world = (claim_outbound env.now id s.world).0;
    claimed = row ∷ s.claimed;
  }

  claim_returns :
      (before : OutboundMessage)
      → find_outbound id s.world ≡ some before
      → is_queued before ≡ true
      → (claim_outbound env.now id s.world).1 ≡ some (claim_row env.now before)
  claim_returns before found queued = rw found (rw queued refl)

  module _ (row : OutboundMessage) (first : Steps s (after_claim row)) (r : Outcome) where
    Worked-Ran : Worked env row (claim_outbound env.now id s.world).0 r → Ran s r.1
    Worked-Ran (failed_locally o e) = (
      record s { world = (record_failure row o (after_claim row).world).1 },
      more env first (fail [] s.claimed row o refl refl),
      rw e (sym (as_submitted-world (record_failure row o (after_claim row).world))),
      refl,
      refl,
    )
    Worked-Ran (did_submit bytes credentials answer stored same e) =
        let request = request_of row credentials bytes in
        let sent : System = record {
          world = handed_over (after_claim row).world request;
          claimed = s.claimed;
          unrecorded = (row, bytes) ∷ s.unrecorded;
          log = s.log ++ (row.id, request) ∷ [];
        } in
        (
          record sent {
            world = (record_report env row bytes answer sent.world).1;
            unrecorded = s.unrecorded;
          },
          more env
              (more env first (submit [] s.claimed row bytes credentials refl stored same refl))
              (report [] s.unrecorded row bytes answer refl refl),
          rw e refl,
          refl,
          refl,
        )

-- Every call of `executeOutbound` is a run of the interleaved system: it reaches the world that the
-- call leaves, with the other workers where they stood.
pub execute_outbound-Steps :
    (env : Env) (id : String) (s : System)
    → (s' : System) × Steps s s'
      × (s'.world ≡ (execute_outbound env id s.world).1)
      × (s'.claimed ≡ s.claimed)
      × (s'.unrecorded ≡ s.unrecorded)
execute_outbound-Steps env id s = elim (execute_outbound_cases env id s.world) [
  | inl same ↦ (s, done, sym same, refl, refl)
  | inr c ↦
      let row = claim_row env.now c.before in
      Worked-Ran env id s row
        (more env done (claim id row (claim_returns env id s c.before c.found c.queued) refl)) _
        c.worked
]
