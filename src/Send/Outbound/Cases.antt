-- ===== src/Send/Outbound/Cases.antt =====
-- What one call of `executeOutbound` does to the world, case by case.
use personal_mail_hub.Base.{
  true, ◌&&◌, ◌≡◌, refl, ◌⊎◌, inl, inr, Option, none, some, [], ◌∷◌, ◌++◌, arith, String, str_eq,
  Bool-cases, Option-cases,
}
use personal_mail_hub.Send.{
  Bytes, OutboundMessage, SmtpCredentials, SmtpSubmitRequest, SmtpSubmitReport,
}
use personal_mail_hub.Send.World.{
  World, Answer, answered, threw, valid_uuid, find_outbound, storage_get, owns,
}
use personal_mail_hub.Send.Commit.{Env, FailureOutcome, record_failure}
use personal_mail_hub.Send.Outbound.{
  Outcome, as_submitted, is_queued, claim_row, claim_outbound, request_of, report_of, record_report,
  submit_with, submit_bytes, after_claim, execute_found, execute_configured, execute_outbound,
}

abbrev pub submitting : World → SmtpSubmitRequest → World
submitting w request = record w { submitted = w.submitted ++ request ∷ [] }

-- The claimer's work in the world that the claim leaves: a local failure, or one submission of the
-- stored bytes.
pub data Worked (env : Env) (row : OutboundMessage) (w : World) (r : Outcome) : Type 0 where
  failed_locally :
      (o : FailureOutcome) → r ≡ as_submitted (record_failure row o w) → Worked env row w r
  did_submit :
      (bytes : Bytes) (credentials : SmtpCredentials) (report : SmtpSubmitReport)
      → storage_get row.mime_storage_key w.durable ≡ some bytes
      → str_eq (env.sha256_hex bytes) row.mime_sha256 ≡ true
      → r ≡ record_report env row bytes report (submitting w (request_of row credentials bytes))
      → Worked env row w r

-- A call that claimed its row.
pub record Claimed (env : Env) (id : String) (w : World) (r : Outcome) : Type 0 where
  pub before : OutboundMessage
  pub found : find_outbound id w ≡ some before
  pub queued : is_queued before ≡ true
  pub owned : owns w.control before ≡ true
  pub worked : Worked env (claim_row env.now before) (claim_outbound env.now id w).0 r

module _ (env : Env) (submit : SmtpSubmitRequest → Answer SmtpSubmitReport) where
  submit_with_cases :
      (row : OutboundMessage) (bytes : Bytes) (a : Answer SmtpCredentials) (w : World)
      → storage_get row.mime_storage_key w.durable ≡ some bytes
      → str_eq (env.sha256_hex bytes) row.mime_sha256 ≡ true
      → Worked env row w (submit_with env submit row bytes a w)
  unfolding submit_with
  submit_with_cases row bytes (threw m) w stored same = failed_locally _ refl
  submit_with_cases row bytes (answered c) w stored same =
      did_submit bytes c (report_of (submit (request_of row c bytes))) stored same refl

  module _ (resolve : String → Answer SmtpCredentials) where
    submit_bytes_cases :
        (row : OutboundMessage) (w : World)
        → Worked env row w
            (submit_bytes env submit resolve row (storage_get row.mime_storage_key w.durable) w)
    unfolding submit_bytes
    submit_bytes_cases row w = elim (Option-cases (storage_get row.mime_storage_key w.durable)) [
      | inl missing ↦ rw (missing, submit_bytes) (failed_locally _ refl)
      | inr (bytes, stored) ↦ elim (Bool-cases (str_eq (env.sha256_hex bytes) row.mime_sha256)) [
        | inl same ↦
            rw (stored, submit_bytes)
              (rw same (submit_with_cases row bytes (resolve row.account_id) w stored same))
        | inr differs ↦ rw (stored, submit_bytes) (rw differs (failed_locally _ refl))
      ]
    ]

    after_claim_cases :
        (id : String) (w : World) (o : Option OutboundMessage) (row : OutboundMessage)
        → o ≡ some row
        → Worked env row w (after_claim env submit resolve id (w, o))
    unfolding after_claim
    after_claim_cases id w o row e = rw (e, after_claim) (submit_bytes_cases row w)

    claimed_row :
        (id : String) (before : OutboundMessage) (w : World)
        → find_outbound id w ≡ some before
        → is_queued before ≡ true
        → (claim_outbound env.now id w).1 ≡ some (claim_row env.now before)
    claimed_row id before w found queued = rw found (rw queued refl)

    execute_found_cases :
        (id : String) (w : World)
        → let r = execute_found env submit resolve id (find_outbound id w) w in
          (r.1 ≡ w) ⊎ Claimed env id w r
    unfolding execute_found
    execute_found_cases id w = elim (Option-cases (find_outbound id w)) [
      | inl missing ↦ inl (rw (missing, execute_found) refl)
      | inr (before, found) ↦ elim (Bool-cases (is_queued before && owns w.control before)) [
        | inr skip ↦ inl (rw (found, execute_found) (rw skip refl))
        | inl go ↦
            let queued : is_queued before ≡ true = ground arith in
            let owned : owns w.control before ≡ true = ground arith in
            inr (record {
              before = before;
              found = found;
              queued = queued;
              owned = owned;
              worked =
                  rw (found, execute_found)
                    (rw go (
                      after_claim_cases id _ _ (claim_row env.now before)
                        (claimed_row id before w found queued)));
            })
      ]
    ]

execute_configured_cases :
    (env : Env) (submit : Option (SmtpSubmitRequest → Answer SmtpSubmitReport))
    (resolve : Option (String → Answer SmtpCredentials)) (id : String) (w : World)
    → let r = execute_configured env submit resolve id w in (r.1 ≡ w) ⊎ Claimed env id w r
unfolding execute_configured
execute_configured_cases env none resolve id w = inl refl
execute_configured_cases env (some submit) none id w = inl refl
execute_configured_cases env (some submit) (some resolve) id w =
    execute_found_cases env submit resolve id w

-- A call changes nothing, or it claimed a queued row of the current generation and worked on it.
pub execute_outbound_cases :
    (env : Env) (id : String) (w : World)
    → ((execute_outbound env id w).1 ≡ w) ⊎ Claimed env id w (execute_outbound env id w)
unfolding execute_outbound
execute_outbound_cases env id w = elim (Bool-cases (valid_uuid id)) [
  | inl good ↦ rw good (execute_configured_cases env env.submit env.resolve_credentials id w)
  | inr bad ↦ inl (rw bad refl)
]
