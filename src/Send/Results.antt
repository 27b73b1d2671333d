-- ===== src/Send/Results.antt =====
-- Recipient results and the final SMTP response, as service.ts derives them from a report.
pub mod Laws
use personal_mail_hub.Base.{
  ℕ, Bool, true, false, Option, none, some, List, [], ◌∷◌, map, String, str_eq, if◌then◌else◌,
}
use personal_mail_hub.Send.{
  RecipientResult, SmtpResponse, SmtpSubmitState, SmtpRecipientOutcome, SmtpSubmitReport,
  OutboundMessage,
}

-- `new Map(entries.map((entry) => [entry.address, entry]))`, read at one address: a later entry
-- replaces an earlier one.
unfoldable pub last_outcome : String → List SmtpRecipientOutcome → Option SmtpRecipientOutcome
last_outcome address [] = none
last_outcome address (e ∷ es) = elim (last_outcome address es) [
  | some later ↦ some later
  | none ↦ if str_eq e.address address then some e else none
]

unfoldable pub last_result : String → List RecipientResult → Option RecipientResult
last_result address [] = none
last_result address (r ∷ rs) = elim (last_result address rs) [
  | some later ↦ some later
  | none ↦ if str_eq r.address address then some r else none
]

abbrev pub is_accepted : SmtpSubmitState → Bool
is_accepted SmtpSubmitState.accepted = true
is_accepted _ = false

-- Without per-recipient detail one final response covers the whole envelope, if it is positive.
abbrev covered : Bool → Option String → String → RecipientResult
covered accepted response address = record {
  address = address;
  accepted = accepted;
  response = if accepted then response else none;
}

abbrev stated : Option SmtpRecipientOutcome → String → RecipientResult
stated none address = record { address = address; accepted = false; response = none }
stated (some entry) address = record {
  address = address;
  accepted = entry.accepted;
  response = entry.response;
}

recipient_results_from :
    List SmtpRecipientOutcome → List String → SmtpSubmitReport → List RecipientResult
recipient_results_from [] envelope report =
    map (covered (is_accepted report.state) report.response) envelope
recipient_results_from (e ∷ es) envelope report =
    map (λ address. stated (last_outcome address (e ∷ es)) address) envelope

unfoldable pub recipient_results_of : List String → Option SmtpSubmitReport → List RecipientResult
unfolding recipient_results_from
recipient_results_of envelope none = map (covered false none) envelope
recipient_results_of envelope (some report) =
    recipient_results_from report.recipients envelope report

unfoldable pub smtp_response_of : SmtpSubmitReport → Option SmtpResponse
smtp_response_of report = of report.response report.response_code
  where
    of : Option String → Option ℕ → Option SmtpResponse
    of none none = none
    of response code = some (record { response = response; response_code = code })

abbrev settled_result : Option RecipientResult → String → RecipientResult
settled_result none address = record { address = address; accepted = true; response = none }
settled_result (some prior) address = elim prior.response [
  | none ↦ record { address = address; accepted = true; response = none }
  | some response ↦ record {
    address = address;
    accepted = prior.accepted;
    response = some response;
  }
]

unfoldable pub reconciled_recipient_results : OutboundMessage → List RecipientResult
reconciled_recipient_results row =
    map (λ address. settled_result (last_result address row.recipient_results) address)
      row.envelope_recipients
