-- ===== src/Send/Results/Laws.antt =====
-- Laws of `recipientResultsOf` and `reconciledRecipientResults`.
use mathlib.Core.Path.{subst}
use personal_mail_hub.Base.{
  true, false, ◌≡◌, ◌≢◌, refl, sym, ◌∙◌, ap, ◌⊎◌, inl, inr, Option, none, some, List, [], ◌∷◌, ◌++◌,
  map, All, String, str_eq, eq_iff, Option-cases, Bool-cases, if◌then◌else◌,
}
use personal_mail_hub.Send.{
  RecipientResult, SmtpRecipientOutcome, SmtpSubmitReport, SmtpSubmitState, OutboundMessage,
}
use personal_mail_hub.Send.Results.{
  last_outcome, last_result, is_accepted, covered, stated, recipient_results_from,
  recipient_results_of, settled_result, reconciled_recipient_results,
}

abbrev pub address_of : RecipientResult → String
address_of r = r.address

module _ (f : String → RecipientResult)
    (keeps : (address : String) → (f address).address ≡ address) where
  addresses_of_map : (envelope : List String) → map address_of (map f envelope) ≡ envelope
  addresses_of_map [] = refl
  addresses_of_map (a ∷ rest) = rw (keeps a) (ap (λ l. a ∷ l) (addresses_of_map rest))

stated-address :
    (o : Option SmtpRecipientOutcome) (address : String) → (stated o address).address ≡ address
stated-address none address = refl
stated-address (some entry) address = refl

settled_result-address :
    (o : Option RecipientResult) (address : String) → (settled_result o address).address ≡ address
settled_result-address none address = refl
settled_result-address (some prior) address = elim (Option-cases prior.response) [
  | inl missing ↦ rw missing refl
  | inr (response, answered) ↦ rw answered refl
]

-- The row is the last one of the list under the address.
abbrev pub IsLast : {A : Type 0} → (A → String) → String → List A → A → Type 0
IsLast {A} key address rows x =
    (before after : List A) × (rows ≡ before ++ x ∷ after)
    × (key x ≡ address)
    × All (λ y. str_eq (key y) address ≡ false) after

-- No row of the list has the address.
abbrev pub IsUnlisted : {A : Type 0} → (A → String) → String → List A → Type 0
IsUnlisted key address rows = All (λ y. str_eq (key y) address ≡ false) rows

abbrev pub outcome_address : SmtpRecipientOutcome → String
outcome_address e = e.address

-- What a look-up by the last row finds.
abbrev Looked : {A : Type 0} → (A → String) → String → List A → Option A → Type 0
Looked {A} key address rows o =
    (IsUnlisted key address rows × (o ≡ none))
    ⊎ ((x : A) × IsLast key address rows x × (o ≡ some x))

module _ {A : Type 0} (key : A → String) (address : String) (x : A) (rows : List A) where
  Looked-later : (y : A) → IsLast key address rows y → IsLast key address (x ∷ rows) y
  Looked-later y (before, after, e, own, rest) = (x ∷ before, after, ap (λ l. x ∷ l) e, own, rest)

  Looked-first :
      IsUnlisted key address rows
      → Looked key address (x ∷ rows) (if str_eq (key x) address then some x else none)
  Looked-first rest = elim (Bool-cases (str_eq (key x) address)) [
    | inl own ↦ inr (x, ([], rows, refl, (eq_iff (key x) address).0 own, rest), rw own refl)
    | inr other ↦ inl ((other, rest), rw other refl)
  ]

last_outcome-Looked :
    (address : String) (rows : List SmtpRecipientOutcome)
    → Looked outcome_address address rows (last_outcome address rows)
unfolding last_outcome
last_outcome-Looked address [] = inl (tt, refl)
last_outcome-Looked address (e ∷ es) = elim (last_outcome-Looked address es) [
  | inl (rest, missing) ↦
      rw (missing, last_outcome) (Looked-first outcome_address address e es rest)
  | inr (y, last, found) ↦
      rw (found, last_outcome) (inr (y, Looked-later outcome_address address e es y last, refl))
]

last_result-Looked :
    (address : String) (rows : List RecipientResult)
    → Looked address_of address rows (last_result address rows)
unfolding last_result
last_result-Looked address [] = inl (tt, refl)
last_result-Looked address (r ∷ rs) = elim (last_result-Looked address rs) [
  | inl (rest, missing) ↦ rw (missing, last_result) (Looked-first address_of address r rs rest)
  | inr (y, last, found) ↦
      rw (found, last_result) (inr (y, Looked-later address_of address r rs y last, refl))
]

-- A result of the submission, by what the server reported: nothing, one final response for the whole
-- envelope, or a list of recipients.
pub data Reported (report : Option SmtpSubmitReport) (r : RecipientResult) : Type 0 where
  unreported : report ≡ none → r.accepted ≡ false → r.response ≡ none → Reported report r
  covered_by :
      (p : SmtpSubmitReport)
      → report ≡ some p
      → p.recipients ≡ []
      → p.state ≡ SmtpSubmitState.accepted
      → r.accepted ≡ true
      → r.response ≡ p.response
      → Reported report r
  uncovered :
      (p : SmtpSubmitReport)
      → report ≡ some p
      → p.recipients ≡ []
      → p.state ≢ SmtpSubmitState.accepted
      → r.accepted ≡ false
      → r.response ≡ none
      → Reported report r
  listed :
      (p : SmtpSubmitReport) (entry : SmtpRecipientOutcome)
      → report ≡ some p
      → IsLast outcome_address r.address p.recipients entry
      → r.accepted ≡ entry.accepted
      → r.response ≡ entry.response
      → Reported report r
  unlisted :
      (p : SmtpSubmitReport)
      → report ≡ some p
      → p.recipients ≢ []
      → IsUnlisted outcome_address r.address p.recipients
      → r.accepted ≡ false
      → r.response ≡ none
      → Reported report r

All-map :
    (P : RecipientResult → Type 0) (f : String → RecipientResult) (envelope : List String)
    → ((address : String) → P (f address))
    → All P (map f envelope)
All-map P f [] h = tt
All-map P f (a ∷ rest) h = (h a, All-map P f rest h)

module _ (p : SmtpSubmitReport) where
  covered-Reported :
      (state : SmtpSubmitState) (address : String)
      → p.state ≡ state
      → p.recipients ≡ []
      → Reported (some p) (covered (is_accepted state) p.response address)
  covered-Reported SmtpSubmitState.accepted address is empty = covered_by p refl empty is refl refl
  covered-Reported SmtpSubmitState.rejected address is empty =
      uncovered p refl empty (λ h. cc (sym is ∙ h)) refl refl
  covered-Reported SmtpSubmitState.unknown address is empty =
      uncovered p refl empty (λ h. cc (sym is ∙ h)) refl refl

  stated-Reported :
      (address : String) (o : Option SmtpRecipientOutcome)
      → Looked outcome_address address p.recipients o
      → p.recipients ≢ []
      → Reported (some p) (stated o address)
  stated-Reported address o (inl (rest, missing)) some_listed =
      rw missing (unlisted p refl some_listed rest refl refl)
  stated-Reported address o (inr (entry, last, found)) some_listed =
      rw found (listed p entry refl last refl refl)

  recipient_results_from-Reported :
      (entries : List SmtpRecipientOutcome) (envelope : List String)
      → p.recipients ≡ entries
      → let results = recipient_results_from entries envelope p in
        (map address_of results ≡ envelope) × All (Reported (some p)) results
  unfolding recipient_results_from
  recipient_results_from-Reported [] envelope e = (
    addresses_of_map _ (λ a. refl) envelope,
    All-map _ _ envelope (λ a. covered-Reported p.state a refl e),
  )
  recipient_results_from-Reported (x ∷ xs) envelope e = (
    addresses_of_map _ (λ a. stated-address (last_outcome a (x ∷ xs)) a) envelope,
    All-map _ _ envelope (λ a.
        stated-Reported a (last_outcome a (x ∷ xs))
          (subst (λ l. Looked outcome_address a l (last_outcome a (x ∷ xs))) (sym e)
            (last_outcome-Looked a (x ∷ xs)))
          (λ h. cc (sym e ∙ h))),
  )

-- The recorded results are those of the envelope, in its order. An address that the server listed has
-- the answer of its last entry; one that a list leaves out is not accepted. Where nothing is listed,
-- every address is accepted with the final response if the submission was accepted, and else is not.
pub recipient_results_of-Reported :
    (envelope : List String) (report : Option SmtpSubmitReport)
    → let results = recipient_results_of envelope report in
      (map address_of results ≡ envelope) × All (Reported report) results
unfolding recipient_results_of
recipient_results_of-Reported envelope none =
    (addresses_of_map _ (λ a. refl) envelope, All-map _ _ envelope (λ a. unreported refl refl refl))
recipient_results_of-Reported envelope (some p) =
    recipient_results_from-Reported p p.recipients envelope refl

-- A result after reconciliation: the last recorded one of the address, if the server answered for it,
-- or else an acceptance without a response.
pub data Reconciles (row : OutboundMessage) (r : RecipientResult) : Type 0 where
  confirmed :
      (prior : RecipientResult) (response : String)
      → IsLast address_of r.address row.recipient_results prior
      → prior.response ≡ some response
      → r.accepted ≡ prior.accepted
      → r.response ≡ some response
      → Reconciles row r
  unanswered :
      (prior : RecipientResult)
      → IsLast address_of r.address row.recipient_results prior
      → prior.response ≡ none
      → r.accepted ≡ true
      → r.response ≡ none
      → Reconciles row r
  unrecorded :
      IsUnlisted address_of r.address row.recipient_results
      → r.accepted ≡ true
      → r.response ≡ none
      → Reconciles row r

module _ (row : OutboundMessage) where
  prior-Reconciles :
      (address : String) (prior : RecipientResult)
      → IsLast address_of address row.recipient_results prior
      → Reconciles row (settled_result (some prior) address)
  prior-Reconciles address prior last = elim (Option-cases prior.response) [
    | inl missing ↦ simp missing (unanswered prior last missing refl refl)
    | inr (response, answered) ↦ simp answered (confirmed prior response last answered refl refl)
  ]

  settled_result-Reconciles :
      (address : String) (o : Option RecipientResult)
      → Looked address_of address row.recipient_results o
      → Reconciles row (settled_result o address)
  settled_result-Reconciles address o (inl (rest, missing)) = rw missing (unrecorded rest refl refl)
  settled_result-Reconciles address o (inr (prior, last, found)) =
      rw found (prior-Reconciles address prior last)

-- A reconciliation reports every envelope address in order. Each keeps the acceptance and the response
-- that were recorded for it last, if a response was recorded, and else counts as accepted without
-- one.
pub reconciled_recipient_results-Reconciles :
    (row : OutboundMessage)
    → (map address_of (reconciled_recipient_results row) ≡ row.envelope_recipients)
      × All (Reconciles row) (reconciled_recipient_results row)
unfolding reconciled_recipient_results
reconciled_recipient_results-Reconciles row = (
  addresses_of_map _ (λ a. settled_result-address (last_result a row.recipient_results) a)
      row.envelope_recipients,
  All-map _ _ row.envelope_recipients (λ a.
      settled_result-Reconciles row a (last_result a row.recipient_results)
        (last_result-Looked a row.recipient_results)),
)
