-- ===== src/Send/Lock.antt =====
-- The draft lock (packages/compose/src/service.ts): taken when a send is queued, released by the
-- outbound row that owns it once its outcome is definitive.
use personal_mail_hub.Base.{
  Bool, true, false, Option, none, some, List, [], ◌∷◌, ◌++◌, map, String, str_eq, if◌then◌else◌,
  ◌≡◌, refl, ◌⊎◌, inl, inr, Bool-cases, Option-cases,
}
use personal_mail_hub.Database.{OutboundStatus, is_status}
use personal_mail_hub.Send.{Draft, OutboundMessage}
use personal_mail_hub.Send.World.{
  World, SendEvent, draft_unlocked, Failure, compose_invalid_request, not_found, Result, ok, err,
  valid_uuid, find_outbound,
}

abbrev pub draft_key : Draft → String
draft_key d = d.id

abbrev pub locked_by : String → Option String → Bool
locked_by outbound none = false
locked_by outbound (some o) = str_eq o outbound

abbrev unlock_draft : String → Draft → Draft
unlock_draft outbound d =
    if locked_by outbound d.locked_by_send then record d { locked_by_send = none } else d

-- `update drafts set locked_by_send = null where locked_by_send = …`
unfoldable pub unlock_drafts : String → List Draft → List Draft
unlock_drafts outbound drafts = map (unlock_draft outbound) drafts

-- One event for each draft that the update released.
unfoldable pub unlock_events : String → List Draft → List SendEvent
unlock_events outbound [] = []
unlock_events outbound (d ∷ ds) =
    let rest = unlock_events outbound ds in
    if locked_by outbound d.locked_by_send then draft_unlocked d.id outbound ∷ rest else rest

-- What a release writes.
abbrev pub released : String → World → World
released outbound w = record w {
  drafts = unlock_drafts outbound w.drafts;
  events = w.events ++ unlock_events outbound w.drafts;
}

release_from : String → OutboundStatus → Option OutboundMessage → World → Result (Unit {0}) × World
release_from outbound required none w = (err not_found, w)
release_from outbound required (some row) w =
    if is_status required row.status
    then (ok tt, released outbound w)
    else (err compose_invalid_request, w)

unfoldable pub release_draft_lock : String → OutboundStatus → World → Result (Unit {0}) × World
unfolding release_from
release_draft_lock outbound required w =
    if valid_uuid outbound
    then release_from outbound required (find_outbound outbound w) w
    else (err compose_invalid_request, w)

abbrev pub unlock_draft_after_failure : String → World → Result (Unit {0}) × World
unlock_draft_after_failure outbound = release_draft_lock outbound OutboundStatus.failed

abbrev pub unlock_draft_after_send : String → World → Result (Unit {0}) × World
unlock_draft_after_send outbound = release_draft_lock outbound OutboundStatus.sent

-- A release that returns found its row in the required status and wrote nothing but the release;
-- any other one writes nothing.
pub release_draft_lock_cases :
    (outbound : String) (required : OutboundStatus) (w : World)
    → ((row : OutboundMessage) × (find_outbound outbound w ≡ some row)
        × (is_status required row.status ≡ true)
        × (release_draft_lock outbound required w ≡ (ok tt, released outbound w)))
      ⊎ ((e : Failure) × (release_draft_lock outbound required w ≡ (err e, w)))
unfolding release_draft_lock
release_draft_lock_cases outbound required w = elim (Bool-cases (valid_uuid outbound)) [
  | inr bad ↦ inr (compose_invalid_request, rw bad refl)
  | inl good ↦ elim (Option-cases (find_outbound outbound w)) [
    | inl missing ↦ inr (not_found, rw good (rw (missing, release_from) refl))
    | inr (row, found) ↦ elim (Bool-cases (is_status required row.status)) [
      | inl same ↦ inl (row, found, same, rw good (rw (found, release_from) (rw same refl)))
      | inr other ↦
          inr (compose_invalid_request, rw good (rw (found, release_from) (rw other refl)))
    ]
  ]
]
