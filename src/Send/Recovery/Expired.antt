-- ===== src/Send/Recovery/Expired.antt =====
-- The lease of an attempt under `recoverAbandonedAttempts`.
use personal_mail_hub.Base.{
  ℕ, ◌+◌, ◌-◌, ◌<◌, Bool, true, ◌≡◌, refl, ◌∙◌, ◌⊎◌, inl, inr, Option, none, some, List, [], ◌∷◌,
  arith, String, All, select, str_eq-cases, find, changed, Bool-cases,
}
use personal_mail_hub.Database.{OutboundStatus}
use personal_mail_hub.Recovery.{ControlStatus, assess_job}
use personal_mail_hub.Send.{OutboundMessage}
use personal_mail_hub.Send.World.{
  World, SendEvent, outbound_key, find_outbound, find_outbound-update_self,
  find_outbound-update_other, update_outbound,
}
use personal_mail_hub.Send.Status.{Row}
use personal_mail_hub.Send.Commit.{is_sending}
use personal_mail_hub.Send.Commit.Follows.{is_status-eq}
use personal_mail_hub.Send.Recovery.{
  is_ready, is_stale, hold_send_row, after_hold, hold_send, Held, count_held, hold_all, hold_sends,
  stamped_before, abandoned_sending, attempt_lease_ms, recover_abandoned_attempts,
}
use personal_mail_hub.Send.Recovery.Laws.{hold_appends-Keeps}

-- The primary key: a row is what its identifier finds.
abbrev pub IsKeyed : List OutboundMessage → Type 0
IsKeyed rows = All (λ r. find outbound_key r.id rows ≡ some r) rows

All-select :
    (P : OutboundMessage → Type 0) (p : OutboundMessage → Bool) (rows : List OutboundMessage)
    → All P rows
    → All (λ r. P r × (p r ≡ true)) (select p rows)
All-select P p [] h = tt
All-select P p (r ∷ rows) (h, hs) = elim (Bool-cases (p r)) [
  | inl keep ↦ rw keep ((h, keep), All-select P p rows hs)
  | inr drop ↦ rw drop (All-select P p rows hs)
]

module _ (limit : ℕ) where
  -- A row keeps its status, or its lease had run out and it is held as unknown.
  abbrev pub Expires : OutboundMessage → OutboundMessage → Type 0
  Expires r r' =
      (r'.status ≡ r.status)
      ⊎ ((t : ℕ) × (r.status ≡ OutboundStatus.sending)
          × (r.sending_started_at ≡ some t)
          × (t < limit)
          × (r'.status ≡ OutboundStatus.outcome_unknown))

  stamp_before :
      (o : Option ℕ) → stamped_before limit o ≡ true → (t : ℕ) × (o ≡ some t) × (t < limit)
  stamp_before none h = cc h
  stamp_before (some t) h = (t, refl, ground arith)

  hold_send_row-Expires :
      (r : OutboundMessage) → abandoned_sending limit r ≡ true → Expires r (hold_send_row r)
  hold_send_row-Expires r h =
      let sending : is_sending r ≡ true = ground arith in
      let stamped : stamped_before limit r.sending_started_at ≡ true = ground arith in
      let (t, stamp, past) = stamp_before r.sending_started_at stamped in
      inr (t, is_status-eq OutboundStatus.sending r.status sending, stamp, past, refl)

  module _ (rows : List OutboundMessage) where
    abbrev Since : World → Type 0
    Since w = (id : String) → Row Expires (find outbound_key id rows) (find_outbound id w)

    after_hold-Since :
        (e : SendEvent) (v : World) (o : Option OutboundMessage)
        → Since v
        → Since (after_hold e (v, o)).0
    unfolding after_hold
    after_hold-Since e v none h = h
    after_hold-Since e v (some r) h = h

    held_same :
        (r row : OutboundMessage)
        → ◌≡◌ {A = Option OutboundMessage} (some r) (some row)
        → abandoned_sending limit row ≡ true
        → abandoned_sending limit r ≡ true
    held_same r row e expired = let same : r ≡ row = cc e in rw same expired

    changed-Expires :
        (o o' : Option OutboundMessage) (row : OutboundMessage)
        → o ≡ some row
        → abandoned_sending limit row ≡ true
        → Row Expires o o'
        → Row Expires o (changed is_sending hold_send_row o')
    changed-Expires none o' row e expired h = cc e
    changed-Expires (some r) none row e expired h = h
    changed-Expires (some r) (some r') row e expired h = elim (Bool-cases (is_sending r')) [
      | inl sending ↦ rw sending (hold_send_row-Expires r (held_same r row e expired))
      | inr other ↦ rw other h
    ]

    hold_send-Since :
        (row : OutboundMessage) (w : World)
        → find outbound_key row.id rows ≡ some row
        → abandoned_sending limit row ≡ true
        → Since w
        → Since (hold_send row w).0
    unfolding hold_send
    hold_send-Since row w keyed expired h =
        after_hold-Since _ (update_outbound row.id is_sending hold_send_row w).0 _ (λ id.
          elim (str_eq-cases row.id id) [
            | inl same ↦ rw (← same) (
                rw
                  (find_outbound-update_self is_sending hold_send_row (λ r. refl) row.id w.outbound)
                  (changed-Expires _ _ row keyed expired (h row.id)))
            | inr other ↦
                rw
                  (find_outbound-update_other is_sending hold_send_row (λ r. refl) row.id id
                    w.outbound other)
                  (h id)
          ])

    hold_all-Since :
        (status : ControlStatus) (held : List OutboundMessage) (s : Held)
        → All
            (λ r. (find outbound_key r.id rows ≡ some r) × (abandoned_sending limit r ≡ true))
            held
        → Since s.world
        → Since (hold_all hold_send status held s).world
    unfolding hold_all
    hold_all-Since status [] s all h = h
    hold_all-Since status (row ∷ held) s ((keyed, expired), all) h =
        elim (Bool-cases (is_stale (assess_job status row.recovery_generation))) [
          | inl stale ↦
              rw (stale, hold_all)
                (hold_all-Since status held (record s { skipped_stale = s.skipped_stale + 1 }) all
                  h)
          | inr current ↦
              rw (current, hold_all)
                (hold_all-Since status held (count_held s (hold_send row s.world)) all
                  (hold_send-Since row s.world keyed expired h))
        ]

  Row-Expires_refl : (o : Option OutboundMessage) → Row Expires o o
  Row-Expires_refl none = refl
  Row-Expires_refl (some r) = inl refl

  then_kept :
      (a b c : Option OutboundMessage)
      → Row Expires a b
      → Row (λ r r'. (r'.snapshot ≡ r.snapshot) × (r'.status ≡ r.status)) b c
      → Row Expires a c
  then_kept none none c h k = k
  then_kept none (some r) c h k = cc h
  then_kept (some r) none c h k = absurd h
  then_kept (some r) (some s) none h k = absurd k
  then_kept (some r) (some s) (some t) (inl same) (_, kept) = inl (kept ∙ same)
  then_kept (some r) (some s) (some t) (inr (at, sending, stamp, past, unknown)) (_, kept) =
      inr (at, sending, stamp, past, kept ∙ unknown)

-- Where identifiers are keys, recovery changes the status of a row only from `sending` to
-- `outcome_unknown`, and only if its claim is older than the lease: no live attempt is taken over.
pub recover_abandoned_attempts-Expires :
    (now : ℕ) (w : World)
    → IsKeyed w.outbound
    → (id : String)
    → Row
        (Expires (now - attempt_lease_ms))
        (find_outbound id w)
        (find_outbound id (recover_abandoned_attempts now w).0)
unfolding recover_abandoned_attempts hold_sends
recover_abandoned_attempts-Expires now w keyed id = elim (Bool-cases (is_ready w.control)) [
  | inl ready ↦
      let limit = now - attempt_lease_ms in
      let sends = hold_sends limit w in
      rw ready (
        then_kept limit _ (find_outbound id sends.world) _
          (hold_all-Since limit w.outbound w.control (select (abandoned_sending limit) w.outbound)
            (record { world = w; held = 0; skipped_stale = 0 })
            (All-select _ (abandoned_sending limit) w.outbound keyed)
            (λ j. Row-Expires_refl limit _) id)
          (hold_appends-Keeps limit w.control sends id))
  | inr blocked ↦ rw blocked (Row-Expires_refl (now - attempt_lease_ms) _)
]
