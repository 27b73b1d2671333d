-- ===== src/Send/Recovery/Laws.antt =====
-- Laws of `recoverAbandonedAttempts` on whole tables.
use personal_mail_hub.Base.{
  ℕ, ◌+◌, ◌-◌, Bool, ◌≡◌, refl, ◌∙◌, inl, inr, Option, none, some, List, [], ◌∷◌, select,
  Bool-cases,
}
use personal_mail_hub.Database.{OutboundStatus}
use personal_mail_hub.Recovery.{ControlStatus, assess_job}
use personal_mail_hub.Send.{OutboundMessage}
use personal_mail_hub.Send.World.{World, SendEvent, update_outbound}
use personal_mail_hub.Send.Status.{
  lose, Follows, Follows-refl, Follows-trans, Keeps, Keeps-refl, Keeps-trans, Keeps-Follows,
  update-Follows, update-Keeps,
}
use personal_mail_hub.Send.Commit.{is_sending}
use personal_mail_hub.Send.Commit.Follows.{Reaches-once}
use personal_mail_hub.Send.Recovery.{
  is_ready, is_stale, is_appending, hold_send_row, hold_append_row, after_hold, hold_send,
  hold_append, Held, count_held, hold_all, hold_sends, hold_appends, abandoned_sending,
  abandoned_append, attempt_lease_ms, recover_abandoned_attempts,
}

-- A hold moves rows, and touches neither SMTP nor a mailbox.
abbrev Holds : World → World → Type 0
Holds w w' =
    Follows w.outbound w'.outbound × (w'.submitted ≡ w.submitted) × (w'.appended ≡ w.appended)

Holds-refl : (w : World) → Holds w w
Holds-refl w = (Follows-refl w.outbound, refl, refl)

Holds-trans : (a b c : World) → Holds a b → Holds b c → Holds a c
Holds-trans a b c p q =
    (Follows-trans a.outbound b.outbound c.outbound p.0 q.0, q.1 ∙ p.1, q.2 ∙ p.2)

after_hold-Holds :
    (e : SendEvent) (w v : World) (o : Option OutboundMessage)
    → Holds w v
    → Holds w (after_hold e (v, o)).0
unfolding after_hold
after_hold-Holds e w v none h = h
after_hold-Holds e w v (some r) h = h

hold_send-Holds : (row : OutboundMessage) (w : World) → Holds w (hold_send row w).0
unfolding hold_send
hold_send-Holds row w =
    after_hold-Holds _ w (update_outbound row.id is_sending hold_send_row w).0 _ (
      update-Follows is_sending hold_send_row (λ r. refl)
          (λ r h. Reaches-once OutboundStatus.sending r.status lose h) row.id w.outbound,
      refl,
      refl,
    )

hold_append-Holds : (row : OutboundMessage) (w : World) → Holds w (hold_append row w).0
unfolding hold_append
hold_append-Holds row w =
    after_hold-Holds _ w (update_outbound row.id is_appending hold_append_row w).0 _ (
      Keeps-Follows _ _
          (update-Keeps is_appending hold_append_row (λ r. (refl, refl)) row.id w.outbound),
      refl,
      refl,
    )

count_held-world : (s : Held) (r : World × Bool) → (count_held s r).world ≡ r.0
count_held-world s (w, b) = refl

-- What each hold does to the world, a whole loop does.
module _ (P : World → World → Type 0) (P-refl : (w : World) → P w w)
    (P-trans : (a b c : World) → P a b → P b c → P a c)
    (hold : OutboundMessage → World → World × Bool)
    (holds : (row : OutboundMessage) (w : World) → P w (hold row w).0) where
  hold_all-holds :
      (status : ControlStatus) (rows : List OutboundMessage) (s : Held)
      → P s.world (hold_all hold status rows s).world
  unfolding hold_all
  hold_all-holds status [] s = P-refl s.world
  hold_all-holds status (row ∷ rows) s =
      elim (Bool-cases (is_stale (assess_job status row.recovery_generation))) [
        | inl stale ↦
            rw (stale, hold_all)
              (hold_all-holds status rows (record s { skipped_stale = s.skipped_stale + 1 }))
        | inr current ↦
            let after = count_held s (hold row s.world) in
            rw (current, hold_all)
              (P-trans s.world after.world (hold_all hold status rows after).world
                (rw (count_held-world s (hold row s.world)) (holds row s.world))
                (hold_all-holds status rows after))
      ]

hold_sends-Holds : (limit : ℕ) (w : World) → Holds w (hold_sends limit w).world
unfolding hold_sends
hold_sends-Holds limit w =
    hold_all-holds Holds Holds-refl Holds-trans hold_send hold_send-Holds w.control
      (select (abandoned_sending limit) w.outbound)
      (record { world = w; held = 0; skipped_stale = 0 })

hold_appends-Holds :
    (limit : ℕ) (status : ControlStatus) (s : Held)
    → Holds s.world (hold_appends limit status s).world
unfolding hold_appends
hold_appends-Holds limit status s =
    hold_all-holds Holds Holds-refl Holds-trans hold_append hold_append-Holds status
      (select (abandoned_append limit) s.world.outbound) (record s { held = 0 })

-- Recovery moves rows along the transitions with their frozen snapshots, and hands nothing to SMTP
-- or to a mailbox.
pub recover_abandoned_attempts-Follows :
    (now : ℕ) (w : World)
    → let w' = (recover_abandoned_attempts now w).0 in
      Follows w.outbound w'.outbound × (w'.submitted ≡ w.submitted) × (w'.appended ≡ w.appended)
unfolding recover_abandoned_attempts
recover_abandoned_attempts-Follows now w = elim (Bool-cases (is_ready w.control)) [
  | inl ready ↦
      let limit = now - attempt_lease_ms in
      let sends = hold_sends limit w in
      let appends = hold_appends limit w.control sends in
      rw ready (
        Holds-trans w sends.world appends.world (hold_sends-Holds limit w)
          (hold_appends-Holds limit w.control sends))
  | inr blocked ↦ rw blocked (Holds-refl w)
]

after_hold-Keeps :
    (e : SendEvent) (rows : List OutboundMessage) (v : World) (o : Option OutboundMessage)
    → Keeps rows v.outbound
    → Keeps rows (after_hold e (v, o)).0.outbound
unfolding after_hold
after_hold-Keeps e rows v none h = h
after_hold-Keeps e rows v (some r) h = h

-- The append half keeps every status.
hold_append-Keeps :
    (row : OutboundMessage) (w : World) → Keeps w.outbound (hold_append row w).0.outbound
unfolding hold_append
hold_append-Keeps row w =
    after_hold-Keeps _ w.outbound (update_outbound row.id is_appending hold_append_row w).0 _
      (update-Keeps is_appending hold_append_row (λ r. (refl, refl)) row.id w.outbound)

pub hold_appends-Keeps :
    (limit : ℕ) (status : ControlStatus) (s : Held)
    → Keeps s.world.outbound (hold_appends limit status s).world.outbound
unfolding hold_appends
hold_appends-Keeps limit status s =
    hold_all-holds (λ a b. Keeps a.outbound b.outbound) (λ a. Keeps-refl a.outbound)
      (λ a b c p q. Keeps-trans a.outbound b.outbound c.outbound p q) hold_append hold_append-Keeps
      status (select (abandoned_append limit) s.world.outbound) (record s { held = 0 })
