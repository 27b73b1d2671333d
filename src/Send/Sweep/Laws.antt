-- ===== src/Send/Sweep/Laws.antt =====
-- Laws of whole sweeps on tables and on the network.
use personal_mail_hub.Base.{
  ℕ, suc, ◌+◌, ◌≤◌, Bool, ◌≡◌, refl, ◌∙◌, inl, inr, Option, none, some, List, [], ◌∷◌, arith,
  String, length, length-append, length-take, select, Bool-cases,
}
use personal_mail_hub.Recovery.{ControlStatus, assess_job}
use personal_mail_hub.Send.{OutboundMessage}
use personal_mail_hub.Send.World.{World, Answer, ok, err}
use personal_mail_hub.Send.Status.{
  Follows, Follows-refl, Follows-trans, Keeps, Keeps-refl, Keeps-trans,
}
use personal_mail_hub.Send.Commit.{Env}
use personal_mail_hub.Send.SentCopy.{Session}
use personal_mail_hub.Send.Outbound
use personal_mail_hub.Send.Outbound.{is_queued, execute_outbound}
use personal_mail_hub.Send.Outbound.Moves.{execute_outbound-Follows, execute_outbound-submits}
use personal_mail_hub.Send.Append
use personal_mail_hub.Send.Append.{execute_sent_copy_append}
use personal_mail_hub.Send.Append.Laws.{execute_sent_copy_append-Keeps}
use personal_mail_hub.Send.Reconcile
use personal_mail_hub.Send.Reconcile.{reconcile_unknown_outcome}
use personal_mail_hub.Send.Reconcile.Laws.{reconcile_unknown_outcome-Follows}
use personal_mail_hub.Send.Recovery.{is_ready, is_stale}
use personal_mail_hub.Send.Sweep.{
  Pass, Call, count_call, sweep_rows, started, sweep, by_age, window, copy_due, unknown_due,
  submitted_of, attempted_of, reconciled_of, execute_queued, append_due_sent_copies,
  reconcile_unknown_outcomes,
}

count_call-world : (s : Pass) (r : Option Bool × World) → (count_call s r).world ≡ r.1
count_call-world s (none, w) = refl
count_call-world s (some done, w) = refl

-- What each call does within `n` rows, the sweep does: `P n w w'` adds up along the rows.
module _ (P : ℕ → World → World → Type 0) (P-none : (n : ℕ) (w : World) → P n w w)
    (P-then : (n : ℕ) (a b c : World) → P 1 a b → P n b c → P (suc n) a c) (call : Call)
    (each : (id : String) (w : World) → P 1 w (call id w).1) where
  sweep_rows-holds :
      (status : ControlStatus) (rows : List OutboundMessage) (s : Pass)
      → P (length rows) s.world (sweep_rows call status rows s).world
  unfolding sweep_rows
  sweep_rows-holds status [] s = P-none 0 s.world
  sweep_rows-holds status (row ∷ rows) s =
      elim (Bool-cases (is_stale (assess_job status row.recovery_generation))) [
        | inl stale ↦
            rw (stale, sweep_rows)
              (P-then (length rows) s.world s.world _ (P-none 1 s.world)
                (sweep_rows-holds status rows (record s { skipped_stale = s.skipped_stale + 1 })))
        | inr current ↦
            let after = count_call s (call row.id s.world) in
            rw (current, sweep_rows)
              (P-then (length rows) s.world after.world _
                (rw (count_call-world s (call row.id s.world)) (each row.id s.world))
                (sweep_rows-holds status rows after))
      ]

  sweep-holds :
      (limit : ℕ) (due : World → OutboundMessage → Bool) (w : World)
      → (n : ℕ) × (n ≤ limit) × P n w (sweep call limit due w).0
  unfolding sweep
  sweep-holds limit due w = elim (Bool-cases (is_ready w.control)) [
    | inl ready ↦
        let rows = window limit (due w) w.outbound in
        (
          length rows,
          length-take limit (by_age (select (due w) w.outbound)),
          rw ready (sweep_rows-holds w.control rows (started w)),
        )
    | inr blocked ↦ (0, omega arith, rw blocked (P-none 0 w))
  ]

-- A send pass: moves, and at most `n` more requests.
abbrev Within : ℕ → World → World → Type 0
Within n w w' = Follows w.outbound w'.outbound × (length w'.submitted ≤ length w.submitted + n)

module _ (env : Env) where
  submitted_of-world : (r : Outbound.Outcome) → (submitted_of r).1 ≡ r.1
  submitted_of-world (ok (row, b), w) = refl
  submitted_of-world (err e, w) = refl

  submits_one : (id : String) (w : World) → Within 1 w (execute_outbound env id w).1
  submits_one id w = (
    execute_outbound-Follows env id w,
    elim (execute_outbound-submits env id w) [
      | inl same ↦ rw same (omega arith)
      | inr (row, bytes, credentials, _, _, _, _, _, sent, _) ↦
          rw sent (omega (arith, length-append w.submitted (_ ∷ [])))
    ],
  )

-- One pass over the queue hands at most `limit` requests to SMTP, and moves every row along the
-- transitions with its frozen snapshot.
pub execute_queued-Follows :
    (env : Env) (limit : ℕ) (w : World)
    → let w' = (execute_queued env limit w).0 in
      Follows w.outbound w'.outbound × (length w'.submitted ≤ length w.submitted + limit)
unfolding execute_queued
execute_queued-Follows env limit w =
    let (n, within, p) =
      sweep-holds Within (λ n v. (Follows-refl v.outbound, omega arith))
        (λ n a b c p q.
          (Follows-trans a.outbound b.outbound c.outbound p.0 q.0, omega (arith, p.1, q.1)))
        (λ id v. submitted_of (execute_outbound env id v))
        (λ id v. rw (submitted_of-world env (execute_outbound env id v)) (submits_one env id v))
        limit (λ v r. is_queued r) w in
    (p.0, omega (arith, within, p.1))

-- A pass that leaves SMTP alone.
abbrev Silent : (List OutboundMessage → List OutboundMessage → Type 0) → ℕ → World → World → Type 0
Silent R n w w' = R w.outbound w'.outbound × (w'.submitted ≡ w.submitted)

module _ (env : Env) (open_sent_copy : Option (String → Answer Session)) where
  attempted_of-world : (r : Append.Outcome) → (attempted_of r).1 ≡ r.1
  attempted_of-world (ok (row, b), w) = refl
  attempted_of-world (err e, w) = refl

  reconciled_of-world : (r : Reconcile.Outcome) → (reconciled_of r).1 ≡ r.1
  reconciled_of-world (ok (row, b, reason), w) = refl
  reconciled_of-world (err e, w) = refl

-- A pass over the due Sent copies hands nothing to SMTP, and keeps the status and the snapshot of
-- every row.
pub append_due_sent_copies-Keeps :
    (env : Env) (open_sent_copy : Option (String → Answer Session)) (limit : ℕ) (w : World)
    → let w' = (append_due_sent_copies env open_sent_copy limit w).0 in
      Keeps w.outbound w'.outbound × (w'.submitted ≡ w.submitted)
unfolding append_due_sent_copies
append_due_sent_copies-Keeps env o limit w =
    let (n, within, p) =
      sweep-holds (Silent Keeps) (λ n v. (Keeps-refl v.outbound, refl))
        (λ n a b c p q. (Keeps-trans a.outbound b.outbound c.outbound p.0 q.0, q.1 ∙ p.1))
        (λ id v. attempted_of (execute_sent_copy_append env o id v))
        (λ id v.
          rw (attempted_of-world env o (execute_sent_copy_append env o id v))
            (execute_sent_copy_append-Keeps env o id v))
        limit copy_due w in
    p

-- A pass over the unknown outcomes hands nothing to SMTP, and moves every row along the transitions
-- with its frozen snapshot.
pub reconcile_unknown_outcomes-Follows :
    (env : Env) (open_sent_copy : Option (String → Answer Session)) (limit : ℕ) (w : World)
    → let w' = (reconcile_unknown_outcomes env open_sent_copy limit w).0 in
      Follows w.outbound w'.outbound × (w'.submitted ≡ w.submitted)
unfolding reconcile_unknown_outcomes
reconcile_unknown_outcomes-Follows env o limit w =
    let (n, within, p) =
      sweep-holds (Silent Follows) (λ n v. (Follows-refl v.outbound, refl))
        (λ n a b c p q. (Follows-trans a.outbound b.outbound c.outbound p.0 q.0, q.1 ∙ p.1))
        (λ id v. reconciled_of (reconcile_unknown_outcome env o id v))
        (λ id v.
          let (follows, sent, log) = reconcile_unknown_outcome-Follows env o id v in
          rw (reconciled_of-world env o (reconcile_unknown_outcome env o id v)) (follows, sent))
        limit unknown_due w in
    p
