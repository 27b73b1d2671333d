-- ===== src/Send/Sweep/Counts.antt =====
-- The summary of a sweep.
use personal_mail_hub.Base.{
  ℕ, suc, ◌+◌, ◌≤◌, Bool, true, false, inl, inr, Option, none, some, List, [], ◌∷◌, arith, length,
  length-take, select, Bool-cases,
}
use personal_mail_hub.Recovery.{ControlStatus, assess_job}
use personal_mail_hub.Send.{OutboundMessage}
use personal_mail_hub.Send.World.{World}
use personal_mail_hub.Send.Recovery.{is_ready, is_stale}
use personal_mail_hub.Send.Sweep.{
  Pass, Call, count_call, sweep_rows, started, sweep, by_age, window,
}

abbrev counted : Pass → ℕ
counted s = s.done + s.skipped_stale + s.row_errors

count_call-counted :
    (s : Pass) (r : Option Bool × World) → counted (count_call s r) ≤ suc (counted s)
count_call-counted s (none, w) = omega arith
count_call-counted s (some true, w) = omega arith
count_call-counted s (some false, w) = omega arith

module _ (call : Call) (status : ControlStatus) where
  sweep_rows-counted :
      (rows : List OutboundMessage) (s : Pass)
      → counted (sweep_rows call status rows s) ≤ length rows + counted s
  unfolding sweep_rows
  sweep_rows-counted [] s = omega arith
  sweep_rows-counted (row ∷ rows) s =
      elim (Bool-cases (is_stale (assess_job status row.recovery_generation))) [
        | inl stale ↦
            rw (stale, sweep_rows)
              (omega
                (arith, sweep_rows-counted rows (record s { skipped_stale = s.skipped_stale + 1 })))
        | inr current ↦
            rw (current, sweep_rows)
              (omega (
                arith,
                sweep_rows-counted rows (count_call s (call row.id s.world)),
                count_call-counted s (call row.id s.world),
              ))
      ]

-- A sweep scans at most `limit` rows, and no row of them is counted twice among those done, those
-- skipped as stale and those that threw.
pub sweep-counted :
    (call : Call) (limit : ℕ) (due : World → OutboundMessage → Bool) (w : World)
    → let summary = (sweep call limit due w).1 in
      (summary.done + summary.skipped_stale + summary.row_errors ≤ summary.scanned)
      × (summary.scanned ≤ limit)
unfolding sweep
sweep-counted call limit due w = elim (Bool-cases (is_ready w.control)) [
  | inl ready ↦
      let rows = window limit (due w) w.outbound in
      rw ready (
        omega (arith, sweep_rows-counted call w.control rows (started w)),
        length-take limit (by_age (select (due w) w.outbound)),
      )
  | inr blocked ↦ rw blocked (omega arith, omega arith)
]
