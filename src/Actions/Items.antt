-- ===== src/Actions/Items.antt =====
-- The items of a folder group (service.ts, executeFolderGroup): claim, call and receipt of one, and
-- the loops over them.
use personal_mail_hub.Base.{
  ℕ, Bool, true, false, not, ◌||◌, ◌≡◌, refl, inl, inr, List, [], ◌∷◌, ◌++◌, any, All, arith,
  Bool-cases, Option-cases, Answer, answered, threw,
}
use personal_mail_hub.Database.{ActionItemStatus}
use personal_mail_hub.Recovery.{assess_job}
use personal_mail_hub.Actions.{
  Action, Item, PreparedActionItem, ActionMailboxFlags, ActionFolder, plain,
}
use personal_mail_hub.Actions.Kinds.{is_replayable_kind, flag_desire_of}
use personal_mail_hub.Actions.State.{
  Environment, Desk, Attempt, done, faulted, then_run, awaited, update_where, is_item_status,
  load_occurrence,
}
use personal_mail_hub.Actions.Disposition.{claims, claimed_item, mark_executing, conflict_with}
use personal_mail_hub.Actions.Check.{
  Destination, examine, receipt_for, outcome_of, prepared_item, remote_of,
}
use personal_mail_hub.Actions.Execute.{
  assessment_of, apply_item, run_claimed, claim_and_run, execute_item, halt_of,
}
use personal_mail_hub.Actions.Rows.{All-map}
use personal_mail_hub.Actions.Sound.{Sound, Sound-trans, same-Sound, Within, WithinLimit}
use personal_mail_hub.Actions.Writes.{commit_disposition-Sound, mark_executing-Sound}
use personal_mail_hub.Actions.Claim.{
  receipt_for-ends, examine-ends, moves_of-append, IsStartable, claims-unmoved, claimed-Within,
}

-- One more call of the executor stays within the limit, after what `d0` became.
abbrev MayHand : {S : Type 0} → PreparedActionItem → Desk S → Desk S → Type 0
MayHand p d0 d = Within d0 → All (WithinLimit (d.handed ++ p ∷ [])) d.items

replayed-WithinLimit :
    (log : List PreparedActionItem) (p : PreparedActionItem)
    → is_replayable_kind p.kind ≡ true
    → (i : Item) → WithinLimit log i
    → WithinLimit (log ++ p ∷ []) i
replayed-WithinLimit log p r i w =
    rw (moves_of-append i.action_id i.item_key log p) (ground (arith, r, w))

replays :
    (claimed executing replayable : Bool)
    → claimed ≡ false
    → (claimed || executing) ≡ true
    → (replayable || not executing) ≡ true
    → replayable ≡ true
replays claimed executing replayable c g s = ground (arith, c, g, s)

pub then_run-Sound :
    {S A B : Type 0} (d : Desk S) (x : Attempt A × Desk S) (next : A → Desk S → Attempt B × Desk S)
    → Sound d x.1
    → ((a : A) (d' : Desk S) → Sound d' (next a d').1)
    → Sound d (then_run x next).1
unfolding then_run
then_run-Sound d (done a, d') next p q = Sound-trans d d' (next a d').1 p (q a d')
then_run-Sound d (faulted e, d') next p q = p

pub awaited-Sound :
    {S A : Type 0} (answer : Answer A × S) (d : Desk S) → Sound d (awaited answer d).1
unfolding awaited
awaited-Sound (answered a, s) d = same-Sound d _ refl refl refl
awaited-Sound (threw m, s) d = same-Sound d _ refl refl refl

module _ {S : Type 0} (env : Environment S) (a : Action) where
  apply_item-Sound :
      (i : Item) (p : PreparedActionItem) (d0 d : Desk S)
      → Sound d0 d
      → MayHand p d0 d
      → Sound d0 (apply_item env a i p d)
  unfolding apply_item
  apply_item-Sound i p d0 d before may =
      let answer = env.apply p d.outside in
      let d1 = record d { outside = answer.1; handed = d.handed ++ p ∷ [] } in
      Sound-trans d0 d1 _
        (record {
          items = before.items;
          actions = before.actions;
          within = may;
          settled = before.settled;
        })
        (commit_disposition-Sound a i (receipt_for (outcome_of answer.0)) d1
          (receipt_for-ends (outcome_of answer.0)))

  run_claimed-Sound :
      (i : Item) (p : PreparedActionItem) (d0 d : Desk S)
      → Sound d0 d
      → MayHand p d0 d
      → Sound d0 (run_claimed env a i p d).1
  unfolding run_claimed assessment_of
  run_claimed-Sound i p d0 d before may =
      let (status, s) = env.control_status d.outside in
      let d1 = record d { outside = s } in
      let read = Sound-trans d0 d d1 before (same-Sound d d1 refl refl refl) in
      elim (Option-cases (halt_of (assess_job status a.recovery_generation))) [
        | inl go ↦ rw (go, run_claimed) (apply_item-Sound i p d0 d1 read may)
        | inr (h, stop) ↦ rw (stop, run_claimed) read
      ]

  claim-MayHand :
      (i : Item) (p : PreparedActionItem) (d : Desk S)
      → p.action_id ≡ a.id
      → p.item_key ≡ i.item_key
      → p.kind ≡ a.kind
      → IsStartable a i
      → ((mark_executing a.id i.item_key d).0 || is_item_status ActionItemStatus.executing i.status)
        ≡ true
      → MayHand p d (mark_executing a.id i.item_key d).1
  unfolding mark_executing
  claim-MayHand i p d pa pk pkind start go w =
      elim (Bool-cases (any (claims a.id i.item_key) d.items)) [
        | inl c ↦
            claimed-Within d.handed a.id i.item_key p pa pk
              (claims-unmoved d.handed a.id i.item_key d.items c w) d.items w
        | inr n ↦
            All-map (WithinLimit d.handed) (WithinLimit (d.handed ++ p ∷ []))
              (replayed-WithinLimit d.handed p (rw pkind (replays _ _ _ n go start)))
              (update_where (claims a.id i.item_key) claimed_item d.items)
              ((mark_executing-Sound a.id i.item_key d).within w)
      ]

  claim_and_run-Sound :
      (i : Item) (p : PreparedActionItem) (d : Desk S)
      → p.action_id ≡ a.id
      → p.item_key ≡ i.item_key
      → p.kind ≡ a.kind
      → IsStartable a i
      → Sound d (claim_and_run env a i p d).1
  unfolding claim_and_run
  claim_and_run-Sound i p d pa pk pkind start =
      let d1 = (mark_executing a.id i.item_key d).1 in
      let before = mark_executing-Sound a.id i.item_key d in
      elim (Bool-cases (
        (mark_executing a.id i.item_key d).0
        || is_item_status ActionItemStatus.executing i.status)) [
          | inl go ↦
              rw (go, claim_and_run)
                (run_claimed-Sound i p d d1 before (claim-MayHand i p d pa pk pkind start go))
          | inr skip ↦ rw (skip, claim_and_run) before
        ]

module _ {S : Type 0} (env : Environment S) (a : Action) (folder : ActionFolder) (generation : ℕ)
    (to : Destination) where
  pub execute_item-Sound :
      (remotes : List ActionMailboxFlags) (i : Item) (d : Desk S)
      → IsStartable a i
      → Sound d (execute_item env a folder generation to remotes i d).1
  unfolding execute_item prepared_item
  execute_item-Sound remotes i d start = elim (Option-cases (remote_of i.target.uid remotes)) [
    | inl gone ↦
        rw (gone, execute_item)
          (commit_disposition-Sound a i (conflict_with "absent_remote" plain) d refl)
    | inr (remote, seen) ↦
        elim (Option-cases (
          examine (flag_desire_of a.kind) generation i remote
            (load_occurrence i.target.occurrence_id d))) [
              | inl passed ↦
                  rw (seen, passed, execute_item)
                    (claim_and_run-Sound env a i (prepared_item a i folder generation remote to) d
                      refl refl refl start)
              | inr (write, ended) ↦
                  rw (seen, ended, execute_item)
                    (commit_disposition-Sound a i write d (
                      examine-ends (flag_desire_of a.kind) generation i remote
                        (load_occurrence i.target.occurrence_id d) write ended))
            ]
  ]
