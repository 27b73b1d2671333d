-- ===== src/Actions/Fresh.antt =====
-- What the executor is handed (service.ts, executeFolderGroup): the checks that an item passed.
use personal_mail_hub.Base.{
  if-eq, ℕ, true, false, ◌||◌, ◌≡◌, refl, ap, ◌∙◌, inl, inr, ◌⊎◌, Option, none, some, List, [], ◌∷◌,
  ◌++◌, any, select, length, ltb, ==_iff, arith, Bool-cases, Option-cases, Text, String, eq_iff,
}
use personal_mail_hub.Database.{ActionItemStatus}
use personal_mail_hub.Recovery.{JobAssessment, assess_job}
use personal_mail_hub.Actions.{
  Action, ActionFolder, ActionMailboxFlags, FlagDesire, Item, Occurrence, PreparedActionItem,
}
use personal_mail_hub.Actions.Kinds.{flag_desire_of}
use personal_mail_hub.Actions.State.{
  Environment, Desk, is_item_status, load_occurrence, update_where,
}
use personal_mail_hub.Actions.Disposition.{
  Disposition, commit_disposition, commit_observation, finalize_action_status, complete_action,
  disposes, claims, mark_executing, is_open_action, with_receipt,
}
use personal_mail_hub.Actions.Check.{
  Destination, remote_of, examine, examine_found, holds_desired, modseq_eq, prepared_item,
}
use personal_mail_hub.Actions.Execute.{
  assessment_of, halt_of, apply_item, run_claimed, claim_and_run, execute_item,
}
use personal_mail_hub.Actions.Sound.{is_open_item}

abbrev handed_of : {S : Type 0} → Desk S → List PreparedActionItem
handed_of d = d.handed

module _ {S : Type 0} where
  complete_action-handed : (id : Text) (d : Desk S) → (complete_action id d).handed ≡ d.handed
  unfolding complete_action
  complete_action-handed id d =
      if-eq handed_of (any (is_open_action id) d.actions) _ _ d.handed refl refl

  finalize_action_status-handed :
      (id : Text) (d : Desk S) → (finalize_action_status id d).handed ≡ d.handed
  unfolding finalize_action_status
  finalize_action_status-handed id d =
      if-eq handed_of (ltb 0 (length (select (is_open_item id) d.items))) _ _ d.handed refl
        (complete_action-handed id d)

  commit_observation-handed :
      (a : Action) (i : Item) (write : Disposition) (d : Desk S)
      → (commit_observation a i write d).handed ≡ d.handed
  unfolding commit_observation
  commit_observation-handed a i write d =
      if-eq handed_of write.applied _ _ d.handed (if-eq handed_of _ _ d d.handed refl refl)
        (if-eq handed_of _ _ d d.handed refl refl)

  commit_disposition-handed :
      (a : Action) (i : Item) (write : Disposition) (d : Desk S)
      → (commit_disposition a i write d).handed ≡ d.handed
  unfolding commit_disposition
  commit_disposition-handed a i write d =
      let d' = record d {
        items = update_where (disposes a i write) (with_receipt write) d.items;
      } in
      if-eq handed_of (any (disposes a i write) d.items) _ d' d.handed
        (finalize_action_status-handed a.id (commit_observation a i write d')
          ∙ commit_observation-handed a i write d')
        refl

-- The occurrence is the one that the target froze, in the generation of the folder.
pub record IsUnchanged (o : Occurrence) (i : Item) (generation : ℕ) : Type 0 where
  pub live : (o.expunged || o.invalidated) ≡ false
  pub frozen_generation : o.uidvalidity ≡ i.target.uidvalidity
  pub folder_generation : o.uidvalidity ≡ generation
  pub revision : o.revision ≡ i.target.revision
  pub modseq : o.modseq ≡ i.target.modseq

modseq_eq-eq : (a b : Option String) → modseq_eq a b ≡ true → a ≡ b
modseq_eq-eq none none h = refl
modseq_eq-eq none (some b) h = cc h
modseq_eq-eq (some a) none h = cc h
modseq_eq-eq (some a) (some b) h = ap some ((eq_iff a b).0 h)

examine_found-none :
    (desire : Option FlagDesire) (generation : ℕ) (i : Item) (remote : ActionMailboxFlags)
    (o : Occurrence)
    → examine_found desire generation i remote o ≡ none
    → IsUnchanged o i generation × (holds_desired desire remote ≡ false)
unfolding examine_found
examine_found-none desire generation i remote o e = (
  record {
    live = ground (arith, e);
    frozen_generation = ground (arith, e, ==_iff o.uidvalidity i.target.uidvalidity);
    folder_generation = ground (arith, e, ==_iff o.uidvalidity generation);
    revision = ground (arith, e, ==_iff o.revision i.target.revision);
    modseq = modseq_eq-eq o.modseq i.target.modseq (ground (arith, e));
  },
  ground (arith, e),
)

-- The conditions under which an item is handed to the executor, in the state before it.
pub record IsHanded {S : Type 0} (env : Environment S) (a : Action) (generation : ℕ)
    (remotes : List ActionMailboxFlags) (i : Item) (d : Desk S) (remote : ActionMailboxFlags)
    (o : Occurrence) : Type 0 where
  -- the refresh showed the UID, and not with the desired value
  pub present : remote_of i.target.uid remotes ≡ some remote
  pub wanted : holds_desired (flag_desire_of a.kind) remote ≡ false
  pub known : load_occurrence i.target.occurrence_id d ≡ some o
  pub unchanged : IsUnchanged o i generation
  -- the claim took it from the queue, or it was seen executing
  pub claimed :
      (any (claims a.id i.item_key) d.items || is_item_status ActionItemStatus.executing i.status)
      ≡ true
  -- the recovery recheck after the claim
  pub executes :
      assess_job (env.control_status d.outside).0 a.recovery_generation ≡ JobAssessment.execute

halt_of-none : (j : JobAssessment) → halt_of j ≡ none → j ≡ JobAssessment.execute
unfolding halt_of
halt_of-none JobAssessment.execute h = refl
halt_of-none JobAssessment.stale h = cc h
halt_of-none JobAssessment.blocked h = cc h

module _ {S : Type 0} (env : Environment S) (a : Action) where
  apply_item-handed :
      (i : Item) (p : PreparedActionItem) (d : Desk S)
      → (apply_item env a i p d).handed ≡ d.handed ++ p ∷ []
  unfolding apply_item
  apply_item-handed i p d = commit_disposition-handed a i _ _

  run_claimed-handed :
      (i : Item) (p : PreparedActionItem) (d : Desk S)
      → ((run_claimed env a i p d).1.handed ≡ d.handed)
        ⊎ ((assess_job (env.control_status d.outside).0 a.recovery_generation
              ≡ JobAssessment.execute)
            × ((run_claimed env a i p d).1.handed ≡ d.handed ++ p ∷ []))
  unfolding run_claimed assessment_of
  run_claimed-handed i p d =
      let (status, s) = env.control_status d.outside in
      elim (Option-cases (halt_of (assess_job status a.recovery_generation))) [
        | inl go ↦ inr (
          halt_of-none (assess_job status a.recovery_generation) go,
          rw (go, run_claimed) (apply_item-handed i p (record d { outside = s })),
        )
        | inr (h, stop) ↦ inl (rw (stop, run_claimed) refl)
      ]

  claim_and_run-handed :
      (i : Item) (p : PreparedActionItem) (d : Desk S)
      → ((claim_and_run env a i p d).1.handed ≡ d.handed)
        ⊎ (((any (claims a.id i.item_key) d.items
                || is_item_status ActionItemStatus.executing i.status)
              ≡ true)
            × (assess_job (env.control_status d.outside).0 a.recovery_generation
                ≡ JobAssessment.execute)
            × ((claim_and_run env a i p d).1.handed ≡ d.handed ++ p ∷ []))
  unfolding claim_and_run mark_executing
  claim_and_run-handed i p d =
      elim (Bool-cases (
        any (claims a.id i.item_key) d.items
        || is_item_status ActionItemStatus.executing i.status)) [
          | inr skip ↦ inl (rw (skip, claim_and_run) refl)
          | inl go ↦ elim (run_claimed-handed i p (mark_executing a.id i.item_key d).1) [
            | inl none' ↦ inl (rw (go, claim_and_run) none')
            | inr (executes, handed) ↦ inr (go, executes, rw (go, claim_and_run) handed)
          ]
        ]

-- One item of a folder group: the executor is handed nothing, or it is handed once, for this item,
-- and then the refresh showed the UID without the desired value, the stored occurrence is neither
-- expunged nor invalidated and has the frozen generation, revision and sequence and the generation
-- that the folder has, the claim succeeded or the item was seen executing, and the recovery recheck
-- after the claim lets the action's generation execute.
pub execute_item-IsHanded :
    {S : Type 0} (env : Environment S) (a : Action) (folder : ActionFolder) (generation : ℕ)
    (to : Destination) (remotes : List ActionMailboxFlags) (i : Item) (d : Desk S)
    → ((execute_item env a folder generation to remotes i d).1.handed ≡ d.handed)
      ⊎ ((remote : ActionMailboxFlags) × (o : Occurrence) × IsHanded env a generation remotes i d
            remote o
          × ((execute_item env a folder generation to remotes i d).1.handed
              ≡ d.handed ++ prepared_item a i folder generation remote to ∷ []))
unfolding execute_item examine
execute_item-IsHanded env a folder generation to remotes i d =
    elim (Option-cases (remote_of i.target.uid remotes)) [
      | inl gone ↦ inl (rw (gone, execute_item) (commit_disposition-handed a i _ d))
      | inr (remote, seen) ↦ elim (Option-cases (load_occurrence i.target.occurrence_id d)) [
        | inl missing ↦ inl (rw (seen, missing, execute_item) (commit_disposition-handed a i _ d))
        | inr (o, known) ↦
            elim (Option-cases (examine_found (flag_desire_of a.kind) generation i remote o)) [
              | inr (write, ended) ↦
                  inl (rw (seen, known, ended, execute_item) (commit_disposition-handed a i _ d))
              | inl passed ↦
                  elim (claim_and_run-handed env a i (prepared_item a i folder generation remote to)
                    d) [
                      | inl none' ↦ inl (rw (seen, known, passed, execute_item) none')
                      | inr (claimed, executes, handed) ↦
                          let checks =
                            examine_found-none (flag_desire_of a.kind) generation i remote o
                              passed in
                          inr (
                            remote,
                            o,
                            record {
                              present = seen;
                              wanted = checks.1;
                              known = known;
                              unchanged = checks.0;
                              claimed = claimed;
                              executes = executes;
                            },
                            rw (seen, known, passed, execute_item) handed,
                          )
                    ]
            ]
      ]
    ]
