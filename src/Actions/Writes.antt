-- ===== src/Actions/Writes.antt =====
-- The writes of service.ts that a run of an action is made of: receipts, claims and the status of the
-- action.
use personal_mail_hub.Base.{
  ℕ, Bool, true, false, ◌&&◌, ◌||◌, ◌≡◌, refl, List, [], ◌∷◌, any, Option, none, String, select,
  length, All, arith, Bool-cases, inl, inr, Text, text_eq, text_eq_iff, ltb,
}
use personal_mail_hub.Database.{ActionStatus, ActionItemStatus}
use personal_mail_hub.Recovery.Controls.{is_pending_action}
use personal_mail_hub.Actions.{in_folder, Action, Item}
use personal_mail_hub.Actions.State.{
  Desk, update_where, is_item_status, is_pending_item, is_item, is_queued_action, pending_items,
}
use personal_mail_hub.Actions.Disposition.{
  Disposition, with_receipt, is_interrupted, claimed_item, eligible, disposes, commit_disposition,
  commit_observation, finalize_action_status, complete_action, is_open_action, with_status,
  mark_executing, claims, conflict_items, conflict_all, conflict_with,
}
use personal_mail_hub.Actions.Rows.{
  update_where-Pairs, Change, claim, dispose, supersede, Progress, here, next,
}
use personal_mail_hub.Actions.Sound.{
  Advances, Sound, Sound-refl, Sound-trans, items-Sound, actions-Sound, same-Sound, if-Sound,
  IsClean, Finished, is_open_item,
}

-- Nothing that a selection looks for is left where it comes out empty.
pub length-select :
    {A : Type 0} (p : A → Bool) (xs : List A)
    → ltb 0 (length (select p xs)) ≡ false
    → All (λ x. p x ≡ false) xs
length-select p [] h = tt
length-select p (x ∷ xs) h = elim (Bool-cases (p x)) [
  | inl hit ↦ absurd (ground (arith, rw hit at h))
  | inr miss ↦ (miss, length-select p xs (rw miss at h))
]

status-queued :
    (s : ActionItemStatus)
    → is_item_status ActionItemStatus.queued s ≡ true
    → s ≡ ActionItemStatus.queued
status-queued s h = ground (arith, h)

pub and_right : (b c : Bool) → (b && c) ≡ true → c ≡ true
and_right b c h = ground (arith, h)

-- The two changes of an action's status.
executing-Advances :
    (id : Text) (a : Action)
    → (text_eq a.id id && is_queued_action a.status) ≡ true
    → Advances a (with_status ActionStatus.executing a)
executing-Advances id a h = (refl, ground (arith, h))

pub complete-Advances : (a : Action) → Advances a (with_status ActionStatus.complete a)
complete-Advances a = (refl, ground arith)

pub open-id : (id : Text) (a : Action) (b : Bool) → (text_eq a.id id && b) ≡ true → a.id ≡ id
open-id id a b h = ground (arith, text_eq_iff a.id id)

interrupted-held : (b c : Bool) → (false || (b && c)) ≡ true → c ≡ true
interrupted-held b c h = ground (arith, h)

eligible-Change :
    (a : Action) (i : Item) (write : Disposition)
    → is_pending_item write.status ≡ false
    → (j : Item) → disposes a i write j ≡ true
    → Change j (with_receipt write j)
unfolding disposes eligible
eligible-Change a i write h j e = elim (Bool-cases (is_pending_item j.status)) [
  | inl p ↦ dispose write p h refl
  | inr n ↦
      let held = and_right (is_item a.id i.item_key j) _ e in
      supersede write (interrupted-held write.supersedes_hold (is_interrupted j) (rw n at held)) h
        refl
]

module _ {S : Type 0} where
  complete_action-Sound :
      (id : Text) (d : Desk S) → All (IsClean id) d.items → Sound d (complete_action id d)
  unfolding complete_action
  complete_action-Sound id d clean =
      let d' = record d {
        actions = update_where (is_open_action id) (with_status ActionStatus.complete) d.actions;
      } in
      let written =
        actions-Sound d d' (is_open_action id) (with_status ActionStatus.complete)
          (λ a h. complete-Advances a) (settles d.items clean) refl refl refl in
      if-Sound (any (is_open_action id) d.actions) d _ d'
        (Sound-trans d d' _ written (same-Sound d' _ refl refl refl)) written
    where
      settles :
          (items : List Item)
          → All (IsClean id) items
          → (a : Action) → is_open_action id a ≡ true
          → Finished items a
          → Finished items (with_status ActionStatus.complete a)
      settles items clean a h f c = rw (open-id id a (is_pending_action a.status) h) clean

  pub finalize_action_status-Sound :
      (id : Text) (d : Desk S) → Sound d (finalize_action_status id d)
  unfolding finalize_action_status
  finalize_action_status-Sound id d =
      elim (Bool-cases (ltb 0 (length (select (is_open_item id) d.items)))) [
        | inl h ↦ rw h (
            actions-Sound d _ (λ a. text_eq a.id id && is_queued_action a.status)
              (with_status ActionStatus.executing) (executing-Advances id) (λ a t f e. cc e) refl
              refl refl)
        | inr h ↦ rw h (complete_action-Sound id d (length-select (is_open_item id) d.items h))
      ]

  commit_observation-Sound :
      (a : Action) (i : Item) (write : Disposition) (d : Desk S)
      → Sound d (commit_observation a i write d)
  unfolding commit_observation
  commit_observation-Sound a i write d =
      let seen = if-Sound _ d _ _ (same-Sound d _ refl refl refl) (Sound-refl d) in
      if-Sound write.applied d _ _ (Sound-trans d _ _ seen (same-Sound _ _ refl refl refl)) seen

  pub commit_disposition-Sound :
      (a : Action) (i : Item) (write : Disposition) (d : Desk S)
      → is_pending_item write.status ≡ false
      → Sound d (commit_disposition a i write d)
  unfolding commit_disposition
  commit_disposition-Sound a i write d h =
      let d' = record d {
        items = update_where (disposes a i write) (with_receipt write) d.items;
      } in
      let written =
        items-Sound d d'
          (update_where-Pairs Progress (λ j. here) (disposes a i write) (with_receipt write)
            (λ j e. next here (eligible-Change a i write h j e)) d.items)
          refl refl in
      if-Sound (any (disposes a i write) d.items) d _ _
        (Sound-trans d d' _ written (
          Sound-trans d' (commit_observation a i write d') _ (commit_observation-Sound a i write d')
            (finalize_action_status-Sound a.id (commit_observation a i write d'))))
        written

  pub mark_executing-Sound : (id key : Text) (d : Desk S) → Sound d (mark_executing id key d).1
  unfolding mark_executing
  mark_executing-Sound id key d =
      items-Sound d _
        (update_where-Pairs Progress (λ j. here) (claims id key) claimed_item
          (λ j e. next here (claim (status-queued j.status (and_right _ _ e)) refl)) d.items)
        refl refl

  pub conflict_items-Sound :
      (a : Action) (is : List Item) (reason : String) (seen : Option ℕ) (d : Desk S)
      → Sound d (conflict_items a is reason seen d)
  unfolding conflict_items
  conflict_items-Sound a [] reason seen d = Sound-refl d
  conflict_items-Sound a (i ∷ is) reason seen d =
      let write = conflict_with reason (in_folder seen i.target.folder_id i.target.uid) in
      Sound-trans d (commit_disposition a i write d) _ (commit_disposition-Sound a i write d refl)
        (conflict_items-Sound a is reason seen (commit_disposition a i write d))

  pub conflict_all-Sound :
      (a : Action) (reason : String) (d : Desk S) → Sound d (conflict_all a reason d)
  unfolding conflict_all
  conflict_all-Sound a reason d = conflict_items-Sound a (pending_items a.id d) reason none d
