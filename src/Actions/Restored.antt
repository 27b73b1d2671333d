-- ===== src/Actions/Restored.antt =====
-- `dispositionRestoredActions` of service.ts, and what `recovery complete` counts after it.
use personal_mail_hub.Base.{
  Bool, true, false, ◌&&◌, ◌||◌, ◌≡◌, refl, inl, inr, none, List, [], ◌∷◌, any, select, All, arith,
  Bool-cases, Text, text_eq, text_eq_iff, to_lower, if◌then◌else◌,
}
use personal_mail_hub.Database.{ActionStatus, ActionItemStatus}
use personal_mail_hub.Recovery.{is_uuid}
use personal_mail_hub.Recovery.Controls.{is_pending_action, ActionRow, count_actions}
use personal_mail_hub.Actions.{Action, Item, held}
use personal_mail_hub.Actions.State.{Desk, update_where, is_item_status, is_pending_item}
use personal_mail_hub.Actions.Disposition.{Disposition, is_open_action, with_status}
use personal_mail_hub.Actions.Restore.{
  RestoredDispositionSummary, of_action_in, restored_to, is_restored, restore_items, restore_action,
  restored_count, restore_actions, disposition_restored_actions,
}
use personal_mail_hub.Actions.Rows.{
  Pairs, Pairs-trans, update_where-Pairs, dispose, Progress, here, next, Progress-trans, All-always,
  All-update, select-covers,
}
use personal_mail_hub.Actions.Sound.{
  Sound, Sound-refl, Sound-trans, same-Sound, if-Sound, items-Sound, actions-Sound, IsClean,
}
use personal_mail_hub.Actions.Writes.{complete-Advances, open-id, and_right}

-- The receipt of a restored item.
abbrev restored_receipt : ActionItemStatus → Disposition
restored_receipt s = record {
  status = s;
  outcome = held "restored_generation";
  observed = none;
  applied = false;
  expunge = false;
  supersedes_hold = false;
}

restored-Change :
    (id : Text) (from to : ActionItemStatus)
    → is_pending_item from ≡ true
    → is_pending_item to ≡ false
    → (i : Item) → of_action_in id from i ≡ true
    → Progress i (restored_to to i)
restored-Change id from to p h i e =
    next here
      (dispose (restored_receipt to) (same_pending from i.status p (and_right _ _ e)) h refl)
  where
    same_pending :
        (s t : ActionItemStatus)
        → is_pending_item s ≡ true
        → is_item_status s t ≡ true
        → is_pending_item t ≡ true
    same_pending s t p e = ground (arith, p, e)

restore_items-Progress :
    (id : Text) (items : List Item) → Pairs Progress items (restore_items id items)
unfolding restore_items
restore_items-Progress id items =
    Pairs-trans Progress Progress-trans items _ _
      (update_where-Pairs Progress (λ i. here) _ _
        (restored-Change id ActionItemStatus.queued ActionItemStatus.conflicted refl refl) items)
      (update_where-Pairs Progress (λ i. here) _ _
        (restored-Change id ActionItemStatus.executing ActionItemStatus.unknown refl refl) _)

-- After both updates the action has no pending item.
abbrev IsUnqueued : Text → Item → Type 0
IsUnqueued id i = of_action_in id ActionItemStatus.queued i ≡ false

first-IsUnqueued :
    (id : Text) (i : Item)
    → IsUnqueued id (
        if of_action_in id ActionItemStatus.queued i
        then restored_to ActionItemStatus.conflicted i
        else i)
first-IsUnqueued id i = elim (Bool-cases (of_action_in id ActionItemStatus.queued i)) [
  | inl q ↦ rw q (ground arith)
  | inr n ↦ rw n n
]

unqueued-open :
    (own : Bool) (s : ActionItemStatus)
    → (own && is_item_status ActionItemStatus.queued s) ≡ false
    → (own && is_item_status ActionItemStatus.executing s) ≡ false
    → (own && is_pending_item s) ≡ false
unqueued-open own s q e = ground (arith, q, e)

second-IsClean :
    (id : Text) (i : Item)
    → IsUnqueued id i
    → IsClean id (
        if of_action_in id ActionItemStatus.executing i
        then restored_to ActionItemStatus.unknown i
        else i)
second-IsClean id i u = elim (Bool-cases (of_action_in id ActionItemStatus.executing i)) [
  | inl e ↦ rw e (ground arith)
  | inr n ↦ rw n (unqueued-open (text_eq i.action_id id) i.status u n)
]

restore_items-IsClean : (id : Text) (items : List Item) → All (IsClean id) (restore_items id items)
unfolding restore_items
restore_items-IsClean id items =
    All-update (IsUnqueued id) (IsClean id) (of_action_in id ActionItemStatus.executing)
      (restored_to ActionItemStatus.unknown) (second-IsClean id) _
      (All-update (λ i. i ≡ i) (IsUnqueued id) (of_action_in id ActionItemStatus.queued)
        (restored_to ActionItemStatus.conflicted) (λ i u. first-IsUnqueued id i) items
        (All-always (λ i. i ≡ i) (λ i. refl) items))

-- The rows of the pending actions of another generation, and those still to be dispositioned.
abbrev IsAwaited : Text → List Action → Action → Type 0
IsAwaited current as' r =
    is_restored current r ≡ true → Unit → any (λ a. text_eq r.id a.id) as' ≡ true

never : (b c : Bool) → (b && false) ≡ true → c ≡ true
never b c h = ground (arith, h)

completed-IsAwaited :
    (current : Text) (a : Action) (rest : List Action) (r : Action)
    → IsAwaited current (a ∷ rest) r
    → IsAwaited current rest
        (if is_open_action a.id r then with_status ActionStatus.complete r else r)
completed-IsAwaited current a rest r w = elim (Bool-cases (is_open_action a.id r)) [
  | inl o ↦ rw o (λ k u. never _ _ k)
  | inr n ↦ rw n (λ k u. remains _ _ _ n (and_right _ _ k) (w k u))
]
  where
    remains :
        (same pending rest : Bool)
        → (same && pending) ≡ false
        → pending ≡ true
        → (same || rest) ≡ true
        → rest ≡ true
    remains same pending rest n p h = ground (arith, n, p, h)

module _ {S : Type 0} where
  restored_desk : Action → Desk S → Desk S
  restored_desk a d = record d {
    items = restore_items a.id d.items;
    actions = update_where (is_open_action a.id) (with_status ActionStatus.complete) d.actions;
  }

  restore_action-Sound : (a : Action) (d : Desk S) → Sound d (restore_action a d)
  unfolding restore_action restored_desk
  restore_action-Sound a d =
      let d1 = record d { items = restore_items a.id d.items } in
      let d2 = restored_desk a d in
      let both =
        Sound-trans d d1 d2 (items-Sound d d1 (restore_items-Progress a.id d.items) refl refl) (
          actions-Sound d1 d2 (is_open_action a.id) (with_status ActionStatus.complete)
            (λ b h. complete-Advances b)
            (λ b h f c.
              rw (open-id a.id b (is_pending_action b.status) h)
                (restore_items-IsClean a.id d.items))
            refl refl refl) in
      if-Sound (any (is_open_action a.id) d.actions) d _ d2
        (Sound-trans d d2 _ both (same-Sound d2 _ refl refl refl)) both

  restore_actions-Sound :
      (as' : List Action) (summary : RestoredDispositionSummary) (d : Desk S)
      → Sound d (restore_actions as' summary d).1
  unfolding restore_actions
  restore_actions-Sound [] summary d = Sound-refl d
  restore_actions-Sound (a ∷ rest) summary d =
      Sound-trans d (restore_action a d) _ (restore_action-Sound a d)
        (restore_actions-Sound rest (restored_count a d summary) (restore_action a d))

  pub disposition_restored_actions-Sound :
      (current : Text) (d : Desk S) → Sound d (disposition_restored_actions current d).1
  unfolding disposition_restored_actions
  disposition_restored_actions-Sound current d = elim (Bool-cases (is_uuid current)) [
    | inl u ↦
        rw (u, disposition_restored_actions)
          (restore_actions-Sound (select (is_restored current) d.actions)
            (record { actions = 0; conflicted = 0; unknown = 0 }) d)
    | inr n ↦ rw (n, disposition_restored_actions) (Sound-refl d)
  ]

  restore_action-actions :
      (a : Action) (d : Desk S)
      → (restore_action a d).actions
        ≡ update_where (is_open_action a.id) (with_status ActionStatus.complete) d.actions
  unfolding restore_action
  restore_action-actions a d = elim (Bool-cases (any (is_open_action a.id) d.actions)) [
    | inl o ↦ rw (o, restore_action) refl
    | inr n ↦ rw (n, restore_action) refl
  ]

  restore_actions-IsAwaited :
      (current : Text) (as' : List Action) (summary : RestoredDispositionSummary) (d : Desk S)
      → All (IsAwaited current as') d.actions
      → All (IsAwaited current []) (restore_actions as' summary d).1.actions
  unfolding restore_actions
  restore_actions-IsAwaited current [] summary d h = h
  restore_actions-IsAwaited current (a ∷ rest) summary d h =
      restore_actions-IsAwaited current rest (restored_count a d summary) (restore_action a d) (
        rw (restore_action-actions a d) (
          All-update (IsAwaited current (a ∷ rest)) (IsAwaited current rest) (is_open_action a.id)
            (with_status ActionStatus.complete) (completed-IsAwaited current a rest) d.actions h))

-- The columns of `actions` that the recovery controls read.
unfoldable pub control_rows : List Action → List ActionRow
control_rows [] = []
control_rows (a ∷ rest) =
    record { recovery_generation = a.recovery_generation; status = a.status } ∷ control_rows rest

counted-none :
    (current : Text) (rows : List Action)
    → All (IsAwaited current []) rows
    → count_actions (to_lower current) (control_rows rows) ≡ 0
unfolding count_actions control_rows
counted-none current [] h = refl
counted-none current (a ∷ rest) h = elim (Bool-cases (is_restored current a)) [
  | inl r ↦ cc (h.0 r tt)
  | inr n ↦ rw n (counted-none current rest h.1)
]

-- Once `dispositionRestoredActions` ran for a well-formed current generation, `recovery complete`
-- counts no action of another generation without a disposition.
pub disposition_restored_actions-leaves_none :
    {S : Type 0} (current : Text) (d : Desk S)
    → is_uuid current ≡ true
    → count_actions
        (to_lower current)
        (control_rows (disposition_restored_actions current d).1.actions)
      ≡ 0
unfolding disposition_restored_actions
disposition_restored_actions-leaves_none current d u =
    rw (u, disposition_restored_actions)
      (counted-none current _ (
        restore_actions-IsAwaited current (select (is_restored current) d.actions) _ d (
          select-covers (is_restored current) (λ r a. text_eq r.id a.id) (λ r. Unit)
            (λ r k e. (text_eq_iff r.id r.id).1 refl) d.actions)))
