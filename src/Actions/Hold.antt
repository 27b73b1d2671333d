-- ===== src/Actions/Hold.antt =====
-- The hold of interrupted items in `execute` (service.ts), and the items that are pending after it.
use personal_mail_hub.Base.{
  if-eq, or_true, Bool, true, false, not, ◌&&◌, ◌||◌, ◌≡◌, refl, ◌∙◌, ap, inl, inr, List, [], ◌∷◌,
  any, select, All, arith, Bool-cases, Text, text_eq, text_eq_iff, if◌then◌else◌, ltb, length,
}
use personal_mail_hub.Database.{ActionItemStatus}
use personal_mail_hub.Actions.{Action, Item}
use personal_mail_hub.Actions.Kinds.{is_replayable_kind}
use personal_mail_hub.Actions.State.{
  Desk, update_where, is_item_status, is_pending_item, of_action, item_leb, insert_item, sort_items,
  load_items, pending_items,
}
use personal_mail_hub.Actions.Disposition.{
  Disposition, commit_disposition, commit_observation, finalize_action_status, complete_action,
  disposes, eligible, with_receipt, is_open_action,
}
use personal_mail_hub.Actions.Check.{interrupted_hold}
use personal_mail_hub.Actions.Execute.{hold_items}
use personal_mail_hub.Actions.Rows.{All-select, All-map, All-always, All-update, select-covers}
use personal_mail_hub.Actions.Sound.{Sound, Sound-refl, Sound-trans, if-Sound, is_open_item}
use personal_mail_hub.Actions.Writes.{commit_disposition-Sound}
use personal_mail_hub.Actions.Claim.{IsStartable}

abbrev items_of : {S : Type 0} → Desk S → List Item
items_of d = d.items

module _ {S : Type 0} where
  complete_action-items : (id : Text) (d : Desk S) → (complete_action id d).items ≡ d.items
  unfolding complete_action
  complete_action-items id d =
      if-eq items_of (any (is_open_action id) d.actions) _ _ d.items refl refl

  finalize_action_status-items :
      (id : Text) (d : Desk S) → (finalize_action_status id d).items ≡ d.items
  unfolding finalize_action_status
  finalize_action_status-items id d =
      if-eq items_of (ltb 0 (length (select (is_open_item id) d.items))) _ _ d.items refl
        (complete_action-items id d)

  commit_observation-items :
      (a : Action) (i : Item) (write : Disposition) (d : Desk S)
      → (commit_observation a i write d).items ≡ d.items
  unfolding commit_observation
  commit_observation-items a i write d =
      if-eq items_of write.applied _ _ d.items (if-eq items_of _ _ d d.items refl refl)
        (if-eq items_of _ _ d d.items refl refl)

  -- The rows after a receipt.
  pub commit_disposition-items :
      (a : Action) (i : Item) (write : Disposition) (d : Desk S)
      → (commit_disposition a i write d).items
        ≡ update_where (disposes a i write) (with_receipt write) d.items
  unfolding commit_disposition
  commit_disposition-items a i write d =
      let rows = update_where (disposes a i write) (with_receipt write) d.items in
      let d' = record d { items = rows } in
      if-eq items_of (any (disposes a i write) d.items) _ d' rows
        (finalize_action_status-items a.id (commit_observation a i write d')
          ∙ commit_observation-items a i write d')
        refl

-- The row is executing, and the list has its key under an executing item.
abbrev covers : Item → Item → Bool
covers r i = text_eq r.item_key i.item_key && is_item_status ActionItemStatus.executing i.status

abbrev IsCovered : Action → List Item → Item → Type 0
IsCovered a is r =
    of_action a.id r ≡ true
    → is_item_status ActionItemStatus.executing r.status ≡ true
    → any (covers r) is ≡ true

missed :
    (own same pending held executing rest : Bool)
    → ((own && same) && (pending || held)) ≡ false
    → own ≡ true
    → pending ≡ true
    → ((same && executing) || rest) ≡ true
    → rest ≡ true
missed own same pending held executing rest n o p c = ground (arith, n, o, p, c)

executing-pending :
    (s : ActionItemStatus)
    → is_item_status ActionItemStatus.executing s ≡ true
    → is_pending_item s ≡ true
executing-pending s h = ground (arith, h)

held-IsCovered :
    (a : Action) (i : Item) (is : List Item) (r : Item)
    → IsCovered a (i ∷ is) r
    → IsCovered a is
        (if disposes a i interrupted_hold r then with_receipt interrupted_hold r else r)
unfolding disposes eligible interrupted_hold
held-IsCovered a i is r c = elim (Bool-cases (disposes a i interrupted_hold r)) [
  | inl held ↦ rw held (λ k e. cc e)
  | inr kept ↦ rw kept (λ k e.
      missed (text_eq r.action_id a.id) (text_eq r.item_key i.item_key) (is_pending_item r.status) _
        (is_item_status ActionItemStatus.executing i.status) _ kept k (executing-pending r.status e)
        (c k e))
]

skipped-IsCovered :
    (a : Action) (i : Item) (is : List Item)
    → is_item_status ActionItemStatus.executing i.status ≡ false
    → (r : Item) → IsCovered a (i ∷ is) r
    → IsCovered a is r
skipped-IsCovered a i is n r c k e =
    missed_skip (text_eq r.item_key i.item_key) (is_item_status ActionItemStatus.executing i.status)
      _ n (c k e)
  where
    missed_skip :
        (same executing rest : Bool)
        → executing ≡ false
        → ((same && executing) || rest) ≡ true
        → rest ≡ true
    missed_skip same executing rest n c = ground (arith, n, c)

-- After the pass over the loaded items no item of the action is executing.
hold_items-IsCovered :
    {S : Type 0} (a : Action) (is : List Item) (d : Desk S)
    → is_replayable_kind a.kind ≡ false
    → All (IsCovered a is) d.items
    → All (IsCovered a []) (hold_items a is d).items
unfolding hold_items
hold_items-IsCovered a [] d n h = h
hold_items-IsCovered a (i ∷ is) d n h =
    elim (Bool-cases (is_item_status ActionItemStatus.executing i.status)) [
      | inl e ↦
          rw (e, n, hold_items)
            (hold_items-IsCovered a is (commit_disposition a i interrupted_hold d) n (
              rw (commit_disposition-items a i interrupted_hold d) (
                All-update (IsCovered a (i ∷ is)) (IsCovered a is) (disposes a i interrupted_hold)
                  (with_receipt interrupted_hold) (held-IsCovered a i is) d.items h)))
      | inr e ↦
          rw (e, hold_items)
            (hold_items-IsCovered a is d n (
              All-map (IsCovered a (i ∷ is)) (IsCovered a is) (skipped-IsCovered a i is e) d.items
                h))
    ]

-- What was loaded covers every item of the action.
any-insert_item :
    (p : Item → Bool) (i : Item) (is : List Item) → any p (insert_item i is) ≡ any p (i ∷ is)
any-insert_item p i [] = refl
any-insert_item p i (j ∷ js) = elim (Bool-cases (item_leb i j)) [
  | inl below ↦ rw below refl
  | inr above ↦ rw (above, any-insert_item p i js) (ground arith)
]

any-sort_items : (p : Item → Bool) (is : List Item) → any p (sort_items is) ≡ any p is
unfolding sort_items
any-sort_items p [] = refl
any-sort_items p (i ∷ is) =
    any-insert_item p i (sort_items is) ∙ ap (λ b. p i || b) (any-sort_items p is)

covers_self :
    (a : Action) (r : Item)
    → of_action a.id r ≡ true
    → is_item_status ActionItemStatus.executing r.status ≡ true
    → covers r r ≡ true
covers_self a r k e = ground (arith, e, text_eq_iff r.item_key r.item_key)

load-IsCovered :
    (a : Action) (items : List Item)
    → All (IsCovered a (sort_items (select (of_action a.id) items))) items
load-IsCovered a items =
    All-map (IsCovered a (select (of_action a.id) items)) _
      (λ r c k e. any-sort_items (covers r) (select (of_action a.id) items) ∙ c k e) items
      (select-covers (of_action a.id) covers
        (λ r. is_item_status ActionItemStatus.executing r.status ≡ true) (covers_self a) items)

All-IsStartable :
    (a : Action) (items : List Item)
    → All (λ r. of_action a.id r ≡ true → IsStartable a r) items
    → All (IsStartable a) (select (of_action a.id) items)
All-IsStartable a [] h = tt
All-IsStartable a (r ∷ rest) h = elim (Bool-cases (of_action a.id r)) [
  | inl own ↦ rw own (h.0 own, All-IsStartable a rest h.1)
  | inr other ↦ rw other (All-IsStartable a rest h.1)
]

All-insert_item :
    (P : Item → Type 0) (i : Item) (is : List Item) → P i → All P is → All P (insert_item i is)
All-insert_item P i [] h k = (h, tt)
All-insert_item P i (j ∷ js) h k = elim (Bool-cases (item_leb i j)) [
  | inl below ↦ rw below (h, k)
  | inr above ↦ rw above (k.0, All-insert_item P i js h k.1)
]

pub All-sort_items : (P : Item → Type 0) (is : List Item) → All P is → All P (sort_items is)
unfolding sort_items
All-sort_items P [] h = tt
All-sort_items P (i ∷ is) h = All-insert_item P i (sort_items is) h.0 (All-sort_items P is h.1)

uncovered-IsStartable :
    (a : Action) → (r : Item) → IsCovered a [] r → of_action a.id r ≡ true → IsStartable a r
uncovered-IsStartable a r c k =
    elim (Bool-cases (is_item_status ActionItemStatus.executing r.status)) [
      | inl e ↦ cc (c k e)
      | inr n ↦ rw n (or_true (is_replayable_kind a.kind))
    ]

replayable-IsStartable :
    (a : Action) (r : Item) → is_replayable_kind a.kind ≡ true → IsStartable a r
replayable-IsStartable a r h = rw h refl

module _ {S : Type 0} (a : Action) (d : Desk S) where
  -- The items that `execute` goes through may start.
  pub pending-IsStartable :
      All (IsStartable a) (pending_items a.id (hold_items a (load_items a.id d) d))
  unfolding load_items
  pending-IsStartable =
      let held = (hold_items a (load_items a.id d) d).items in
      All-select (IsStartable a) _ (sort_items (select (of_action a.id) held)) (
        All-sort_items (IsStartable a) (select (of_action a.id) held) (
          All-IsStartable a held (elim (Bool-cases (is_replayable_kind a.kind)) [
            | inl r ↦ All-always _ (λ x k. replayable-IsStartable a x r) held
            | inr n ↦
                All-map (IsCovered a []) _ (uncovered-IsStartable a) held
                  (hold_items-IsCovered a (load_items a.id d) d n (load-IsCovered a d.items))
          ])))

pub hold_items-Sound :
    {S : Type 0} (a : Action) (is : List Item) (d : Desk S) → Sound d (hold_items a is d)
unfolding hold_items interrupted_hold
hold_items-Sound a [] d = Sound-refl d
hold_items-Sound a (i ∷ is) d =
    let d1 =
      if is_item_status ActionItemStatus.executing i.status && not (is_replayable_kind a.kind)
      then commit_disposition a i interrupted_hold d
      else d in
    Sound-trans d d1 _
      (if-Sound _ d (commit_disposition a i interrupted_hold d) d
        (commit_disposition-Sound a i interrupted_hold d refl) (Sound-refl d))
      (hold_items-Sound a is d1)
