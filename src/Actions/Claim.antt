-- ===== src/Actions/Claim.antt =====
-- The claim of one item and the call of the executor (service.ts, executeFolderGroup).
use personal_mail_hub.Base.{
  ℕ, ◌+◌, true, false, not, ◌||◌, ◌≡◌, refl, ◌∙◌, sym, inl, inr, Option, none, some, List, [], ◌∷◌,
  ◌++◌, any, All, arith, Bool-cases, Text, text_eq_iff, if◌then◌else◌,
}
use personal_mail_hub.Database.{ActionItemStatus}
use personal_mail_hub.Actions.{
  Action, Item, PreparedActionItem, ExecutorOutcome, Occurrence, ActionMailboxFlags, FlagDesire,
}
use personal_mail_hub.Actions.Kinds.{is_replayable_kind}
use personal_mail_hub.Actions.State.{update_where, is_item_status, is_pending_item}
use personal_mail_hub.Actions.Disposition.{Disposition, claims, claimed_item}
use personal_mail_hub.Actions.Check.{examine, examine_found, receipt_for}
use personal_mail_hub.Actions.Sound.{WithinLimit, is_move_of, moves_of, limit}

-- Each receipt ends its item.
pub receipt_for-ends : (o : ExecutorOutcome) → is_pending_item (receipt_for o).status ≡ false
unfolding receipt_for
receipt_for-ends (ExecutorOutcome.confirmed f to) = refl
receipt_for-ends (ExecutorOutcome.conflicted r f) = refl
receipt_for-ends (ExecutorOutcome.unknown r f) = refl
receipt_for-ends (ExecutorOutcome.failed c m) = refl

pub examine-ends :
    (desire : Option FlagDesire) (generation : ℕ) (i : Item) (remote : ActionMailboxFlags)
    (o : Option Occurrence) (write : Disposition)
    → examine desire generation i remote o ≡ some write
    → is_pending_item write.status ≡ false
unfolding examine examine_found
examine-ends desire generation i remote none write e = ground (arith, e)
examine-ends desire generation i remote (some o) write e = ground (arith, e)

pub moves_of-append :
    (id key : Text) (log : List PreparedActionItem) (p : PreparedActionItem)
    → moves_of id key (log ++ p ∷ []) ≡ moves_of id key log + (if is_move_of id key p then 1 else 0)
unfolding moves_of
moves_of-append id key [] p = ground arith
moves_of-append id key (q ∷ log) p = ground (arith, moves_of-append id key log p)

-- An item that may start: of a kind that may replay, or not seen at work.
abbrev pub IsStartable : Action → Item → Type 0
IsStartable a i =
    (is_replayable_kind a.kind || not (is_item_status ActionItemStatus.executing i.status)) ≡ true

claims-parts :
    (id key : Text) (i : Item)
    → claims id key i ≡ true
    → (i.action_id ≡ id) × (i.item_key ≡ key) × (limit i ≡ 0)
claims-parts id key i h = (
  ground (arith, text_eq_iff i.action_id id),
  ground (arith, text_eq_iff i.item_key key),
  ground arith,
)

is_move_of-parts :
    (id key : Text) (p : PreparedActionItem)
    → is_move_of id key p ≡ true
    → (p.action_id ≡ id) × (p.item_key ≡ key)
is_move_of-parts id key p h =
    (ground (arith, text_eq_iff p.action_id id), ground (arith, text_eq_iff p.item_key key))

-- A row under the key of the claim that it does not take is not queued.
unclaimed-limit : (i : Item) → claims i.action_id i.item_key i ≡ false → limit i ≡ 1
unclaimed-limit i h =
    ground (arith, text_eq_iff i.action_id i.action_id, text_eq_iff i.item_key i.item_key)

module _ (log : List PreparedActionItem) (id key : Text) where
  pub claims-unmoved :
      (items : List Item)
      → any (claims id key) items ≡ true
      → All (WithinLimit log) items
      → moves_of id key log ≡ 0
  claims-unmoved [] h w = cc h
  claims-unmoved (i ∷ is) h w = elim (Bool-cases (claims id key i)) [
    | inl c ↦
        let parts = claims-parts id key i c in omega (arith, rw (parts.0, parts.1, parts.2) at w.0)
    | inr n ↦ claims-unmoved is (rw n at h) w.1
  ]

  module _ (p : PreparedActionItem) (pa : p.action_id ≡ id) (pk : p.item_key ≡ key)
      (zero : moves_of id key log ≡ 0) where
    claimed-WithinLimit :
        (i : Item)
        → WithinLimit log i
        → WithinLimit (log ++ p ∷ []) (if claims id key i then claimed_item i else i)
    claimed-WithinLimit i w = elim (Bool-cases (claims id key i)) [
      | inl c ↦
          let parts = claims-parts id key i c in
          rw (c, parts.0, parts.1, moves_of-append id key log p, zero) (ground arith)
      | inr n ↦
          rw (n, moves_of-append i.action_id i.item_key log p)
            (elim (Bool-cases (is_move_of i.action_id i.item_key p)) [
              | inl m ↦
                  let parts = is_move_of-parts i.action_id i.item_key p m in
                  let ia = sym parts.0 ∙ pa in
                  let ik = sym parts.1 ∙ pk in
                  rw (m, unclaimed-limit i (rw (ia, ik) (rw (ia, ik) at n)), ia, ik, zero)
                    (omega arith)
              | inr o ↦ rw o (omega (arith, w))
            ])
    ]

    pub claimed-Within :
        (items : List Item)
        → All (WithinLimit log) items
        → All (WithinLimit (log ++ p ∷ [])) (update_where (claims id key) claimed_item items)
    unfolding update_where
    claimed-Within [] w = tt
    claimed-Within (i ∷ is) w = (claimed-WithinLimit i w.0, claimed-Within is w.1)
