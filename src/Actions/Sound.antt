-- ===== src/Actions/Sound.antt =====
-- The relation between the states before and after an operation of the action service
-- (packages/actions/src/service.ts), and the writes of one item and of an action's status.
use personal_mail_hub.Base.{
  ℕ, ◌≤◌, Bool, true, false, not, ◌&&◌, ◌≡◌, refl, ◌∙◌, ap, List, select, length, All, arith,
  Bool-cases, inl, inr, Text, text_eq, if◌then◌else◌,
}
use personal_mail_hub.Database.{ActionStatus, ActionItemStatus}
use personal_mail_hub.Recovery.Controls.{is_pending_action}
use personal_mail_hub.Actions.{Action, Item, PreparedActionItem}
use personal_mail_hub.Actions.Kinds.{is_replayable_kind}
use personal_mail_hub.Actions.State.{Desk, update_where, is_item_status, is_pending_item, of_action}
use personal_mail_hub.Actions.Rows.{
  Pairs, Pairs-refl, Pairs-trans, Pairs-All, All-map, update_where-Pairs, Progress, here,
  Progress-trans, Progress-Kept, Kept,
}

-- The status of an action only advances, and nothing else of it changes.
abbrev pub rank : ActionStatus → ℕ
rank ActionStatus.queued = 0
rank ActionStatus.executing = 1
rank ActionStatus.complete = 2

abbrev pub Advances : Action → Action → Type 0
Advances a b = (b ≡ record a { status = b.status }) × (rank a.status ≤ rank b.status)

abbrev pub is_move_of : Text → Text → PreparedActionItem → Bool
is_move_of id key p =
    (text_eq p.action_id id && text_eq p.item_key key) && not (is_replayable_kind p.kind)

-- How often the executor was handed an item for a kind that never replays.
unfoldable pub moves_of : Text → Text → List PreparedActionItem → ℕ
moves_of id key log = length (select (is_move_of id key) log)

abbrev pub limit : Item → ℕ
limit i = if is_item_status ActionItemStatus.queued i.status then 0 else 1

-- Such an item was handed over at most once, and not while it is queued.
abbrev pub WithinLimit : List PreparedActionItem → Item → Type 0
WithinLimit log i = moves_of i.action_id i.item_key log ≤ limit i

abbrev pub Within : {S : Type 0} → Desk S → Type 0
Within d = All (WithinLimit d.handed) d.items

abbrev pub is_open_item : Text → Item → Bool
is_open_item id i = of_action id i && is_pending_item i.status

-- A complete action has no pending item.
abbrev pub IsClean : Text → Item → Type 0
IsClean id i = is_open_item id i ≡ false

abbrev pub Finished : List Item → Action → Type 0
Finished items a = is_pending_action a.status ≡ false → All (IsClean a.id) items

abbrev pub Settled : {S : Type 0} → Desk S → Type 0
Settled d = All (Finished d.items) d.actions

-- What every operation on existing actions keeps.
pub record Sound {S : Type 0} (d d' : Desk S) : Type 0 where
  pub items : Pairs Progress d.items d'.items
  pub actions : Pairs Advances d.actions d'.actions
  pub within : Within d → Within d'
  pub settled : Settled d → Settled d'

pub Advances-refl : (a : Action) → Advances a a
Advances-refl a = (refl, omega arith)

Advances-trans : (a b c : Action) → Advances a b → Advances b c → Advances a c
Advances-trans a b c p q =
    (q.0 ∙ ap (λ (x : Action). record x { status = c.status }) p.0, omega (arith, p.1, q.1))

module _ {S : Type 0} where
  pub Sound-refl : (d : Desk S) → Sound d d
  Sound-refl d = record {
    items = Pairs-refl Progress (λ i. here) d.items;
    actions = Pairs-refl Advances Advances-refl d.actions;
    within = λ h. h;
    settled = λ h. h;
  }

  pub Sound-trans : (a b c : Desk S) → Sound a b → Sound b c → Sound a c
  Sound-trans a b c p q = record {
    items = Pairs-trans Progress Progress-trans a.items b.items c.items p.items q.items;
    actions = Pairs-trans Advances Advances-trans a.actions b.actions c.actions p.actions q.actions;
    within = λ h. q.within (p.within h);
    settled = λ h. q.settled (p.settled h);
  }

-- What is handed over stays within the limit when items make progress.
limit-Kept : (i j : Item) → Kept i j → limit i ≤ limit j
limit-Kept i j k = elim (Bool-cases (is_item_status ActionItemStatus.queued j.status)) [
  | inl h ↦ rw (k.queue h) (omega arith)
  | inr h ↦ rw h (ground arith)
]

Progress-WithinLimit :
    (log : List PreparedActionItem) (i j : Item)
    → Progress i j
    → WithinLimit log i
    → WithinLimit log j
Progress-WithinLimit log i j p h =
    let k = Progress-Kept i j p in rw (k.action, k.key) (omega (arith, h, limit-Kept i j k))

Progress-IsClean : (id : Text) (i j : Item) → Progress i j → IsClean id i → IsClean id j
Progress-IsClean id i j p h =
    let k = Progress-Kept i j p in
    elim (Bool-cases (text_eq i.action_id id)) [
      | inl same ↦ rw (k.action, same) (k.finished (rw same at h))
      | inr other ↦ rw (k.action, other) refl
    ]

module _ {S : Type 0} (d d' : Desk S) where
  -- A change of items alone.
  pub items-Sound :
      Pairs Progress d.items d'.items → d'.actions ≡ d.actions → d'.handed ≡ d.handed → Sound d d'
  items-Sound p e h = record {
    items = p;
    actions = rw e (Pairs-refl Advances Advances-refl d.actions);
    within = λ w. rw h (
        Pairs-All Progress (WithinLimit d.handed) (WithinLimit d.handed)
          (Progress-WithinLimit d.handed) d.items d'.items p w);
    settled = λ s. rw e (
        All-map (Finished d.items) (Finished d'.items)
          (λ a f c.
            Pairs-All Progress (IsClean a.id) (IsClean a.id) (Progress-IsClean a.id) d.items
              d'.items p (f c))
          d.actions s);
  }

  -- A change of actions alone.
  pub actions-Sound :
      (test : Action → Bool) (change : Action → Action)
      → ((a : Action) → test a ≡ true → Advances a (change a))
      → ((a : Action) → test a ≡ true → Finished d.items a → Finished d.items (change a))
      → d'.actions ≡ update_where test change d.actions
      → d'.items ≡ d.items
      → d'.handed ≡ d.handed
      → Sound d d'
  actions-Sound test change moves settles ea ei eh = record {
    items = rw ei (Pairs-refl Progress (λ i. here) d.items);
    actions = rw ea (update_where-Pairs Advances Advances-refl test change moves d.actions);
    within = λ w. rw (ei, eh) w;
    settled = λ s.
        rw (ei, ea)
          (Pairs-All (λ a b. Finished d.items a → Finished d.items b) (Finished d.items)
            (Finished d.items) (λ a b f g. f g) d.actions (update_where test change d.actions)
            (update_where-Pairs (λ a b. Finished d.items a → Finished d.items b) (λ a f. f) test
              change settles d.actions)
            s);
  }

  -- A change of neither.
  pub same-Sound : d'.items ≡ d.items → d'.actions ≡ d.actions → d'.handed ≡ d.handed → Sound d d'
  same-Sound ei = items-Sound (rw ei (Pairs-refl Progress (λ i. here) d.items))

pub if-Sound :
    {S : Type 0} (b : Bool) (d x y : Desk S) → Sound d x → Sound d y → Sound d (if b then x else y)
if-Sound true d x y p q = p
if-Sound false d x y p q = q
