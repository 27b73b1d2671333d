-- ===== src/Actions/Runs.antt =====
-- The operations of service.ts in sequence: submissions, executions, restart reconciliations and
-- restores, between changes of the world outside, of the occurrences and of the folders.
use personal_mail_hub.Base.{
  ℕ, ◌≤◌, Bool, true, false, ◌&&◌, ◌||◌, ◌≡◌, refl, inl, inr, List, [], ◌∷◌, ◌++◌, map, All, arith,
  Option-cases, Text, text_eq,
}
use personal_mail_hub.Database.{ActionStatus}
use personal_mail_hub.Recovery.Controls.{is_pending_action}
use personal_mail_hub.Actions.{
  Action, ActionFolder, ActionItemTarget, Item, Occurrence, PreparedActionItem,
}
use personal_mail_hub.Actions.State.{Environment, Desk, is_pending_item, of_action}
use personal_mail_hub.Actions.Disposition.{is_interrupted}
use personal_mail_hub.Actions.Execute.{execute}
use personal_mail_hub.Actions.Submit.{find_by_key, insert_action, new_item}
use personal_mail_hub.Actions.Restore.{reconcile_incomplete, disposition_restored_actions}
use personal_mail_hub.Actions.Rows.{
  Pairs, Progress, Change, claim, dispose, supersede, here, next, All-map, All-append, All-both,
}
use personal_mail_hub.Actions.Sound.{
  Sound, Within, WithinLimit, Settled, Finished, IsClean, limit, moves_of, Advances,
}
use personal_mail_hub.Actions.Drive.{execute-Sound, reconcile_incomplete-Sound}
use personal_mail_hub.Actions.Restored.{disposition_restored_actions-Sound}

-- The identifier of a new action is on no action, on no item and on nothing that was handed over.
pub record IsFresh {S : Type 0} (id : Text) (d : Desk S) : Type 0 where
  pub actions : All (λ a. text_eq id a.id ≡ false) d.actions
  pub items : All (λ i. text_eq i.action_id id ≡ false) d.items
  pub handed : All (λ p. text_eq p.action_id id ≡ false) d.handed

pub data Operation {S : Type 0} (env : Environment S) (d d' : Desk S) : Type 0 where
  -- the transaction of a submission
  queue :
      (a : Action) (targets : List ActionItemTarget)
      → a.status ≡ ActionStatus.queued
      → IsFresh a.id d
      → d' ≡ (insert_action a targets d).1
      → Operation env d d'
  drive : (id : Text) → d' ≡ (execute env id d).1 → Operation env d d'
  reconcile :
      (account : Text) (limit : ℕ)
      → d' ≡ (reconcile_incomplete env account limit d).1
      → Operation env d d'
  restore : (current : Text) → d' ≡ (disposition_restored_actions current d).1 → Operation env d d'
  -- what other processes and the mailbox server change
  elsewhere :
      (outside : S) (accounts : List Text) (folders : List ActionFolder)
      (occurrences : List Occurrence)
      → d' ≡ record d {
        outside = outside;
        accounts = accounts;
        folders = folders;
        occurrences = occurrences;
      }
      → Operation env d d'

pub data Operations {S : Type 0} (env : Environment S) (d : Desk S) : Desk S → Type 0 where
  nothing : Operations env d d
  more : {d1 d2 : Desk S} → Operations env d d1 → Operation env d1 d2 → Operations env d d2

-- What holds between two operations.
pub record IsKept {S : Type 0} (d : Desk S) : Type 0 where
  pub within : Within d
  pub settled : Settled d

Sound-IsKept : {S : Type 0} (d d' : Desk S) → Sound d d' → IsKept d → IsKept d'
Sound-IsKept d d' s k = record { within = s.within k.within; settled = s.settled k.settled }

moves_of-fresh :
    (id key : Text) (log : List PreparedActionItem)
    → All (λ p. text_eq p.action_id id ≡ false) log
    → moves_of id key log ≡ 0
unfolding moves_of
moves_of-fresh id key [] h = refl
moves_of-fresh id key (p ∷ log) h = rw h.0 (moves_of-fresh id key log h.1)

new_items-Within :
    (id : Text) (log : List PreparedActionItem) (targets : List ActionItemTarget)
    → All (λ p. text_eq p.action_id id ≡ false) log
    → All (WithinLimit log) (map (new_item id) targets)
new_items-Within id log [] h = tt
new_items-Within id log (t ∷ ts) h =
    (omega (arith, moves_of-fresh id t.occurrence_id log h), new_items-Within id log ts h)

new_items-IsClean :
    (id other : Text) (targets : List ActionItemTarget)
    → text_eq id other ≡ false
    → All (IsClean other) (map (new_item id) targets)
new_items-IsClean id other [] h = tt
new_items-IsClean id other (t ∷ ts) h = (rw h refl, new_items-IsClean id other ts h)

insert_action-IsKept :
    {S : Type 0} (a : Action) (targets : List ActionItemTarget) (d : Desk S)
    → a.status ≡ ActionStatus.queued
    → IsFresh a.id d
    → IsKept d
    → IsKept (insert_action a targets d).1
unfolding insert_action
insert_action-IsKept a targets d q f k =
    let new = map (new_item a.id) targets in
    elim (Option-cases (find_by_key a.idempotency_key d)) [
      | inr (taken, e) ↦ rw (e, insert_action) k
      | inl free ↦
          rw (free, insert_action)
            (record {
              within =
                  All-append (WithinLimit d.handed) d.items new k.within
                    (new_items-Within a.id d.handed targets f.handed);
              settled =
                  All-append (Finished (d.items ++ new)) d.actions (a ∷ [])
                    (All-both (λ b. text_eq a.id b.id ≡ false) (Finished d.items)
                      (Finished (d.items ++ new))
                      (λ b n g c.
                        All-append (IsClean b.id) d.items new (g c)
                          (new_items-IsClean a.id b.id targets n))
                      d.actions f.actions k.settled)
                    (λ c. cc (rw q at c), tt);
            })
    ]

Operation-IsKept :
    {S : Type 0} (env : Environment S) (d d' : Desk S) → Operation env d d' → IsKept d → IsKept d'
Operation-IsKept env d d' (queue a targets q f e) k = rw e (insert_action-IsKept a targets d q f k)
Operation-IsKept env d d' (drive id e) k = rw e (Sound-IsKept d _ (execute-Sound env id d) k)
Operation-IsKept env d d' (reconcile account limit e) k =
    rw e (Sound-IsKept d _ (reconcile_incomplete-Sound env account limit d) k)
Operation-IsKept env d d' (restore current e) k =
    rw e (Sound-IsKept d _ (disposition_restored_actions-Sound current d) k)
Operation-IsKept env d d' (elsewhere outside accounts folders occurrences e) k =
    rw e (record { within = k.within; settled = k.settled })

Operations-IsKept :
    {S : Type 0} (env : Environment S) (d d' : Desk S) → Operations env d d' → IsKept d → IsKept d'
Operations-IsKept env d d' nothing k = k
Operations-IsKept env d d' (more {d1 = m} before step) k =
    Operation-IsKept env m d' step (Operations-IsKept env d m before k)

-- A state in which no action was queued yet.
abbrev pub IsNew : {S : Type 0} → Desk S → Type 0
IsNew d = (d.items ≡ []) × (d.actions ≡ [])

new-IsKept : {S : Type 0} (d : Desk S) → IsNew d → IsKept d
new-IsKept d n = record { within = rw n.0 tt; settled = rw n.1 tt }

limit-one : (i : Item) → limit i ≤ 1
limit-one i = ground arith

-- Whatever operations follow one another from a state without actions, and however the mailbox, the
-- occurrences, the folders and the control state change between and during them: the executor is
-- handed each item of an archive or a move at most once.
pub moves-at_most_once :
    {S : Type 0} (env : Environment S) (d d' : Desk S)
    → IsNew d
    → Operations env d d'
    → All (λ i. moves_of i.action_id i.item_key d'.handed ≤ 1) d'.items
moves-at_most_once env d d' n run =
    All-map (WithinLimit d'.handed) (λ i. moves_of i.action_id i.item_key d'.handed ≤ 1)
      (λ i w. omega (arith, w, limit-one i)) d'.items
      (Operations-IsKept env d d' run (new-IsKept d n)).within

-- Whatever operations follow one another from a state without actions: a complete action has no
-- item that is queued or executing.
pub complete-Settled :
    {S : Type 0} (env : Environment S) (d d' : Desk S)
    → IsNew d
    → Operations env d d'
    → All
        (λ a.
          is_pending_action a.status ≡ false
          → All (λ i. (of_action a.id i && is_pending_item i.status) ≡ false) d'.items)
        d'.actions
complete-Settled env d d' n run = (Operations-IsKept env d d' run (new-IsKept d n)).settled

-- `execute` changes items only by claims of queued ones, receipts of pending ones, and receipts in
-- place of an interrupted hold; and the status of an action only from queued over executing to
-- complete.
pub execute-Progress :
    {S : Type 0} (env : Environment S) (id : Text) (d : Desk S)
    → Pairs Progress d.items (execute env id d).1.items
      × Pairs Advances d.actions (execute env id d).1.actions
execute-Progress env id d = ((execute-Sound env id d).items, (execute-Sound env id d).actions)

-- A finished receipt that is no interrupted hold is final.
abbrev pub IsFinal : Item → Type 0
IsFinal i = (is_pending_item i.status || is_interrupted i) ≡ false

neither : (b c : Bool) → c ≡ true → (b || c) ≡ false → ⊥
neither b c h f = ground (arith, h, f)

final-Change : (i j : Item) → Change i j → IsFinal i → ⊥
final-Change i j (claim q e) f = cc (rw q at f)
final-Change i j (dispose write p h e) f = cc (rw p at f)
final-Change i j (supersede write p h e) f =
    neither (is_pending_item i.status) (is_interrupted i) p f

final-Progress : (i j : Item) → Progress i j → IsFinal i → j ≡ i
final-Progress i j here f = refl
final-Progress i j (next {j = k} before step) f =
    absurd (final-Change k j step (rw (final-Progress i k before f) f))

abbrev pub FinalStays : Item → Item → Type 0
FinalStays i j = IsFinal i → j ≡ i

Pairs-final : (is js : List Item) → Pairs Progress is js → Pairs FinalStays is js
Pairs-final [] [] h = tt
Pairs-final [] (j ∷ js) h = absurd h
Pairs-final (i ∷ is) [] h = absurd h
Pairs-final (i ∷ is) (j ∷ js) h = (final-Progress i j h.0, Pairs-final is js h.1)

-- `reconcileIncomplete`, which runs `execute` for the pending actions of an account, leaves every
-- finished item as it is, with its outcome, unless the item holds the interrupted hold; no item
-- appears or disappears.
pub reconcile_incomplete-final :
    {S : Type 0} (env : Environment S) (account : Text) (limit : ℕ) (d : Desk S)
    → Pairs FinalStays d.items (reconcile_incomplete env account limit d).1.items
reconcile_incomplete-final env account limit d =
    Pairs-final d.items (reconcile_incomplete env account limit d).1.items
      (reconcile_incomplete-Sound env account limit d).items
