-- ===== src/Actions/Tests.antt =====
-- One move, from its submission over its execution to a restore.
use personal_mail_hub.Base.{
  ℕ, ◌≤◌, true, false, ◌≡◌, refl, ◌⊎◌, none, some, List, [], ◌∷◌, ◌++◌, All, answered, Text, codes,
  to_lower, text_eq, str_eq, if◌then◌else◌, ◌&&◌,
}
use personal_mail_hub.Database.{ActionStatus, ActionItemStatus}
use personal_mail_hub.Recovery.{ControlStatus, is_uuid}
use personal_mail_hub.Recovery.Controls.{is_pending_action, count_actions}
use personal_mail_hub.Actions.{
  move, star, Flag, FlagDesire, flags, ActionScope, ActionMailboxFlags, ActionItemTarget,
  PreparedActionItem, ExecutorOutcome, Action, Item, Occurrence, ActionFolder,
}
use personal_mail_hub.Actions.State.{
  Environment, Desk, find_action, is_pending_item, of_action, done, faulted, idempotency_conflict,
}
use personal_mail_hub.Actions.Check.{prepared_item}
use personal_mail_hub.Actions.Execute.{execute, execute_item, receipt_of}
use personal_mail_hub.Actions.Submit.{Request, submit_scope, insert_action, new_action}
use personal_mail_hub.Actions.Submit.Replay.{submit_scope_replay, IsCreated}
use personal_mail_hub.Actions.Restore.{reconcile_incomplete, disposition_restored_actions}
use personal_mail_hub.Actions.Rows.{Pairs, Progress}
use personal_mail_hub.Actions.Sound.{Advances, moves_of}
use personal_mail_hub.Actions.Runs.{
  queue, drive, elsewhere, Operations, nothing, more, moves-at_most_once, complete-Settled,
  execute-Progress, FinalStays, reconcile_incomplete-final,
}
use personal_mail_hub.Actions.Restored.{control_rows, disposition_restored_actions-leaves_none}
use personal_mail_hub.Actions.Fresh.{IsHanded, execute_item-IsHanded}
use personal_mail_hub.Actions.TwoWay.{
  accepted, moved, WritableActionMailbox, apply_flags, is_conditional, flag_request,
}
use personal_mail_hub.Actions.TwoWay.Laws.{FlagEvidence, apply_flags-confirmed}

abbrev generation : Text
generation = codes "aaaaaaaa-aaaa-4aaa-8aaa-aaaaaaaaaaaa"

abbrev next_generation : Text
next_generation = codes "BBBBBBBB-bbbb-4bbb-8bbb-bbbbbbbbbbbb"

abbrev account : Text
account = codes "11111111-1111-4111-8111-111111111111"

abbrev inbox : Text
inbox = codes "22222222-2222-4222-8222-222222222222"

abbrev archived : Text
archived = codes "33333333-3333-4333-8333-333333333333"

abbrev message : Text
message = codes "44444444-4444-4444-8444-444444444444"

abbrev action_id : Text
action_id = codes "55555555-5555-4555-8555-555555555555"

abbrev seen_flags : ActionMailboxFlags
seen_flags = record { uid = 5; unread = false; flagged = false; modseq = none }

-- A mailbox that counts the calls of the executor; each move succeeds.
abbrev env : Environment ℕ
env = record {
  control_status = λ s. (ControlStatus.ready generation, s);
  select_folder = λ name s. (answered 7, s);
  revalidate = λ s. (answered 7, s);
  fetch_flags = λ uids s. (answered (seen_flags ∷ []), s);
  apply = λ p s. (
    answered (
        ExecutorOutcome.confirmed seen_flags
          (some (record { folder = "Archive"; uidvalidity = some 9; uid = some 1 }))),
    ℕ.suc s,
  );
}

abbrev occurrence : Occurrence
occurrence = record {
  id = message;
  account_id = account;
  folder_id = inbox;
  uidvalidity = 7;
  uid = 5;
  unread = false;
  flagged = false;
  modseq = none;
  revision = 3;
  expunged = false;
  invalidated = false;
}

abbrev folder : ActionFolder
folder = record { id = inbox; account_id = account; name = "INBOX"; uidvalidity = some 7 }

abbrev folders : List ActionFolder
folders =
    folder
    ∷ record { id = archived; account_id = account; name = "Archive"; uidvalidity = none }
    ∷ []

abbrev new_desk : Desk ℕ
new_desk = record {
  outside = 0;
  accounts = [];
  folders = [];
  occurrences = [];
  actions = [];
  items = [];
  events = [];
  handed = [];
}

abbrev filled : Desk ℕ
filled = record new_desk {
  accounts = account ∷ [];
  folders = folders;
  occurrences = occurrence ∷ [];
}

abbrev scope : ActionScope
scope = record {
  kind = move;
  account_id = account;
  occurrence_ids = message ∷ [];
  destination_folder_id = some archived;
}

abbrev request : Request ℕ
request = record { hash_scope = λ s. "the hash"; new_id = action_id; now = 0; interfere = λ d. d }

abbrev new_move : Action
new_move = record {
  id = action_id;
  account_id = account;
  recovery_generation = generation;
  idempotency_key = "key";
  request_hash = "the hash";
  kind = move;
  request = scope;
  status = ActionStatus.queued;
  created_at = 0;
}

abbrev target : ActionItemTarget
target = record {
  occurrence_id = message;
  account_id = account;
  folder_id = inbox;
  uidvalidity = 7;
  uid = 5;
  revision = 3;
  observed_unread = false;
  observed_flagged = false;
  modseq = none;
}

abbrev first_item : Item
first_item = record {
  action_id = action_id;
  item_key = message;
  target = target;
  status = ActionItemStatus.queued;
  outcome = none;
}

abbrev queued_desk : Desk ℕ
queued_desk = (insert_action new_move (target ∷ []) filled).1

abbrev moved_desk : Desk ℕ
moved_desk = (execute env action_id queued_desk).1

run : Operations env new_desk moved_desk
run =
    more
      (more (more nothing (elsewhere 0 (account ∷ []) folders (occurrence ∷ []) refl))
        (queue new_move (target ∷ []) refl (record { actions = tt; items = tt; handed = tt }) refl))
      (drive action_id refl)

moves-at_most_once_example :
    All (λ i. moves_of i.action_id i.item_key moved_desk.handed ≤ 1) moved_desk.items
moves-at_most_once_example = moves-at_most_once env new_desk moved_desk (refl, refl) run

complete-Settled_example :
    All
      (λ a.
        is_pending_action a.status ≡ false
        → All (λ i. (of_action a.id i && is_pending_item i.status) ≡ false) moved_desk.items)
      moved_desk.actions
complete-Settled_example = complete-Settled env new_desk moved_desk (refl, refl) run

execute-Progress_example :
    Pairs Progress queued_desk.items (execute env action_id queued_desk).1.items
    × Pairs Advances queued_desk.actions (execute env action_id queued_desk).1.actions
execute-Progress_example = execute-Progress env action_id queued_desk

reconcile_incomplete-final_example :
    Pairs FinalStays moved_desk.items (reconcile_incomplete env account 25 moved_desk).1.items
reconcile_incomplete-final_example = reconcile_incomplete-final env account 25 moved_desk

next_generation-valid : is_uuid next_generation ≡ true
unfolding is_uuid
next_generation-valid = refl

disposition_restored_actions-leaves_none_example :
    count_actions
      (to_lower next_generation)
      (control_rows (disposition_restored_actions next_generation queued_desk).1.actions)
    ≡ 0
disposition_restored_actions-leaves_none_example =
    disposition_restored_actions-leaves_none next_generation queued_desk next_generation-valid

execute_item-IsHanded_example :
    ((execute_item env new_move folder 7
        (some (archived, "Archive"))
        (seen_flags ∷ [])
        first_item
        queued_desk).1.handed
      ≡ queued_desk.handed)
    ⊎ ((remote : ActionMailboxFlags) × (o : Occurrence) × IsHanded env new_move 7
          (seen_flags ∷ [])
          first_item
          queued_desk
          remote
          o
        × ((execute_item env new_move folder 7
              (some (archived, "Archive"))
              (seen_flags ∷ [])
              first_item
              queued_desk).1.handed
            ≡ queued_desk.handed
              ++ prepared_item new_move first_item folder 7 remote (some (archived, "Archive"))
                ∷ []))
execute_item-IsHanded_example =
    execute_item-IsHanded env new_move folder 7 (some (archived, "Archive")) (seen_flags ∷ [])
      first_item queued_desk

queued_twice : IsCreated (submit_scope request generation "key" scope filled)
unfolding submit_scope text_eq is_uuid find_action to_lower
queued_twice = refl

submit_scope_replay_example :
    submit_scope request generation "key" scope
      (submit_scope request generation "key" scope filled).1
    ≡ (
      if str_eq "the hash" "the hash"
          then done (record {
            created = false;
            receipt =
                receipt_of
                  (new_action request generation "key" scope)
                  (submit_scope request generation "key" scope filled).1;
          })
          else faulted idempotency_conflict,
      (submit_scope request generation "key" scope filled).1,
    )
submit_scope_replay_example =
    submit_scope_replay request request generation generation "key" scope scope filled queued_twice

-- A server that accepts every write and shows the flag set.
abbrev starred : ActionMailboxFlags
starred = record { uid = 5; unread = false; flagged = true; modseq = some (some "12") }

abbrev mailbox : WritableActionMailbox ℕ
mailbox = record {
  capabilities = λ s. (answered (record { condstore = true; move = true }), s);
  fetch_flags = λ uids s. (answered (starred ∷ []), s);
  write_flag = λ r s. (answered accepted, ℕ.suc s);
  move_message = λ r s.
      (answered (moved (record { folder = "Archive"; uidvalidity = none; uid = none })), ℕ.suc s);
}

abbrev to_star : FlagDesire
to_star = record { flag = Flag.flagged; value = true }

abbrev prepared : PreparedActionItem
prepared = record {
  action_id = action_id;
  item_key = message;
  kind = star;
  account_id = account;
  folder_id = inbox;
  folder_name = "INBOX";
  folder_uidvalidity = 7;
  target = target;
  remote = seen_flags;
  desired = flags to_star;
}

apply_flags-confirmed_example :
    FlagEvidence mailbox
      (is_conditional true prepared)
      to_star
      prepared
      starred
      (mailbox.write_flag (flag_request true to_star prepared) 0)
unfolding apply_flags
apply_flags-confirmed_example =
    apply_flags-confirmed mailbox prepared to_star true 0 starred none refl
