-- ===== src/Recovery/Controls.antt =====
-- packages/recovery/src/controls.ts: initialising, beginning and completing a recovery.
--
-- Each operation runs in one transaction on the state it locks, so it is a function of that state.
-- `Auth` and the hooks stand for the authentication state and the two injected functions on it.
use personal_mail_hub.Base.{
  ℕ, Bool, true, false, not, ◌&&◌, ◌||◌, Option, none, some, List, [], ◌∷◌, ◌++◌, ◌==◌, ltb, length,
  select, Text, text_eq, to_lower, if◌then◌else◌,
}
use personal_mail_hub.Database.{
  RecoveryMode, OutboundStatus, SentCopyStatus, ActionStatus, is_status,
}
use personal_mail_hub.Recovery.{
  ServiceStateRow, ControlStatus, config_missing, classify_control_state, MutationGateDecision,
  allow, decide_mutation_gate, mutation_gate_error, RecoveryBlockedError,
}

-- The columns of `actions` and of `outbound_messages` that the completion reads.
pub record ActionRow : Type 0 where
  pub recovery_generation : Text
  pub status : ActionStatus

pub record OutboundRow : Type 0 where
  pub recovery_generation : Text
  pub status : OutboundStatus
  pub sent_copy_status : SentCopyStatus

pub data OwnerCheck : Type 0 where
  verified unavailable : OwnerCheck

pub data RecoveryEvent : Type 0 where
  init_event : Text → RecoveryEvent
  -- the new generation, the previous one where there was one, and whether a recovery was resumed
  begin_event : Text → Option Text → Bool → RecoveryEvent
  complete_event : Text → OwnerCheck → RecoveryEvent

pub data InitializeOutcome : Type 0 where
  initialized : Text → InitializeOutcome
  deployment_config_missing already_initialized database_not_empty : InitializeOutcome

pub data BeginOutcome : Type 0 where
  started resumed : Text → BeginOutcome
  deployment_config_missing already_ready : BeginOutcome

pub data CompleteOutcome : Type 0 where
  completed : Text → OwnerCheck → CompleteOutcome
  deployment_config_missing no_active_recovery generation_mismatch owner_missing : CompleteOutcome
  -- how many actions and outbound messages still lack a disposition
  pending_operations : ℕ → ℕ → CompleteOutcome

abbrev pub is_pending_action : ActionStatus → Bool
is_pending_action ActionStatus.queued = true
is_pending_action ActionStatus.executing = true
is_pending_action ActionStatus.complete = false

abbrev pub is_pending_outbound : OutboundStatus → Bool
is_pending_outbound OutboundStatus.queued = true
is_pending_outbound OutboundStatus.sending = true
is_pending_outbound _ = false

abbrev pub is_pending_sent_copy : SentCopyStatus → Bool
is_pending_sent_copy SentCopyStatus.pending = true
is_pending_sent_copy SentCopyStatus.appending = true
is_pending_sent_copy _ = false

abbrev pub undispositioned_action : Text → ActionRow → Bool
undispositioned_action deployment a =
    not (text_eq a.recovery_generation deployment) && is_pending_action a.status

abbrev pub undispositioned_outbound : Text → OutboundRow → Bool
undispositioned_outbound deployment o =
    not (text_eq o.recovery_generation deployment)
    && (is_pending_outbound o.status
        || is_status OutboundStatus.sent o.status && is_pending_sent_copy o.sent_copy_status)

pub record Hooks (Auth : Type 0) : Type 0 where
  pub revoke_restored_auth : Option (Auth → Auth)
  pub has_registered_owner : Option (Auth → Bool)

-- The tables that the controls read or write; `accounts` and `messages` only by their sizes.
pub record ControlDb (Auth : Type 0) : Type 0 where
  pub service_state : Option ServiceStateRow
  pub accounts : ℕ
  pub messages : ℕ
  pub actions : List ActionRow
  pub outbound : List OutboundRow
  pub auth : Auth
  pub events : List RecoveryEvent

abbrev record_event : {Auth : Type 0} → RecoveryEvent → ControlDb Auth → ControlDb Auth
record_event e db = record db { events = db.events ++ e ∷ [] }

-- `databaseIsEmpty`, which does not look at the owner.
abbrev pub database_is_empty : {Auth : Type 0} → ControlDb Auth → Bool
database_is_empty db =
    db.accounts == 0 && db.messages == 0 && length db.actions == 0 && length db.outbound == 0

unfoldable pub count_actions : Text → List ActionRow → ℕ
count_actions deployment rows = length (select (undispositioned_action deployment) rows)

unfoldable pub count_outbound : Text → List OutboundRow → ℕ
count_outbound deployment rows = length (select (undispositioned_outbound deployment) rows)

unfoldable pub read_status : {Auth : Type 0} → Option Text → ControlDb Auth → ControlStatus
read_status none db = config_missing
read_status (some deployment) db = classify_control_state db.service_state (some deployment)

pub data GateResult : Type 0 where
  passed : Text → GateResult
  refused : RecoveryBlockedError → GateResult

abbrev pub of_decision : MutationGateDecision → GateResult
of_decision (allow g) = passed g
of_decision d = refused (mutation_gate_error d)

unfoldable pub gate_mutation :
    {Auth : Type 0} → Option Text → ControlDb Auth → Option Text → GateResult
unfolding read_status
gate_mutation deployment db request =
    of_decision (decide_mutation_gate (read_status deployment db) request)

abbrev ready_row : Text → ServiceStateRow
ready_row g = record { recovery_generation = g; recovery_mode = RecoveryMode.ready }

abbrev reconciling_row : Text → ServiceStateRow
reconciling_row g = record { recovery_generation = g; recovery_mode = RecoveryMode.reconciling }

-- `insert … onConflictDoNothing` on the singleton row of `service_state`, then the outcome.
initialize_row :
    {Auth : Type 0}
    → Option ServiceStateRow
    → Text
    → ControlDb Auth
    → ControlDb Auth × InitializeOutcome
initialize_row none deployment db = (
  record_event (init_event deployment) (record db { service_state = some (ready_row deployment) }),
  initialized deployment,
)
initialize_row (some row) deployment db = (db, already_initialized)

unfoldable pub initialize :
    {Auth : Type 0} → Option Text → ControlDb Auth → ControlDb Auth × InitializeOutcome
unfolding initialize_row
initialize none db = (db, InitializeOutcome.deployment_config_missing)
initialize (some deployment) db =
    if database_is_empty db
    then initialize_row db.service_state deployment db
    else (db, database_not_empty)

-- `revokeRestoredAuth`, which does nothing where no hook is configured.
abbrev pub revoke : {Auth : Type 0} → Option (Auth → Auth) → Auth → Auth
revoke none auth = auth
revoke (some f) auth = f auth

-- The owner check, where a hook is configured; `none` says that no owner is registered.
abbrev pub owner_check : {Auth : Type 0} → Option (Auth → Bool) → Auth → Option OwnerCheck
owner_check none auth = some unavailable
owner_check (some f) auth = if f auth then some verified else none

module _ {Auth : Type 0} (hooks : Hooks Auth) where
  -- A new recovery: the row is written and the restored authentication state is revoked.
  start_recovery : Text → Option Text → ControlDb Auth → ControlDb Auth × BeginOutcome
  start_recovery deployment previous db = (
    record_event (begin_event deployment previous false) (record db {
      service_state = some (reconciling_row deployment);
      auth = revoke hooks.revoke_restored_auth db.auth;
    }),
    started deployment,
  )

  -- The row carries the deployed generation already.
  resume_recovery : RecoveryMode → Text → ControlDb Auth → ControlDb Auth × BeginOutcome
  resume_recovery RecoveryMode.ready deployment db = (db, already_ready)
  resume_recovery RecoveryMode.reconciling deployment db =
      (record_event (begin_event deployment none true) db, resumed deployment)

  begin_from : Option ServiceStateRow → Text → ControlDb Auth → ControlDb Auth × BeginOutcome
  unfolding start_recovery resume_recovery
  begin_from none deployment db = start_recovery deployment none db
  begin_from (some row) deployment db =
      if text_eq (to_lower row.recovery_generation) deployment
      then resume_recovery row.recovery_mode deployment db
      else start_recovery deployment (some row.recovery_generation) db

  unfoldable pub begin_recovery : Option Text → ControlDb Auth → ControlDb Auth × BeginOutcome
  unfolding begin_from
  begin_recovery none db = (db, BeginOutcome.deployment_config_missing)
  begin_recovery (some deployment) db = begin_from db.service_state deployment db

  finish_recovery :
      Option OwnerCheck → Text → ServiceStateRow → ControlDb Auth → ControlDb Auth × CompleteOutcome
  finish_recovery none deployment row db = (db, owner_missing)
  finish_recovery (some check) deployment row db = (
    record_event (complete_event deployment check)
        (record db { service_state = some (record row { recovery_mode = RecoveryMode.ready }) }),
    completed deployment check,
  )

  complete_from :
      RecoveryMode → ServiceStateRow → Text → ControlDb Auth → ControlDb Auth × CompleteOutcome
  unfolding finish_recovery
  complete_from RecoveryMode.ready row deployment db = (db, no_active_recovery)
  complete_from RecoveryMode.reconciling row deployment db =
      let pending_actions = count_actions deployment db.actions in
      let pending_outbound = count_outbound deployment db.outbound in
      if text_eq (to_lower row.recovery_generation) deployment
      then (if ltb 0 pending_actions || ltb 0 pending_outbound
          then (db, pending_operations pending_actions pending_outbound)
          else finish_recovery (owner_check hooks.has_registered_owner db.auth) deployment row db)
      else (db, CompleteOutcome.generation_mismatch)

  complete_row : Option ServiceStateRow → Text → ControlDb Auth → ControlDb Auth × CompleteOutcome
  unfolding complete_from
  complete_row none deployment db = (db, no_active_recovery)
  complete_row (some row) deployment db = complete_from row.recovery_mode row deployment db

  unfoldable pub complete_recovery : Option Text → ControlDb Auth → ControlDb Auth × CompleteOutcome
  unfolding complete_row
  complete_recovery none db = (db, CompleteOutcome.deployment_config_missing)
  complete_recovery (some deployment) db = complete_row db.service_state deployment db
