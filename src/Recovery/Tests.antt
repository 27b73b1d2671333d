-- ===== src/Recovery/Tests.antt =====
-- The recovery of one restored database, from its start to its completion.
use personal_mail_hub.Base.{
  length, ℕ, true, ◌≡◌, ◌≢◌, ◌↔◌, refl, none, some, [], ◌∷◌, All, Text, codes, to_lower, trim,
  text_eq, false,
}
use personal_mail_hub.Database.{RecoveryMode, ActionStatus}
use personal_mail_hub.Recovery.{
  ServiceStateRow, ControlStatus, is_uuid, parse_deployment_generation, classify_control_state,
  decide_mutation_gate, allow, assess_job, execute, stale, blocked,
}
use personal_mail_hub.Recovery.Gate.{
  parse_deployment_generation-IsCanonical, Requests, decide_mutation_gate-eq-allow_iff,
  classify-eq-ready_iff, assess_job-allow,
}
use personal_mail_hub.Recovery.Controls.{
  count_actions, count_outbound, Hooks, ControlDb, OwnerCheck, undispositioned_action,
  undispositioned_outbound, read_status, gate_mutation, passed, initialize, initialized,
  begin_recovery, resumed, complete_recovery, completed,
}
use personal_mail_hub.Recovery.Lifecycle.{
  begin_recovery_twice, begin_recovery-blocks, Finishable, complete_recovery_iff,
  complete_recovery-leaves, initialize_iff,
}

abbrev new_generation : Text
new_generation = codes "aaaaaaaa-aaaa-4aaa-8aaa-aaaaaaaaaaaa"

abbrev old_generation : Text
old_generation = codes "99999999-9999-4999-8999-999999999999"

-- Sessions, counted.
abbrev hooks : Hooks ℕ
hooks = record { revoke_restored_auth = some (λ sessions. 0); has_registered_owner = none }

abbrev restored : ControlDb ℕ
restored = record {
  service_state =
      some (record { recovery_generation = old_generation; recovery_mode = RecoveryMode.ready });
  accounts = 1;
  messages = 2;
  actions = record { recovery_generation = old_generation; status = ActionStatus.complete } ∷ [];
  outbound = [];
  auth = 3;
  events = [];
}

abbrev under_way : ControlDb ℕ
under_way = record restored {
  service_state =
      some
        (record { recovery_generation = new_generation; recovery_mode = RecoveryMode.reconciling });
}

parse_deployment_generation-IsCanonical_example :
    (is_uuid old_generation ≡ true) × (to_lower old_generation ≡ old_generation)
unfolding parse_deployment_generation is_uuid trim to_lower
parse_deployment_generation-IsCanonical_example =
    parse_deployment_generation-IsCanonical (some (codes " 99999999-9999-4999-8999-999999999999 "))
      old_generation refl

decide_mutation_gate-eq-allow_iff_example :
    (decide_mutation_gate
        (ControlStatus.ready new_generation)
        (some (codes "AAAAAAAA-AAAA-4AAA-8AAA-AAAAAAAAAAAA"))
      ≡ allow new_generation)
    ↔ ((ControlStatus.ready new_generation ≡ ControlStatus.ready new_generation)
        × Requests (some (codes "AAAAAAAA-AAAA-4AAA-8AAA-AAAAAAAAAAAA")) new_generation)
decide_mutation_gate-eq-allow_iff_example =
    decide_mutation_gate-eq-allow_iff (ControlStatus.ready new_generation)
      (some (codes "AAAAAAAA-AAAA-4AAA-8AAA-AAAAAAAAAAAA")) new_generation

classify-eq-ready_iff_example :
    (classify_control_state restored.service_state (some old_generation)
      ≡ ControlStatus.ready old_generation)
    ↔ ((some old_generation ≡ some old_generation)
        × ((r : ServiceStateRow) × (restored.service_state ≡ some r)
            × (to_lower r.recovery_generation ≡ old_generation)
            × (r.recovery_mode ≡ RecoveryMode.ready)))
classify-eq-ready_iff_example =
    classify-eq-ready_iff restored.service_state (some old_generation) old_generation

assess_job-allow_example : assess_job (ControlStatus.ready new_generation) new_generation ≡ execute
unfolding decide_mutation_gate is_uuid to_lower trim text_eq
assess_job-allow_example =
    assess_job-allow (ControlStatus.ready new_generation)
      (some (codes "AAAAAAAA-AAAA-4AAA-8AAA-AAAAAAAAAAAA")) new_generation refl

begin_recovery_twice_example :
    let once = (begin_recovery hooks (some new_generation) restored).0 in
    let again = begin_recovery hooks (some new_generation) once in
    (again.1 ≡ resumed new_generation)
    × (again.0.auth ≡ once.auth)
    × (again.0.service_state ≡ once.service_state)
unfolding begin_recovery to_lower text_eq
begin_recovery_twice_example = begin_recovery_twice hooks new_generation restored refl refl

begin_recovery-blocks_example :
    let during = (begin_recovery hooks (some new_generation) restored).0 in
    (gate_mutation (some new_generation) during (some new_generation) ≢ passed new_generation)
    × (assess_job (read_status (some new_generation) during) new_generation ≡ blocked)
unfolding begin_recovery to_lower text_eq
begin_recovery-blocks_example =
    begin_recovery-blocks hooks new_generation new_generation (some new_generation) restored refl
      refl

complete_recovery_iff_example :
    ((complete_recovery hooks (some new_generation) under_way).1
      ≡ completed new_generation OwnerCheck.unavailable)
    ↔ Finishable hooks new_generation under_way OwnerCheck.unavailable
complete_recovery_iff_example =
    complete_recovery_iff hooks new_generation under_way OwnerCheck.unavailable

complete_recovery-leaves_example :
    let after = (complete_recovery hooks (some new_generation) under_way).0 in
    (read_status (some new_generation) after ≡ ControlStatus.ready new_generation)
    × (assess_job (read_status (some new_generation) after) old_generation ≡ stale)
    × All (λ a. undispositioned_action new_generation a ≡ false) after.actions
    × All (λ o. undispositioned_outbound new_generation o ≡ false) after.outbound
unfolding complete_recovery to_lower text_eq trim count_actions count_outbound
complete_recovery-leaves_example =
    complete_recovery-leaves hooks new_generation old_generation under_way OwnerCheck.unavailable
      refl (λ e. cc e)

abbrev fresh : ControlDb ℕ
fresh = record {
  service_state = none;
  accounts = 0;
  messages = 0;
  actions = [];
  outbound = [];
  auth = 0;
  events = [];
}

initialize_iff_example :
    (((initialize (some new_generation) fresh).1 ≡ initialized new_generation) ↔ (
      (some new_generation ≡ some new_generation)
      × (fresh.accounts ≡ 0)
      × (fresh.messages ≡ 0)
      × (length fresh.actions ≡ 0)
      × (length fresh.outbound ≡ 0)
      × (fresh.service_state ≡ none)))
    × ((initialize (some new_generation) (record fresh { auth = 1 })).1
        ≡ (initialize (some new_generation) fresh).1)
initialize_iff_example = initialize_iff (some new_generation) fresh 1 new_generation
