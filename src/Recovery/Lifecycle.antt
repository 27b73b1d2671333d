-- ===== src/Recovery/Lifecycle.antt =====
-- Laws of the commands of controls.ts in sequence.
use personal_mail_hub.Base.{
  Bool, false, ◌≡◌, refl, ◌≢◌, inl, inr, ◌↔◌, Option, none, some, List, [], ◌∷◌, arith, All, length,
  select, Text, text_eq_iff, to_lower, Option-cases,
}
use personal_mail_hub.Database.{RecoveryMode}
use personal_mail_hub.Recovery.{
  ServiceStateRow, ControlStatus, assess_job, stale, blocked, normalize_generation,
  classify_control_state, decide_mutation_gate, allow,
}
use personal_mail_hub.Recovery.Gate.{decide_mutation_gate-eq-allow_iff}
use personal_mail_hub.Recovery.Controls.{
  Hooks, ControlDb, undispositioned_action, undispositioned_outbound, count_actions, count_outbound,
  read_status, gate_mutation, passed, initialize, initialized, begin_recovery, started, resumed,
  complete_recovery, completed, owner_check, OwnerCheck,
}

module _ {A : Type 0} (p : A → Bool) where
  select_none : (xs : List A) → length (select p xs) ≡ 0 → All (λ x. p x ≡ false) xs
  select_none [] h = tt
  select_none (x ∷ xs) h = ground (arith, select_none xs)

decision_of_passed :
    {Auth : Type 0} (deployment : Option Text) (db : ControlDb Auth) (request : Option Text)
    (g : Text)
    → gate_mutation deployment db request ≡ passed g
    → decide_mutation_gate (read_status deployment db) request ≡ allow g
unfolding gate_mutation
decision_of_passed deployment db request g h = ground arith

not_passed :
    {Auth : Type 0} (deployment : Option Text) (db : ControlDb Auth) (request : Option Text)
    (g d : Text)
    → read_status deployment db ≡ ControlStatus.reconciling d
    → gate_mutation deployment db request ≢ passed g
not_passed deployment db request g d status h =
    let is_ready =
      ((decide_mutation_gate-eq-allow_iff _ request g).0
        (decision_of_passed deployment db request g h)).0 in
    cc

blocked_while_reconciling :
    (status : ControlStatus) (d g : Text)
    → status ≡ ControlStatus.reconciling d
    → assess_job status g ≡ blocked
unfolding assess_job
blocked_while_reconciling status d g e = rw e refl

module _ {Auth : Type 0} (hooks : Hooks Auth) where
  started_status :
      (deployment : Text) (db : ControlDb Auth)
      → to_lower deployment ≡ deployment
      → (begin_recovery hooks (some deployment) db).1 ≡ started deployment
      → read_status (some deployment) (begin_recovery hooks (some deployment) db).0
        ≡ ControlStatus.reconciling deployment
  unfolding begin_recovery read_status classify_control_state
  started_status deployment db lower h =
      ground (arith, text_eq_iff (to_lower deployment) deployment)

  -- A recovery that begins twice is resumed: nothing is revoked a second time, and the control row
  -- stays the one of the first call.
  pub begin_recovery_twice :
      (deployment : Text) (db : ControlDb Auth)
      → to_lower deployment ≡ deployment
      → (begin_recovery hooks (some deployment) db).1 ≡ started deployment
      → let once = (begin_recovery hooks (some deployment) db).0 in
        let again = begin_recovery hooks (some deployment) once in
        (again.1 ≡ resumed deployment)
        × (again.0.auth ≡ once.auth)
        × (again.0.service_state ≡ once.service_state)
  unfolding begin_recovery
  begin_recovery_twice deployment db lower h =
      ground (arith, text_eq_iff (to_lower deployment) deployment)

  -- Once a recovery has started, no request passes the mutation gate under any generation, and every
  -- job is blocked.
  pub begin_recovery-blocks :
      (deployment g : Text) (request : Option Text) (db : ControlDb Auth)
      → to_lower deployment ≡ deployment
      → (begin_recovery hooks (some deployment) db).1 ≡ started deployment
      → let during = (begin_recovery hooks (some deployment) db).0 in
        (gate_mutation (some deployment) during request ≢ passed g)
        × (assess_job (read_status (some deployment) during) g ≡ blocked)
  begin_recovery-blocks deployment g request db lower h =
      let status = started_status deployment db lower h in
      (
        not_passed (some deployment) _ request g deployment status,
        blocked_while_reconciling _ deployment g status,
      )

  abbrev pub Finishable : Text → ControlDb Auth → OwnerCheck → Type 0
  Finishable deployment db check =
      ((row : ServiceStateRow) × (db.service_state ≡ some row)
        × (row.recovery_mode ≡ RecoveryMode.reconciling)
        × (to_lower row.recovery_generation ≡ deployment))
      × (count_actions deployment db.actions ≡ 0)
      × (count_outbound deployment db.outbound ≡ 0)
      × (owner_check hooks.has_registered_owner db.auth ≡ some check)

  complete_recovery-Finishable :
      (deployment : Text) (db : ControlDb Auth) (check : OwnerCheck)
      → (complete_recovery hooks (some deployment) db).1 ≡ completed deployment check
      → Finishable deployment db check
  unfolding complete_recovery
  complete_recovery-Finishable deployment db check h = elim (Option-cases db.service_state) [
    | inl missing ↦ ground arith
    | inr (row, found) ↦
        let same = text_eq_iff (to_lower row.recovery_generation) deployment in
        (
          (row, found, ground (arith, same), ground (arith, same)),
          ground arith,
          ground arith,
          ground arith,
        )
  ]

  Finishable-complete_recovery :
      (deployment : Text) (db : ControlDb Auth) (check : OwnerCheck)
      → Finishable deployment db check
      → (complete_recovery hooks (some deployment) db).1 ≡ completed deployment check
  unfolding complete_recovery
  Finishable-complete_recovery deployment db check ((row, found, mode, same), a, o, owner) =
      ground (arith, text_eq_iff (to_lower row.recovery_generation) deployment)

  -- A recovery completes exactly when one is under way for the deployed generation, no restored
  -- operation lacks a disposition, and the owner check does not fail.
  pub complete_recovery_iff :
      (deployment : Text) (db : ControlDb Auth) (check : OwnerCheck)
      → ((complete_recovery hooks (some deployment) db).1 ≡ completed deployment check)
        ↔ Finishable deployment db check
  complete_recovery_iff deployment db check = (
    complete_recovery-Finishable deployment db check,
    Finishable-complete_recovery deployment db check,
  )

  completed_status :
      (deployment : Text) (db : ControlDb Auth) (check : OwnerCheck)
      → (complete_recovery hooks (some deployment) db).1 ≡ completed deployment check
      → read_status (some deployment) (complete_recovery hooks (some deployment) db).0
        ≡ ControlStatus.ready deployment
  unfolding complete_recovery read_status classify_control_state
  completed_status deployment db check h =
      let ((row, found, mode, same), _, _, _) =
        complete_recovery-Finishable deployment db check h in
      ground (arith, text_eq_iff (to_lower row.recovery_generation) deployment)

  completed_rows :
      (deployment : Text) (db : ControlDb Auth) (check : OwnerCheck)
      → (complete_recovery hooks (some deployment) db).1 ≡ completed deployment check
      → ((complete_recovery hooks (some deployment) db).0.actions ≡ db.actions)
        × ((complete_recovery hooks (some deployment) db).0.outbound ≡ db.outbound)
  unfolding complete_recovery
  completed_rows deployment db check h = ground arith

  -- A completed recovery leaves the service ready under the deployed generation. Jobs of any other
  -- generation stay disabled, and every action and outbound message of another generation has its
  -- disposition.
  pub complete_recovery-leaves :
      (deployment job : Text) (db : ControlDb Auth) (check : OwnerCheck)
      → (complete_recovery hooks (some deployment) db).1 ≡ completed deployment check
      → normalize_generation job ≢ deployment
      → let after = (complete_recovery hooks (some deployment) db).0 in
        (read_status (some deployment) after ≡ ControlStatus.ready deployment)
        × (assess_job (read_status (some deployment) after) job ≡ stale)
        × All (λ a. undispositioned_action deployment a ≡ false) after.actions
        × All (λ o. undispositioned_outbound deployment o ≡ false) after.outbound
  unfolding count_actions count_outbound assess_job
  complete_recovery-leaves deployment job db check h other =
      let status = completed_status deployment db check h in
      let (_, no_actions, no_outbound, _) = complete_recovery-Finishable deployment db check h in
      let (same_actions, same_outbound) = completed_rows deployment db check h in
      (
        status,
        rw status (ground (arith, text_eq_iff deployment (normalize_generation job))),
        rw same_actions (select_none _ db.actions no_actions),
        rw same_outbound (select_none _ db.outbound no_outbound),
      )

-- Initialising succeeds exactly on a database without accounts, messages, actions and outbound
-- messages, with no control row and a configured generation. The authentication state plays no part
-- in the outcome: it succeeds also where an owner is registered, which the comment on `initialize`
-- rules out.
pub initialize_iff :
    {Auth : Type 0} (deployment : Option Text) (db : ControlDb Auth) (auth : Auth) (g : Text)
    → (((initialize deployment db).1 ≡ initialized g) ↔ (
        (deployment ≡ some g)
        × (db.accounts ≡ 0)
        × (db.messages ≡ 0)
        × (length db.actions ≡ 0)
        × (length db.outbound ≡ 0)
        × (db.service_state ≡ none)))
      × ((initialize deployment (record db { auth = auth })).1 ≡ (initialize deployment db).1)
unfolding initialize
initialize_iff none db auth g = ((λ h. cc, λ h. cc (h.0)), refl)
initialize_iff (some d) db auth g = (initialized_iff d db g, ground arith)
  where
    initialized_iff :
        {Auth : Type 0} (d : Text) (db : ControlDb Auth) (g : Text)
        → ((initialize (some d) db).1 ≡ initialized g) ↔ (
            (some d ≡ some g)
            × (db.accounts ≡ 0)
            × (db.messages ≡ 0)
            × (length db.actions ≡ 0)
            × (length db.outbound ≡ 0)
            × (db.service_state ≡ none))
    initialized_iff d db g = (
      λ h. (ground arith, ground arith, ground arith, ground arith, ground arith, ground arith),
      λ (e, a, m, i, o, missing). ground arith,
    )

-- An initialisation that does not succeed leaves the database as it was.
pub initialize_unchanged :
    {Auth : Type 0} (deployment : Option Text) (db : ControlDb Auth)
    → ((g : Text) → (initialize deployment db).1 ≢ initialized g)
    → (initialize deployment db).0 ≡ db
unfolding initialize
initialize_unchanged none db h = refl
initialize_unchanged (some d) db h = ground (arith, h d)
