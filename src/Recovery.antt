-- ===== src/Recovery.antt =====
-- packages/recovery/src/status.ts: the recovery control state, the gate in front of every durable
-- client mutation, and the assessment of queued jobs.
--
-- Generations are texts of code points. `toLowerCase` is modelled on ASCII: a generation takes part
-- in a comparison that succeeds only after it matched the UUID pattern, which has ASCII characters.
pub mod Uuid
pub mod Gate
pub mod Controls
pub mod Lifecycle
mod Tests
use personal_mail_hub.Base.{
  ℕ, Bool, true, false, ◌&&◌, ◌||◌, Option, none, some, List, [], ◌∷◌, ◌==◌, leb, Text, text_eq,
  to_lower, trim, if◌then◌else◌,
}
use personal_mail_hub.Database.{RecoveryMode}

abbrev pub is_hex : ℕ → Bool
is_hex c = (leb b'0' c && leb c b'9') || (leb b'a' c && leb c b'f') || (leb b'A' c && leb c b'F')

-- One block of `n` hexadecimal digits at the front of a text, then the rest by `next`.
unfoldable pub hex_block : ℕ → (Text → Bool) → Text → Bool
hex_block ℕ.zero next s = next s
hex_block (ℕ.suc n) next [] = false
hex_block (ℕ.suc n) next (c ∷ s) = is_hex c && hex_block n next s

unfoldable pub dash : (Text → Bool) → Text → Bool
dash next [] = false
dash next (c ∷ s) = c == b'-' && next s

abbrev pub at_end : Text → Bool
at_end [] = true
at_end (c ∷ s) = false

-- `UUID_PATTERN.test`: blocks of 8, 4, 4, 4 and 12 digits between dashes, in either case.
unfoldable pub is_uuid : Text → Bool
unfolding hex_block dash
is_uuid =
    hex_block 8
      (dash (hex_block 4 (dash (hex_block 4 (dash (hex_block 4 (dash (hex_block 12 at_end))))))))

pub record ServiceStateRow : Type 0 where
  pub recovery_generation : Text
  pub recovery_mode : RecoveryMode

pub data ControlStatus : Type 0 where
  config_missing : ControlStatus
  -- the deployment's generation
  uninitialized : Text → ControlStatus
  -- the deployment's generation, the database's, and the mode
  generation_mismatch : Text → Text → RecoveryMode → ControlStatus
  reconciling ready : Text → ControlStatus

unfoldable pub parse_deployment_generation : Option Text → Option Text
parse_deployment_generation none = none
parse_deployment_generation (some raw) =
    let trimmed = trim raw in if is_uuid trimmed then some (to_lower trimmed) else none

abbrev of_mode : RecoveryMode → Text → ControlStatus
of_mode RecoveryMode.ready g = ControlStatus.ready g
of_mode RecoveryMode.reconciling g = ControlStatus.reconciling g

unfoldable pub classify_control_state : Option ServiceStateRow → Option Text → ControlStatus
classify_control_state row none = config_missing
classify_control_state none (some deployment) = uninitialized deployment
classify_control_state (some row) (some deployment) =
    if text_eq (to_lower row.recovery_generation) deployment
    then of_mode row.recovery_mode deployment
    else generation_mismatch deployment row.recovery_generation row.recovery_mode

pub data MutationGateDecision : Type 0 where
  allow recovery_required : Text → MutationGateDecision
  recovery_in_progress invalid_generation : MutationGateDecision

unfoldable pub client_generation : ControlStatus → Option Text
client_generation config_missing = none
client_generation (uninitialized deployment) = some deployment
client_generation (generation_mismatch deployment database mode) = some deployment
client_generation (ControlStatus.reconciling g) = some g
client_generation (ControlStatus.ready g) = some g

abbrev pub normalize_generation : Text → Text
normalize_generation raw = to_lower (trim raw)

-- The decision once the request's generation is well formed.
unfoldable pub decide_for : ControlStatus → Text → MutationGateDecision
decide_for config_missing normalized = recovery_in_progress
decide_for (uninitialized deployment) normalized =
    if text_eq normalized deployment then recovery_in_progress else recovery_required deployment
decide_for (generation_mismatch deployment database mode) normalized =
    if text_eq normalized deployment then recovery_in_progress else recovery_required deployment
decide_for (ControlStatus.reconciling g) normalized =
    if text_eq normalized g then recovery_in_progress else recovery_required g
decide_for (ControlStatus.ready g) normalized =
    if text_eq normalized g then allow g else recovery_required g

unfoldable pub decide_mutation_gate : ControlStatus → Option Text → MutationGateDecision
unfolding decide_for
decide_mutation_gate status none = invalid_generation
decide_mutation_gate status (some raw) =
    let normalized = normalize_generation raw in
    if is_uuid normalized then decide_for status normalized else invalid_generation

pub data JobAssessment : Type 0 where
  execute stale blocked : JobAssessment

unfoldable pub assess_job : ControlStatus → Text → JobAssessment
assess_job (ControlStatus.ready g) job =
    if text_eq g (normalize_generation job) then execute else stale
assess_job status job = blocked

pub data RecoveryErrorCode : Type 0 where
  recovery_required recovery_in_progress invalid_recovery_generation : RecoveryErrorCode

pub record RecoveryBlockedError : Type 0 where
  pub code : RecoveryErrorCode
  pub http_status : ℕ
  pub current_generation : Option Text

abbrev pub http_status_of : RecoveryErrorCode → ℕ
http_status_of RecoveryErrorCode.recovery_required = 409
http_status_of RecoveryErrorCode.recovery_in_progress = 503
http_status_of RecoveryErrorCode.invalid_recovery_generation = 400

abbrev blocked_error : RecoveryErrorCode → Option Text → RecoveryBlockedError
blocked_error code current = record {
  code = code;
  http_status = http_status_of code;
  current_generation = current;
}

-- The source is called with a blocking decision only; its last return is the remaining case.
unfoldable pub mutation_gate_error : MutationGateDecision → RecoveryBlockedError
mutation_gate_error (MutationGateDecision.recovery_required g) =
    blocked_error RecoveryErrorCode.recovery_required (some g)
mutation_gate_error MutationGateDecision.recovery_in_progress =
    blocked_error RecoveryErrorCode.recovery_in_progress none
mutation_gate_error _ = blocked_error RecoveryErrorCode.invalid_recovery_generation none
