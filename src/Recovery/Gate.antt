-- ===== src/Recovery/Gate.antt =====
-- Laws of the functions of status.ts.
use mathlib.Core.List.{reverse, reverse_aux, reverse-reverse}
use personal_mail_hub.Base.{
  ℕ, Bool, true, false, ◌≡◌, refl, ◌↔◌, Option, none, some, [], ◌∷◌, arith, All, Text, text_eq_iff,
  to_lower, to_lower-to_lower, is_space, trim, trim_start,
}
use personal_mail_hub.Database.{RecoveryMode}
use personal_mail_hub.Recovery.{
  ServiceStateRow, ControlStatus, config_missing, uninitialized, generation_mismatch,
  parse_deployment_generation, classify_control_state, allow, normalize_generation,
  decide_mutation_gate, assess_job, execute, is_uuid, is_hex, hex_block, dash, at_end,
}
use personal_mail_hub.Recovery.Uuid.{is_uuid-to_lower}

-- A deployment generation, once accepted, is a UUID in lower case.
pub parse_deployment_generation-IsCanonical :
    (raw : Option Text) (g : Text)
    → parse_deployment_generation raw ≡ some g
    → (is_uuid g ≡ true) × (to_lower g ≡ g)
unfolding parse_deployment_generation
parse_deployment_generation-IsCanonical none g e = cc
parse_deployment_generation-IsCanonical (some raw) g e =
    ground (arith, is_uuid-to_lower (trim raw), to_lower-to_lower (trim raw))

abbrev pub Requests : Option Text → Text → Type 0
Requests request g =
    (raw : Text) × (request ≡ some raw)
    × (is_uuid (normalize_generation raw) ≡ true)
    × (normalize_generation raw ≡ g)

allow_sound :
    (status : ControlStatus) (request : Option Text) (g : Text)
    → decide_mutation_gate status request ≡ allow g
    → (status ≡ ControlStatus.ready g) × Requests request g
unfolding decide_mutation_gate
allow_sound status none g e = cc
allow_sound config_missing (some raw) g e = ground arith
allow_sound (uninitialized d) (some raw) g e = ground arith
allow_sound (generation_mismatch d b m) (some raw) g e = ground arith
allow_sound (ControlStatus.reconciling d) (some raw) g e = ground arith
allow_sound (ControlStatus.ready d) (some raw) g e = (
  ground (arith, text_eq_iff (normalize_generation raw) d),
  (raw, refl, ground arith, ground (arith, text_eq_iff (normalize_generation raw) d)),
)

allow_complete :
    (g raw : Text)
    → is_uuid (normalize_generation raw) ≡ true
    → normalize_generation raw ≡ g
    → decide_mutation_gate (ControlStatus.ready g) (some raw) ≡ allow g
unfolding decide_mutation_gate
allow_complete g raw u e = ground (arith, text_eq_iff (normalize_generation raw) g)

-- The gate allows a mutation under a generation exactly when the service is ready under it and the
-- request carries a well-formed generation that is the same one, up to case and outer white space.
pub decide_mutation_gate-eq-allow_iff :
    (status : ControlStatus) (request : Option Text) (g : Text)
    → (decide_mutation_gate status request ≡ allow g)
      ↔ ((status ≡ ControlStatus.ready g) × Requests request g)
decide_mutation_gate-eq-allow_iff status request g =
    (allow_sound status request g, λ h. rw (h.0, h.1.1) (allow_complete g h.1.0 h.1.2 h.1.3))

-- The control state is ready exactly when the database row exists, names the deployed generation in
-- any case, and is in mode `ready`.
pub classify-eq-ready_iff :
    (row : Option ServiceStateRow) (deployment : Option Text) (g : Text)
    → (classify_control_state row deployment ≡ ControlStatus.ready g) ↔ (
        (deployment ≡ some g)
        × ((r : ServiceStateRow) × (row ≡ some r)
            × (to_lower r.recovery_generation ≡ g)
            × (r.recovery_mode ≡ RecoveryMode.ready)))
unfolding classify_control_state
classify-eq-ready_iff row none g = (λ e. cc, λ h. cc (h.0))
classify-eq-ready_iff none (some d) g = (λ e. cc, λ h. cc (h.1.1))
classify-eq-ready_iff (some r) (some d) g = (to, from)
  where
    to :
        classify_control_state (some r) (some d) ≡ ControlStatus.ready g
        → (some d ≡ some g)
          × ((r' : ServiceStateRow) × (some r ≡ some r')
              × (to_lower r'.recovery_generation ≡ g)
              × (r'.recovery_mode ≡ RecoveryMode.ready))
    to e = (
      ground (arith, text_eq_iff (to_lower r.recovery_generation) d),
      (
        r,
        refl,
        ground (arith, text_eq_iff (to_lower r.recovery_generation) d),
        ground (arith, text_eq_iff (to_lower r.recovery_generation) d),
      ),
    )

    from :
        ((some d ≡ some g)
          × ((r' : ServiceStateRow) × (some r ≡ some r')
              × (to_lower r'.recovery_generation ≡ g)
              × (r'.recovery_mode ≡ RecoveryMode.ready)))
        → classify_control_state (some r) (some d) ≡ ControlStatus.ready g
    from h =
        let e1 : to_lower r.recovery_generation ≡ g = ground (arith, h.1.1, h.1.2) in
        let e2 : r.recovery_mode ≡ RecoveryMode.ready = ground (arith, h.1.1, h.1.3) in
        ground (arith, h.0, text_eq_iff (to_lower r.recovery_generation) d)

-- A UUID has no white space, so trimming keeps it.
abbrev NoSpace : Text → Type 0
NoSpace = All (λ c. is_space c ≡ false)

is_hex-not_space : (c : ℕ) → is_hex c ≡ true → is_space c ≡ false
is_hex-not_space c h = ground arith

abbrev Refuses : (Text → Bool) → Type 0
Refuses p = (s : Text) → p s ≡ true → NoSpace s

hex_block-Refuses : (n : ℕ) (p : Text → Bool) → Refuses p → Refuses (hex_block n p)
unfolding hex_block
hex_block-Refuses ℕ.zero p h s e = h s e
hex_block-Refuses (ℕ.suc n) p h [] e = tt
hex_block-Refuses (ℕ.suc n) p h (c ∷ s) e =
    (is_hex-not_space c (ground arith), hex_block-Refuses n p h s (ground arith))

dash-Refuses : (p : Text → Bool) → Refuses p → Refuses (dash p)
unfolding dash
dash-Refuses p h [] e = tt
dash-Refuses p h (c ∷ s) e = (ground arith, h s (ground arith))

at_end-Refuses : Refuses at_end
at_end-Refuses [] e = tt
at_end-Refuses (c ∷ s) e = cc

group-Refuses : (n : ℕ) (p : Text → Bool) → Refuses p → Refuses (hex_block n (dash p))
group-Refuses n p h = hex_block-Refuses n (dash p) (dash-Refuses p h)

is_uuid-NoSpace : (s : Text) → is_uuid s ≡ true → NoSpace s
unfolding is_uuid
is_uuid-NoSpace = group-Refuses 8 _ (
    group-Refuses 4 _
      (group-Refuses 4 _ (group-Refuses 4 _ (hex_block-Refuses 12 at_end at_end-Refuses))))

trim_start-NoSpace : (s : Text) → NoSpace s → trim_start s ≡ s
unfolding trim_start
trim_start-NoSpace [] h = refl
trim_start-NoSpace (c ∷ s) h = rw (h.0) refl

NoSpace-reverse_aux : (s t : Text) → NoSpace s → NoSpace t → NoSpace (reverse_aux s t)
NoSpace-reverse_aux [] t h k = k
NoSpace-reverse_aux (c ∷ s) t h k = NoSpace-reverse_aux s (c ∷ t) h.1 (h.0, k)

trim-NoSpace : (s : Text) → NoSpace s → trim s ≡ s
unfolding trim
trim-NoSpace s h =
    rw (trim_start-NoSpace s h)
      (rw (trim_start-NoSpace (reverse s) (NoSpace-reverse_aux s [] h tt)) (reverse-reverse s))

-- Work that is queued under the generation the gate returned is executed for as long as the control
-- state stays as it was.
pub assess_job-allow :
    (status : ControlStatus) (request : Option Text) (g : Text)
    → decide_mutation_gate status request ≡ allow g
    → assess_job status g ≡ execute
unfolding assess_job
assess_job-allow status request g e =
    let (is_ready, (raw, _, uuid, same)) = allow_sound status request g e in
    let lower : to_lower g ≡ g = rw (← same) (to_lower-to_lower (trim raw)) in
    let trimmed : trim g ≡ g = trim-NoSpace g (is_uuid-NoSpace g (rw (← same) uuid)) in
    rw is_ready (rw trimmed (rw lower (ground (arith, text_eq_iff g g))))
