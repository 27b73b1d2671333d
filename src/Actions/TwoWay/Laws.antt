-- ===== src/Actions/TwoWay/Laws.antt =====
-- What a confirmed outcome of two-way-executor.ts rests on.
use personal_mail_hub.Base.{
  Bool, true, false, ◌≡◌, refl, inl, inr, ◌⊎◌, Option, List, [], ◌∷◌, Answer, answered, threw,
  Bool-cases,
}
use personal_mail_hub.Actions.{
  FlagDesire, ActionMailboxFlags, MoveDestination, PreparedActionItem, ExecutorOutcome,
}
use personal_mail_hub.Actions.Disposition.{bool_eq}
use personal_mail_hub.Actions.Check.{flag_value}
use personal_mail_hub.Actions.TwoWay.{
  FlagWriteResult, accepted, rejected, WritableActionMailbox, is_conditional, flag_request,
  read_outcome, gone_outcome, readback_outcome, after_write, written, apply_flags,
}

-- The read-back flags hold the desired value, or the write was a plain one that the server accepted.
abbrev pub Proves : Bool → FlagDesire → FlagWriteResult → ActionMailboxFlags → Type 0
Proves conditional desire write f =
    (bool_eq (flag_value desire.flag f) desire.value ≡ true)
    ⊎ ((conditional ≡ false) × (write ≡ accepted))

read_outcome-Proves :
    (conditional : Bool) (desire : FlagDesire) (write : FlagWriteResult) (g f : ActionMailboxFlags)
    (to : Option MoveDestination)
    → read_outcome conditional desire write g ≡ ExecutorOutcome.confirmed f to
    → (g ≡ f) × Proves conditional desire write f
unfolding read_outcome
read_outcome-Proves conditional desire (FlagWriteResult.uncertain r) g f to e = absurd (cc e)
read_outcome-Proves conditional desire rejected g f to e =
    elim (Bool-cases (bool_eq (flag_value desire.flag g) desire.value)) [
      | inl h ↦ let same : g ≡ f = cc (rw h at e) in (same, inl (rw (← same) h))
      | inr n ↦ elim (Bool-cases conditional) [
        | inl c ↦ absurd (cc (rw (n, c) at e))
        | inr c ↦ absurd (cc (rw (n, c) at e))
      ]
    ]
read_outcome-Proves conditional desire accepted g f to e =
    elim (Bool-cases (bool_eq (flag_value desire.flag g) desire.value)) [
      | inl h ↦ let same : g ≡ f = cc (rw h at e) in (same, inl (rw (← same) h))
      | inr n ↦ elim (Bool-cases conditional) [
        | inl c ↦ absurd (cc (rw (n, c) at e))
        | inr c ↦ (cc (rw (n, c) at e), inr (c, refl))
      ]
    ]

-- The read after the write answered these flags first.
abbrev pub ReadBack : Answer (List ActionMailboxFlags) → ActionMailboxFlags → Type 0
ReadBack (threw m) f = ⊥
ReadBack (answered []) f = ⊥
ReadBack (answered (g ∷ gs)) f = g ≡ f

readback_outcome-Proves :
    (conditional : Bool) (desire : FlagDesire) (write : FlagWriteResult) (item : PreparedActionItem)
    (answer : Answer (List ActionMailboxFlags)) (f : ActionMailboxFlags)
    (to : Option MoveDestination)
    → readback_outcome conditional desire write item answer ≡ ExecutorOutcome.confirmed f to
    → ReadBack answer f × Proves conditional desire write f
unfolding readback_outcome gone_outcome
readback_outcome-Proves conditional desire write item (threw m) f to e = absurd (cc e)
readback_outcome-Proves conditional desire accepted item (answered []) f to e = absurd (cc e)
readback_outcome-Proves conditional desire rejected item (answered []) f to e = absurd (cc e)
readback_outcome-Proves conditional desire (FlagWriteResult.uncertain r) item (answered []) f to e =
    absurd (cc e)
readback_outcome-Proves conditional desire write item (answered (g ∷ gs)) f to e =
    read_outcome-Proves conditional desire write g f to e

-- The evidence of a confirmed flag assignment, in the answers of the mailbox.
abbrev pub FlagEvidence :
    {S : Type 0}
    → WritableActionMailbox S
    → Bool
    → FlagDesire
    → PreparedActionItem
    → ActionMailboxFlags
    → Answer FlagWriteResult × S
    → Type 0
FlagEvidence mailbox conditional desire item f (threw m, s) = ⊥
FlagEvidence mailbox conditional desire item f (answered write, s) =
    ReadBack (mailbox.fetch_flags (item.target.uid ∷ []) s).0 f × Proves conditional desire write f

module _ {S : Type 0} (mailbox : WritableActionMailbox S) where
  written-Evidence :
      (conditional : Bool) (desire : FlagDesire) (item : PreparedActionItem)
      (answer : Answer FlagWriteResult × S) (f : ActionMailboxFlags) (to : Option MoveDestination)
      → (written mailbox conditional desire item answer).0 ≡ ExecutorOutcome.confirmed f to
      → FlagEvidence mailbox conditional desire item f answer
  unfolding written after_write
  written-Evidence conditional desire item (threw m, s) f to e = absurd (cc e)
  written-Evidence conditional desire item (answered (FlagWriteResult.uncertain r), s) f to e =
      absurd (cc e)
  written-Evidence conditional desire item (answered accepted, s) f to e =
      readback_outcome-Proves conditional desire accepted item
        (mailbox.fetch_flags (item.target.uid ∷ []) s).0 f to e
  written-Evidence conditional desire item (answered rejected, s) f to e =
      readback_outcome-Proves conditional desire rejected item
        (mailbox.fetch_flags (item.target.uid ∷ []) s).0 f to e

  -- A flag assignment is confirmed only after a write that was answered and a read that returned the
  -- confirmed flags; they hold the desired value, or the write was a plain one that the server
  -- accepted.
  pub apply_flags-confirmed :
      (item : PreparedActionItem) (desire : FlagDesire) (condstore : Bool) (s : S)
      (f : ActionMailboxFlags) (to : Option MoveDestination)
      → (apply_flags mailbox item desire condstore s).0 ≡ ExecutorOutcome.confirmed f to
      → FlagEvidence mailbox
          (is_conditional condstore item)
          desire
          item
          f
          (mailbox.write_flag (flag_request condstore desire item) s)
  unfolding apply_flags
  apply_flags-confirmed item desire condstore s f to e =
      written-Evidence (is_conditional condstore item) desire item
        (mailbox.write_flag (flag_request condstore desire item) s) f to e
