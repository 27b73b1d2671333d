-- ===== src/Send/Reconcile/Laws.antt =====
-- Laws of `reconcileUnknownOutcome`.
use personal_mail_hub.Base.{
  ℕ, true, false, ◌&&◌, ◌≡◌, refl, inl, inr, Option, none, some, arith, String, str_eq, eq_iff,
  Bool-cases, leb,
}
use personal_mail_hub.Database.{OutboundStatus}
use personal_mail_hub.Send.{Bytes, Folder, SentCopyDestination, OutboundMessage}
use personal_mail_hub.Send.World.{
  World, Result, ok, err, Answer, answered, threw, valid_uuid, find_outbound, update_outbound,
  find_sent_folder, owns,
}
use personal_mail_hub.Send.Status.{resolve, Follows, Keeps, Keeps-refl, Keeps-Follows, update-Keeps}
use personal_mail_hub.Send.Commit.{Env, commit_acceptance}
use personal_mail_hub.Send.Commit.Follows.{
  Quiet, Quiet-eq, is_status-eq, commit_acceptance-Follows, commit_acceptance-Quiet,
}
use personal_mail_hub.Send.SentCopy.{
  Session, Evidence, verified, absent, conflict, locate_verified_copy, sweep_attempt_cap,
}
use personal_mail_hub.Send.Reconcile.{
  Outcome, is_resolved, is_unknown, count_pass, noted, note_reconcile_pass, unresolved, resolved,
  reconciliation, resolve_with, fetch_copy, by_evidence, by_session, reconcile_in, reconcile_found,
  reconcile_unknown_outcome,
}

noted-outbound :
    (w : World) (o : Option OutboundMessage)
    → ((noted (w, o)).outbound ≡ w.outbound) × Quiet w (noted (w, o))
unfolding noted
noted-outbound w none = (refl, Quiet-eq refl)
noted-outbound w (some after) = elim (Bool-cases (leb sweep_attempt_cap after.reconcile_attempts)) [
  | inl at ↦ rw at (
    refl,
    record { control = refl; durable = refl; folders = refl; submitted = refl; appended = refl },
  )
  | inr under ↦ rw under (refl, Quiet-eq refl)
]

module _ (row : OutboundMessage) (w : World) where
  note_reconcile_pass-Keeps : Keeps w.outbound (note_reconcile_pass row w).outbound
  unfolding note_reconcile_pass
  note_reconcile_pass-Keeps =
      rw ((noted-outbound (update_outbound row.id is_unknown count_pass w).0 _).0)
        (update-Keeps is_unknown count_pass (λ r. (refl, refl)) row.id w.outbound)

  note_reconcile_pass-Quiet : Quiet w (note_reconcile_pass row w)
  unfolding note_reconcile_pass
  note_reconcile_pass-Quiet =
      let q =
        (noted-outbound (update_outbound row.id is_unknown count_pass w).0
          (update_outbound row.id is_unknown count_pass w).1).1 in
      record {
        control = q.control;
        durable = q.durable;
        folders = q.folders;
        submitted = q.submitted;
        appended = q.appended;
      }

-- The evidence that a call had in its hands when it committed an acceptance: a copy that its own
-- session located in the Sent folder, and read once more.
pub record Proof (env : Env) (open_sent_copy : String → Answer Session) (w : World)
    (before : OutboundMessage) (r : Outcome) : Type 0 where
  pub folder : Folder
  pub session : Session
  pub destination : SentCopyDestination
  pub uid : ℕ
  pub bytes : Bytes
  pub was_unknown : before.status ≡ OutboundStatus.outcome_unknown
  pub owned : owns w.control before ≡ true
  pub mapped : find_sent_folder before.account_id w.folders ≡ some folder
  pub opened : open_sent_copy before.account_id ≡ answered session
  pub located :
      locate_verified_copy env.sha256_hex session.before folder before
      ≡ answered (verified destination)
  pub placed : destination.uid ≡ some uid
  pub fetched : session.before.fetch_original uid ≡ answered (some bytes)
  pub same : env.sha256_hex bytes ≡ before.mime_sha256
  pub committed :
      r ≡ resolved (commit_acceptance env before (reconciliation before destination bytes) w)

-- A call either resolves nothing and keeps every row, or commits an acceptance on proof.
pub data Reconciled (env : Env) (opener : Option (String → Answer Session)) (id : String)
    (w : World) (r : Outcome) : Type 0 where
  pending :
      is_resolved r ≡ false
      → Keeps w.outbound r.1.outbound
      → Quiet w r.1
      → Reconciled env opener id w r
  proved :
      (open_sent_copy : String → Answer Session) (before : OutboundMessage)
      → opener ≡ some open_sent_copy
      → find_outbound id w ≡ some before
      → Proof env open_sent_copy w before r
      → Reconciled env opener id w r

module _ (env : Env) (opener : Option (String → Answer Session)) (id : String) (w : World) where
  failing : (e : _) → Reconciled env opener id w (err e, w)
  failing e = pending refl (Keeps-refl w.outbound) (Quiet-eq refl)

  skipping :
      (row : OutboundMessage) (reason : Option String)
      → Reconciled env opener id w (ok (row, false, reason), w)
  skipping row reason = pending refl (Keeps-refl w.outbound) (Quiet-eq refl)

  noting :
      (row : OutboundMessage) (reason : String)
      → Reconciled env opener id w (unresolved row reason w)
  noting row reason =
      pending refl (note_reconcile_pass-Keeps row w) (note_reconcile_pass-Quiet row w)

  module _ (open_sent_copy : String → Answer Session) (opens : opener ≡ some open_sent_copy)
      (before : OutboundMessage) (folder : Folder) (found : find_outbound id w ≡ some before)
      (was_unknown : before.status ≡ OutboundStatus.outcome_unknown)
      (owned : owns w.control before ≡ true)
      (mapped : find_sent_folder before.account_id w.folders ≡ some folder) where
    module _ (session : Session)
        (opened : open_sent_copy before.account_id ≡ answered session) where
      resolve_with-Reconciled :
          (d : SentCopyDestination) (uid : ℕ) (a : Answer (Option Bytes))
          → locate_verified_copy env.sha256_hex session.before folder before ≡ answered (verified d)
          → d.uid ≡ some uid
          → session.before.fetch_original uid ≡ a
          → Reconciled env opener id w (resolve_with env before d a w)
      unfolding resolve_with
      resolve_with-Reconciled d uid (threw m) located placed fetched = failing _
      resolve_with-Reconciled d uid (answered none) located placed fetched = noting before _
      resolve_with-Reconciled d uid (answered (some bytes)) located placed fetched =
          elim (Bool-cases (str_eq (env.sha256_hex bytes) before.mime_sha256)) [
            | inr differs ↦ rw differs (noting before _)
            | inl same ↦ rw same (
                proved open_sent_copy before opens found (record {
                  folder = folder;
                  session = session;
                  destination = d;
                  uid = uid;
                  bytes = bytes;
                  was_unknown = was_unknown;
                  owned = owned;
                  mapped = mapped;
                  opened = opened;
                  located = located;
                  placed = placed;
                  fetched = fetched;
                  same = (eq_iff (env.sha256_hex bytes) before.mime_sha256).0 same;
                  committed = refl;
                }))
          ]

      reread-Reconciled :
          (d : SentCopyDestination) (o : Option ℕ)
          → locate_verified_copy env.sha256_hex session.before folder before ≡ answered (verified d)
          → d.uid ≡ o
          → Reconciled env opener id w
              (resolve_with env before d (fetch_copy env session.before o) w)
      unfolding fetch_copy resolve_with
      reread-Reconciled d none located nowhere = noting before _
      reread-Reconciled d (some uid) located placed =
          resolve_with-Reconciled d uid _ located placed refl

      by_evidence-Reconciled :
          (a : Answer Evidence)
          → locate_verified_copy env.sha256_hex session.before folder before ≡ a
          → Reconciled env opener id w (by_evidence env before session.before a w)
      unfolding by_evidence
      by_evidence-Reconciled (threw m) located = failing _
      by_evidence-Reconciled (answered absent) located = noting before _
      by_evidence-Reconciled (answered conflict) located = noting before _
      by_evidence-Reconciled (answered (verified d)) located =
          reread-Reconciled d d.uid located refl

    by_session-Reconciled :
        (a : Answer Session)
        → open_sent_copy before.account_id ≡ a
        → Reconciled env opener id w (by_session env before folder a w)
    unfolding by_session
    by_session-Reconciled (threw m) opened = noting before _
    by_session-Reconciled (answered session) opened = by_evidence-Reconciled session opened _ refl

  module _ (open_sent_copy : String → Answer Session) (opens : opener ≡ some open_sent_copy) where
    reconcile_in-Reconciled :
        (before : OutboundMessage) (o : Option Folder)
        → find_outbound id w ≡ some before
        → before.status ≡ OutboundStatus.outcome_unknown
        → owns w.control before ≡ true
        → find_sent_folder before.account_id w.folders ≡ o
        → Reconciled env opener id w (reconcile_in env open_sent_copy before o w)
    unfolding reconcile_in
    reconcile_in-Reconciled before none found unknown owned mapped = skipping before _
    reconcile_in-Reconciled before (some folder) found unknown owned mapped =
        by_session-Reconciled open_sent_copy opens before folder found unknown owned mapped _ refl

    reconcile_found-Reconciled :
        (o : Option OutboundMessage)
        → find_outbound id w ≡ o
        → Reconciled env opener id w (reconcile_found env open_sent_copy o w)
    unfolding reconcile_found
    reconcile_found-Reconciled none found = failing _
    reconcile_found-Reconciled (some before) found =
        elim (Bool-cases (is_unknown before && owns w.control before)) [
          | inr skip ↦ rw skip (skipping before none)
          | inl go ↦
              let unknown : is_unknown before ≡ true = ground arith in
              let owned : owns w.control before ≡ true = ground arith in
              rw go (
                reconcile_in-Reconciled before _ found
                  (is_status-eq OutboundStatus.outcome_unknown before.status unknown) owned refl)
        ]

-- A reconciliation either keeps the status of every row and reports no resolution, or commits an
-- acceptance. It commits only for an `outcome_unknown` row of the ready generation with the
-- identifier, on a copy that the session opened by this call verified in the account's Sent folder,
-- and with the bytes that this session fetched for the copy and that hash to the frozen hash.
pub reconcile_unknown_outcome-Reconciled :
    (env : Env) (open_sent_copy : Option (String → Answer Session)) (id : String) (w : World)
    → Reconciled env open_sent_copy id w (reconcile_unknown_outcome env open_sent_copy id w)
unfolding reconcile_unknown_outcome
reconcile_unknown_outcome-Reconciled env none id w = elim (Bool-cases (valid_uuid id)) [
  | inl good ↦ rw good (failing env none id w _)
  | inr bad ↦ rw bad (failing env none id w _)
]
reconcile_unknown_outcome-Reconciled env (some open_sent_copy) id w =
    elim (Bool-cases (valid_uuid id)) [
      | inl good ↦
          rw good
            (reconcile_found-Reconciled env (some open_sent_copy) id w open_sent_copy refl _ refl)
      | inr bad ↦ rw bad (failing env (some open_sent_copy) id w _)
    ]

resolved-world : (r : Result OutboundMessage × World) → (resolved r).1 ≡ r.1
resolved-world (ok row, w) = refl
resolved-world (err e, w) = refl

Reconciled-Follows :
    (env : Env) (opener : Option (String → Answer Session)) (id : String) (w : World) (r : Outcome)
    → Reconciled env opener id w r
    → Follows w.outbound r.1.outbound × Quiet w r.1
Reconciled-Follows env opener id w r (pending denied keeps quiet) = (Keeps-Follows _ _ keeps, quiet)
Reconciled-Follows env opener id w r (proved o before opens found p) =
    let input = reconciliation before p.destination p.bytes in
    rw (p.committed) (
      rw (resolved-world (commit_acceptance env before input w)) (
        commit_acceptance-Follows env before input w resolve,
        commit_acceptance-Quiet env before input w,
      ))

-- A reconciliation moves rows along the transitions only, keeps every snapshot, and neither submits
-- to SMTP nor appends to a mailbox.
pub reconcile_unknown_outcome-Follows :
    (env : Env) (open_sent_copy : Option (String → Answer Session)) (id : String) (w : World)
    → let w' = (reconcile_unknown_outcome env open_sent_copy id w).1 in
      Follows w.outbound w'.outbound × (w'.submitted ≡ w.submitted) × (w'.appended ≡ w.appended)
reconcile_unknown_outcome-Follows env open_sent_copy id w =
    let (follows, quiet) =
      Reconciled-Follows env open_sent_copy id w _
        (reconcile_unknown_outcome-Reconciled env open_sent_copy id w) in
    (follows, quiet.submitted, quiet.appended)
