-- ===== src/Send/Append/Laws.antt =====
-- Laws of `executeSentCopyAppend`.
use personal_mail_hub.Base.{
  ℕ, true, not, ◌&&◌, ◌≡◌, refl, ap, ◌∙◌, ◌⊎◌, inl, inr, Option, none, some, [], ◌∷◌, ◌++◌, arith,
  String, Bool-cases,
}
use personal_mail_hub.Database.{OutboundStatus, SentCopyStatus, is_status, is_copy_status}
use personal_mail_hub.Send.{Bytes, Folder, OutboundMessage}
use personal_mail_hub.Send.World.{
  World, Answer, answered, threw, valid_uuid, find_outbound, storage_get, find_sent_folder, owns,
}
use personal_mail_hub.Send.Status.{Keeps, Keeps-refl, Keeps-eq, Keeps-trans, update-Keeps}
use personal_mail_hub.Send.Commit.{Env}
use personal_mail_hub.Send.Commit.Follows.{is_status-eq}
use personal_mail_hub.Send.SentCopy.{
  Session, absent, Conclusion, Claim, claimed, unclaimed, conclude_sent_copy, copy_bytes,
  locate_verified_copy,
}
use personal_mail_hub.Send.SentCopy.Cases.{
  conclude_sent_copy-Keeps, conclude_sent_copy-Quiet, copy_bytes-appends,
}
use personal_mail_hub.Send.Append.{
  Outcome, attempted, claim_copy_row, may_claim_copy, claim_copy, run_copy, copy_session, reread,
  is_quiet, after_copy_claim, without_folder, with_folder, append_found, execute_sent_copy_append,
}

-- What authorizes an append for the row with the identifier: the row is sent, owned and open for the
-- claim; the folder is the one that its account maps to the Sent role, the bytes are the stored ones
-- under the frozen hash, and the session that is opened for the account finds no copy.
pub record Authorized (env : Env) (opener : Option (String → Answer Session)) (id : String)
    (w : World) : Type 0 where
  pub before : OutboundMessage
  pub folder : Folder
  pub open_sent_copy : String → Answer Session
  pub session : Session
  pub bytes : Bytes
  pub valid : valid_uuid id ≡ true
  pub found : find_outbound id w ≡ some before
  pub was_sent : before.status ≡ OutboundStatus.sent
  pub owned : owns w.control before ≡ true
  pub claimable : may_claim_copy before ≡ true
  pub mapped : find_sent_folder before.account_id w.folders ≡ some folder
  pub opens : opener ≡ some open_sent_copy
  pub opened : open_sent_copy before.account_id ≡ answered session
  pub stored : storage_get before.mime_storage_key w.durable ≡ some bytes
  pub same : env.sha256_hex bytes ≡ before.mime_sha256
  pub absence :
      locate_verified_copy env.sha256_hex session.before folder (claim_copy_row env.now before)
      ≡ answered absent

-- One append, which is authorized.
pub record Appended (env : Env) (opener : Option (String → Answer Session)) (id : String)
    (w w' : World) : Type 0 where
  pub authorized : Authorized env opener id w
  pub handed : w'.appended ≡ w.appended ++ (authorized.folder.path, authorized.bytes) ∷ []

pub record Effect (env : Env) (opener : Option (String → Answer Session)) (id : String) (w : World)
    (r : Outcome) : Type 0 where
  pub keeps : Keeps w.outbound r.1.outbound
  pub submitted : r.1.submitted ≡ w.submitted
  pub appends : (r.1.appended ≡ w.appended) ⊎ Appended env opener id w r.1

module _ (env : Env) (opener : Option (String → Answer Session)) (id : String) (w : World) where
  unchanged : (r : Outcome) → r.1 ≡ w → Effect env opener id w r
  unchanged r e = record {
    keeps = Keeps-eq (ap (λ (v : World). v.outbound) e);
    submitted = ap (λ (v : World). v.submitted) e;
    appends = inl (ap (λ (v : World). v.appended) e);
  }

  -- A conclusion in a world that keeps the rows, with at most the append that is at hand.
  concluded :
      (row : OutboundMessage) (claim : Claim) (c : Conclusion) (v : World)
      → Keeps w.outbound v.outbound
      → v.submitted ≡ w.submitted
      → (v.appended ≡ w.appended) ⊎ Appended env opener id w v
      → Effect env opener id w (attempted (conclude_sent_copy row claim c v))
  concluded row claim c v keeps sent appends =
      let quiet = conclude_sent_copy-Quiet row claim c v in
      record {
        keeps = Keeps-trans w.outbound v.outbound _ keeps (conclude_sent_copy-Keeps row claim c v);
        submitted = rw (quiet.submitted) sent;
        appends = elim appends [
          | inl same ↦ inl (rw (quiet.appended) same)
          | inr a ↦ inr (record { authorized = a.authorized; handed = quiet.appended ∙ a.handed })
        ];
      }

  -- The claimer's attempt in a world `v` where only the claim was written.
  module _ (v : World) (keeps : Keeps w.outbound v.outbound) (sent : v.submitted ≡ w.submitted)
      (log : v.appended ≡ w.appended) (storage : v.durable ≡ w.durable) (before : OutboundMessage)
      (folder : Folder) (open_sent_copy : String → Answer Session) (valid : valid_uuid id ≡ true)
      (found : find_outbound id w ≡ some before) (was_sent : before.status ≡ OutboundStatus.sent)
      (owned : owns w.control before ≡ true) (claimable : may_claim_copy before ≡ true)
      (mapped : find_sent_folder before.account_id w.folders ≡ some folder)
      (opens : opener ≡ some open_sent_copy) where
    abbrev claimed_row : OutboundMessage
    claimed_row = claim_copy_row env.now before

    run_copy-Effect :
        (session : Session) (bytes : Option Bytes)
        → open_sent_copy before.account_id ≡ answered session
        → storage_get before.mime_storage_key w.durable ≡ bytes
        → Effect env opener id w
            (run_copy folder claimed_row bytes (copy_bytes env folder claimed_row session bytes) v)
    unfolding run_copy
    run_copy-Effect session none opened stored =
        concluded claimed_row claimed _ v keeps sent (inl log)
    run_copy-Effect session (some bytes) opened stored =
        elim (Bool-cases (copy_bytes env folder claimed_row session (some bytes)).1) [
          | inr idle ↦ rw (idle, run_copy) (concluded claimed_row claimed _ v keeps sent (inl log))
          | inl made ↦
              let (same, gone) = copy_bytes-appends env folder claimed_row session bytes made in
              rw (made, run_copy)
                (concluded claimed_row claimed _ _ keeps sent (
                  inr (record {
                    authorized = record {
                      valid = valid;
                      before = before;
                      folder = folder;
                      open_sent_copy = open_sent_copy;
                      session = session;
                      bytes = bytes;
                      found = found;
                      was_sent = was_sent;
                      owned = owned;
                      claimable = claimable;
                      mapped = mapped;
                      opens = opens;
                      opened = opened;
                      stored = stored;
                      same = same;
                      absence = gone;
                    };
                    handed = rw log refl;
                  })))
        ]

    copy_session-Effect :
        (a : Answer Session)
        → open_sent_copy before.account_id ≡ a
        → Effect env opener id w (copy_session env open_sent_copy folder claimed_row a v)
    unfolding copy_session
    copy_session-Effect (threw m) opened = concluded claimed_row claimed _ v keeps sent (inl log)
    copy_session-Effect (answered session) opened =
        run_copy-Effect session (storage_get before.mime_storage_key v.durable) opened
          (rw storage refl)

claim_copy-Keeps :
    (now : ℕ) (id : String) (w : World) → Keeps w.outbound (claim_copy now id w).0.outbound
claim_copy-Keeps now id w =
    update-Keeps may_claim_copy (claim_copy_row now) (λ r. (refl, refl)) id w.outbound

module _ (env : Env) (open_sent_copy : String → Answer Session) (id : String) (w : World) where
  abbrev IsEffect : Outcome → Type 0
  IsEffect = Effect env (some open_sent_copy) id w

  reread-IsEffect :
      (o : Option OutboundMessage) (v : World)
      → Keeps w.outbound v.outbound
      → v.submitted ≡ w.submitted
      → v.appended ≡ w.appended
      → IsEffect (reread env open_sent_copy o v)
  unfolding reread
  reread-IsEffect none v keeps sent log = record {
    keeps = keeps;
    submitted = sent;
    appends = inl log;
  }
  reread-IsEffect (some current) v keeps sent log = record {
    keeps = keeps;
    submitted = sent;
    appends = inl log;
  }

  module _ (before : OutboundMessage) (valid : valid_uuid id ≡ true)
      (found : find_outbound id w ≡ some before) (was_sent : before.status ≡ OutboundStatus.sent)
      (owned : owns w.control before ≡ true) where
    -- The claim returns the claimed row or nothing.
    after_copy_claim-IsEffect :
        (folder : Folder)
        → find_sent_folder before.account_id w.folders ≡ some folder
        → IsEffect (after_copy_claim env open_sent_copy id folder (claim_copy env.now id w))
    unfolding after_copy_claim
    after_copy_claim-IsEffect folder mapped = elim (Bool-cases (may_claim_copy before)) [
      | inl may ↦ rw found (
          rw (may, after_copy_claim)
            (copy_session-Effect env (some open_sent_copy) id w _ (claim_copy-Keeps env.now id w)
              refl refl refl before folder open_sent_copy valid found was_sent owned may mapped refl
              _ refl))
      | inr not ↦ rw found (
          rw (not, after_copy_claim)
            (reread-IsEffect _ _ (claim_copy-Keeps env.now id w) refl refl))
    ]

    with_folder-IsEffect :
        (o : Option Folder)
        → find_sent_folder before.account_id w.folders ≡ o
        → IsEffect (with_folder env open_sent_copy id before o w)
    unfolding with_folder
    with_folder-IsEffect none mapped = elim (Bool-cases (is_quiet env open_sent_copy before)) [
      | inl quiet ↦ unchanged env (some open_sent_copy) id w _ (rw (quiet, without_folder) refl)
      | inr loud ↦
          rw (loud, without_folder)
            (concluded env (some open_sent_copy) id w before unclaimed _ w (Keeps-refl w.outbound)
              refl (inl refl))
    ]
    with_folder-IsEffect (some folder) mapped = after_copy_claim-IsEffect folder mapped

  append_found-IsEffect :
      (o : Option OutboundMessage)
      → valid_uuid id ≡ true
      → find_outbound id w ≡ o
      → IsEffect (append_found env open_sent_copy id o w)
  unfolding append_found
  append_found-IsEffect none valid found = unchanged env (some open_sent_copy) id w _ refl
  append_found-IsEffect (some before) valid found =
      elim (Bool-cases (
        is_status OutboundStatus.sent before.status
        && not (is_copy_status SentCopyStatus.stored before.sent_copy_status)
        && owns w.control before)) [
          | inr skip ↦ rw skip (unchanged env (some open_sent_copy) id w _ refl)
          | inl go ↦
              let held : is_status OutboundStatus.sent before.status ≡ true = ground arith in
              let owned : owns w.control before ≡ true = ground arith in
              rw go (
                with_folder-IsEffect before valid found
                  (is_status-eq OutboundStatus.sent before.status held) owned _ refl)
        ]

pub execute_sent_copy_append-Effect :
    (env : Env) (opener : Option (String → Answer Session)) (id : String) (w : World)
    → Effect env opener id w (execute_sent_copy_append env opener id w)
unfolding execute_sent_copy_append
execute_sent_copy_append-Effect env none id w = elim (Bool-cases (valid_uuid id)) [
  | inl good ↦ rw good (unchanged env none id w _ refl)
  | inr bad ↦ rw bad (unchanged env none id w _ refl)
]
execute_sent_copy_append-Effect env (some open_sent_copy) id w = elim (Bool-cases (valid_uuid id)) [
  | inl good ↦ rw good (append_found-IsEffect env open_sent_copy id w _ good refl)
  | inr bad ↦ rw bad (unchanged env (some open_sent_copy) id w _ refl)
]

-- The Sent-copy job hands nothing to SMTP, and leaves the send status and the snapshot of every row
-- as they are, whatever the mailbox answers.
pub execute_sent_copy_append-Keeps :
    (env : Env) (open_sent_copy : Option (String → Answer Session)) (id : String) (w : World)
    → let w' = (execute_sent_copy_append env open_sent_copy id w).1 in
      Keeps w.outbound w'.outbound × (w'.submitted ≡ w.submitted)
execute_sent_copy_append-Keeps env open_sent_copy id w =
    let e = execute_sent_copy_append-Effect env open_sent_copy id w in (e.keeps, e.submitted)
