-- ===== src/Send/Append/Authorized.antt =====
-- When `executeSentCopyAppend` appends.
use personal_mail_hub.Base.{
  true, not, ◌&&◌, ◌≡◌, refl, sym, ◌∙◌, ap, ◌⊎◌, inl, inr, Option, some, List, [], ◌∷◌, ◌++◌, arith,
  String, length, length-append, ◌+◌,
}
use personal_mail_hub.Database.{OutboundStatus, SentCopyStatus, is_status, is_copy_status}
use personal_mail_hub.Send.{OutboundMessage}
use personal_mail_hub.Send.World.{World, Answer, storage_get, owns}
use personal_mail_hub.Send.Commit.{Env}
use personal_mail_hub.Send.SentCopy.{Session, claimed, copy_bytes}
use personal_mail_hub.Send.SentCopy.Cases.{conclude_sent_copy-Quiet, copy_bytes_authorized}
use personal_mail_hub.Send.Append.{
  claim_copy_row, may_claim_copy, claim_copy, appending_to, run_copy, copy_session,
  after_copy_claim, with_folder, append_found, execute_sent_copy_append,
}
use personal_mail_hub.Send.Append.Laws.{Authorized, Appended, execute_sent_copy_append-Effect}

may_claim_copy-guard :
    (r : OutboundMessage)
    → may_claim_copy r ≡ true
    → (is_status OutboundStatus.sent r.status
        && not (is_copy_status SentCopyStatus.stored r.sent_copy_status))
      ≡ true
may_claim_copy-guard r h = ground (arith, h)

no_longer : {A : Type 0} (xs : List A) (x : A) → xs ≡ xs ++ x ∷ [] → ⊥
no_longer xs x e =
    let same : length xs ≡ length xs + 1 = ap length e ∙ length-append xs (x ∷ []) in
    absurd (omega (arith, same))

module _ (env : Env) (opener : Option (String → Answer Session)) (id : String) (w : World)
    (a : Authorized env opener id w) where
  abbrev claimed_row : OutboundMessage
  claimed_row = claim_copy_row env.now a.before

  run_copy-makes :
      (v : World)
      → v.appended ≡ w.appended
      → (run_copy a.folder claimed_row
          (some a.bytes)
          (copy_bytes env a.folder claimed_row a.session (some a.bytes))
          v).1.appended
        ≡ w.appended ++ (a.folder.path, a.bytes) ∷ []
  unfolding run_copy
  run_copy-makes v log =
      let made =
        copy_bytes_authorized env a.folder claimed_row a.session a.bytes a.same a.absence in
      rw (made, run_copy)
        ((conclude_sent_copy-Quiet claimed_row claimed _
            (appending_to a.folder (some a.bytes) true v)).appended
          ∙ ap (λ l. l ++ (a.folder.path, a.bytes) ∷ []) log)

  copy_session-makes :
      (v : World)
      → v.appended ≡ w.appended
      → storage_get a.before.mime_storage_key v.durable ≡ some a.bytes
      → (copy_session env a.open_sent_copy a.folder claimed_row
          (a.open_sent_copy a.before.account_id)
          v).1.appended
        ≡ w.appended ++ (a.folder.path, a.bytes) ∷ []
  unfolding copy_session
  copy_session-makes v log stored = rw (a.opened, copy_session) (rw stored (run_copy-makes v log))

  after_copy_claim-makes :
      (after_copy_claim env a.open_sent_copy id a.folder (claim_copy env.now id w)).1.appended
      ≡ w.appended ++ (a.folder.path, a.bytes) ∷ []
  unfolding after_copy_claim
  after_copy_claim-makes = rw (a.found) (
      rw (a.claimable, after_copy_claim)
        (copy_session-makes (claim_copy env.now id w).0 refl a.stored))

  append_found-makes :
      (append_found env a.open_sent_copy id (some a.before) w).1.appended
      ≡ w.appended ++ (a.folder.path, a.bytes) ∷ []
  unfolding append_found with_folder
  append_found-makes =
      let guard : (is_status OutboundStatus.sent a.before.status
            && not (is_copy_status SentCopyStatus.stored a.before.sent_copy_status)
            && owns w.control a.before)
          ≡ true =
        ground (arith, may_claim_copy-guard a.before a.claimable, a.owned) in
      rw guard (rw (a.mapped, with_folder) after_copy_claim-makes)

  execute_sent_copy_append-makes :
      (execute_sent_copy_append env opener id w).1.appended
      ≡ w.appended ++ (a.folder.path, a.bytes) ∷ []
  unfolding execute_sent_copy_append
  execute_sent_copy_append-makes =
      ap (λ o. (execute_sent_copy_append env o id w).1.appended) a.opens
      ∙ rw (a.valid) (rw (a.found, append_found) append_found-makes)

-- The job appends exactly when an append is authorized, and then once: either the log stays and
-- nothing authorizes an append, or it grows by the stored bytes for the Sent folder, on the authority
-- of a sent row of the ready generation that is open for the claim, and of the opened session, whose
-- search of that folder proved that no copy is there.
pub execute_sent_copy_append-appends :
    (env : Env) (open_sent_copy : Option (String → Answer Session)) (id : String) (w : World)
    → let w' = (execute_sent_copy_append env open_sent_copy id w).1 in
      ((w'.appended ≡ w.appended) × ¬ Authorized env open_sent_copy id w)
      ⊎ Appended env open_sent_copy id w w'
execute_sent_copy_append-appends env opener id w =
    elim (execute_sent_copy_append-Effect env opener id w).appends [
      | inr made ↦ inr made
      | inl idle ↦ inl (
        idle,
        λ a.
            no_longer w.appended (a.folder.path, a.bytes)
              (sym idle ∙ execute_sent_copy_append-makes env opener id w a),
      )
    ]
