-- ===== src/Send/SentCopy/Cases.antt =====
-- What the conclusion of one append attempt writes.
use personal_mail_hub.Base.{
  true, ◌≡◌, refl, ◌⊎◌, inl, inr, some, ◌++◌, str_eq, eq_iff, Option-cases, Bool-cases, update_rows,
}
use personal_mail_hub.Send.{Bytes, Folder, OutboundMessage}
use personal_mail_hub.Send.World.{World, Answer, answered, threw, outbound_key, find_outbound}
use personal_mail_hub.Send.Status.{Kept, Keeps, Keeps-refl, update-Keeps}
use personal_mail_hub.Send.Commit.{Env}
use personal_mail_hub.Send.Commit.Follows.{Quiet, Quiet-eq}
use personal_mail_hub.Send.SentCopy.{
  Session, Evidence, verified, absent, conflict, copy_by_evidence, copy_bytes, locate_verified_copy,
  Conclusion, stored, failed, unknown, Claim, may_conclude, conclude_row, conclusion_events,
  concluded, conclude_sent_copy,
}

conclude_row-Kept : (c : Conclusion) (r : OutboundMessage) → Kept r (conclude_row c r)
conclude_row-Kept (stored d) r = (refl, refl)
conclude_row-Kept (failed e) r = (refl, refl)
conclude_row-Kept (unknown e) r = (refl, refl)

module _ (row : OutboundMessage) (claim : Claim) (outcome : Conclusion) (w : World) where
  -- The conclusion writes its row and its events, or nothing.
  pub conclude_sent_copy_cases :
      ((before : OutboundMessage) × (find_outbound row.id w ≡ some before)
        × (may_conclude claim before ≡ true)
        × (conclude_sent_copy row claim outcome w ≡ (
          conclude_row outcome before,
          record w {
            outbound =
                update_rows outbound_key
                  (may_conclude claim)
                  (conclude_row outcome)
                  row.id
                  w.outbound;
            events = w.events ++ conclusion_events outcome (conclude_row outcome before);
          },
        )))
      ⊎ (conclude_sent_copy row claim outcome w ≡ (row, w))
  unfolding conclude_sent_copy
  conclude_sent_copy_cases = elim (Option-cases (find_outbound row.id w)) [
    | inl missing ↦ inr (rw (missing, concluded) refl)
    | inr (before, found) ↦ elim (Bool-cases (may_conclude claim before)) [
      | inl may ↦ inl (before, found, may, rw found (rw (may, concluded) refl))
      | inr not ↦ inr (rw found (rw (not, concluded) refl))
    ]
  ]

  pub conclude_sent_copy-Keeps :
      Keeps w.outbound (conclude_sent_copy row claim outcome w).1.outbound
  conclude_sent_copy-Keeps = elim conclude_sent_copy_cases [
    | inl (before, _, _, e) ↦ rw e (
        update-Keeps (may_conclude claim) (conclude_row outcome) (conclude_row-Kept outcome) row.id
          w.outbound)
    | inr e ↦ rw e (Keeps-refl w.outbound)
  ]

  pub conclude_sent_copy-Quiet : Quiet w (conclude_sent_copy row claim outcome w).1
  conclude_sent_copy-Quiet = elim conclude_sent_copy_cases [
    | inl (before, _, _, e) ↦ rw e (record {
      control = refl;
      durable = refl;
      folders = refl;
      submitted = refl;
      appended = refl;
    })
    | inr e ↦ rw e (Quiet-eq refl)
  ]

-- A decision to append rests on the frozen bytes and on a proved absence.
module _ (env : Env) (folder : Folder) (row : OutboundMessage) (session : Session) where
  copy_by_evidence-appends :
      (bytes : Bytes) (a : Answer Evidence)
      → (copy_by_evidence env folder row session bytes a).1 ≡ true
      → a ≡ answered absent
  unfolding copy_by_evidence
  copy_by_evidence-appends bytes (threw m) h = cc h
  copy_by_evidence-appends bytes (answered (verified d)) h = cc h
  copy_by_evidence-appends bytes (answered conflict) h = cc h
  copy_by_evidence-appends bytes (answered absent) h = refl

  pub copy_bytes-appends :
      (bytes : Bytes)
      → (copy_bytes env folder row session (some bytes)).1 ≡ true
      → (env.sha256_hex bytes ≡ row.mime_sha256)
        × (locate_verified_copy env.sha256_hex session.before folder row ≡ answered absent)
  unfolding copy_bytes
  copy_bytes-appends bytes h = elim (Bool-cases (str_eq (env.sha256_hex bytes) row.mime_sha256)) [
    | inl same ↦ (
      (eq_iff (env.sha256_hex bytes) row.mime_sha256).0 same,
      copy_by_evidence-appends bytes _ (rw same at h),
    )
    | inr differs ↦ cc (rw differs at h)
  ]

  pub copy_bytes_authorized :
      (bytes : Bytes)
      → env.sha256_hex bytes ≡ row.mime_sha256
      → locate_verified_copy env.sha256_hex session.before folder row ≡ answered absent
      → (copy_bytes env folder row session (some bytes)).1 ≡ true
  unfolding copy_bytes copy_by_evidence
  copy_bytes_authorized bytes same gone =
      rw ((eq_iff (env.sha256_hex bytes) row.mime_sha256).1 same) (rw (gone, copy_by_evidence) refl)
