-- ===== src/Send/SentCopy/Verified.antt =====
-- Laws of `locateVerifiedCopy`.
use personal_mail_hub.Base.{
  ℕ, Bool, true, false, ◌≡◌, refl, ◌⊎◌, inl, inr, Option, none, some, List, [], ◌∷◌, arith, All,
  String, str_eq, eq_iff,
}
use personal_mail_hub.Send.{Bytes, Folder, SentCopyDestination, OutboundMessage}
use personal_mail_hub.Send.World.{Answer, answered, threw}
use personal_mail_hub.Send.SentCopy.{
  Mailbox, Evidence, verified, absent, check_candidates, destination_at, locate_found,
  locate_selected, locate_verified_copy,
}

abbrev pub Among : ℕ → List ℕ → Type 0
Among uid [] = ⊥
Among uid (u ∷ us) = (uid ≡ u) ⊎ Among uid us

module _ (sha : Bytes → String) (hash : String) (at : ℕ → SentCopyDestination)
    (fetch : ℕ → Answer (Option Bytes)) where
  abbrev Matches : List ℕ → SentCopyDestination → Type 0
  Matches uids d =
      (uid : ℕ) × (bytes : Bytes) × Among uid uids
      × (fetch uid ≡ answered (some bytes))
      × (sha bytes ≡ hash)
      × (d ≡ at uid)

  later : (u : ℕ) (us : List ℕ) (d : SentCopyDestination) → Matches us d → Matches (u ∷ us) d
  later u us d (uid, bytes, listed, fetched, same, e) = (uid, bytes, inr listed, fetched, same, e)

  -- One candidate, by what the mailbox answers for it.
  module _ (seen : Bool) (u : ℕ) (us : List ℕ) (d : SentCopyDestination)
      (rest : (b : Bool)
        → check_candidates sha hash at fetch b us ≡ answered (verified d)
        → Matches us d)
      (h : check_candidates sha hash at fetch seen (u ∷ us) ≡ answered (verified d)) where
    by_bytes :
        (bytes : Bytes) (b : Bool)
        → fetch u ≡ answered (some bytes)
        → str_eq (sha bytes) hash ≡ b
        → Matches (u ∷ us) d
    unfolding check_candidates
    by_bytes bytes true e same =
        let h' = rw same at (rw (e, check_candidates) at h) in
        (u, bytes, inl refl, e, (eq_iff (sha bytes) hash).0 same, cc h')
    by_bytes bytes false e differs =
        later u us d (rest true (rw differs at (rw (e, check_candidates) at h)))

    by_answer : (a : Answer (Option Bytes)) → fetch u ≡ a → Matches (u ∷ us) d
    unfolding check_candidates
    by_answer (threw m) e = cc (rw (e, check_candidates) at h)
    by_answer (answered none) e = later u us d (rest seen (rw (e, check_candidates) at h))
    by_answer (answered (some bytes)) e = by_bytes bytes (str_eq (sha bytes) hash) e refl

  check_candidates-verified :
      (seen : Bool) (uids : List ℕ) (d : SentCopyDestination)
      → check_candidates sha hash at fetch seen uids ≡ answered (verified d)
      → Matches uids d
  unfolding check_candidates
  check_candidates-verified seen [] d h = ground arith
  check_candidates-verified seen (u ∷ us) d h =
      by_answer seen u us d (λ b. check_candidates-verified b us d) h (fetch u) refl

  abbrev Gone : List ℕ → Type 0
  Gone = All (λ uid. fetch uid ≡ answered none)

  -- Once a candidate with other bytes was seen, absence is never reported.
  module _ (u : ℕ) (us : List ℕ)
      (rest : (b : Bool)
        → check_candidates sha hash at fetch b us ≡ answered absent
        → (b ≡ false) × Gone us)
      (seen : Bool) (h : check_candidates sha hash at fetch seen (u ∷ us) ≡ answered absent) where
    not_seen :
        (bytes : Bytes) (b : Bool)
        → fetch u ≡ answered (some bytes)
        → str_eq (sha bytes) hash ≡ b
        → ⊥
    unfolding check_candidates
    not_seen bytes true e same = cc (rw same at (rw (e, check_candidates) at h))
    not_seen bytes false e differs =
        cc ((rest true (rw differs at (rw (e, check_candidates) at h))).0)

    by_absence : (a : Answer (Option Bytes)) → fetch u ≡ a → (seen ≡ false) × Gone (u ∷ us)
    unfolding check_candidates
    by_absence (threw m) e = cc (rw (e, check_candidates) at h)
    by_absence (answered none) e =
        let (unseen, gone) = rest seen (rw (e, check_candidates) at h) in (unseen, (e, gone))
    by_absence (answered (some bytes)) e = absurd (not_seen bytes (str_eq (sha bytes) hash) e refl)

  check_candidates-absent :
      (seen : Bool) (uids : List ℕ)
      → check_candidates sha hash at fetch seen uids ≡ answered absent
      → (seen ≡ false) × Gone uids
  unfolding check_candidates
  check_candidates-absent seen [] h = (ground arith, tt)
  check_candidates-absent seen (u ∷ us) h =
      by_absence u us (λ b. check_candidates-absent b us) seen h (fetch u) refl

module _ (sha : Bytes → String) (mailbox : Mailbox) (folder : Folder) (row : OutboundMessage) where
  Searched : Evidence → Type 0
  Searched e =
      (v : ℕ) × (uids : List ℕ) × (mailbox.select folder.path ≡ answered v)
      × (mailbox.search_by_message_id row.rfc_message_id ≡ answered uids)
      × (check_candidates sha row.mime_sha256 (destination_at folder v) mailbox.fetch_original false
            uids
          ≡ answered e)

  located : (e : Evidence) → locate_verified_copy sha mailbox folder row ≡ answered e → Searched e
  unfolding locate_verified_copy Searched
  located e h = by_select (mailbox.select folder.path) refl h
    where
      by_search :
          (v : ℕ) (a : Answer (List ℕ))
          → mailbox.select folder.path ≡ answered v
          → mailbox.search_by_message_id row.rfc_message_id ≡ a
          → locate_found sha mailbox folder row v a ≡ answered e
          → Searched e
      by_search v (threw m) s t k = cc k
      by_search v (answered uids) s t k = (v, uids, s, t, k)

      by_select :
          (a : Answer ℕ)
          → mailbox.select folder.path ≡ a
          → locate_selected sha mailbox folder row a ≡ answered e
          → Searched e
      by_select (threw m) s k = cc k
      by_select (answered v) s k =
          by_search v (mailbox.search_by_message_id row.rfc_message_id) s refl k

  -- A verified copy is a message that the folder held when it was selected by its path, under the
  -- generation of that selection: the search for the frozen identifier listed it, and its bytes hash
  -- to the frozen hash.
  pub locate_verified_copy-verified :
      (d : SentCopyDestination)
      → locate_verified_copy sha mailbox folder row ≡ answered (verified d)
      → (v uid : ℕ) × (uids : List ℕ) × (bytes : Bytes) × (mailbox.select folder.path ≡ answered v)
        × (mailbox.search_by_message_id row.rfc_message_id ≡ answered uids)
        × Among uid uids
        × (mailbox.fetch_original uid ≡ answered (some bytes))
        × (sha bytes ≡ row.mime_sha256)
        × (d ≡ record { folder_id = folder.id; uidvalidity = some v; uid = some uid })
  unfolding Searched
  locate_verified_copy-verified d h =
      let (v, uids, selected, searched, k) = located (verified d) h in
      let (uid, bytes, listed, fetched, same, e) =
        check_candidates-verified sha row.mime_sha256 (destination_at folder v)
          mailbox.fetch_original false uids d k in
      (v, uid, uids, bytes, selected, searched, listed, fetched, same, e)

  -- A proved absence: the search answered, and every message that it listed is gone.
  pub locate_verified_copy-absent :
      locate_verified_copy sha mailbox folder row ≡ answered absent
      → (uids : List ℕ) × (mailbox.search_by_message_id row.rfc_message_id ≡ answered uids)
        × All (λ uid. mailbox.fetch_original uid ≡ answered none) uids
  unfolding Searched
  locate_verified_copy-absent h =
      let (v, uids, _, searched, k) = located absent h in
      let (_, gone) =
        check_candidates-absent sha row.mime_sha256 (destination_at folder v) mailbox.fetch_original
          false uids k in
      (uids, searched, gone)
