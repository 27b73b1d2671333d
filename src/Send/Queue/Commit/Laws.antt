-- ===== src/Send/Queue/Commit/Laws.antt =====
-- Laws of the transaction of `freezeSnapshot`.
use personal_mail_hub.Base.{
  ℕ, true, false, ◌&&◌, ◌≡◌, refl, ◌⊎◌, inl, inr, Option, none, some, [], ◌∷◌, ◌++◌, arith, Text,
  String, ◌==◌, any, find, Bool-cases,
}
use personal_mail_hub.Send.{OutboundMessage, Draft}
use personal_mail_hub.Send.World.{World, Failure, Result, ok, err, IsErr, settle-IsErr, valid_uuid}
use personal_mail_hub.Send.Lock.{draft_key, locked_by}
use personal_mail_hub.Send.Queue.{
  QueueSendInput, QueueEnv, Frozen, is_unlocked, snapshot_row, read_attachment_links,
  links_of_attachments,
}
use personal_mail_hub.Send.Queue.Commit.{
  lock_written, lock_found, lock_draft_for_send, matches_frozen_attachments, check_locked, collides,
  inserted, queued_event, with_lock, insert_row, commit_snapshot,
}

-- The world after the transaction: the row, the links, the lock and the events.
abbrev pub committed_world : OutboundMessage → Frozen → World → World
committed_world row frozen w =
    let locked = lock_written frozen.draft.id row.id (inserted row frozen w) in
    record locked { events = locked.events ++ queued_event row frozen ∷ [] }

pub record Committed (row : OutboundMessage) (input : QueueSendInput) (frozen : Frozen) (w : World)
    (r : Result OutboundMessage × World) : Type 0 where
  pub locked : Draft
  pub found : find draft_key frozen.draft.id w.drafts ≡ some locked
  pub unlocked : is_unlocked locked.locked_by_send ≡ true
  pub current : (locked.revision == input.base_revision) ≡ true
  pub same_files :
      matches_frozen_attachments
        (read_attachment_links frozen.draft.id w)
        (links_of_attachments frozen.attachments)
      ≡ true
  pub fresh : any (collides row) w.outbound ≡ false
  pub result : r ≡ (ok row, committed_world row frozen w)

module _ (input : QueueSendInput) (frozen : Frozen) (w : World) where
  check_locked-ok :
      (o : Option Draft)
      → check_locked input frozen w o ≡ ok tt
      → (locked : Draft) × (o ≡ some locked)
        × (is_unlocked locked.locked_by_send ≡ true)
        × ((locked.revision == input.base_revision) ≡ true)
        × (matches_frozen_attachments
              (read_attachment_links frozen.draft.id w)
              (links_of_attachments frozen.attachments)
            ≡ true)
  unfolding check_locked
  check_locked-ok none h = cc h
  check_locked-ok (some locked) h = (locked, refl, ground arith, ground arith, ground arith)

  -- A locked draft passes no check.
  pub check_locked-locked :
      (locked : Draft) (outbound : String)
      → locked.locked_by_send ≡ some outbound
      → IsErr (check_locked input frozen w (some locked), w)
  unfolding check_locked
  check_locked-locked locked outbound h = ground arith

-- The lock of an unlocked draft at the expected revision succeeds, or the identifiers are malformed.
lock_draft_for_send_cases :
    (draft outbound : String) (w : World) (locked : Draft) (revision : ℕ)
    → find draft_key draft w.drafts ≡ some locked
    → is_unlocked locked.locked_by_send ≡ true
    → let r = lock_draft_for_send draft revision outbound w in
      (r ≡ (ok tt, lock_written draft outbound w)) ⊎ IsErr r
unfolding lock_draft_for_send lock_found
lock_draft_for_send_cases draft outbound w locked revision found unlocked =
    elim (Bool-cases (valid_uuid draft && valid_uuid outbound)) [
      | inr bad ↦ inr (rw bad tt)
      | inl good ↦ elim (Bool-cases (locked.revision == revision)) [
        | inr moved ↦ inr (rw good (rw (found, lock_found) (rw moved tt)))
        | inl same ↦
            let free : locked_by outbound locked.locked_by_send ≡ false =
              unlocked_free outbound locked.locked_by_send unlocked in
            inl (rw good (rw (found, lock_found) (rw same (rw free (rw unlocked refl)))))
      ]
    ]
  where
    unlocked_free :
        (outbound : String) (o : Option String)
        → is_unlocked o ≡ true
        → locked_by outbound o ≡ false
    unlocked_free outbound none h = refl
    unlocked_free outbound (some s) h = cc h

with_lock-IsErr :
    (row : OutboundMessage) (frozen : Frozen) (r : Result (Unit {0}) × World)
    → IsErr r
    → IsErr (with_lock row frozen r)
unfolding with_lock
with_lock-IsErr row frozen (ok u, w) h = absurd h
with_lock-IsErr row frozen (err e, w) h = tt

module _ (row : OutboundMessage) (input : QueueSendInput) (frozen : Frozen) (w : World) where
  insert_row_cases :
      (check : Result (Unit {0}))
      → check_locked input frozen w (find draft_key frozen.draft.id w.drafts) ≡ check
      → Committed row input frozen w (insert_row row frozen check w)
        ⊎ IsErr (insert_row row frozen check w)
  unfolding insert_row
  insert_row_cases (err e) checked = inr tt
  insert_row_cases (ok tt) checked = elim (Bool-cases (any (collides row) w.outbound)) [
    | inl taken ↦ inr (rw taken tt)
    | inr fresh ↦
        let (locked, found, unlocked, current, files) =
          check_locked-ok input frozen w (find draft_key frozen.draft.id w.drafts) checked in
        elim (lock_draft_for_send_cases frozen.draft.id row.id (inserted row frozen w) locked
          frozen.draft.revision found unlocked) [
            | inr failed ↦ inr (rw fresh (with_lock-IsErr row frozen _ failed))
            | inl e ↦ inl (record {
              locked = locked;
              found = found;
              unlocked = unlocked;
              current = current;
              same_files = files;
              fresh = fresh;
              result = rw fresh (rw (e, with_lock) refl);
            })
          ]
  ]

-- A freeze commits as a whole: the draft was unlocked, at the requested revision and with the files
-- that were composed, no other row held the identifier, the idempotency key or the message
-- identifier, and the row, its links, the lock and the events are written together. Or it fails and
-- leaves the world as it was.
pub commit_snapshot_cases :
    (env : QueueEnv) (input : QueueSendInput) (generation : Text) (frozen : Frozen) (w : World)
    → let r = commit_snapshot env input generation frozen w in
      Committed (snapshot_row env input generation frozen) input frozen w r
      ⊎ ((e : Failure) × (r ≡ (err e, w)))
unfolding commit_snapshot
commit_snapshot_cases env input generation frozen w =
    let row = snapshot_row env input generation frozen in
    elim (insert_row_cases row input frozen w _ refl) [
      | inr failed ↦ inr (settle-IsErr w _ failed)
      | inl c ↦ inl (record {
        locked = c.locked;
        found = c.found;
        unlocked = c.unlocked;
        current = c.current;
        same_files = c.same_files;
        fresh = c.fresh;
        result = rw (c.result) refl;
      })
    ]
