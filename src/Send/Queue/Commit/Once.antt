-- ===== src/Send/Queue/Commit/Once.antt =====
-- Laws of `queueSend` and of the transaction of `freezeSnapshot` in sequence.
use personal_mail_hub.Base.{
  Bool, true, false, ◌≡◌, refl, inl, inr, some, Text, String, find, find-update_rows_self,
}
use personal_mail_hub.Send.{OutboundMessage, Draft}
use personal_mail_hub.Send.World.{World, Failure, Result, ok, err, IsErr, settle-IsErr}
use personal_mail_hub.Send.Lock.{draft_key}
use personal_mail_hub.Send.Queue.{QueueSendInput, QueueEnv, Frozen, snapshot_row}
use personal_mail_hub.Send.Queue.Commit.{lock_draft, insert_row, commit_snapshot}
use personal_mail_hub.Send.Queue.Commit.Laws.{
  committed_world, check_locked-locked, commit_snapshot_cases,
}

-- The draft after the transaction.
locked_after :
    (row : OutboundMessage) (frozen : Frozen) (w : World) (d : Draft)
    → find draft_key frozen.draft.id w.drafts ≡ some d
    → find draft_key frozen.draft.id (committed_world row frozen w).drafts
      ≡ some (lock_draft row.id d)
locked_after row frozen w d found =
    rw
      (find-update_rows_self draft_key (λ r. true) (lock_draft row.id) (λ r. refl) frozen.draft.id
        w.drafts)
      (rw found refl)

insert_row-IsErr :
    (row : OutboundMessage) (frozen : Frozen) (check : Result (Unit {0})) (w : World)
    → IsErr (check, w)
    → IsErr (insert_row row frozen check w)
unfolding insert_row
insert_row-IsErr row frozen (ok u) w h = absurd h
insert_row-IsErr row frozen (err e) w h = tt

commit_locked :
    (env : QueueEnv) (input : QueueSendInput) (generation : Text) (frozen : Frozen) (w : World)
    (d : Draft) (outbound : String)
    → find draft_key frozen.draft.id w.drafts ≡ some d
    → d.locked_by_send ≡ some outbound
    → (e : Failure) × (commit_snapshot env input generation frozen w ≡ (err e, w))
unfolding commit_snapshot
commit_locked env input generation frozen w d outbound found locked = settle-IsErr w _ (
    insert_row-IsErr (snapshot_row env input generation frozen) frozen _ w
      (rw found (check_locked-locked input frozen w d outbound locked)))

-- Once a freeze committed, a second freeze of the same draft fails and writes nothing, whatever key,
-- revision and files it carries.
pub commit_snapshot_twice :
    (env env' : QueueEnv) (input input' : QueueSendInput) (generation generation' : Text)
    (frozen frozen' : Frozen) (w : World) (row : OutboundMessage)
    → (commit_snapshot env input generation frozen w).0 ≡ ok row
    → frozen'.draft.id ≡ frozen.draft.id
    → let once = (commit_snapshot env input generation frozen w).1 in
      (e : Failure) × (commit_snapshot env' input' generation' frozen' once ≡ (err e, once))
commit_snapshot_twice env env' input input' generation generation' frozen frozen' w row done same =
    elim (commit_snapshot_cases env input generation frozen w) [
      | inr (e, failed) ↦ cc (rw failed at done)
      | inl c ↦
          let mine = snapshot_row env input generation frozen in
          rw (c.result) (
            commit_locked env' input' generation' frozen' (committed_world mine frozen w)
              (lock_draft mine.id c.locked) mine.id
              (rw same (locked_after mine frozen w c.locked c.found)) refl)
    ]

-- Whether a call created a snapshot.
abbrev pub has_created : {A : Type 0} → Result (Bool × A) → Bool
has_created (ok (created, row)) = created
has_created (err e) = false
