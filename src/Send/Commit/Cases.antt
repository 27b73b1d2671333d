-- ===== src/Send/Commit/Cases.antt =====
-- What the three closing transactions write, case by case.
use personal_mail_hub.Base.{
  true, ◌≡◌, refl, ◌⊎◌, inl, inr, Option, none, some, List, arith, String, Bool-cases, Option-cases,
  any, ◌∷◌, [], ◌++◌, ◌&&◌, str_eq, eq_refl,
}
use personal_mail_hub.Database.{OutboundStatus, is_status}
use personal_mail_hub.Send.{OutboundMessage, ParsedMime, LocalMessage}
use personal_mail_hub.Send.World.{
  World, send_failed, Failure, Result, ok, err, Answer, answered, threw, unique_violation,
  acceptance_superseded, record_event, find_outbound, update_outbound, IsErr, settle-IsErr,
}
use personal_mail_hub.Send.Lock.{released, release_draft_lock_cases}
use personal_mail_hub.Send.Commit.{
  Env, FailureOutcome, is_sending, or_row, error_code, fail_row, failure_event, record_failure,
  Acceptance, accept_row, place_message, insert_local_sent_message, accept_once, accept_under,
  accept_updated, accept_event, commit_acceptance, commit_parsed, retry_once, after_attempt,
  acceptance_event, message_taken, find_message_by_hash, local_sent_message,
}

module _ (row : OutboundMessage) (outcome : FailureOutcome) (w : World) where
  abbrev failed_update : World × Option OutboundMessage
  failed_update = update_outbound row.id is_sending (fail_row outcome) w

  -- A recorded failure has its row failed and the lock released; otherwise nothing is written.
  pub record_failure_cases :
      ((r : OutboundMessage) × (find_outbound row.id failed_update.0 ≡ some r)
        × (is_status OutboundStatus.failed r.status ≡ true)
        × (record_failure row outcome w ≡ (
          ok (or_row row failed_update.1),
          record_event
              (send_failed row.id (error_code outcome.error))
              (released row.id failed_update.0),
        )))
      ⊎ ((e : Failure) × (record_failure row outcome w ≡ (err e, w)))
  unfolding record_failure
  record_failure_cases =
      elim (release_draft_lock_cases row.id OutboundStatus.failed failed_update.0) [
        | inl (r, found, same, e) ↦ inl (r, found, same, rw (e, failure_event) refl)
        | inr (failure, e) ↦ inr (failure, rw (e, failure_event) refl)
      ]

module _ (env : Env) (row : OutboundMessage) (input : Acceptance) where
  abbrev accepted_update : String → World → World × Option OutboundMessage
  accepted_update message w =
      update_outbound row.id (λ r. is_status input.from_status r.status)
        (accept_row env.now input message) w

  -- What the acceptance writes once the local message is placed.
  abbrev pub accepted_world : String → World → World
  accepted_world message w =
      record_event (acceptance_event row input message)
        (released row.id (accepted_update message w).0)

  accept_updated_cases :
      (message : String) (accepted : OutboundMessage) (w : World)
      → (accept_updated row input message (w, some accepted)
          ≡ (ok accepted, record_event (acceptance_event row input message) (released row.id w)))
        ⊎ IsErr (accept_updated row input message (w, some accepted))
  unfolding accept_updated
  accept_updated_cases message accepted w =
      elim (Bool-cases (message_taken row.id message w.outbound)) [
        | inl taken ↦ inr (rw taken tt)
        | inr free ↦ elim (release_draft_lock_cases row.id OutboundStatus.sent w) [
          | inl (r, _, _, e) ↦ inl (rw free (rw (e, accept_event) refl))
          | inr (failure, e) ↦ inr (rw free (rw (e, accept_event) tt))
        ]
      ]

  abbrev Accepts : String → World → Result OutboundMessage × World → Type 0
  Accepts message w r =
      (before : OutboundMessage) × (find_outbound row.id w ≡ some before)
      × (is_status input.from_status before.status ≡ true)
      × (r ≡ (ok (accept_row env.now input message before), accepted_world message w))

  accept_under_cases :
      (message : String) (w : World)
      → Accepts message w (accept_under env row input (ok message, w))
        ⊎ IsErr (accept_under env row input (ok message, w))
  unfolding accept_under
  accept_under_cases message w = elim (Option-cases (find_outbound row.id w)) [
    | inl missing ↦ inr (rw (missing, accept_updated) tt)
    | inr (before, found) ↦ elim (Bool-cases (is_status input.from_status before.status)) [
      | inr moved ↦ inr (rw found (rw (moved, accept_updated) tt))
      | inl held ↦
          let after = (accepted_update message w).0 in
          elim (accept_updated_cases message (accept_row env.now input message before) after) [
            | inl e ↦ inl (before, found, held, rw found (rw held e))
            | inr failed ↦ inr (rw found (rw held failed))
          ]
    ]
  ]

  -- The local message of the snapshot: its account and the hash of its original.
  abbrev pub Indexed : String → List LocalMessage → Type 0
  Indexed message ms =
      (m : LocalMessage) × (find_message_by_hash row.account_id row.mime_sha256 ms ≡ some m)
      × (m.id ≡ message)

  find_message_by_hash-append :
      (m : LocalMessage) (ms : List LocalMessage)
      → find_message_by_hash row.account_id row.mime_sha256 ms ≡ none
      → str_eq m.account_id row.account_id ≡ true
      → str_eq m.original_sha256 row.mime_sha256 ≡ true
      → find_message_by_hash row.account_id row.mime_sha256 (ms ++ m ∷ []) ≡ some m
  unfolding find_message_by_hash
  find_message_by_hash-append m [] h a s = rw (a, s) refl
  find_message_by_hash-append m (k ∷ ms) h a s =
      elim (Bool-cases
        (str_eq k.account_id row.account_id && str_eq k.original_sha256 row.mime_sha256)) [
          | inl hit ↦ cc (rw hit at h)
          | inr miss ↦ rw miss (find_message_by_hash-append m ms (rw miss at h) a s)
        ]

  abbrev placed_in : World → List LocalMessage → List (String × String) → World
  placed_in w ms jobs = record w { messages = ms; thread_jobs = jobs }

  abbrev Placed : World → Result String × World → Type 0
  Placed w r =
      (message : String) × (ms : List LocalMessage) × (jobs : List (String × String)) × Indexed
        message ms
      × (r ≡ (ok message, placed_in w ms jobs))

  place_message_cases :
      (parsed : ParsedMime) (w : World)
      → let r =
          place_message env row parsed input.bytes
            (find_message_by_hash row.account_id row.mime_sha256 w.messages)
            w in
        Placed w r ⊎ IsErr r
  unfolding place_message insert_local_sent_message local_sent_message
  place_message_cases parsed w =
      elim (Option-cases (find_message_by_hash row.account_id row.mime_sha256 w.messages)) [
        | inr (m, found) ↦
            inl (m.id, w.messages, w.thread_jobs, (m, found, refl), rw (found, place_message) refl)
        | inl missing ↦
            let fresh = local_sent_message env row parsed input.bytes in
            elim (Bool-cases (any (λ m. str_eq m.id env.generated_id) w.messages)) [
              | inl taken ↦ inr (rw (missing, place_message) (rw taken tt))
              | inr free ↦
                  let found =
                    find_message_by_hash-append fresh w.messages missing (eq_refl row.account_id)
                      (eq_refl row.mime_sha256) in
                  inl (
                    env.generated_id,
                    w.messages ++ fresh ∷ [],
                    w.thread_jobs ++ (row.account_id, row.rfc_message_id) ∷ [],
                    (fresh, found, refl),
                    rw (missing, place_message) (rw free refl),
                  )
            ]
      ]

  -- A committed acceptance: its row held the required status, and the world it leaves.
  pub record Accepted (w : World) (r : Result OutboundMessage × World) : Type 0 where
    pub message : String
    pub before : OutboundMessage
    pub messages : List LocalMessage
    pub jobs : List (String × String)
    pub found : find_outbound row.id w ≡ some before
    pub held : is_status input.from_status before.status ≡ true
    pub indexed : Indexed message messages
    pub result : r ≡ (
      ok (accept_row env.now input message before),
      accepted_world message (placed_in w messages jobs),
    )

  accept_under-IsErr : (r : Result String × World) → IsErr r → IsErr (accept_under env row input r)
  unfolding accept_under
  accept_under-IsErr (ok message, w) h = absurd h
  accept_under-IsErr (err e, w) h = tt

  accept_once_cases :
      (parsed : ParsedMime) (w : World)
      → Accepted w (accept_once env row input parsed w)
        ⊎ ((e : Failure) × (accept_once env row input parsed w ≡ (err e, w)))
  unfolding accept_once
  accept_once_cases parsed w = elim (place_message_cases parsed w) [
    | inr failed ↦ inr (settle-IsErr w _ (accept_under-IsErr _ failed))
    | inl (message, ms, jobs, indexed, e) ↦
        elim (accept_under_cases message (placed_in w ms jobs)) [
          | inr failed ↦ inr (settle-IsErr w _ (rw e failed))
          | inl (before, found, held, same) ↦ inl (record {
            message = message;
            before = before;
            messages = ms;
            jobs = jobs;
            found = found;
            held = held;
            indexed = indexed;
            result = rw e (rw same refl);
          })
        ]
  ]

  after_attempt_cases :
      (w : World) (r : Result OutboundMessage × World)
      → Accepted w r ⊎ ((e : Failure) × (r ≡ (err e, w)))
      → Accepted w (after_attempt row w r) ⊎ ((after_attempt row w r).1 ≡ w)
  unfolding after_attempt
  after_attempt_cases w (ok accepted, w') (inl a) = inl a
  after_attempt_cases w (err e, w') (inl a) = cc (a.result)
  after_attempt_cases w (ok accepted, w') (inr (e, h)) = cc h
  after_attempt_cases w (err acceptance_superseded, w') (inr (e, h)) = inr refl
  after_attempt_cases w (err f, w') (inr (e, h)) = inr (ground arith)

  abbrev Attempted : World → Result OutboundMessage × World → Type 0
  Attempted w r = Accepted w r ⊎ ((e : Failure) × (r ≡ (err e, w)))

  retry_once_cases :
      (again : World → Result OutboundMessage × World) (w : World)
      (r : Result OutboundMessage × World)
      → Attempted w (again w)
      → Attempted w r
      → Attempted w (retry_once again w r)
  unfolding retry_once
  retry_once_cases again w (ok accepted, w') second first = first
  retry_once_cases again w (err unique_violation, w') second first = second
  retry_once_cases again w (err f, w') second first = first

  -- An acceptance commits as a whole: the row still held the expected status, the message of the sent
  -- mail is indexed with the row's identifier, the row is `sent`, its draft is unlocked and the event
  -- is recorded. Or it leaves the world as it was.
  pub commit_acceptance_cases :
      (w : World)
      → Accepted w (commit_acceptance env row input w) ⊎ ((commit_acceptance env row input w).1 ≡ w)
  unfolding commit_acceptance commit_parsed
  commit_acceptance_cases w = commit_parsed_cases (env.parse_mime input.bytes)
    where
      commit_parsed_cases :
          (a : Answer ParsedMime)
          → Accepted w (commit_parsed env row input w a) ⊎ ((commit_parsed env row input w a).1 ≡ w)
      commit_parsed_cases (threw m) = inr refl
      commit_parsed_cases (answered parsed) = after_attempt_cases w _ (
          retry_once_cases (accept_once env row input parsed) w _ (accept_once_cases parsed w)
            (accept_once_cases parsed w))
