-- ===== src/Sync/Backfill/Complete.antt =====
-- Batches of backfill.ts one after the other.
use personal_mail_hub.Base.{
  ℕ, zero, suc, ◌-◌, ◌≤◌, ◌<◌, Bool, true, false, ◌&&◌, ◌||◌, ◌≡◌, refl, ap, ◌∙◌, ◌⊎◌, inl, inr,
  some, ltb, leb, ==_iff, arith, Bool-cases, answered, String,
}
use personal_mail_hub.Sync.{SyncFolder, MailboxState, SyncWorld}
use personal_mail_hub.Sync.Store.{find_folder, valid_id}
use personal_mail_hub.Sync.Backfill.{
  BackfillEnv, on_answer, close_folder, scan_window, next_window, from_row, run_selected, run_batch,
  run_batches,
}
use personal_mail_hub.Sync.Backfill.Laws.{IsCovered, find_folder-set_folder}
use personal_mail_hub.Sync.Backfill.Steady.{
  IsSteady, IsAt, leb-le, ltb-low, ltb-high, on_answer-answered, window_after, window_after_lt,
  scan_window-IsAt, IsAt-server, IsAt-others,
}

module _ {S : Type 0} (env : BackfillEnv S) (account folder name : String) (generation : ℕ)
    (has : ℕ → Bool) (is_selected : S → Bool)
    (steady : IsSteady env account folder name generation has is_selected) (upper : ℕ) where
  -- A selection of the recorded generation goes on to the next window, or finds the folder complete.
  run_selected-next :
      (before : ℕ) (row : SyncFolder) (next : ℕ) (w : SyncWorld S)
      → row.uidvalidity ≡ some generation
      → row.backfill_before_uid ≡ some before
      → row.backfill_upper_uid ≡ some upper
      → run_selected env account folder row
          (record { uid_validity = generation; uid_next = next })
          w
        ≡ next_window env account folder generation row.backfill_complete before w
  unfolding run_selected from_row next_window
  run_selected-next before row next w g b u = elim (Bool-cases row.backfill_complete) [
    | inl closed ↦ rw (g, run_selected) (rw ((==_iff generation generation).1 refl, closed) refl)
    | inr still ↦
        rw (g, run_selected)
          (rw ((==_iff generation generation).1 refl, still)
            (rw (b, run_selected) (rw (b, u, still, from_row) refl)))
  ]

  -- The folder is complete, down to the first UID.
  abbrev pub IsDone : SyncWorld S → Type 0
  IsDone w = (b : ℕ) × (b ≤ 1) × IsAt account folder name generation has upper b true w

  module _ (valid : (valid_id account && valid_id folder) ≡ true) where
    run_batch-selected :
        (before : ℕ) (done : Bool) (w : SyncWorld S)
        → (at : IsAt account folder name generation has upper before done w)
        → run_batch env account folder w
          ≡ next_window env account folder generation at.row.backfill_complete before
              (record w { server = (env.session.select_mailbox at.row.name w.server).1 })
    unfolding run_batch
    run_batch-selected before done w at =
        let call = env.session.select_mailbox at.row.name w.server in
        let w1 = record w { server = call.1 } in
        let (next, selected, _) = steady.selects w.server in
        let named_call : call.0 ≡ answered (record { uid_validity = generation; uid_next = next }) =
          ap (λ n. (env.session.select_mailbox n w.server).0) at.named ∙ selected in
        let mailbox : MailboxState = record { uid_validity = generation; uid_next = next } in
        let first : run_batch env account folder w
            ≡ on_answer call w (λ m w'. run_selected env account folder at.row m w') =
          rw (valid, run_batch) (rw (at.found, run_batch) refl) in
        first
        ∙ on_answer-answered call w _ mailbox named_call
        ∙ run_selected-next before at.row next w1 at.same_generation at.boundary at.upper_bound

    close_folder-IsAt :
        (before : ℕ) (w : SyncWorld S)
        → IsAt account folder name generation has upper before false w
        → IsAt account folder name generation has upper before true
            (close_folder env account folder generation w).1
    unfolding close_folder
    close_folder-IsAt before w at =
        rw (at.found, close_folder)
          (rw (at.same_generation, close_folder)
            (rw ((==_iff generation generation).1 refl, at.closed)
              (record {
                row = record at.row { backfill_complete = true };
                found =
                    find_folder-set_folder account folder
                      (λ f. record f { backfill_complete = true }) (λ f. refl) (λ f. refl) w at.row
                      at.found;
                named = at.named;
                same_generation = at.same_generation;
                boundary = at.boundary;
                upper_bound = at.upper_bound;
                closed = refl;
                scanned = at.scanned;
              })))

    -- One batch on an open folder closes it or lowers its boundary; a closed one stays closed.
    run_batch_keeps_IsDone :
        (w : SyncWorld S) → IsDone w → IsDone (run_batch env account folder w).1
    unfolding next_window
    run_batch_keeps_IsDone w (b, low, at) = rw (run_batch-selected b true w at) (
        rw at.closed (
          b,
          low,
          IsAt-server env account folder name generation has is_selected steady upper b true w _ at,
        ))

    scanned-cases :
        (before : ℕ)
        → 1 < before
        → (w : SyncWorld S)
        → IsAt account folder name generation has upper
            (window_after env.window_size before)
            (leb (window_after env.window_size before) 1 || false)
            w
        → IsDone w
          ⊎ ((b : ℕ) × (b < before) × IsAt account folder name generation has upper b false w)
    scanned-cases before b w at = elim (Bool-cases (leb (window_after env.window_size before) 1)) [
      | inl last ↦ inl (
        window_after env.window_size before,
        leb-le (window_after env.window_size before) 1 last,
        rw last at at,
      )
      | inr more ↦ inr (
        window_after env.window_size before,
        window_after_lt env.window_size steady.window before b,
        rw more at at,
      )
    ]

    run_batch-open :
        (before : ℕ) (w : SyncWorld S)
        → IsAt account folder name generation has upper before false w
        → IsDone (run_batch env account folder w).1
          ⊎ ((b : ℕ) × (b < before)
              × IsAt account folder name generation has upper b false
                  (run_batch env account folder w).1)
    unfolding next_window
    run_batch-open before w at =
        let w1 = record w { server = (env.session.select_mailbox at.row.name w.server).1 } in
        let at1 =
          IsAt-server env account folder name generation has is_selected steady upper before false w
            _ at in
        let ready : is_selected w1.server ≡ true =
          ap (λ n. is_selected (env.session.select_mailbox n w.server).1) at.named
          ∙ (steady.selects w.server).2 in
        rw (run_batch-selected before false w at) (
          rw at.closed (elim (Bool-cases (ltb (before - 1) 1)) [
            | inl low ↦ rw low (
                inl (
                  before,
                  ltb-low before low,
                  close_folder-IsAt before (env.others w1) (
                      IsAt-others env account folder name generation has is_selected steady upper
                        before false w1 at1),
                ))
            | inr high ↦ rw high (
                scanned-cases before (ltb-high before high)
                  (scan_window env account folder generation (before - 1) w1).1
                  (scan_window-IsAt env account folder name generation has is_selected steady upper
                    before w1 (ltb-high before high) ready at1))
          ]))

    run_batches_keep_IsDone :
        (n : ℕ) (w : SyncWorld S) → IsDone w → IsDone (run_batches env account folder n w)
    unfolding run_batches
    run_batches_keep_IsDone zero w h = h
    run_batches_keep_IsDone (suc n) w h =
        run_batches_keep_IsDone n (run_batch env account folder w).1 (run_batch_keeps_IsDone w h)

    run_batches-IsDone :
        (n before : ℕ) (w : SyncWorld S)
        → IsAt account folder name generation has upper before false w
        → before < n
        → IsDone (run_batches env account folder n w)
    unfolding run_batches
    run_batches-IsDone zero before w at h = absurd (omega (arith, h))
    run_batches-IsDone (suc n) before w at h = elim (run_batch-open before w at) [
      | inl done ↦ run_batches_keep_IsDone n (run_batch env account folder w).1 done
      | inr (b, low, at') ↦
          run_batches-IsDone n b (run_batch env account folder w).1 at' (omega (arith, low, h))
    ]

-- A folder is backfilled: its row is complete, and every UID of a message that stays in it, from 1 to the upper
-- bound, is covered by an occurrence of the folder and the generation.
pub record IsBackfilled {S : Type 0} (account folder : String) (generation : ℕ) (has : ℕ → Bool)
    (upper : ℕ) (w : SyncWorld S) : Type 0 where
  pub row : SyncFolder
  pub found : find_folder account folder w ≡ some row
  pub complete : row.backfill_complete ≡ true
  pub all_covered : (u : ℕ) → 1 ≤ u → u ≤ upper → has u ≡ true → IsCovered folder generation u w

-- Against a server that selects the folder under one generation, reports at least the messages that
-- stay in it and answers for these, while other workers keep the folder's row and all occurrences, and
-- with well-formed identifiers: from any state in which the folder's checkpoints are written and what
-- lies above the boundary is covered, as many batches as the boundary counts and one more, or any
-- larger number, leave the folder complete and every message that stays, up to the upper bound,
-- covered.
pub run_batches-IsBackfilled :
    {S : Type 0} (env : BackfillEnv S) (account folder name : String) (generation : ℕ)
    (has : ℕ → Bool) (is_selected : S → Bool)
    → IsSteady env account folder name generation has is_selected
    → (valid_id account && valid_id folder) ≡ true
    → (upper before n : ℕ) (w : SyncWorld S)
    → IsAt account folder name generation has upper before false w
    → before < n
    → IsBackfilled account folder generation has upper (run_batches env account folder n w)
run_batches-IsBackfilled env account folder name generation has is_selected steady valid upper
      before n w at h =
    let (b, low, at') =
      run_batches-IsDone env account folder name generation has is_selected steady upper valid n
        before w at h in
    record {
      row = at'.row;
      found = at'.found;
      complete = at'.closed;
      all_covered = λ u l k has_u. at'.scanned u (omega (arith, low, l)) k has_u;
    }
