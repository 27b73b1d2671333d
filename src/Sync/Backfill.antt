-- ===== src/Sync/Backfill.antt =====
-- packages/sync/src/backfill.ts: one bounded batch of the header import of a folder.
--
-- `others` stands for what other workers commit before a transaction of the batch takes its lock.
pub mod Laws
pub mod Steady
pub mod Complete
use personal_mail_hub.Base.{
  ℕ, zero, suc, ◌+◌, ◌-◌, Bool, true, false, not, ◌&&◌, ◌||◌, Option, none, some, List, [], ◌∷◌,
  ◌++◌, length, ltb, leb, ◌==◌, Answer, answered, threw, String, update_rows, if◌then◌else◌,
}
use personal_mail_hub.Sync.{
  SyncFolder, MailboxState, MailboxHeaders, ParsedHeaders, backfill_initialized,
  folder_generation_changed, backfill_closed, backfill_batch, MailboxSession, SyncWorld,
}
use personal_mail_hub.Sync.Store.{
  sync_folder_key, find_folder, folder_event, import_header_record, valid_id,
}

pub record BackfillEnv (S : Type 0) : Type 0 where
  pub session : MailboxSession S
  pub parse_headers : String → ParsedHeaders
  pub window_size : ℕ
  pub others : SyncWorld S → SyncWorld S

pub data BackfillBatchOutcome : Type 0 where
  -- the generation, the upper bound, the boundary, and whether the folder is complete
  initialized : ℕ → ℕ → ℕ → Bool → BackfillBatchOutcome
  -- the generation, the range, what was found, imported and skipped, the boundary, complete
  imported : ℕ → ℕ → ℕ → ℕ → ℕ → ℕ → ℕ → Bool → BackfillBatchOutcome
  complete : BackfillBatchOutcome
  -- the recorded and the observed generation
  generation_changed : ℕ → ℕ → BackfillBatchOutcome

abbrev pub Batch : Type 0 → Type 0
Batch S = Answer BackfillBatchOutcome × SyncWorld S

-- The answer of a call to the server, and what follows it.
unfoldable pub on_answer :
    {S A : Type 0} → Answer A × S → SyncWorld S → (A → SyncWorld S → Batch S) → Batch S
on_answer (answered a, s) w next = next a (record w { server = s })
on_answer (threw message, s) w next = (threw message, record w { server = s })

abbrev pub default_backfill_window : ℕ
default_backfill_window = 200

-- `new BackfillService`: the window is a positive integer.
unfoldable pub is_window : ℕ → Bool
is_window size = leb 1 size

-- `Math.max(1, high - windowSize + 1)`
unfoldable pub window_low : ℕ → ℕ → ℕ
window_low size high = if leb high size then 1 else high - size + 1

abbrev pub insert_uid : ℕ → List ℕ → List ℕ
insert_uid u [] = u ∷ []
insert_uid u (v ∷ vs) = let rest = insert_uid u vs in if leb v u then u ∷ v ∷ vs else v ∷ rest

-- Newest first.
unfoldable pub descending : List ℕ → List ℕ
descending [] = []
descending (u ∷ us) = insert_uid u (descending us)

unfoldable pub report_change : {S : Type 0} → String → ℕ → ℕ → SyncWorld S → Batch S
report_change folder recorded observed w = (
  answered (generation_changed recorded observed),
  folder_event (folder_generation_changed folder recorded observed) w,
)

abbrev pub set_folder :
    {S : Type 0} → String → (SyncFolder → SyncFolder) → SyncWorld S → SyncWorld S
set_folder id change w = record w {
  sync_folders = update_rows sync_folder_key (λ f. true) change id w.sync_folders;
}

abbrev pub with_checkpoints : ℕ → ℕ → SyncFolder → SyncFolder
with_checkpoints generation upper f = record f {
  uidvalidity = some generation;
  backfill_upper_uid = some upper;
  backfill_before_uid = some (upper + 1);
  arrival_scanned_uid = upper;
  backfill_complete = upper == 0;
}

abbrev pub with_boundary : ℕ → Bool → SyncFolder → SyncFolder
with_boundary before done f = record f {
  backfill_before_uid = some before;
  backfill_complete = done;
}

abbrev pub min_with : Option ℕ → ℕ → ℕ
min_with none low = low
min_with (some before) low = if leb before low then before else low

-- What the import of a window counted.
pub record Window : Type 0 where
  pub imported : ℕ
  pub skipped : ℕ
  pub identifiers : List String

abbrev pub no_count : Window
no_count = record { imported = 0; skipped = 0; identifiers = [] }

abbrev identifier_list : Option String → List String
identifier_list none = []
identifier_list (some id) = id ∷ []

unfoldable pub count_record : Option (Option String) → Window → Window
count_record none c = record c { skipped = c.skipped + 1 }
count_record (some id) c = record c {
  imported = c.imported + 1;
  identifiers = c.identifiers ++ identifier_list id;
}

module _ {S : Type 0} (env : BackfillEnv S) (account folder : String) where
  unfoldable pub import_records :
      ℕ → List MailboxHeaders → Window → SyncWorld S → Window × SyncWorld S
  unfolding import_header_record count_record
  import_records generation [] c w = (c, w)
  import_records generation (r ∷ rs) c w =
      let (outcome, w') = import_header_record env.parse_headers account folder generation r w in
      import_records generation rs (count_record outcome c) w'

  -- The closing transaction of a window, on the row that it locked.
  unfoldable pub commit_window :
      ℕ → ℕ → ℕ → ℕ → List MailboxHeaders → SyncFolder → SyncWorld S → Batch S
  unfolding import_records
  commit_window generation low high found records locked w =
      let (c, w1) = import_records generation records no_count w in
      let before = min_with locked.backfill_before_uid low in
      let done = leb before 1 || locked.backfill_complete in
      let w2 = record w1 { dirty_identifiers = w1.dirty_identifiers ++ c.identifiers } in
      (
        answered (imported generation low high found c.imported c.skipped before done),
        folder_event
            (backfill_batch folder done low high found c.imported c.skipped before
              locked.backfill_upper_uid)
            (set_folder folder (with_boundary before done) w2),
      )

  -- The lock, and the check of the generation under it.
  unfoldable pub commit_under_lock : ℕ → ℕ → ℕ → ℕ → List MailboxHeaders → SyncWorld S → Batch S
  unfolding find_folder commit_window report_change
  commit_under_lock generation low high found records w = elim (find_folder account folder w) [
    | none ↦ (threw "not_found", w)
    | some locked ↦ elim locked.uidvalidity [
      | none ↦ report_change folder generation generation w
      | some g ↦
          if g == generation
          then commit_window generation low high found records locked w
          else report_change folder generation g w
    ]
  ]

  -- The headers of what the search found; an empty window fetches nothing.
  unfoldable pub fetched : List ℕ → S → Answer (List MailboxHeaders) × S
  fetched [] s = (answered [], s)
  fetched (u ∷ us) s = env.session.fetch_headers (u ∷ us) s

  -- Search, fetch, check and commit of the window below the boundary.
  unfoldable pub scan_window : ℕ → ℕ → SyncWorld S → Batch S
  unfolding on_answer window_low descending fetched commit_under_lock report_change
  scan_window generation high w =
      let low = window_low env.window_size high in
      on_answer (env.session.search_uids low high w.server) w (λ uids w1.
        on_answer (fetched (descending uids) w1.server) w1 (λ records w2.
          on_answer (env.session.revalidate_mailbox w2.server) w2 (λ recheck w3.
            if recheck.uid_validity == generation
            then commit_under_lock generation low high (length (descending uids)) records
                (env.others w3)
            else report_change folder generation recheck.uid_validity w3)))

  -- Every range down to UID 1 is scanned.
  unfoldable pub close_folder : ℕ → SyncWorld S → Batch S
  unfolding find_folder
  close_folder generation w = elim (find_folder account folder w) [
    | none ↦ (threw "not_found", w)
    | some locked ↦ elim locked.uidvalidity [
      | none ↦ (answered complete, w)
      | some g ↦
          if g == generation && not locked.backfill_complete
          then (
            answered complete,
            folder_event (backfill_closed folder locked.backfill_upper_uid)
                (set_folder folder (λ f. record f { backfill_complete = true }) w),
          )
          else (answered complete, w)
    ]
  ]

  -- From initialized checkpoints on.
  unfoldable pub next_window : ℕ → Bool → ℕ → SyncWorld S → Batch S
  unfolding scan_window close_folder
  next_window generation done before w =
      if done
      then (answered complete, w)
      else if ltb (before - 1) 1
      then close_folder generation (env.others w)
      else scan_window generation (before - 1) w

  -- `initializeCheckpoints`, where the locked row has none.
  unfoldable pub write_checkpoints : MailboxState → SyncWorld S → Batch S
  write_checkpoints mailbox w =
      let upper = mailbox.uid_next - 1 in
      (
        answered (initialized mailbox.uid_validity upper (upper + 1) (upper == 0)),
        folder_event (backfill_initialized folder mailbox.uid_validity upper)
            (set_folder folder (with_checkpoints mailbox.uid_validity upper) w),
      )

  -- `toInitialized`, which wants all three checkpoints, and what follows.
  unfoldable pub from_row : ℕ → SyncFolder → SyncWorld S → Batch S
  unfolding next_window
  from_row generation row w = elim row.backfill_before_uid [
    | none ↦ (threw "invalid_request", w)
    | some before ↦ elim row.backfill_upper_uid [
      | none ↦ (threw "invalid_request", w)
      | some upper ↦ next_window generation row.backfill_complete before w
    ]
  ]

  -- `initializeCheckpoints`
  unfoldable pub initialize_checkpoints : MailboxState → SyncWorld S → Batch S
  unfolding find_folder report_change write_checkpoints from_row
  initialize_checkpoints mailbox w = elim (find_folder account folder w) [
    | none ↦ (threw "not_found", w)
    | some locked ↦ elim locked.uidvalidity [
      | none ↦ write_checkpoints mailbox w
      | some g ↦
          if not (g == mailbox.uid_validity)
          then report_change folder mailbox.uid_validity g w
          else elim locked.backfill_before_uid [
            | none ↦ write_checkpoints mailbox w
            | some before ↦ from_row mailbox.uid_validity locked w
          ]
    ]
  ]

  -- After the selection, for the row that was read.
  unfoldable pub run_selected : SyncFolder → MailboxState → SyncWorld S → Batch S
  unfolding report_change initialize_checkpoints from_row
  run_selected row mailbox w = elim row.uidvalidity [
    | none ↦
        if row.backfill_complete
        then (answered complete, w)
        else initialize_checkpoints mailbox (env.others w)
    | some g ↦
        if not (g == mailbox.uid_validity)
        then report_change folder g mailbox.uid_validity w
        else if row.backfill_complete
        then (answered complete, w)
        else elim row.backfill_before_uid [
          | none ↦ initialize_checkpoints mailbox (env.others w)
          | some before ↦ from_row mailbox.uid_validity row w
        ]
  ]

  unfoldable pub run_batch : SyncWorld S → Batch S
  unfolding find_folder on_answer run_selected
  run_batch w =
      if valid_id account && valid_id folder
      then elim (find_folder account folder w) [
        | none ↦ (threw "not_found", w)
        | some row ↦
            on_answer (env.session.select_mailbox row.name w.server) w
              (λ mailbox w'. run_selected row mailbox w')
      ]
      else (threw "invalid_request", w)

  -- Batch after batch, whatever they answer: the iteration that the laws speak of.
  unfoldable pub run_batches : ℕ → SyncWorld S → SyncWorld S
  unfolding run_batch
  run_batches zero w = w
  run_batches (suc n) w = run_batches n (run_batch w).1
