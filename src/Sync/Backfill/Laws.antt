-- ===== src/Sync/Backfill/Laws.antt =====
-- What one window of backfill.ts leaves: its records, its folder row and its boundary.
use personal_mail_hub.Base.{
  if-eq, or_true, ℕ, ◌≤◌, ◌<◌, Bool, true, ◌||◌, ◌≡◌, refl, ap, ◌∙◌, inl, inr, Option, none, some,
  List, [], ◌∷◌, ◌++◌, any, length, ltb, leb, ◌==◌, ==_iff, arith, Bool-cases, String, str_eq,
  eq_refl, find, find-update_rows_self, changed,
}
use personal_mail_hub.Sync.{SyncFolder, MailboxHeaders, ParsedHeaders, FolderOccurrence, SyncWorld}
use personal_mail_hub.Sync.Store.{
  sync_folder_key, own_folder, find_folder, is_occurrence, insert_record, import_header_record,
  max_stored_bytes,
}
use personal_mail_hub.Sync.Backfill.{
  BackfillEnv, Window, import_records, set_folder, window_low, min_with, insert_uid, descending,
}

-- The occurrences have one for the UID, in the folder and the generation.
abbrev pub IsCovered : {S : Type 0} → String → ℕ → ℕ → SyncWorld S → Type 0
IsCovered folder generation uid w =
    any (is_occurrence folder generation uid) w.folder_occurrences ≡ true

any-append :
    {A : Type 0} (p : A → Bool) (xs ys : List A) → any p (xs ++ ys) ≡ (any p xs || any p ys)
any-append p [] ys = refl
any-append p (x ∷ xs) ys = rw (any-append p xs ys) (ground arith)

abbrev occurrences_of : {S : Type 0} → SyncWorld S → List FolderOccurrence
occurrences_of w = w.folder_occurrences

abbrev folders_of : {S : Type 0} → SyncWorld S → List SyncFolder
folders_of w = w.sync_folders

module _ {S : Type 0} (account folder : String) (generation : ℕ) where
  inserted_occurrence : MailboxHeaders → SyncWorld S → FolderOccurrence
  inserted_occurrence r w = record {
    account_id = account;
    message = length w.header_messages;
    folder_id = folder;
    uidvalidity = generation;
    uid = r.uid;
    internal_date = r.internal_date;
    unread = r.unread;
    flagged = r.flagged;
  }

  insert_record-occurrences :
      (header : ParsedHeaders) (r : MailboxHeaders) (w : SyncWorld S)
      → (insert_record header account folder generation r w).folder_occurrences
        ≡ w.folder_occurrences ++ inserted_occurrence r w ∷ []
  unfolding insert_record inserted_occurrence
  insert_record-occurrences header r w =
      if-eq occurrences_of (ltb max_stored_bytes r.size_bytes) _ _
        (w.folder_occurrences ++ inserted_occurrence r w ∷ []) refl refl

  insert_record-folders :
      (header : ParsedHeaders) (r : MailboxHeaders) (w : SyncWorld S)
      → (insert_record header account folder generation r w).sync_folders ≡ w.sync_folders
  unfolding insert_record
  insert_record-folders header r w =
      if-eq folders_of (ltb max_stored_bytes r.size_bytes) _ _ w.sync_folders refl refl

  own_occurrence :
      (r : MailboxHeaders) (w : SyncWorld S)
      → is_occurrence folder generation r.uid (inserted_occurrence r w) ≡ true
  unfolding inserted_occurrence
  own_occurrence r w =
      rw (eq_refl folder, (==_iff generation generation).1 refl, (==_iff r.uid r.uid).1 refl) refl

  module _ (parse : String → ParsedHeaders) where
    -- The record is covered, and nothing that was covered is lost.
    import-covers :
        (r : MailboxHeaders) (w : SyncWorld S)
        → IsCovered folder generation r.uid
            (import_header_record parse account folder generation r w).1
    unfolding import_header_record
    import-covers r w =
        elim (Bool-cases (any (is_occurrence folder generation r.uid) w.folder_occurrences)) [
          | inl known ↦ rw (known, import_header_record) known
          | inr new ↦
              rw (new, import_header_record)
                (rw (insert_record-occurrences (parse r.raw_headers) r w) (
                  rw
                    (any-append (is_occurrence folder generation r.uid) w.folder_occurrences
                      (inserted_occurrence r w ∷ []))
                    (rw (own_occurrence r w) (
                      or_true (any (is_occurrence folder generation r.uid) w.folder_occurrences)))))
        ]

    import-keeps :
        (p : FolderOccurrence → Bool) (r : MailboxHeaders) (w : SyncWorld S)
        → any p w.folder_occurrences ≡ true
        → any p (import_header_record parse account folder generation r w).1.folder_occurrences
          ≡ true
    unfolding import_header_record
    import-keeps p r w h =
        elim (Bool-cases (any (is_occurrence folder generation r.uid) w.folder_occurrences)) [
          | inl known ↦ rw (known, import_header_record) h
          | inr new ↦
              rw (new, import_header_record)
                (rw (insert_record-occurrences (parse r.raw_headers) r w)
                  (rw (any-append p w.folder_occurrences (inserted_occurrence r w ∷ []), h) refl))
        ]

    import-folders :
        (r : MailboxHeaders) (w : SyncWorld S)
        → (import_header_record parse account folder generation r w).1.sync_folders ≡ w.sync_folders
    unfolding import_header_record
    import-folders r w =
        elim (Bool-cases (any (is_occurrence folder generation r.uid) w.folder_occurrences)) [
          | inl known ↦ rw (known, import_header_record) refl
          | inr new ↦
              rw (new, import_header_record) (insert_record-folders (parse r.raw_headers) r w)
        ]

-- A window: every record is covered after it, nothing that was covered is lost, and the folders stay.
module _ {S : Type 0} (env : BackfillEnv S) (account folder : String) (generation : ℕ) where
  pub import_records-keeps :
      (p : FolderOccurrence → Bool) (rs : List MailboxHeaders) (c : Window) (w : SyncWorld S)
      → any p w.folder_occurrences ≡ true
      → any p (import_records env account folder generation rs c w).1.folder_occurrences ≡ true
  unfolding import_records
  import_records-keeps p [] c w h = h
  import_records-keeps p (r ∷ rs) c w h =
      import_records-keeps p rs _ _
        (import-keeps account folder generation env.parse_headers p r w h)

  pub import_records-folders :
      (rs : List MailboxHeaders) (c : Window) (w : SyncWorld S)
      → (import_records env account folder generation rs c w).1.sync_folders ≡ w.sync_folders
  unfolding import_records
  import_records-folders [] c w = refl
  import_records-folders (r ∷ rs) c w =
      import_records-folders rs _ _ ∙ import-folders account folder generation env.parse_headers r w

  pub import_records-covers :
      (uid : ℕ) (rs : List MailboxHeaders) (c : Window) (w : SyncWorld S)
      → any (λ r. r.uid == uid) rs ≡ true
      → IsCovered folder generation uid (import_records env account folder generation rs c w).1
  unfolding import_records
  import_records-covers uid [] c w h = cc h
  import_records-covers uid (r ∷ rs) c w h = elim (Bool-cases (r.uid == uid)) [
    | inl same ↦ import_records-keeps (is_occurrence folder generation uid) rs _ _ (
        rw (← (==_iff r.uid uid).0 same)
          (import-covers account folder generation env.parse_headers r w))
    | inr other ↦ import_records-covers uid rs _ _ (rw other at h)
  ]

any-insert_uid : (p : ℕ → Bool) (u : ℕ) (us : List ℕ) → any p (insert_uid u us) ≡ any p (u ∷ us)
any-insert_uid p u [] = refl
any-insert_uid p u (v ∷ vs) = elim (Bool-cases (leb v u)) [
  | inl below ↦ rw below refl
  | inr above ↦ rw (above, any-insert_uid p u vs) (ground arith)
]

pub any-descending : (p : ℕ → Bool) (us : List ℕ) → any p (descending us) ≡ any p us
unfolding descending
any-descending p [] = refl
any-descending p (u ∷ us) =
    any-insert_uid p u (descending us) ∙ ap (λ b. p u || b) (any-descending p us)

-- The lower end of a window lies in it, and a boundary above the window moves down to it.
pub window_low_bounds :
    (size high : ℕ)
    → 1 ≤ size
    → 1 ≤ high
    → (1 ≤ window_low size high) × (window_low size high ≤ high)
unfolding window_low
window_low_bounds size high s h = ground arith

pub min_with-above : (before low : ℕ) → low < before → min_with (some before) low ≡ low
min_with-above before low h = ground arith

own_folder-own :
    (account : String) (f : SyncFolder)
    → str_eq f.account_id account ≡ true
    → own_folder account (some f) ≡ some f
unfolding own_folder
own_folder-own account f e = rw e refl

module _ (account folder : String) (change : SyncFolder → SyncFolder)
    (keeps_id : (f : SyncFolder) → (change f).id ≡ f.id)
    (keeps_account : (f : SyncFolder) → (change f).account_id ≡ f.account_id) where
  own_folder-changed :
      (o : Option SyncFolder) (row : SyncFolder)
      → own_folder account o ≡ some row
      → own_folder account (changed (λ g. true) change o) ≡ some (change row)
  unfolding own_folder
  own_folder-changed none row e = cc e
  own_folder-changed (some f) row e = elim (Bool-cases (str_eq f.account_id account)) [
    | inl own ↦
        let same : f ≡ row = cc (rw own at e) in
        own_folder-own account (change f) (ap (λ a. str_eq a account) (keeps_account f) ∙ own)
        ∙ ap (λ g. some (change g)) same
    | inr other ↦ cc (rw other at e)
  ]

  pub find_folder-set_folder :
      {S : Type 0} (w : SyncWorld S) (row : SyncFolder)
      → find_folder account folder w ≡ some row
      → find_folder account folder (set_folder folder change w) ≡ some (change row)
  unfolding find_folder
  find_folder-set_folder w row e =
      ap (own_folder account)
        (find-update_rows_self sync_folder_key (λ g. true) change keeps_id folder w.sync_folders)
      ∙ own_folder-changed (find sync_folder_key folder w.sync_folders) row e

pub find_folder-same :
    {S : Type 0} (account folder : String) (w w' : SyncWorld S) (row : SyncFolder)
    → w'.sync_folders ≡ w.sync_folders
    → find_folder account folder w ≡ some row
    → find_folder account folder w' ≡ some row
unfolding find_folder
find_folder-same account folder w w' row e f =
    ap (λ rows. own_folder account (find sync_folder_key folder rows)) e ∙ f
