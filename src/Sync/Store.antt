-- ===== src/Sync/Store.antt =====
-- packages/sync/src/store.ts: the folder rows and the import of one header record.
use personal_mail_hub.Base.{
  ℕ, Bool, ◌&&◌, Option, none, some, [], ◌∷◌, ◌++◌, any, length, ltb, ◌==◌, codes, String, str_eq,
  find, if◌then◌else◌,
}
use personal_mail_hub.Recovery.{is_uuid}
use personal_mail_hub.Sync.{
  SyncFolder, MailboxHeaders, ParsedHeaders, FolderOccurrence, SyncEvent, body_skipped, SyncWorld,
}

abbrev pub sync_folder_key : SyncFolder → String
sync_folder_key f = f.id

-- The row, where it is one of the account.
unfoldable pub own_folder : String → Option SyncFolder → Option SyncFolder
own_folder account none = none
own_folder account (some f) = if str_eq f.account_id account then some f else none

-- `loadFolder`, and `lockFolder` in a transaction.
unfoldable pub find_folder : {S : Type 0} → String → String → SyncWorld S → Option SyncFolder
unfolding own_folder
find_folder account id w = own_folder account (find sync_folder_key id w.sync_folders)

abbrev pub folder_event : {S : Type 0} → SyncEvent → SyncWorld S → SyncWorld S
folder_event e w = record w { sync_events = w.sync_events ++ e ∷ [] }

-- `MAX_MESSAGE_BYTES`
abbrev pub max_stored_bytes : ℕ
max_stored_bytes = 52_428_800

abbrev pub is_occurrence : String → ℕ → ℕ → FolderOccurrence → Bool
is_occurrence folder generation uid o =
    (str_eq o.folder_id folder && o.uidvalidity == generation) && o.uid == uid

abbrev sent_or_received : Option ℕ → ℕ → ℕ
sent_or_received none received = received
sent_or_received (some sent) received = sent

-- The rows of a record that no occurrence covers.
unfoldable pub insert_record :
    {S : Type 0} → ParsedHeaders → String → String → ℕ → MailboxHeaders → SyncWorld S → SyncWorld S
insert_record header account folder generation r w =
    let message = length w.header_messages in
    let w' = record w {
      header_messages =
          w.header_messages
          ++ record {
            account_id = account;
            header = header;
            sent_at = sent_or_received header.sent_at r.internal_date;
            size_bytes = r.size_bytes;
          }
            ∷ [];
      folder_occurrences =
          w.folder_occurrences
          ++ record {
            account_id = account;
            message = message;
            folder_id = folder;
            uidvalidity = generation;
            uid = r.uid;
            internal_date = r.internal_date;
            unread = r.unread;
            flagged = r.flagged;
          }
            ∷ [];
    } in
    if ltb max_stored_bytes r.size_bytes
    then folder_event (body_skipped message folder r.uid r.size_bytes) w'
    else w'

-- `importHeaderRecord`, with the parser of the header block as a parameter: the identifier of an
-- imported message, or none for a record that an occurrence covers.
unfoldable pub import_header_record :
    {S : Type 0}
    → (String → ParsedHeaders)
    → String
    → String
    → ℕ
    → MailboxHeaders
    → SyncWorld S
    → Option (Option String) × SyncWorld S
unfolding insert_record
import_header_record parse account folder generation r w =
    if any (is_occurrence folder generation r.uid) w.folder_occurrences then (none, w) else (
      some (parse r.raw_headers).message_id,
      insert_record (parse r.raw_headers) account folder generation r w,
    )

abbrev pub valid_id : String → Bool
valid_id id = is_uuid (codes id)
