-- ===== src/Send/Queue/Tests.antt =====
-- One draft that is sent, sent again, and sent under a used key.
use personal_mail_hub.Base.{◌≡◌, refl, ◌⊎◌, none, some, [], ◌∷◌, Text, codes, String, find}
use personal_mail_hub.Recovery.{ControlStatus, is_uuid}
use personal_mail_hub.Send.{Draft, OutboundMessage}
use personal_mail_hub.Send.World.{World, Failure, err, answered}
use personal_mail_hub.Send.Queue.{QueueSendInput, QueueEnv, Frozen, snapshot_row}
use personal_mail_hub.Send.Queue.Commit.{lock_draft_for_send, check_locked, commit_snapshot}
use personal_mail_hub.Send.Queue.Commit.Laws.{Committed, commit_snapshot_cases}
use personal_mail_hub.Send.Queue.Commit.Once.{commit_snapshot_twice}

abbrev draft_id : String
draft_id = "55555555-5555-4555-8555-555555555555"

abbrev letter : Draft
letter = record {
  id = draft_id;
  account_id = "a1";
  revision = 3;
  locked_by_send = none;
  deleted_at = none;
  identity = record { address = "me@here.org"; name = none };
  recipients = record {
    to = record { address = "you@there.org"; name = none } ∷ [];
    cc = none;
    bcc = none;
  };
  subject = none;
  markdown = "Hello";
  thread_id = none;
  reply_parent_id = none;
  in_reply_to = none;
  reference_ids = [];
}

abbrev desk : QueueEnv
desk = record {
  sha256_hex = λ bytes. "sha";
  put = λ key bytes. answered ("sha", 1);
  render_markdown_html = λ text. text;
  compose_outbound_mime = λ input. answered (1 ∷ []);
  parse_mime =
      λ bytes. answered (record { message_id = some "m"; sent_at = none; attachments = [] });
  hash_request = λ draft revision files. "h";
  generate_rfc_message_id = λ address. "m";
  outbound_mime_key = λ id. id;
  outbound_id = "66666666-6666-4666-8666-666666666666";
  now = 5;
}

abbrev other_desk : QueueEnv
other_desk = record desk { outbound_id = "77777777-7777-4777-8777-777777777777" }

abbrev input : QueueSendInput
input = record { draft_id = draft_id; base_revision = 3; idempotency_key = "k1" }

abbrev other_input : QueueSendInput
other_input = record input { idempotency_key = "k2" }

abbrev frozen : Frozen
frozen = record {
  draft = letter;
  envelope = "you@there.org" ∷ [];
  attachments = [];
  html = "Hello";
  rfc_message_id = "m";
  bytes = 1 ∷ [];
}

abbrev generation : Text
generation = codes "99999999-9999-4999-8999-999999999999"

abbrev office : World
office = record {
  control = ControlStatus.ready generation;
  outbound = [];
  drafts = letter ∷ [];
  uploads = [];
  draft_uploads = [];
  outbound_uploads = [];
  folders = [];
  messages = [];
  thread_jobs = [];
  events = [];
  durable = [];
  submitted = [];
  appended = [];
}

abbrev sent_letter : OutboundMessage
sent_letter = snapshot_row desk input generation frozen

commit_snapshot_cases_example :
    let r = commit_snapshot desk input generation frozen office in
    Committed sent_letter input frozen office r ⊎ ((e : Failure) × (r ≡ (err e, office)))
commit_snapshot_cases_example = commit_snapshot_cases desk input generation frozen office

commit_snapshot_twice_example :
    let once = (commit_snapshot desk input generation frozen office).1 in
    (e : Failure) × (commit_snapshot other_desk other_input generation frozen once ≡ (err e, once))
unfolding commit_snapshot lock_draft_for_send check_locked find is_uuid
commit_snapshot_twice_example =
    commit_snapshot_twice desk other_desk input other_input generation generation frozen frozen
      office sent_letter refl refl
