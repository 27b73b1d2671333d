-- ===== src/Sync/Tests.antt =====
-- A folder of three messages and one gap, backfilled by windows of two.
use personal_mail_hub.Base.{
  ℕ, ◌≤◌, Bool, true, false, ◌&&◌, ◌≡◌, refl, none, some, List, [], ◌∷◌, ◌++◌, any, map, select,
  leb, ◌==◌, ==_iff, Bool-cases, inl, inr, arith, answered, threw, String, str_eq, find,
  if◌then◌else◌,
}
use personal_mail_hub.Recovery.{is_uuid}
use personal_mail_hub.Sync.{SyncFolder, MailboxHeaders, MailboxSession, SyncWorld}
use personal_mail_hub.Sync.Store.{find_folder, valid_id}
use personal_mail_hub.Sync.Backfill.{BackfillEnv, run_batches}
use personal_mail_hub.Sync.Backfill.Steady.{IsSteady, IsAt}
use personal_mail_hub.Sync.Backfill.Complete.{IsBackfilled, run_batches-IsBackfilled}

abbrev owner : String
owner = "11111111-1111-4111-8111-111111111111"

abbrev inbox_id : String
inbox_id = "22222222-2222-4222-8222-222222222222"

abbrev stored_uids : List ℕ
stored_uids = 1 ∷ 3 ∷ 4 ∷ []

abbrev is_stored : ℕ → Bool
is_stored u = any (λ v. v == u) stored_uids

abbrev headers_of : ℕ → MailboxHeaders
headers_of u = record {
  uid = u;
  raw_headers = "";
  internal_date = 100;
  size_bytes = 10;
  unread = true;
  flagged = false;
}

-- The state says whether INBOX, the only folder, is selected; nothing else is answered before that.
abbrev server : MailboxSession Bool
server = record {
  select_mailbox = λ name s.
      if str_eq name "INBOX"
      then (answered (record { uid_validity = 7; uid_next = 5 }), true)
      else (threw "nonexistent", false);
  revalidate_mailbox = λ s.
      if s
      then (answered (record { uid_validity = 7; uid_next = 5 }), s)
      else (threw "unselected", s);
  search_uids = λ low high s.
      if s
      then (answered (select (λ u. leb low u && leb u high) stored_uids), s)
      else (threw "unselected", s);
  fetch_headers = λ uids s.
      if s then (answered (map headers_of (select is_stored uids)), s) else (threw "unselected", s);
}

-- Another worker marks a thread job meanwhile.
abbrev two_at_a_time : BackfillEnv Bool
two_at_a_time = record {
  session = server;
  parse_headers =
      λ raw. record { message_id = none; in_reply_to = none; reference_ids = []; sent_at = none };
  window_size = 2;
  others = λ w. record w { dirty_identifiers = w.dirty_identifiers ++ "elsewhere" ∷ [] };
}

abbrev inbox_row : SyncFolder
inbox_row = record {
  id = inbox_id;
  account_id = owner;
  name = "INBOX";
  uidvalidity = some 7;
  arrival_scanned_uid = 4;
  backfill_upper_uid = some 4;
  backfill_before_uid = some 5;
  backfill_complete = false;
}

abbrev unscanned : SyncWorld Bool
unscanned = record {
  server = false;
  sync_folders = inbox_row ∷ [];
  header_messages = [];
  folder_occurrences = [];
  dirty_identifiers = [];
  sync_events = [];
}

any-headers :
    (u : ℕ) (uids : List ℕ)
    → any (λ v. v == u) uids ≡ true
    → any (λ (r : MailboxHeaders). r.uid == u) (map headers_of uids) ≡ true
any-headers u [] h = h
any-headers u (v ∷ vs) h = elim (Bool-cases (v == u)) [
  | inl same ↦ rw same refl
  | inr other ↦ rw other (any-headers u vs (rw other at h))
]

any-select :
    (p : ℕ → Bool) (u : ℕ) (us : List ℕ)
    → p u ≡ true
    → any (λ v. v == u) us ≡ true
    → any (λ v. v == u) (select p us) ≡ true
any-select p u [] kept h = h
any-select p u (v ∷ vs) kept h = elim (Bool-cases (v == u)) [
  | inl same ↦ rw ((==_iff v u).0 same, kept, (==_iff u u).1 refl) refl
  | inr other ↦
      let rest = any-select p u vs kept (rw other at h) in
      elim (Bool-cases (p v)) [
        | inl with_v ↦ rw (with_v, other) rest
        | inr without ↦ rw without rest
      ]
]

in_range : (low high u : ℕ) → low ≤ u → u ≤ high → (leb low u && leb u high) ≡ true
in_range low high u l h = ground (arith, l, h)

steady : IsSteady two_at_a_time owner inbox_id "INBOX" 7 is_stored (λ s. s)
unfolding find_folder
steady = record {
  window = omega arith;
  selects = λ s. (5, refl, refl);
  searches = λ low high s open_s. (
    select (λ u. leb low u && leb u high) stored_uids,
    rw open_s refl,
    rw open_s refl,
    λ u l h k. any-select (λ v. leb low v && leb v high) u stored_uids (in_range low high u l h) k,
  );
  fetches = λ uids s open_s. (
    map headers_of (select is_stored uids),
    rw open_s refl,
    rw open_s refl,
    λ u has_u h. any-headers u (select is_stored uids) (any-select is_stored u uids has_u h),
  );
  revalidates = λ s open_s. (5, rw open_s refl);
  others_keep_row = λ w. refl;
  others_keep = λ p w h. h;
}

valid : (valid_id owner && valid_id inbox_id) ≡ true
unfolding is_uuid
valid = refl

unscanned-IsAt : IsAt owner inbox_id "INBOX" 7 is_stored 4 5 false unscanned
unfolding find_folder find
unscanned-IsAt = record {
  row = inbox_row;
  found = refl;
  named = refl;
  same_generation = refl;
  boundary = refl;
  upper_bound = refl;
  closed = refl;
  scanned = λ u l h k. absurd (omega (arith, l, h));
}

run_batches-IsBackfilled_example :
    IsBackfilled owner inbox_id 7 is_stored 4 (run_batches two_at_a_time owner inbox_id 6 unscanned)
run_batches-IsBackfilled_example =
    run_batches-IsBackfilled two_at_a_time owner inbox_id "INBOX" 7 is_stored (λ s. s) steady valid
      4 5 6 unscanned unscanned-IsAt (omega arith)
