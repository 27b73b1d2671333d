-- ===== src/Sync/Backfill/Steady.antt =====
-- One window of backfill.ts against a server whose folder keeps its generation.
use mathlib.Core.Path.{subst}
use personal_mail_hub.Base.{
  ℕ, ◌-◌, ◌≤◌, ◌<◌, Bool, true, false, ◌||◌, ◌≡◌, refl, ap, sym, ◌∙◌, inl, inr, some, List, [], ◌∷◌,
  any, length, ltb, leb, ◌==◌, ==_iff, arith, Bool-cases, Answer, answered, threw, String,
  if◌then◌else◌,
}
use personal_mail_hub.Sync.{SyncFolder, MailboxHeaders, FolderOccurrence, SyncWorld}
use personal_mail_hub.Sync.Store.{find_folder, is_occurrence}
use personal_mail_hub.Sync.Backfill.{
  BackfillEnv, Batch, on_answer, window_low, descending, fetched, commit_under_lock, commit_window,
  scan_window, report_change, with_boundary, min_with, import_records, no_count,
}
use personal_mail_hub.Sync.Backfill.Laws.{
  IsCovered, import_records-keeps, import_records-folders, import_records-covers, any-descending,
  window_low_bounds, min_with-above, find_folder-set_folder, find_folder-same,
}

-- A server on which the folder of the name can be selected, always under one generation. While it is
-- selected, the server answers: SEARCH reports, of the range, at least the UIDs of `has`, which are the
-- messages that stay in the folder, and FETCH answers at least for those of `has` among the UIDs that
-- it is asked for. Gaps, and messages that come or go meanwhile, are left open. What other workers
-- commit keeps this folder's row and removes no occurrence.
pub record IsSteady {S : Type 0} (env : BackfillEnv S) (account folder name : String)
    (generation : ℕ) (has : ℕ → Bool) (is_selected : S → Bool) : Type 0 where
  pub window : 1 ≤ env.window_size
  pub selects :
      (s : S)
      → (next : ℕ) × ((env.session.select_mailbox name s).0
          ≡ answered (record { uid_validity = generation; uid_next = next }))
        × (is_selected (env.session.select_mailbox name s).1 ≡ true)
  pub searches :
      (low high : ℕ) (s : S)
      → is_selected s ≡ true
      → (uids : List ℕ) × ((env.session.search_uids low high s).0 ≡ answered uids)
        × (is_selected (env.session.search_uids low high s).1 ≡ true)
        × ((u : ℕ) → low ≤ u → u ≤ high → has u ≡ true → any (λ v. v == u) uids ≡ true)
  pub fetches :
      (uids : List ℕ) (s : S)
      → is_selected s ≡ true
      → (records : List MailboxHeaders) × ((env.session.fetch_headers uids s).0 ≡ answered records)
        × (is_selected (env.session.fetch_headers uids s).1 ≡ true)
        × ((u : ℕ)
            → has u ≡ true
            → any (λ v. v == u) uids ≡ true
            → any (λ r. r.uid == u) records ≡ true)
  pub revalidates :
      (s : S)
      → is_selected s ≡ true
      → (next : ℕ) × ((env.session.revalidate_mailbox s).0
          ≡ answered (record { uid_validity = generation; uid_next = next }))
  pub others_keep_row :
      (w : SyncWorld S) → find_folder account folder (env.others w) ≡ find_folder account folder w
  pub others_keep :
      (p : FolderOccurrence → Bool) (w : SyncWorld S)
      → any p w.folder_occurrences ≡ true
      → any p (env.others w).folder_occurrences ≡ true

-- The folder has checkpoints of the generation, and every UID from the boundary to the upper bound
-- is covered.
pub record IsAt {S : Type 0} (account folder name : String) (generation : ℕ) (has : ℕ → Bool)
    (upper before : ℕ) (done : Bool) (w : SyncWorld S) : Type 0 where
  pub row : SyncFolder
  pub found : find_folder account folder w ≡ some row
  pub named : row.name ≡ name
  pub same_generation : row.uidvalidity ≡ some generation
  pub boundary : row.backfill_before_uid ≡ some before
  pub upper_bound : row.backfill_upper_uid ≡ some upper
  pub closed : row.backfill_complete ≡ done
  pub scanned : (u : ℕ) → before ≤ u → u ≤ upper → has u ≡ true → IsCovered folder generation u w

pub leb-le : (a b : ℕ) → leb a b ≡ true → a ≤ b
leb-le a b h = ground (arith, h)

leb-below : (a b : ℕ) → leb a b ≡ false → b ≤ a - 1
leb-below a b h = ground (arith, h)

pub ltb-low : (before : ℕ) → ltb (before - 1) 1 ≡ true → before ≤ 1
ltb-low before h = ground (arith, h)

pub ltb-high : (before : ℕ) → ltb (before - 1) 1 ≡ false → 1 < before
ltb-high before h = ground (arith, h)

pub on_answer-answered :
    {S A : Type 0} (x : Answer A × S) (w : SyncWorld S) (next : A → SyncWorld S → Batch S) (a : A)
    → x.0 ≡ answered a
    → on_answer x w next ≡ next a (record w { server = x.1 })
unfolding on_answer
on_answer-answered (answered b, s) w next a e =
    let same : b ≡ a = cc e in ap (λ c. next c (record w { server = s })) same
on_answer-answered (threw m, s) w next a e = cc e

-- The lower end of the next window, below the boundary.
abbrev pub window_after : ℕ → ℕ → ℕ
window_after size before = window_low size (before - 1)

pub window_after_lt :
    (size : ℕ) → 1 ≤ size → (before : ℕ) → 1 < before → window_after size before < before
window_after_lt size w before b =
    omega (arith, (window_low_bounds size (before - 1) w (omega arith)).1)

module _ {S : Type 0} (env : BackfillEnv S) (account folder name : String) (generation : ℕ)
    (has : ℕ → Bool) (is_selected : S → Bool)
    (steady : IsSteady env account folder name generation has is_selected) (upper : ℕ) where
  commit_window-IsAt :
      (before found : ℕ) (records : List MailboxHeaders) (w : SyncWorld S)
      → 1 < before
      → (at : IsAt account folder name generation has upper before false w)
      → ((u : ℕ)
          → window_after env.window_size before ≤ u
          → u ≤ before - 1
          → has u ≡ true
          → any (λ r. r.uid == u) records ≡ true)
      → IsAt account folder name generation has upper
          (window_after env.window_size before)
          (leb (window_after env.window_size before) 1 || false)
          (commit_window env account folder generation
            (window_after env.window_size before)
            (before - 1)
            found
            records
            at.row
            w).1
  unfolding commit_window
  commit_window-IsAt before found records w b at fetched' =
      let low = window_after env.window_size before in
      let w1 = (import_records env account folder generation records no_count w).1 in
      let moved : min_with at.row.backfill_before_uid low ≡ low =
        ap (λ o. min_with o low) at.boundary
        ∙ min_with-above before low (window_after_lt env.window_size steady.window before b) in
      record {
        row =
            with_boundary (min_with at.row.backfill_before_uid low)
              (leb (min_with at.row.backfill_before_uid low) 1 || at.row.backfill_complete) at.row;
        found =
            find_folder-set_folder account folder _ (λ f. refl) (λ f. refl) _ at.row
              (find_folder-same account folder w _ at.row
                (import_records-folders env account folder generation records no_count w) at.found);
        named = at.named;
        same_generation = at.same_generation;
        boundary = ap some moved;
        upper_bound = at.upper_bound;
        closed =
            ap (λ b. leb b 1 || at.row.backfill_complete) moved
            ∙ ap (λ c. leb low 1 || c) at.closed;
        scanned = λ u l h has_u. elim (Bool-cases (leb before u)) [
          | inl above ↦
              import_records-keeps env account folder generation (is_occurrence folder generation u)
                records no_count w (at.scanned u (leb-le before u above) h has_u)
          | inr below ↦
              import_records-covers env account folder generation u records no_count w
                (fetched' u l (leb-below before u below) has_u)
        ];
      }

  fetched-covers :
      (us : List ℕ) (s : S)
      → is_selected s ≡ true
      → (records : List MailboxHeaders) × ((fetched env account folder us s).0 ≡ answered records)
        × (is_selected (fetched env account folder us s).1 ≡ true)
        × ((u : ℕ)
            → has u ≡ true
            → any (λ v. v == u) us ≡ true
            → any (λ r. r.uid == u) records ≡ true)
  unfolding fetched
  fetched-covers [] s ready = ([], refl, ready, λ u has_u h. cc h)
  fetched-covers (u ∷ us) s ready = steady.fetches (u ∷ us) s ready

  pub IsAt-server :
      (before : ℕ) (done : Bool) (w : SyncWorld S) (s : S)
      → IsAt account folder name generation has upper before done w
      → IsAt account folder name generation has upper before done (record w { server = s })
  IsAt-server before done w s at = record {
    row = at.row;
    found = find_folder-same account folder w (record w { server = s }) at.row refl at.found;
    named = at.named;
    same_generation = at.same_generation;
    boundary = at.boundary;
    upper_bound = at.upper_bound;
    closed = at.closed;
    scanned = at.scanned;
  }

  pub IsAt-others :
      (before : ℕ) (done : Bool) (w : SyncWorld S)
      → IsAt account folder name generation has upper before done w
      → IsAt account folder name generation has upper before done (env.others w)
  IsAt-others before done w at = record {
    row = at.row;
    found = steady.others_keep_row w ∙ at.found;
    named = at.named;
    same_generation = at.same_generation;
    boundary = at.boundary;
    upper_bound = at.upper_bound;
    closed = at.closed;
    scanned = λ u l h has_u.
        steady.others_keep (is_occurrence folder generation u) w (at.scanned u l h has_u);
  }

  commit_under_lock-open :
      (low high found : ℕ) (records : List MailboxHeaders) (w : SyncWorld S) (row : SyncFolder)
      → find_folder account folder w ≡ some row
      → row.uidvalidity ≡ some generation
      → commit_under_lock env account folder generation low high found records w
        ≡ commit_window env account folder generation low high found records row w
  unfolding commit_under_lock
  commit_under_lock-open low high found records w row e g =
      rw (e, commit_under_lock)
        (rw (g, commit_under_lock) (rw ((==_iff generation generation).1 refl) refl))

  pub scan_window-IsAt :
      (before : ℕ) (w : SyncWorld S)
      → 1 < before
      → is_selected w.server ≡ true
      → IsAt account folder name generation has upper before false w
      → IsAt account folder name generation has upper
          (window_after env.window_size before)
          (leb (window_after env.window_size before) 1 || false)
          (scan_window env account folder generation (before - 1) w).1
  unfolding scan_window
  scan_window-IsAt before w b ready at =
      let low = window_after env.window_size before in
      let high = before - 1 in
      let search = env.session.search_uids low high w.server in
      let (uids, searched, ready1, listed) = steady.searches low high w.server ready in
      let w1 = record w { server = search.1 } in
      let fetch = fetched env account folder (descending uids) search.1 in
      let (records, answers, ready2, covered) = fetched-covers (descending uids) search.1 ready1 in
      let w2 = record w { server = fetch.1 } in
      let check = env.session.revalidate_mailbox fetch.1 in
      let (next, revalidated) = steady.revalidates fetch.1 ready2 in
      let w3 = record w { server = check.1 } in
      let at3 = IsAt-others before false w3 (IsAt-server before false w check.1 at) in
      let found = length (descending uids) in
      let committed =
        commit_window env account folder generation low high found records at3.row
          (env.others w3) in
      let last : (if generation == generation
            then commit_under_lock env account folder generation low high found records
                (env.others w3)
            else report_change folder generation generation w3)
          ≡ committed =
        rw ((==_iff generation generation).1 refl) (
          commit_under_lock-open low high found records (env.others w3) at3.row at3.found
            at3.same_generation) in
      let whole : scan_window env account folder generation high w ≡ committed =
        on_answer-answered search w _ uids searched
        ∙ on_answer-answered fetch w1 _ records answers
        ∙ on_answer-answered check w2 _ (record { uid_validity = generation; uid_next = next })
            revalidated
        ∙ last in
      subst (λ x. IsAt account folder name generation has upper low (leb low 1 || false) x.1)
        (sym whole)
        (commit_window-IsAt before found records (env.others w3) b at3
          (λ u l h has_u. covered u has_u (any-descending (λ v. v == u) uids ∙ listed u l h has_u)))
