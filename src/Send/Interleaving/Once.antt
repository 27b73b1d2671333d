-- ===== src/Send/Interleaving/Once.antt =====
-- The invariant of the interleaved system that counts submissions.
use mathlib.Core.List.{map-append}
use personal_mail_hub.Base.{
  ℕ, Text, any, false, ◌+◌, ◌≤◌, true, false, ◌≡◌, refl, sym, ◌∙◌, ◌⊎◌, inl, inr, Option, none,
  some, List, [], ◌∷◌, ◌++◌, map, arith, String, str_eq, eq_refl, str_eq-cases, find,
  returning-found, find-key,
}
use personal_mail_hub.Send.{Bytes, OutboundMessage, SmtpSubmitRequest}
use personal_mail_hub.Send.World.{World, outbound_key, find_outbound, find_outbound-update_other}
use personal_mail_hub.Send.Status.{Follows, Follows-refl, Keeps-Follows}
use personal_mail_hub.Send.Commit.{Env}
use personal_mail_hub.Send.Commit.Follows.{record_failure-Follows, record_failure-Quiet}
use personal_mail_hub.Send.Outbound.{is_queued, claim_row, claim_outbound, request_of}
use personal_mail_hub.Send.Outbound.Moves.{
  LeftQueue, FollowsRow-LeftQueue, claimed-LeftQueue, record_report-Follows, record_report-Quiet,
}
use personal_mail_hub.Send.Append.Laws.{execute_sent_copy_append-Keeps}
use personal_mail_hub.Send.Reconcile.Laws.{reconcile_unknown_outcome-Follows}
use personal_mail_hub.Send.Queue.{QueueSendInput, QueueEnv, Frozen, snapshot_row}
use personal_mail_hub.Send.Queue.Commit.{collides, commit_snapshot}
use personal_mail_hub.Send.Queue.Commit.Laws.{commit_snapshot_cases}
use personal_mail_hub.Send.Recovery.Laws.{recover_abandoned_attempts-Follows}
use personal_mail_hub.Send.Interleaving.{
  System, handed_over, Step, queue, claim, submit, fail, report, lose_claim, lose_report, recover,
  reconcile, append, Steps, done, more, IsInitial, hit, tally, log_key, submissions,
}

module _ {A : Type 0} (key : A → String) (id : String) where
  tally-append : (xs ys : List A) → tally key id (xs ++ ys) ≡ tally key id xs + tally key id ys
  tally-append [] ys = omega arith
  tally-append (x ∷ xs) ys = omega (arith, tally-append xs ys)

  tally-between :
      (xs ys : List A) (x : A)
      → tally key id (xs ++ x ∷ ys) ≡ hit key id x + tally key id (xs ++ ys)
  tally-between xs ys x = omega (arith, tally-append xs (x ∷ ys), tally-append xs ys)

-- The claims and the submissions of a row.
abbrev tokens : String → System → ℕ
tokens id s = tally outbound_key id s.claimed + submissions id s

-- A row without a token may be anywhere; a row with its one token has left the queue.
abbrev Spent : ℕ → Option OutboundMessage → Type 0
Spent n o = (n ≡ 0) ⊎ ((n ≡ 1) × LeftQueue o)

abbrev pub request_in : String × SmtpSubmitRequest → SmtpSubmitRequest
request_in e = e.1

pub record IsSound (s : System) : Type 0 where
  pub once : (id : String) → Spent (tokens id s) (find_outbound id s.world)
  pub logged : s.world.submitted ≡ map request_in s.log

Spent-Follows :
    (n : ℕ) (rows rows' : List OutboundMessage) (id : String)
    → Follows rows rows'
    → Spent n (find outbound_key id rows)
    → Spent n (find outbound_key id rows')
Spent-Follows n rows rows' id f (inl zero) = inl zero
Spent-Follows n rows rows' id f (inr (one, left)) = inr (one, FollowsRow-LeftQueue _ _ (f id) left)

-- Tokens may be lost, never gained.
Spent-fewer : (m n : ℕ) (o : Option OutboundMessage) → m ≤ n → Spent n o → Spent m o
Spent-fewer m n o le (inl zero) = inl (omega arith)
Spent-fewer m n o le (inr (one, left)) = elim (zero_or_one m (omega arith)) [
  | inl zero ↦ inl zero
  | inr one' ↦ inr (one', left)
]
  where
    zero_or_one : (k : ℕ) → k ≤ 1 → (k ≡ 0) ⊎ (k ≡ 1)
    zero_or_one k h = ground arith

-- A step that moves rows, and neither claims nor submits.
moving :
    (s s' : System)
    → Follows s.world.outbound s'.world.outbound
    → s'.world.submitted ≡ s.world.submitted
    → ((id : String) → tokens id s' ≤ tokens id s)
    → s'.log ≡ s.log
    → IsSound s
    → IsSound s'
moving s s' follows sent fewer log h = record {
  once = λ id.
      Spent-fewer _ _ (find_outbound id s'.world) (fewer id)
        (Spent-Follows _ s.world.outbound s'.world.outbound id follows (h.once id));
  logged = rw sent (rw log (h.logged));
}

-- A row whose identifier collides with none is not found.
fresh_none :
    (row : OutboundMessage) (rows : List OutboundMessage)
    → any (collides row) rows ≡ false
    → find outbound_key row.id rows ≡ none
unfolding find
fresh_none row [] h = refl
fresh_none row (r ∷ rows) h = ground (arith, fresh_none row rows)

-- A fresh row has no token.
module _ (row : OutboundMessage) (rows : List OutboundMessage) where
  Spent-queue :
      (n : ℕ) (id : String)
      → find outbound_key row.id rows ≡ none
      → Spent n (find outbound_key id rows)
      → Spent n (find outbound_key id (row ∷ rows))
  unfolding find
  Spent-queue n id fresh (inl zero) = inl zero
  Spent-queue n id fresh (inr (one, left)) = elim (str_eq-cases row.id id) [
    | inl same ↦ absurd (rw fresh at (rw (← same) at left))
    | inr other ↦ inr (one, rw other left)
  ]

queued-IsSound :
    (s : System) (callees : QueueEnv) (input : QueueSendInput) (generation : Text) (frozen : Frozen)
    → IsSound s
    → IsSound (record s { world = (commit_snapshot callees input generation frozen s.world).1 })
queued-IsSound s callees input generation frozen h =
    elim (commit_snapshot_cases callees input generation frozen s.world) [
      | inr (e, failed) ↦ rw failed h
      | inl c ↦
          let row = snapshot_row callees input generation frozen in
          rw (c.result) (record {
            once = λ id.
                Spent-queue row s.world.outbound (tokens id s) id
                  (fresh_none row s.world.outbound c.fresh) (h.once id);
            logged = h.logged;
          })
    ]

-- The claim spends the token of its row, and touches no other row.
module _ (now : ℕ) (id : String) (w : World) (before : OutboundMessage)
    (found : find_outbound id w ≡ some before) (queued : is_queued before ≡ true) where
  Spent-claim_self :
      (n : ℕ) (j : String)
      → id ≡ j
      → Spent n (find_outbound j w)
      → Spent (1 + n) (find_outbound j (claim_outbound now id w).0)
  Spent-claim_self n j e (inl zero) =
      inr (omega arith, rw (← e) (claimed-LeftQueue now id w before found queued))
  Spent-claim_self n j e (inr (one, left)) =
      let stays : is_queued before ≡ false = rw found at (rw (← e) at left) in cc (queued, stays)

  Spent-claim_other :
      (n : ℕ) (j : String)
      → str_eq id j ≡ false
      → Spent n (find_outbound j w)
      → Spent n (find_outbound j (claim_outbound now id w).0)
  Spent-claim_other n j other h =
      rw (find_outbound-update_other is_queued (claim_row now) (λ r. refl) id j w.outbound other) h

claimed-IsSound :
    (s : System) (now : ℕ) (id : String) (row : OutboundMessage)
    → (claim_outbound now id s.world).1 ≡ some row
    → IsSound s
    → IsSound (record s { world = (claim_outbound now id s.world).0; claimed = row ∷ s.claimed })
claimed-IsSound s now id row returned h =
    let (before, found, queued, same) =
      returning-found is_queued (claim_row now) (find_outbound id s.world) row returned in
    let key : row.id ≡ id = rw same (find-key outbound_key id s.world.outbound before found) in
    record {
      once = λ j. elim (str_eq-cases id j) [
        | inl e ↦
            let mine : hit outbound_key j row ≡ 1 = rw (key ∙ e) (rw (eq_refl j) refl) in
            Spent-fewer _ (1 + tokens j s) _ (omega (arith, mine))
              (Spent-claim_self now id s.world before found queued _ j e (h.once j))
        | inr other ↦
            let theirs : hit outbound_key j row ≡ 0 = rw key (rw other refl) in
            Spent-fewer _ (tokens j s) _ (omega (arith, theirs))
              (Spent-claim_other now id s.world before found queued _ j other (h.once j))
      ];
      logged = h.logged;
    }

-- Handing over moves the token of a claimed row to the log.
submitted-IsSound :
    (s : System) (before after : List OutboundMessage) (row : OutboundMessage) (bytes : Bytes)
    (request : SmtpSubmitRequest)
    → s.claimed ≡ before ++ row ∷ after
    → IsSound s
    → IsSound (record {
      world = handed_over s.world request;
      claimed = before ++ after;
      unrecorded = (row, bytes) ∷ s.unrecorded;
      log = s.log ++ (row.id, request) ∷ [];
    })
submitted-IsSound s before after row bytes request e h = record {
  once = λ id.
      let was : tally outbound_key id s.claimed
          ≡ hit outbound_key id row + tally outbound_key id (before ++ after) =
        rw e (tally-between outbound_key id before after row) in
      Spent-fewer _ (tokens id s) _
        (omega (arith, was, tally-append log_key id s.log ((row.id, request) ∷ []))) (h.once id);
  logged = rw (h.logged) (sym (map-append request_in s.log ((row.id, request) ∷ [])));
}

-- A claim that is given up takes its token along.
dropped :
    (s : System) (before after : List OutboundMessage) (row : OutboundMessage) (id : String)
    → s.claimed ≡ before ++ row ∷ after
    → tally outbound_key id (before ++ after) + submissions id s ≤ tokens id s
dropped s before after row id e =
    let was : tally outbound_key id s.claimed
        ≡ hit outbound_key id row + tally outbound_key id (before ++ after) =
      rw e (tally-between outbound_key id before after row) in
    omega (arith, was)

-- Every step keeps the invariant.
Step-IsSound : (env : Env) (s s' : System) → Step env s s' → IsSound s → IsSound s'
Step-IsSound env s s' (queue callees input generation frozen e) h =
    rw e (queued-IsSound s callees input generation frozen h)
Step-IsSound env s s' (claim id row returned e) h =
    rw e (claimed-IsSound s env.now id row returned h)
Step-IsSound env s s' (submit before after row bytes credentials picked _ _ e) h =
    rw e (submitted-IsSound s before after row bytes (request_of row credentials bytes) picked h)
Step-IsSound env s s' (fail before after row outcome picked e) h = rw e (
    moving s _ (record_failure-Follows row outcome s.world)
      ((record_failure-Quiet row outcome s.world).submitted)
      (λ id. dropped s before after row id picked) refl h)
Step-IsSound env s s' (report before after row bytes answer picked e) h = rw e (
    moving s _ (record_report-Follows env row bytes s.world answer)
      ((record_report-Quiet env row bytes s.world answer).submitted) (λ id. omega arith) refl h)
Step-IsSound env s s' (lose_claim before after row picked e) h = rw e (
    moving s _ (Follows-refl s.world.outbound) refl (λ id. dropped s before after row id picked)
      refl h)
Step-IsSound env s s' (lose_report before after entry picked e) h =
    rw e (moving s _ (Follows-refl s.world.outbound) refl (λ id. omega arith) refl h)
Step-IsSound env s s' (recover now e) h =
    let f = recover_abandoned_attempts-Follows now s.world in
    rw e (moving s _ (f.0) (f.1) (λ id. omega arith) refl h)
Step-IsSound env s s' (reconcile open_sent_copy id e) h =
    let f = reconcile_unknown_outcome-Follows env open_sent_copy id s.world in
    rw e (moving s _ (f.0) (f.1) (λ id. omega arith) refl h)
Step-IsSound env s s' (append open_sent_copy id e) h =
    let f = execute_sent_copy_append-Keeps env open_sent_copy id s.world in
    rw e (moving s _ (Keeps-Follows _ _ (f.0)) (f.1) (λ id. omega arith) refl h)

IsInitial-IsSound : (s : System) → IsInitial s → IsSound s
IsInitial-IsSound s (claimed, unrecorded, log, sent) = record {
  once = λ id. inl (rw claimed (rw log refl));
  logged = rw sent (rw log refl);
}

Steps-IsSound : (s s' : System) → Steps s s' → IsSound s → IsSound s'
Steps-IsSound s s' done h = h
Steps-IsSound s s' (more env steps step) h = Step-IsSound env _ s' step (Steps-IsSound s _ steps h)

-- From a system without workers, however the steps of any number of workers interleave, and wherever
-- processes stop, a row is handed to SMTP at most once. The requests on the network are exactly those
-- of the log that this counts.
pub submissions-at_most_once :
    (s s' : System) (id : String)
    → IsInitial s
    → Steps s s'
    → (submissions id s' ≤ 1) × (s'.world.submitted ≡ map request_in s'.log)
submissions-at_most_once s s' id start steps =
    let h = Steps-IsSound s s' steps (IsInitial-IsSound s start) in
    (
      elim (h.once id) [ inl zero ↦ omega (arith, zero) | inr (one, left) ↦ omega (arith, one) ],
      h.logged,
    )
