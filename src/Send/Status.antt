-- ===== src/Send/Status.antt =====
-- The life of an outbound row as a relation: which statuses may follow which, and tables whose rows
-- only move along it.
use personal_mail_hub.Base.{
  Bool, true, ◌≡◌, refl, ◌∙◌, inl, inr, Option, none, some, List, String, Bool-cases, str_eq-cases,
  find, update_rows, changed,
}
use personal_mail_hub.Database.{OutboundStatus}
use personal_mail_hub.Send.{OutboundMessage}
use personal_mail_hub.Send.World.{
  outbound_key, find_outbound-update_self, find_outbound-update_other,
}

-- One transition.
pub data Step : OutboundStatus → OutboundStatus → Type 0 where
  claim : Step OutboundStatus.queued OutboundStatus.sending
  accept : Step OutboundStatus.sending OutboundStatus.sent
  refuse : Step OutboundStatus.sending OutboundStatus.failed
  lose : Step OutboundStatus.sending OutboundStatus.outcome_unknown
  resolve : Step OutboundStatus.outcome_unknown OutboundStatus.sent

pub data Reaches : OutboundStatus → OutboundStatus → Type 0 where
  here : {s : OutboundStatus} → Reaches s s
  next : {s t u : OutboundStatus} → Reaches s t → Step t u → Reaches s u

pub Reaches-trans : {s t u : OutboundStatus} → Reaches s t → Reaches t u → Reaches s u
Reaches-trans p here = p
Reaches-trans p (next q e) = next (Reaches-trans p q) e

-- A relation on rows, lifted to what a key finds: a row that was there stays, none appears.
module _ (R : OutboundMessage → OutboundMessage → Type 0) where
  abbrev pub Row : Option OutboundMessage → Option OutboundMessage → Type 0
  Row none o = o ≡ none
  Row (some r) none = ⊥
  Row (some r) (some r') = R r r'

  abbrev pub Table : List OutboundMessage → List OutboundMessage → Type 0
  Table rows rows' = (id : String) → Row (find outbound_key id rows) (find outbound_key id rows')

  module _ (R-refl : (r : OutboundMessage) → R r r) where
    Row-refl : (o : Option OutboundMessage) → Row o o
    Row-refl none = refl
    Row-refl (some r) = R-refl r

    -- A guarded update keeps the relation, if the guard admits the change.
    module _ (guard : OutboundMessage → Bool) (change : OutboundMessage → OutboundMessage)
        (keeps : (r : OutboundMessage) → (change r).id ≡ r.id)
        (moves : (r : OutboundMessage) → guard r ≡ true → R r (change r)) where
      changed-Row : (o : Option OutboundMessage) → Row o (changed guard change o)
      changed-Row none = refl
      changed-Row (some r) = elim (Bool-cases (guard r)) [
        | inl g ↦ rw g (moves r g)
        | inr g ↦ rw g (R-refl r)
      ]

      update-Table :
          (id : String) (rows : List OutboundMessage)
          → Table rows (update_rows outbound_key guard change id rows)
      update-Table id rows j = elim (str_eq-cases id j) [
        | inl same ↦ rw (← same) (
            rw (find_outbound-update_self guard change keeps id rows)
              (changed-Row (find outbound_key id rows)))
        | inr other ↦
            rw (find_outbound-update_other guard change keeps id j rows other) (Row-refl _)
      ]

  module _ (R-trans : (a b c : OutboundMessage) → R a b → R b c → R a c) where
    Row-trans : (a b c : Option OutboundMessage) → Row a b → Row b c → Row a c
    Row-trans none none c h k = k
    Row-trans none (some r) c h k = cc
    Row-trans (some r) none c h k = absurd h
    Row-trans (some r) (some s) none h k = absurd k
    Row-trans (some r) (some s) (some t) h k = R-trans r s t h k

-- A row moves: its snapshot stays and its status goes along the transitions.
abbrev pub Moved : OutboundMessage → OutboundMessage → Type 0
Moved r r' = (r'.snapshot ≡ r.snapshot) × Reaches r.status r'.status

abbrev pub FollowsRow : Option OutboundMessage → Option OutboundMessage → Type 0
FollowsRow = Row Moved

abbrev pub Follows : List OutboundMessage → List OutboundMessage → Type 0
Follows = Table Moved

pub Follows-refl : (rows : List OutboundMessage) → Follows rows rows
Follows-refl rows id = Row-refl Moved (λ r. (refl, here)) _

pub Follows-trans : (a b c : List OutboundMessage) → Follows a b → Follows b c → Follows a c
Follows-trans a b c h k id =
    Row-trans Moved (λ r s t p q. (q.0 ∙ p.0, Reaches-trans p.1 q.1)) _ _ _ (h id) (k id)

pub Follows-eq : {a b : List OutboundMessage} → b ≡ a → Follows a b
Follows-eq {a} e = rw e (Follows-refl a)

pub update-Follows :
    (guard : OutboundMessage → Bool) (change : OutboundMessage → OutboundMessage)
    → ((r : OutboundMessage) → (change r).snapshot ≡ r.snapshot)
    → ((r : OutboundMessage) → guard r ≡ true → Reaches r.status (change r).status)
    → (id : String) (rows : List OutboundMessage)
    → Follows rows (update_rows outbound_key guard change id rows)
update-Follows guard change keeps moves =
    update-Table Moved (λ r. (refl, here)) guard change (λ r i. (keeps r i).id)
      (λ r g. (keeps r, moves r g))

-- A row is kept: its snapshot and its status stay.
abbrev pub Kept : OutboundMessage → OutboundMessage → Type 0
Kept r r' = (r'.snapshot ≡ r.snapshot) × (r'.status ≡ r.status)

abbrev pub Keeps : List OutboundMessage → List OutboundMessage → Type 0
Keeps = Table Kept

pub Keeps-refl : (rows : List OutboundMessage) → Keeps rows rows
Keeps-refl rows id = Row-refl Kept (λ r. (refl, refl)) _

pub Keeps-trans : (a b c : List OutboundMessage) → Keeps a b → Keeps b c → Keeps a c
Keeps-trans a b c h k id = Row-trans Kept (λ r s t p q. (q.0 ∙ p.0, q.1 ∙ p.1)) _ _ _ (h id) (k id)

pub Keeps-eq : {a b : List OutboundMessage} → b ≡ a → Keeps a b
Keeps-eq {a} e = rw e (Keeps-refl a)

pub update-Keeps :
    (guard : OutboundMessage → Bool) (change : OutboundMessage → OutboundMessage)
    → ((r : OutboundMessage) → Kept r (change r))
    → (id : String) (rows : List OutboundMessage)
    → Keeps rows (update_rows outbound_key guard change id rows)
update-Keeps guard change keeps =
    update-Table Kept (λ r. (refl, refl)) guard change (λ r i. ((keeps r).0 i).id) (λ r g. keeps r)

Kept-Moved : (a b : Option OutboundMessage) → Row Kept a b → FollowsRow a b
Kept-Moved none b h = h
Kept-Moved (some r) none h = h
Kept-Moved (some r) (some s) h = (h.0, rw (h.1) here)

pub Keeps-Follows : (a b : List OutboundMessage) → Keeps a b → Follows a b
Keeps-Follows a b k id = Kept-Moved _ _ (k id)
