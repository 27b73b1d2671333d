-- ===== src/Actions/Rows.antt =====
-- How the rows of `action_items` and `actions` may change (packages/actions/src/service.ts): the
-- transitions of one row, and the relation between two states that the operations keep.
use personal_mail_hub.Base.{
  Bool, true, false, ◌≡◌, refl, ◌∙◌, List, [], ◌∷◌, ◌++◌, any, select, All, arith, Bool-cases, inl,
  inr, if◌then◌else◌,
}
use personal_mail_hub.Database.{ActionItemStatus}
use personal_mail_hub.Actions.{Item}
use personal_mail_hub.Actions.State.{update_where, is_item_status, is_pending_item}
use personal_mail_hub.Actions.Disposition.{Disposition, with_receipt, is_interrupted, claimed_item}

-- Two lists of rows, related row by row.
module _ {A : Type 0} (R : A → A → Type 0) where
  abbrev pub Pairs : List A → List A → Type 0
  Pairs [] [] = Unit
  Pairs [] (y ∷ ys) = ⊥
  Pairs (x ∷ xs) [] = ⊥
  Pairs (x ∷ xs) (y ∷ ys) = R x y × Pairs xs ys

  module _ (R-refl : (x : A) → R x x) where
    pub Pairs-refl : (xs : List A) → Pairs xs xs
    Pairs-refl [] = tt
    Pairs-refl (x ∷ xs) = (R-refl x, Pairs-refl xs)

    pub update_where-Pairs :
        (test : A → Bool) (change : A → A)
        → ((x : A) → test x ≡ true → R x (change x))
        → (xs : List A) → Pairs xs (update_where test change xs)
    unfolding update_where
    update_where-Pairs test change moves [] = tt
    update_where-Pairs test change moves (x ∷ xs) = (
      elim (Bool-cases (test x)) [ inl h ↦ rw h (moves x h) | inr h ↦ rw h (R-refl x) ],
      update_where-Pairs test change moves xs,
    )

  pub Pairs-trans :
      ((x y z : A) → R x y → R y z → R x z)
      → (xs ys zs : List A) → Pairs xs ys
      → Pairs ys zs
      → Pairs xs zs
  Pairs-trans t [] [] zs h k = k
  Pairs-trans t [] (y ∷ ys) zs h k = absurd h
  Pairs-trans t (x ∷ xs) [] zs h k = absurd h
  Pairs-trans t (x ∷ xs) (y ∷ ys) [] h k = absurd k
  Pairs-trans t (x ∷ xs) (y ∷ ys) (z ∷ zs) h k = (t x y z h.0 k.0, Pairs-trans t xs ys zs h.1 k.1)

  pub Pairs-All :
      (P Q : A → Type 0)
      → ((x y : A) → R x y → P x → Q y)
      → (xs ys : List A) → Pairs xs ys
      → All P xs
      → All Q ys
  Pairs-All P Q f [] [] h a = tt
  Pairs-All P Q f [] (y ∷ ys) h a = absurd h
  Pairs-All P Q f (x ∷ xs) [] h a = absurd h
  Pairs-All P Q f (x ∷ xs) (y ∷ ys) h a = (f x y h.0 a.0, Pairs-All P Q f xs ys h.1 a.1)

pub All-map :
    {A : Type 0} (P Q : A → Type 0) → ((x : A) → P x → Q x) → (xs : List A) → All P xs → All Q xs
All-map P Q f [] h = tt
All-map P Q f (x ∷ xs) h = (f x h.0, All-map P Q f xs h.1)

pub All-always : {A : Type 0} (P : A → Type 0) → ((x : A) → P x) → (xs : List A) → All P xs
All-always P h [] = tt
All-always P h (x ∷ xs) = (h x, All-always P h xs)

pub All-append :
    {A : Type 0} (P : A → Type 0) (xs ys : List A) → All P xs → All P ys → All P (xs ++ ys)
All-append P [] ys h k = k
All-append P (x ∷ xs) ys h k = (h.0, All-append P xs ys h.1 k)

pub All-both :
    {A : Type 0} (P Q R : A → Type 0)
    → ((x : A) → P x → Q x → R x)
    → (xs : List A) → All P xs
    → All Q xs
    → All R xs
All-both P Q R f [] h k = tt
All-both P Q R f (x ∷ xs) h k = (f x h.0 k.0, All-both P Q R f xs h.1 k.1)

pub All-select :
    {A : Type 0} (P : A → Type 0) (p : A → Bool) (xs : List A) → All P xs → All P (select p xs)
All-select P p [] h = tt
All-select P p (x ∷ xs) h = elim (Bool-cases (p x)) [
  | inl hit ↦ rw hit (h.0, All-select P p xs h.1)
  | inr miss ↦ rw miss (All-select P p xs h.1)
]

module _ {A : Type 0} (P Q : A → Type 0) (test : A → Bool) (change : A → A)
    (step : (r : A) → P r → Q (if test r then change r else r)) where
  pub All-update : (rows : List A) → All P rows → All Q (update_where test change rows)
  unfolding update_where
  All-update [] h = tt
  All-update (r ∷ rows) h = (step r h.0, All-update rows h.1)

-- A selection covers every row that it selects.
module _ {A : Type 0} (q : A → Bool) (t : A → A → Bool) (C : A → Type 0)
    (self : (x : A) → q x ≡ true → C x → t x x ≡ true) (rows : List A) where
  covers_rest :
      (rest : List A)
      → ((p : A → Bool) → any p (select q rest) ≡ true → any p (select q rows) ≡ true)
      → All (λ r. q r ≡ true → C r → any (t r) (select q rows) ≡ true) rest
  covers_rest [] into = tt
  covers_rest (r ∷ rest) into = (
    λ k e. into (t r) (rw k (ground (arith, self r k e))),
    covers_rest rest (λ p h. into p (elim (Bool-cases (q r)) [
      | inl own ↦ rw own (ground (arith, h))
      | inr other ↦ rw other h
    ])),
  )

  pub select-covers : All (λ r. q r ≡ true → C r → any (t r) (select q rows) ≡ true) rows
  select-covers = covers_rest rows (λ p h. h)

-- One write of an item: its claim, its receipt, or the receipt that replaces an interrupted hold.
pub data Change (i j : Item) : Type 0 where
  claim : i.status ≡ ActionItemStatus.queued → j ≡ claimed_item i → Change i j
  dispose :
      (write : Disposition)
      → is_pending_item i.status ≡ true
      → is_pending_item write.status ≡ false
      → j ≡ with_receipt write i
      → Change i j
  supersede :
      (write : Disposition)
      → is_interrupted i ≡ true
      → is_pending_item write.status ≡ false
      → j ≡ with_receipt write i
      → Change i j

pub data Progress (i : Item) : Item → Type 0 where
  here : Progress i i
  next : {j k : Item} → Progress i j → Change j k → Progress i k

pub Progress-trans : (i j k : Item) → Progress i j → Progress j k → Progress i k
Progress-trans i j k p here = p
Progress-trans i j k p (next {j = l} q c) = next (Progress-trans i j l p q) c

-- What a write never does to an item.
pub record Kept (i j : Item) : Type 0 where
  pub action : j.action_id ≡ i.action_id
  pub key : j.item_key ≡ i.item_key
  pub target : j.target ≡ i.target
  -- it takes no item back to the queue
  pub queue : is_item_status ActionItemStatus.queued j.status ≡ true → j ≡ i
  -- and no finished one back to work
  pub finished : is_pending_item i.status ≡ false → is_pending_item j.status ≡ false

pub Kept-refl : (i : Item) → Kept i i
Kept-refl i = record {
  action = refl;
  key = refl;
  target = refl;
  queue = λ h. refl;
  finished = λ h. h;
}

pub Kept-trans : (i j k : Item) → Kept i j → Kept j k → Kept i k
Kept-trans i j k p q = record {
  action = q.action ∙ p.action;
  key = q.key ∙ p.key;
  target = q.target ∙ p.target;
  queue = λ h. q.queue h ∙ p.queue (rw (← q.queue h) h);
  finished = λ h. q.finished (p.finished h);
}

is_queued-not :
    (s : ActionItemStatus)
    → is_pending_item s ≡ false
    → is_item_status ActionItemStatus.queued s ≡ false
is_queued-not s h = ground (arith, h)

receipt-Kept :
    (write : Disposition) (i j : Item)
    → is_pending_item write.status ≡ false
    → j ≡ with_receipt write i
    → Kept i j
receipt-Kept write i j h e = rw e (record {
  action = refl;
  key = refl;
  target = refl;
  queue = λ q. cc (q, is_queued-not write.status h);
  finished = λ f. h;
})

pub Change-Kept : (i j : Item) → Change i j → Kept i j
Change-Kept i j (claim q e) = rw e (record {
  action = refl;
  key = refl;
  target = refl;
  queue = λ h. cc h;
  finished = λ f. cc (rw q at f);
})
Change-Kept i j (dispose write p h e) = receipt-Kept write i j h e
Change-Kept i j (supersede write p h e) = receipt-Kept write i j h e

pub Progress-Kept : (i j : Item) → Progress i j → Kept i j
Progress-Kept i j here = Kept-refl i
Progress-Kept i j (next {j = k} p c) = Kept-trans i k j (Progress-Kept i k p) (Change-Kept k j c)
