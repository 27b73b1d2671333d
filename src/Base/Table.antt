-- ===== src/Base/Table.antt =====
-- Tables as lists of rows under a text key: `select … where key = … limit 1`, and
-- `update … set … where key = … and guard`.
use Prim.Native.String.{String}
use mathlib.Core.Path.{◌≡◌, refl}
use mathlib.Core.Logic.{◌⊎◌, inl, inr}
use mathlib.Core.Bool.{Bool, true, false, ◌&&◌}
use mathlib.Core.Option.{Option, none, some}
use mathlib.Core.List.{List, [], ◌∷◌, map}
use native.Mathlib.Omega.{arith}
use text.Mathlib.Text.{◌==◌ as str_eq}
use text.Mathlib.TextEquality.{eq_iff}
use personal_mail_hub.Base.Tests.{if◌then◌else◌, Bool-cases}

-- The two texts are equal or they are told apart.
pub str_eq-cases : (s t : String) → (s ≡ t) ⊎ (str_eq s t ≡ false)
str_eq-cases s t = elim (Bool-cases (str_eq s t)) [
  | inl same ↦ inl ((eq_iff s t).0 same)
  | inr other ↦ inr other
]

module _ {A : Type 0} (key : A → String) where
  unfoldable pub find : String → List A → Option A
  find id [] = none
  find id (row ∷ rows) = if str_eq (key row) id then some row else find id rows

  pub find-key : (id : String) (rows : List A) (row : A) → find id rows ≡ some row → key row ≡ id
  unfolding find
  find-key id [] row e = cc
  find-key id (r ∷ rows) row e = ground (arith, eq_iff (key r) id, find-key id rows row)

-- One row under an update.
abbrev pub step_row : {A : Type 0} → Bool → (A → A) → A → A
step_row hit change row = if hit then change row else row

-- What an update leaves of the row that was found, and what it returns.
abbrev pub changed : {A : Type 0} → (A → Bool) → (A → A) → Option A → Option A
changed guard change none = none
changed guard change (some row) = some (step_row (guard row) change row)

abbrev pub returning : {A : Type 0} → (A → Bool) → (A → A) → Option A → Option A
returning guard change none = none
returning guard change (some row) = if guard row then some (change row) else none

-- An update that returns a row found one that the guard admits.
pub returning-found :
    {A : Type 0} (guard : A → Bool) (change : A → A) (o : Option A) (row : A)
    → returning guard change o ≡ some row
    → (before : A) × (o ≡ some before) × (guard before ≡ true) × (row ≡ change before)
returning-found guard change none row e = cc e
returning-found guard change (some before) row e = elim (Bool-cases (guard before)) [
  | inl held ↦ (before, refl, held, cc (rw held at e))
  | inr other ↦ cc (rw other at e)
]

module _ {A : Type 0} (key : A → String) (guard : A → Bool) (change : A → A) where
  unfoldable pub update_rows : String → List A → List A
  update_rows id rows = map (λ row. step_row (str_eq (key row) id && guard row) change row) rows

  module _ (keeps : (r : A) → key (change r) ≡ key r) where
    step_row-key : (b : Bool) (r : A) → key (step_row b change r) ≡ key r
    step_row-key true r = keeps r
    step_row-key false r = refl

    pub find-update_rows_self :
        (id : String) (rows : List A)
        → find key id (update_rows id rows) ≡ changed guard change (find key id rows)
    unfolding find update_rows
    find-update_rows_self id [] = refl
    find-update_rows_self id (r ∷ rows) = elim (Bool-cases (str_eq (key r) id)) [
      | inl same ↦ rw same (rw (step_row-key (guard r) r, same) refl)
      | inr other ↦ rw other (rw other (find-update_rows_self id rows))
    ]

    pub find-update_rows_other :
        (id j : String) (rows : List A)
        → str_eq id j ≡ false
        → find key j (update_rows id rows) ≡ find key j rows
    unfolding find update_rows
    find-update_rows_other id j [] h = refl
    find-update_rows_other id j (r ∷ rows) h = elim (str_eq-cases (key r) id) [
      | inl same ↦
          rw (step_row-key (str_eq (key r) id && guard r) r)
            (rw (same, h) (find-update_rows_other id j rows h))
      | inr other ↦ rw other (elim (Bool-cases (str_eq (key r) j)) [
        | inl hit ↦ rw hit refl
        | inr miss ↦ rw miss (find-update_rows_other id j rows h)
      ])
    ]
