-- ===== src/Actions/Run.antt =====
-- `execute` and `reconcileIncomplete` of service.ts as runs of the items: the groups, the hold of
-- interrupted items, and the action's own status.
use personal_mail_hub.Base.{
  ℕ, inl, inr, none, some, List, [], ◌∷◌, map, select, All, ◌==◌, Bool-cases, Option-cases, Text,
  text_eq,
}
use personal_mail_hub.Actions.{Action, Item, ActionMailboxFlags, ActionFolder}
use personal_mail_hub.Actions.State.{Environment, Desk, awaited}
use personal_mail_hub.Actions.Check.{Destination}
use personal_mail_hub.Actions.Execute.{
  execute_item, execute_items, load_folder, execute_selected, execute_folder_group, execute_groups,
}
use personal_mail_hub.Actions.Rows.{All-select}
use personal_mail_hub.Actions.Sound.{Sound, Sound-refl, Sound-trans}
use personal_mail_hub.Actions.Writes.{conflict_items-Sound}
use personal_mail_hub.Actions.Claim.{IsStartable}
use personal_mail_hub.Actions.Items.{then_run-Sound, awaited-Sound, execute_item-Sound}

module _ {S : Type 0} (env : Environment S) (a : Action) (to : Destination) where
  execute_items-Sound :
      (folder : ActionFolder) (generation : ℕ) (remotes : List ActionMailboxFlags) (is : List Item)
      (d : Desk S)
      → All (IsStartable a) is
      → Sound d (execute_items env a folder generation to remotes is d).1
  unfolding execute_items
  execute_items-Sound folder generation remotes [] d h = Sound-refl d
  execute_items-Sound folder generation remotes (i ∷ is) d h =
      then_run-Sound d (awaited (env.revalidate d.outside) d) _
        (awaited-Sound (env.revalidate d.outside) d)
        (λ seen d1. elim (Bool-cases (seen == generation)) [
          | inl same ↦
              let d2 = (execute_item env a folder generation to remotes i d1).1 in
              let one = execute_item-Sound env a folder generation to remotes i d1 h.0 in
              elim (Option-cases (execute_item env a folder generation to remotes i d1).0) [
                | inl go ↦
                    rw (same, go)
                      (Sound-trans d1 d2 _ one
                        (execute_items-Sound folder generation remotes is d2 h.1))
                | inr (stop, halt) ↦ rw (same, halt) one
              ]
          | inr moved ↦
              rw moved (conflict_items-Sound a (i ∷ is) "generation_changed" (some seen) d1)
        ])

  execute_selected-Sound :
      (folder : ActionFolder) (generation : ℕ) (is : List Item) (d : Desk S)
      → All (IsStartable a) is
      → Sound d (execute_selected env a folder generation to is d).1
  unfolding execute_selected
  execute_selected-Sound folder generation is d h =
      then_run-Sound d (awaited (env.select_folder folder.name d.outside) d) _
        (awaited-Sound (env.select_folder folder.name d.outside) d)
        (λ seen d1. elim (Bool-cases (seen == generation)) [
          | inl same ↦ rw same (
              then_run-Sound d1
                (awaited (env.fetch_flags (map (λ i. i.target.uid) is) d1.outside) d1) _
                (awaited-Sound (env.fetch_flags (map (λ i. i.target.uid) is) d1.outside) d1)
                (λ remotes d2. execute_items-Sound folder generation remotes is d2 h))
          | inr moved ↦ rw moved (conflict_items-Sound a is "generation_changed" (some seen) d1)
        ])

  execute_folder_group-Sound :
      (folder_id : Text) (is : List Item) (d : Desk S)
      → All (IsStartable a) is
      → Sound d (execute_folder_group env a folder_id to is d).1
  unfolding execute_folder_group
  execute_folder_group-Sound folder_id is d h =
      elim (Option-cases (load_folder a.account_id folder_id d)) [
        | inl gone ↦
            rw (gone, execute_folder_group) (conflict_items-Sound a is "folder_removed" none d)
        | inr (folder, found) ↦ elim (Option-cases folder.uidvalidity) [
          | inl new ↦
              rw (found, new, execute_folder_group)
                (conflict_items-Sound a is "folder_uninitialized" none d)
          | inr (generation, known) ↦
              rw (found, known, execute_folder_group)
                (execute_selected-Sound folder generation is d h)
        ]
      ]

  pub execute_groups-Sound :
      (pending : List Item) (fs : List Text) (d : Desk S)
      → All (IsStartable a) pending
      → Sound d (execute_groups env a to pending fs d).1
  unfolding execute_groups
  execute_groups-Sound pending [] d h = Sound-refl d
  execute_groups-Sound pending (f ∷ fs) d h =
      let group = select (λ i. text_eq i.target.folder_id f) pending in
      then_run-Sound d (execute_folder_group env a f to group d) _
        (execute_folder_group-Sound f group d (All-select (IsStartable a) _ pending h))
        (λ halt d1. elim (Option-cases halt) [
          | inl go ↦ rw go (execute_groups-Sound pending fs d1 h)
          | inr (h1, stop) ↦ rw stop (Sound-refl d1)
        ])
