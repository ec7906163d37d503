-- ===== src/Permission/Decisions.antt =====
-- The decisions of the cache against the capabilities that the cluster has.
use guild_net.Prelude.{
  ℕ, Bool, true, false, ◌&&◌, ◌||◌, not, some, List, [], ◌∷◌, ◌≡◌, refl, ap, ◌∙◌, Text, codes,
  text_eq_inst, ◌==◌, any, Assoc, arith,
}
use guild_net.Json.{Json, null, bool, num, str, obj, arr, to_row}
use guild_net.DbManager.{Result, ok}
use guild_net.Settings.Values.{index}
use guild_net.Permission.{
  Selectors, Cache, actions_of, selector_of, is_stale, entries_of, sync, permits, is_allowed, allow,
}

module _ {Sel : Type 0} (sel : Selectors Sel) (action : Text) (labels : Assoc Text Text) where
  -- what one object of the cluster grants: nothing, if its spec is not a map
  pub grants : Text × Json → Bool
  grants (name, obj spec) =
      any (λ a. a == action) (actions_of (index (to_row spec) (codes "actions")))
      && sel.matches (selector_of sel (index (to_row spec) (codes "selector"))) labels
  grants (name, v) = false

  abbrev pub is_object : Text × Json → Bool
  is_object (name, obj spec) = true
  is_object (name, v) = false

  permits-entries_of :
      (items : List (Text × Json))
      → any (permits sel action labels) (entries_of sel items) ≡ any grants items
  unfolding entries_of grants any
  permits-entries_of [] = refl
  permits-entries_of ((name, obj spec) ∷ items) = ground (arith, permits-entries_of items)
  permits-entries_of ((name, null) ∷ items) = permits-entries_of items
  permits-entries_of ((name, bool b) ∷ items) = permits-entries_of items
  permits-entries_of ((name, num n) ∷ items) = permits-entries_of items
  permits-entries_of ((name, str t) ∷ items) = permits-entries_of items
  permits-entries_of ((name, arr vs) ∷ items) = permits-entries_of items

  is_allowed-entries_of :
      (items : List (Text × Json))
      → is_allowed sel action labels (entries_of sel items)
        ≡ (not (any is_object items) || any (permits sel action labels) (entries_of sel items))
  unfolding entries_of any
  is_allowed-entries_of [] = refl
  is_allowed-entries_of ((name, obj spec) ∷ items) = refl
  is_allowed-entries_of ((name, null) ∷ items) = is_allowed-entries_of items
  is_allowed-entries_of ((name, bool b) ∷ items) = is_allowed-entries_of items
  is_allowed-entries_of ((name, num n) ∷ items) = is_allowed-entries_of items
  is_allowed-entries_of ((name, str t) ∷ items) = is_allowed-entries_of items
  is_allowed-entries_of ((name, arr vs) ∷ items) = is_allowed-entries_of items

  -- A decision on a stale cache whose List call succeeds, and every decision until that reading is
  -- stale, whatever the cluster has by then, allows an action exactly if one of the objects that were
  -- listed grants it for the labels, or none of them has a spec that is a map.
  pub allow-allow :
      (now later : ℕ) (items : List (Text × Json)) (after : Result (List (Text × Json)))
      (c : Cache Sel)
      → is_stale now c.last_sync c.sync_every ≡ true
      → is_stale later (some now) c.sync_every ≡ false
      → let (c', decision) = allow sel now (ok items) action labels c in
        (decision ≡ (not (any is_object items) || any grants items))
        × ((allow sel later after action labels c').1 ≡ decision)
  unfolding allow sync
  allow-allow now later items after c stale current = (
    rw stale (
        is_allowed-entries_of items
        ∙ ap (λ b. not (any is_object items) || b) (permits-entries_of items)),
    rw stale (rw current refl),
  )
