-- ===== src/Permission.antt =====
-- internal/permission/permission.go: the cache of capabilities and its decisions. The selectors of the
-- Kubernetes library are the interface `Selectors`; `capabilities` is the answer of a List call, with
-- the name and the spec of each object, null where it has none.
pub mod Decisions
use guild_net.Prelude.{
  ℕ, ◌-◌, Bool, true, false, Option, none, some, List, [], ◌∷◌, Text, codes, text_eq_inst, ◌==◌,
  if◌then◌else◌, ltb, any, Assoc, insert,
}
use guild_net.Json.{Json, str, obj, arr, Items, none_left, item, Row, to_row, to_list}
use guild_net.DbManager.{Result, ok, fail}
use guild_net.Settings.Values.{index}

-- `labels.Everything`, `labels.SelectorFromSet` and `Selector.Matches`
pub record Selectors (Sel : Type 0) : Type 0 where
  pub everything : Sel
  pub from_set : Assoc Text Text → Sel
  pub matches : Sel → Assoc Text Text → Bool

pub record CapabilityEntry (Sel : Type 0) : Type 0 where
  pub name : Text
  pub actions : List Text
  pub selector : Sel

-- `last_sync` is none for the zero time
pub record Cache (Sel : Type 0) : Type 0 where
  pub caps : List (CapabilityEntry Sel)
  pub last_sync : Option ℕ
  pub sync_every : ℕ

-- the texts of an array; another value has none
abbrev pub texts_of : List Json → List Text
texts_of [] = []
texts_of (str t ∷ vs) = t ∷ texts_of vs
texts_of (v ∷ vs) = texts_of vs

abbrev pub actions_of : Json → List Text
actions_of (arr vs) = texts_of (to_list vs)
actions_of v = []

-- the labels of matchLabels that are texts
abbrev pub label_set : Row → Assoc Text Text
label_set [] = []
label_set ((k, str v) ∷ ml) = insert k v (label_set ml)
label_set ((k, v) ∷ ml) = label_set ml

abbrev pub is_stale : ℕ → Option ℕ → ℕ → Bool
is_stale now none every = true
is_stale now (some last) every = if ltb (now - last) every then false else true

module _ {Sel : Type 0} (sel : Selectors Sel) where
  abbrev pub labels_selector : Json → Sel
  labels_selector (obj ml) = sel.from_set (label_set (to_row ml))
  labels_selector v = sel.everything

  abbrev pub selector_of : Json → Sel
  selector_of (obj sm) = labels_selector (index (to_row sm) (codes "matchLabels"))
  selector_of v = sel.everything

  -- an object whose spec is not a map is left out
  abbrev pub add_capability : Text → Json → List (CapabilityEntry Sel) → List (CapabilityEntry Sel)
  add_capability name (obj spec) entries =
      record {
        name = name;
        actions = actions_of (index (to_row spec) (codes "actions"));
        selector = selector_of (index (to_row spec) (codes "selector"));
      }
      ∷ entries
  add_capability name v entries = entries

  unfoldable pub entries_of : List (Text × Json) → List (CapabilityEntry Sel)
  entries_of [] = []
  entries_of ((name, spec) ∷ items) = add_capability name spec (entries_of items)

  -- an error leaves the cache as it is
  abbrev pub after_list : ℕ → Cache Sel → Result (List (Text × Json)) → Cache Sel
  after_list now c (fail e) = c
  after_list now c (ok items) = record c { caps = entries_of items; last_sync = some now }

  unfoldable pub sync : ℕ → Result (List (Text × Json)) → Cache Sel → Cache Sel
  sync now capabilities c =
      if is_stale now c.last_sync c.sync_every then after_list now c capabilities else c

  abbrev pub permits : Text → Assoc Text Text → CapabilityEntry Sel → Bool
  permits action labels cap =
      if any (λ a. a == action) cap.actions then sel.matches cap.selector labels else false

  abbrev pub is_allowed : Text → Assoc Text Text → List (CapabilityEntry Sel) → Bool
  is_allowed action labels [] = true
  is_allowed action labels (cap ∷ caps) = any (permits action labels) (cap ∷ caps)

  -- `Allow`: the cache after it, and the decision
  unfoldable pub allow :
      ℕ → Result (List (Text × Json)) → Text → Assoc Text Text → Cache Sel → Cache Sel × Bool
  allow now capabilities action labels c =
      let c' = sync now capabilities c in (c', is_allowed action labels c'.caps)
