-- ===== src/Json.antt =====
-- JSON values as Go's `any` holds them after `json.Unmarshal`. A number is a float64, kept as its
-- IEEE 754 bit pattern, since the code computes nothing with it.
use guild_net.Prelude.{ℕ, Bool, List, [], ◌∷◌, Text, Assoc}

mutual
  pub data Json : Type 0 where
    null : Json
    bool : Bool → Json
    num : ℕ → Json
    str : Text → Json
    arr : Items → Json
    obj : Members → Json

  pub data Items : Type 0 where
    none_left : Items
    item : Json → Items → Items

  pub data Members : Type 0 where
    no_member : Members
    member : Text → Json → Members → Members

-- `map[string]any`
abbrev pub Row : Type 0
Row = Assoc Text Json

-- An object as the map that Go decodes it to, and back.
abbrev pub to_row : Members → Row
to_row no_member = []
to_row (member k v ms) = (k, v) ∷ to_row ms

abbrev pub to_members : Row → Members
to_members [] = no_member
to_members ((k, v) ∷ r) = member k v (to_members r)

abbrev pub to_list : Items → List Json
to_list none_left = []
to_list (item v vs) = v ∷ to_list vs
