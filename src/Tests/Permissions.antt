-- ===== src/Tests/Permissions.antt =====
-- The cache of capabilities at a concrete cluster.
use guild_net.Prelude.{
  true, ◌||◌, not, none, List, [], ◌∷◌, ◌≡◌, refl, Text, codes, text_eq_inst, any, keys, ◌==◌,
}
use guild_net.Json.{Json, null, str, obj, member, no_member, arr, item, none_left}
use guild_net.DbManager.{ok, fail}
use guild_net.Permission.{Selectors, Cache, allow}
use guild_net.Permission.Decisions.{grants, is_object, allow-allow}

-- a selector is the list of its keys, and takes workspaces that have the first of them
abbrev by_key : Selectors (List Text)
by_key = record {
  everything = [];
  from_set = λ m. keys m;
  matches = λ s labels. elim s [ [] ↦ true | k ∷ ks ↦ any (λ p. p == k) (keys labels) ];
}

abbrev objects : List (Text × Json)
objects =
    (
      codes "ops",
      obj (member (codes "actions") (arr (item (str (codes "launch")) none_left)) no_member),
    )
    ∷ (codes "broken", null)
    ∷ []

abbrev never_synced : Cache (List Text)
never_synced = record { caps = []; last_sync = none; sync_every = 30 }

allow-allow_example :
    let c' = (allow by_key 100 (ok objects) (codes "launch") [] never_synced).0 in
    let decision = (allow by_key 100 (ok objects) (codes "launch") [] never_synced).1 in
    (decision ≡ (
      not (any (is_object by_key (codes "launch") []) objects)
      || any (grants by_key (codes "launch") []) objects))
    × ((allow by_key 120 (fail (codes "timeout")) (codes "launch") [] c').1 ≡ decision)
allow-allow_example =
    allow-allow by_key (codes "launch") [] 100 120 objects (fail (codes "timeout")) never_synced
      refl refl
