-- ===== src/Tests/Bindings.antt =====
-- Bindings, actions and masking at concrete inputs.
use guild_net.Prelude.{
  Bool, true, false, Option, none, some, [], ◌∷◌, ◌≡◌, ◌≢◌, refl, Text, codes, text_eq, lookup,
  insert, delete, if◌then◌else◌, leb, arith, ◌&&◌, ◌==◌, text_eq_inst,
}
use guild_net.Json.{str}
use guild_net.Model.{role_editor}
use guild_net.Rbac.{grant, revoke, new_rbac_store, allow, mask_row, mask_columns, db_scope}
use guild_net.Rbac.Actions.{rank, level, allow-eq-leb}
use guild_net.Rbac.Invariant.{IsWellFormed, new_rbac_store-IsWellFormed, grant-revoke-IsWellFormed}
use guild_net.Tests.Fixtures.{email, ann, max_maintains}

allow-eq-leb_example :
    allow role_editor (codes "row.write") ≡ leb (level (codes "row.write")) (rank role_editor)
allow-eq-leb_example = allow-eq-leb role_editor (codes "row.write")

grant-revoke-IsWellFormed_example :
    IsWellFormed (grant max_maintains new_rbac_store)
    × IsWellFormed (revoke (db_scope (codes "shop")) (codes "user:max") new_rbac_store)
grant-revoke-IsWellFormed_example =
    grant-revoke-IsWellFormed max_maintains (db_scope (codes "shop")) (codes "user:max")
      new_rbac_store new_rbac_store-IsWellFormed

-- a run: the editor sees stars, the id stays
masked_run :
    mask_row role_editor (email ∷ []) ann
    ≡ (codes "id", str (codes "1")) ∷ (codes "email", str (codes "***")) ∷ []
unfolding mask_row mask_columns text_eq lookup insert guild_net.Prelude.Maps.has
masked_run = refl
