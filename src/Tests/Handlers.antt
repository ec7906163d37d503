-- ===== src/Tests/Handlers.antt =====
-- The database API at concrete requests.
use guild_net.Prelude.{
  true, false, some, List, [], ◌∷◌, ◌≡◌, ◌≢◌, refl, Text, codes, text_eq, lookup, insert, is_empty,
}
use guild_net.Prelude.Strings.{is_space, trim_left, trim_right, trim_space}
use guild_net.Model.{role_viewer}
use guild_net.Rbac.{
  new_rbac_store, allow, role_for, role_at, find_role, bindings_of, grant, grant_into,
  principal_from_request, db_scope,
}
use guild_net.Rbac.Actions.{rank}
use guild_net.Rbac.Masking.{is_restricted}
use guild_net.Http.{get, delete}
use guild_net.DbApi.{DbApi, Env, resolve_role, schema_of, tables_or_nil}
use guild_net.DbManager.{fail}
use guild_net.DbApi.Rows.{handle_rows}
use guild_net.DbApi.Tables.{handle_tables_at}
use guild_net.DbApi.Export.{export_loop}
use guild_net.DbApi.Cluster.{cluster_api}
use guild_net.DbApi.Cluster.Bindings.{cluster_principal-IsBlocked}
use guild_net.DbApi.Access.{IsBlocked, unbound_principal-IsBlocked}
use guild_net.DbApi.Views.{ListingShows, EndsMasked, list_rows_masked, export_masked}
use guild_net.Tests.Fixtures.{email, ann, memory, wire, shop, request}

abbrev nobody : DbApi (List (List (Text × guild_net.Json.Json)))
nobody = record {
  manager = some (ann ∷ []);
  org_id = codes "acme";
  rbac = new_rbac_store;
  ops = [];
}

-- a principal without bindings has no role anywhere
eve_has_no_role :
    (table : Text)
    → rank (resolve_role nobody (principal_from_request (codes "user:eve")) table (codes "shop"))
      ≡ 0
unfolding resolve_role principal_from_request trim_space is_space trim_left trim_right role_for
    role_at bindings_of new_rbac_store lookup find_role text_eq
eve_has_no_role [] = refl
eve_has_no_role (c ∷ table) = refl

unbound_principal-IsBlocked_example : IsBlocked memory wire nobody (ann ∷ []) (codes "shop") (
    handle_tables_at memory wire 9 nobody
      (ann ∷ [])
      (request get (codes "user:eve"))
      (codes "shop")
      (codes "users" ∷ codes "rows" ∷ []))
unbound_principal-IsBlocked_example =
    unbound_principal-IsBlocked memory wire nobody (ann ∷ []) (request get (codes "user:eve"))
      (codes "shop") 9 (codes "users" ∷ codes "rows" ∷ []) eve_has_no_role

vic_is_restricted :
    is_restricted
      (resolve_role shop (principal_from_request (codes "user:vic")) (codes "users") (codes "shop"))
    ≡ true
unfolding resolve_role principal_from_request trim_space is_space trim_left trim_right role_for
    role_at bindings_of new_rbac_store lookup insert find_role text_eq grant grant_into
vic_is_restricted = refl

list_rows_masked_example :
    ListingShows
      (codes "users")
      (memory.get_tables (ann ∷ []) (codes "acme") (codes "shop")).1
      (memory.query_rows
        (ann ∷ [])
        (codes "acme")
        (codes "shop")
        (codes "users")
        (codes "id")
        50
        []
        true)
      (handle_rows memory wire shop
        (ann ∷ [])
        (request get (codes "user:vic"))
        (codes "shop")
        (codes "users")
        []).1.body
unfolding schema_of text_eq
list_rows_masked_example =
    list_rows_masked memory wire shop (ann ∷ []) (request get (codes "user:vic")) (codes "shop")
      (codes "users") refl vic_is_restricted

users_schema :
    (s : List (List (Text × guild_net.Json.Json)))
    → schema_of
        (codes "users")
        (tables_or_nil (memory.get_tables s (codes "acme") (codes "shop")).1)
      ≡ email ∷ []
unfolding schema_of text_eq
users_schema s = refl

viewer_is_restricted : is_restricted role_viewer ≡ true
unfolding text_eq
viewer_is_restricted = refl

export_masked_example :
    EndsMasked memory (codes "acme") (codes "shop") (codes "users") role_viewer 3 (email ∷ []) (
      export_loop memory
        (codes "acme")
        (codes "shop")
        (codes "users")
        role_viewer
        3
        4
        (ann ∷ [])
        []
        [])
export_masked_example =
    export_masked memory (codes "acme") (codes "shop") (codes "users") role_viewer 3 (email ∷ [])
      users_schema viewer_is_restricted 4 (ann ∷ []) [] [] tt

vic_may_not_write :
    allow
      (resolve_role shop (principal_from_request (codes "user:vic")) (codes "users") (codes "shop"))
      (codes "row.write")
    ≡ false
unfolding resolve_role principal_from_request trim_space is_space trim_left trim_right role_for
    role_at bindings_of new_rbac_store lookup insert find_role text_eq grant grant_into allow
vic_may_not_write = refl

delete-ne-get : delete ≢ get
delete-ne-get h = cc

vic_may_not_drop :
    allow
      (resolve_role shop (principal_from_request (codes "user:vic")) [] (codes "shop"))
      (codes "db.delete")
    ≡ false
unfolding resolve_role principal_from_request trim_space is_space trim_left trim_right role_for
    role_at bindings_of new_rbac_store lookup insert find_role text_eq grant grant_into allow
vic_may_not_drop = refl

max_may_change_shop :
    allow
      (resolve_role shop (principal_from_request (codes "user:max")) [] (codes "shop"))
      (codes "table.schema")
    ≡ true
unfolding resolve_role principal_from_request trim_space is_space trim_left trim_right role_for
    role_at bindings_of new_rbac_store lookup insert find_role text_eq grant grant_into allow
max_may_change_shop = refl

abbrev env : Env (List (List (Text × guild_net.Json.Json)))
env = record { connect = fail []; addr = []; now = [] }

solid_name : is_empty (trim_space (codes "user:eve")) ≡ false
unfolding trim_space is_space trim_left trim_right
solid_name = refl

solid_scope : is_empty (trim_space (db_scope (codes "bank"))) ≡ false
unfolding trim_space is_space trim_left trim_right
solid_scope = refl

-- the maintainer of one database makes somebody an editor of another one
cluster_principal-IsBlocked_example :
    IsBlocked memory wire
      (cluster_api (record { manager = some []; ops = [] }) (codes "c1"))
      []
      (codes "shop")
      (handle_tables_at memory wire 9
        (cluster_api (record { manager = some []; ops = [] }) (codes "c1"))
        []
        (request get (codes "user:eve"))
        (codes "shop")
        (codes "users" ∷ codes "rows" ∷ []))
cluster_principal-IsBlocked_example =
    cluster_principal-IsBlocked memory wire 9 (record { manager = some []; ops = [] }) (codes "c1")
      [] (request get (codes "user:eve")) (codes "shop") (codes "users" ∷ codes "rows" ∷ [])
      solid_name
