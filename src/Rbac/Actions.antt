-- ===== src/Rbac/Actions.antt =====
-- `Allow` against a ranking of roles and actions.
use guild_net.Prelude.{ℕ, ◌||◌, Text, codes, text_eq_inst, ◌==◌, if◌then◌else◌, leb, ◌≡◌, arith}
use guild_net.Model.{Role, role_admin, role_maintainer, role_editor, role_viewer}
use guild_net.Rbac.{allow}

-- How much a role may do: a text that names no role may do nothing.
abbrev pub rank : Role → ℕ
rank role =
    if role == role_admin
    then 4
    else (if role == role_maintainer
        then 3
        else (if role == role_editor then 2 else (if role == role_viewer then 1 else 0)))

-- The least rank that an action asks for: an unknown action asks for an admin.
abbrev pub level : Text → ℕ
level action =
    if action == codes "db.create" || action == codes "db.delete"
    then 3
    else (if action == codes "table.create"
          || (action == codes "table.schema" || action == codes "table.delete")
        then 3
        else (if action == codes "row.read"
            then 1
            else (if action == codes "row.write" then 2 else 4)))

-- A role may do an action exactly if its rank reaches the level of the action: viewers read rows,
-- editors also write them, maintainers also change tables and databases, admins do everything.
pub allow-eq-leb :
    (role : Role) (action : Text) → allow role action ≡ leb (level action) (rank role)
unfolding allow
allow-eq-leb role action = ground arith
