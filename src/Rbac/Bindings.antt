-- ===== src/Rbac/Bindings.antt =====
-- `Grant`, `Revoke` and `RoleFor` as operations on the role that a principal has at a scope.
use guild_net.Prelude.{
  ℕ, ap, ◌&&◌, Option, none, some, List, [], ◌∷◌, ◌≡◌, ◌≢◌, refl, Text, text_eq_iff, text_eq_inst,
  ◌==◌, if◌then◌else◌, arith,
}
use guild_net.Prelude.Maps.{lookup-insert, lookup-delete}
use guild_net.Model.{Role, PermissionBinding}
use guild_net.Rbac.{
  RbacStore, bindings_of, grant_into, grant, without_principal, store_bindings, revoke, find_role,
  role_at, table_scope, db_scope, role_for,
}

-- What the bindings mean: the role of a principal at a scope, if there is one.
abbrev pub binding_role : Text → Text → RbacStore → Option Role
binding_role scope principal s = find_role principal (bindings_of scope s)

find_role-grant_into :
    (p : Text) (b : PermissionBinding) (arr : List PermissionBinding)
    → find_role p (grant_into b arr) ≡ (if b.principal == p then some b.role else find_role p arr)
unfolding find_role grant_into
find_role-grant_into p b [] = refl
find_role-grant_into p b (x ∷ arr) = ground (
  arith,
  find_role-grant_into p b arr,
  text_eq_iff x.principal b.principal,
  text_eq_iff b.principal p,
  text_eq_iff x.principal p,
)

find_role-without_principal :
    (p q : Text) (arr : List PermissionBinding)
    → find_role p (without_principal q arr) ≡ (if q == p then none else find_role p arr)
unfolding find_role without_principal
find_role-without_principal p q [] = ground arith
find_role-without_principal p q (x ∷ arr) = ground (
  arith,
  find_role-without_principal p q arr,
  text_eq_iff x.principal q,
  text_eq_iff q p,
  text_eq_iff x.principal p,
)

pub bindings_of-grant :
    (scope : Text) (b : PermissionBinding) (s : RbacStore)
    → bindings_of scope (grant b s)
      ≡ (if b.scope == scope then grant_into b (bindings_of b.scope s) else bindings_of scope s)
unfolding bindings_of grant
bindings_of-grant scope b s =
    ground (arith, lookup-insert b.scope scope (grant_into b (bindings_of b.scope s)) s.bindings)

bindings_of-store_bindings :
    (scope j : Text) (arr : List PermissionBinding) (s : RbacStore)
    → bindings_of j (store_bindings scope arr s) ≡ (if scope == j then arr else bindings_of j s)
unfolding bindings_of
bindings_of-store_bindings scope j [] s = ground (arith, lookup-delete scope j s.bindings)
bindings_of-store_bindings scope j (b ∷ arr) s =
    ground (arith, lookup-insert scope j (b ∷ arr) s.bindings)

-- After `Grant b` the principal of `b` has the role of `b` at its scope; every other principal,
-- and every other scope, is as before.
pub binding_role-grant :
    (scope p : Text) (b : PermissionBinding) (s : RbacStore)
    → binding_role scope p (grant b s)
      ≡ (if b.scope == scope && b.principal == p then some b.role else binding_role scope p s)
binding_role-grant scope p b s = ground (
  arith,
  bindings_of-grant scope b s,
  find_role-grant_into p b (bindings_of b.scope s),
  text_eq_iff b.scope scope,
)

-- After `Revoke scope principal` that principal has no role at that scope; every other principal,
-- and every other scope, is as before.
pub binding_role-revoke :
    (scope q j p : Text) (s : RbacStore)
    → binding_role j p (revoke scope q s)
      ≡ (if scope == j && q == p then none else binding_role j p s)
unfolding revoke
binding_role-revoke scope q j p s = ground (
  arith,
  bindings_of-store_bindings scope j (without_principal q (bindings_of scope s)) s,
  find_role-without_principal p q (bindings_of scope s),
  text_eq_iff scope j,
)

abbrev first : Text → ℕ
first [] = 0
first (c ∷ s) = c

table-ne-db : (t d : Text) → table_scope t ≢ db_scope d
table-ne-db t d h = omega (arith, ap first h)

-- A binding at the table's scope decides the role of its principal on that table, whatever is
-- bound at the database's scope; once it is revoked, the role is the one at the database's scope.
pub table_scope_overrides :
    (p t d : Text) (b : PermissionBinding) (s : RbacStore)
    → t ≢ []
    → b.principal ≡ p
    → b.scope ≡ table_scope t
    → (role_for p t d (grant b s) ≡ b.role)
      × (role_for p t d (revoke (table_scope t) p s) ≡ role_for p [] d s)
unfolding role_for role_at
table_scope_overrides p [] d b s h hp hs = absurd (h refl)
table_scope_overrides p (c ∷ t) d b s h hp hs = (
  ground (
    arith,
    binding_role-grant (table_scope (c ∷ t)) p b s,
    text_eq_iff b.scope (table_scope (c ∷ t)),
    text_eq_iff b.principal p,
  ),
  ground (
    arith,
    binding_role-revoke (table_scope (c ∷ t)) p (table_scope (c ∷ t)) p s,
    binding_role-revoke (table_scope (c ∷ t)) p (db_scope d) p s,
    text_eq_iff (table_scope (c ∷ t)) (table_scope (c ∷ t)),
    text_eq_iff (table_scope (c ∷ t)) (db_scope d),
    table-ne-db (c ∷ t) d,
    text_eq_iff p p,
  ),
)
