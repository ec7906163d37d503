-- ===== src/Rbac/Invariant.antt =====
-- The shape of the bindings map, which `Grant` and `Revoke` keep.
use guild_net.Prelude.{
  none, some, List, [], ◌∷◌, ◌≡◌, ◌≢◌, refl, Text, text_eq_iff, text_eq_inst, ◌==◌, lookup, insert,
  delete, arith, All, Assoc, Bool-cases, inl, inr,
}
use guild_net.Model.{PermissionBinding}
use guild_net.Rbac.{
  RbacStore, new_rbac_store, bindings_of, grant_into, grant, without_principal, store_bindings,
  revoke,
}

-- No binding of `arr` is for the principal `p`.
abbrev pub IsFresh : Text → List PermissionBinding → Type 0
IsFresh p arr = All (λ b. b.principal ≢ p) arr

-- Every principal is bound once.
abbrev pub IsDistinct : List PermissionBinding → Type 0
IsDistinct [] = Unit
IsDistinct (b ∷ arr) = IsFresh b.principal arr × IsDistinct arr

-- A group is what the map holds for a scope.
abbrev pub IsGroup : Text → List PermissionBinding → Type 0
IsGroup scope arr = (arr ≢ []) × All (λ b. b.scope ≡ scope) arr × IsDistinct arr

abbrev pub IsGrouped : Assoc Text (List PermissionBinding) → Type 0
IsGrouped m = All (λ (entry : Text × List PermissionBinding). IsGroup entry.0 entry.1) m

-- Each scope of the map has at least one binding, its bindings are for that scope, and no two of
-- them for one principal.
pub record IsWellFormed (s : RbacStore) : Type 0 where
  pub groups : IsGrouped s.bindings

abbrev IsPartial : Text → List PermissionBinding → Type 0
IsPartial scope arr = All (λ b. b.scope ≡ scope) arr × IsDistinct arr

IsFresh-grant_into :
    (p : Text) (b : PermissionBinding) (arr : List PermissionBinding)
    → b.principal ≢ p
    → IsFresh p arr
    → IsFresh p (grant_into b arr)
unfolding grant_into
IsFresh-grant_into p b [] n h = (n, tt)
IsFresh-grant_into p b (x ∷ arr) n h = elim (Bool-cases (x.principal == b.principal)) [
  | inl same ↦ rw same (n, h.1)
  | inr other ↦ rw other (h.0, IsFresh-grant_into p b arr n h.1)
]

grant_into-IsPartial :
    (b : PermissionBinding) (arr : List PermissionBinding)
    → IsPartial b.scope arr
    → IsPartial b.scope (grant_into b arr)
unfolding grant_into
grant_into-IsPartial b [] h = ((refl, tt), (tt, tt))
grant_into-IsPartial b (x ∷ arr) h = elim (Bool-cases (x.principal == b.principal)) [
  | inl same ↦
      let e : x.principal ≡ b.principal = (text_eq_iff _ _).0 same in
      rw same ((refl, h.0.1), (rw e at (h.1.0), h.1.1))
  | inr other ↦
      let (scopes, distinct) = grant_into-IsPartial b arr (h.0.1, h.1.1) in
      rw other (
        (h.0.0, scopes),
        (
          IsFresh-grant_into x.principal b arr
              (λ e. ground (arith, text_eq_iff x.principal b.principal)) h.1.0,
          distinct,
        ),
      )
]

grant_into-ne-nil : (b : PermissionBinding) (arr : List PermissionBinding) → grant_into b arr ≢ []
unfolding grant_into
grant_into-ne-nil b [] h = cc
grant_into-ne-nil b (x ∷ arr) h = ground arith

IsFresh-without_principal :
    (p q : Text) (arr : List PermissionBinding)
    → IsFresh p arr
    → IsFresh p (without_principal q arr)
unfolding without_principal
IsFresh-without_principal p q [] h = tt
IsFresh-without_principal p q (x ∷ arr) h = elim (Bool-cases (x.principal == q)) [
  | inl same ↦ rw same (IsFresh-without_principal p q arr h.1)
  | inr other ↦ rw other (h.0, IsFresh-without_principal p q arr h.1)
]

without_principal-IsPartial :
    (scope q : Text) (arr : List PermissionBinding)
    → IsPartial scope arr
    → IsPartial scope (without_principal q arr)
unfolding without_principal
without_principal-IsPartial scope q [] h = h
without_principal-IsPartial scope q (x ∷ arr) h =
    let (scopes, distinct) = without_principal-IsPartial scope q arr (h.0.1, h.1.1) in
    elim (Bool-cases (x.principal == q)) [
      | inl same ↦ rw same (scopes, distinct)
      | inr other ↦
          rw other ((h.0.0, scopes), (IsFresh-without_principal x.principal q arr h.1.0, distinct))
    ]

insert-IsGrouped :
    (scope : Text) (arr : List PermissionBinding) (m : Assoc Text (List PermissionBinding))
    → IsGroup scope arr
    → IsGrouped m
    → IsGrouped (insert scope arr m)
unfolding insert
insert-IsGrouped scope arr [] g h = (g, tt)
insert-IsGrouped scope arr ((j, w) ∷ m) g h = elim (Bool-cases (j == scope)) [
  | inl same ↦ rw same (g, h.1)
  | inr other ↦ rw other (h.0, insert-IsGrouped scope arr m g h.1)
]

delete-IsGrouped :
    (scope : Text) (m : Assoc Text (List PermissionBinding))
    → IsGrouped m
    → IsGrouped (delete scope m)
unfolding delete
delete-IsGrouped scope [] h = tt
delete-IsGrouped scope ((j, w) ∷ m) h = elim (Bool-cases (j == scope)) [
  | inl same ↦ rw same (delete-IsGrouped scope m h.1)
  | inr other ↦ rw other (h.0, delete-IsGrouped scope m h.1)
]

lookup-IsPartial :
    (scope : Text) (m : Assoc Text (List PermissionBinding))
    → IsGrouped m
    → IsPartial scope (elim (lookup scope m) [ some arr ↦ arr | none ↦ [] ])
unfolding lookup
lookup-IsPartial scope [] h = (tt, tt)
lookup-IsPartial scope ((j, w) ∷ m) h = elim (Bool-cases (j == scope)) [
  | inl same ↦ let e : j ≡ scope = (text_eq_iff _ _).0 same in rw same (rw e at (h.0.1), h.0.2)
  | inr other ↦ rw other (lookup-IsPartial scope m h.1)
]

bindings_of-IsPartial :
    (scope : Text) (s : RbacStore) → IsWellFormed s → IsPartial scope (bindings_of scope s)
unfolding bindings_of
bindings_of-IsPartial scope s h = lookup-IsPartial scope s.bindings h.groups

-- The empty store is well formed.
pub new_rbac_store-IsWellFormed : IsWellFormed new_rbac_store
unfolding new_rbac_store
new_rbac_store-IsWellFormed = record { groups = tt }

grant-IsWellFormed :
    (b : PermissionBinding) (s : RbacStore) → IsWellFormed s → IsWellFormed (grant b s)
unfolding grant
grant-IsWellFormed b s h =
    let (scopes, distinct) =
      grant_into-IsPartial b (bindings_of b.scope s) (bindings_of-IsPartial b.scope s h) in
    record {
      groups =
          insert-IsGrouped b.scope _ s.bindings (grant_into-ne-nil b _, scopes, distinct) h.groups;
    }

store_bindings-IsWellFormed :
    (scope : Text) (arr : List PermissionBinding) (s : RbacStore)
    → IsPartial scope arr
    → IsWellFormed s
    → IsWellFormed (store_bindings scope arr s)
store_bindings-IsWellFormed scope [] s p h = record {
  groups = delete-IsGrouped scope s.bindings h.groups;
}
store_bindings-IsWellFormed scope (b ∷ arr) s p h = record {
  groups = insert-IsGrouped scope _ s.bindings (λ e. cc, p.0, p.1) h.groups;
}

-- From a well-formed store, `Grant` and `Revoke` lead to a well-formed store: every scope that the
-- map lists has a binding, only bindings of its own, and one at most for each principal.
pub grant-revoke-IsWellFormed :
    (b : PermissionBinding) (scope q : Text) (s : RbacStore)
    → IsWellFormed s
    → IsWellFormed (grant b s) × IsWellFormed (revoke scope q s)
unfolding revoke
grant-revoke-IsWellFormed b scope q s h = (
  grant-IsWellFormed b s h,
  store_bindings-IsWellFormed scope _ s
      (without_principal-IsPartial scope q _ (bindings_of-IsPartial scope s h)) h,
)
