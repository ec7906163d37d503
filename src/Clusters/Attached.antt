-- ===== src/Clusters/Attached.antt =====
-- The kubeconfig that was attached to a cluster is the one that is read.
use guild_net.Prelude.{
  ℕ, true, false, Option, none, some, ◌≡◌, refl, sym, ap, ◌∙◌, ◌⊎◌, inl, inr, Text, codes, is_empty,
  lookup, text_eq, text_eq_inst,
}
use mathlib.Core.Path.{subst}
use guild_net.Prelude.Strings.{trim_space}
use guild_net.Json.{Row}
use guild_net.DbManager.{Result, ok, fail}
use guild_net.LocalDb.{Sql, SqlLaws, put_value}
use guild_net.LocalDb.Reads.{IsBroken, Result-cases, get_value-stored}
use guild_net.LocalDb.Rows.{stored-put_value, stored-put_value_ok}
use guild_net.Settings.Values.{Codec, index}
use guild_net.Settings.RoundTrip.{all_plain, index_ext}
use guild_net.Orchestration.{sprint}
use guild_net.Jobs.{Runner, Persist}
use guild_net.Deploy.{ApiRequest, plain, Outside}
use guild_net.Deploy.Headscales.{encrypted, put_row}
use guild_net.Clusters.{
  Kube, kubeconfig_key, is_true, credential_value, of_credential, of_stored, read_kubeconfig,
  is_encrypted, kubeconfig_credential, ready_row, ready_stored, mark_ready, if_reached, if_valid,
  attach_kubeconfig,
}
use guild_net.Clusters.ApiProxy.{ClientConfig}
use guild_net.Clusters.Routes.{Origin, yaml_or_missing, cluster_action}

-- A map of texts and Booleans is decoded to a map with the same members.
pub record RowLaws {B : Type 0} (out : Outside B) : Type 0 where
  pub round_trip :
      (row : Row) (b : B)
      → all_plain row ≡ true
      → out.marshal row ≡ ok b
      → (row' : Row) × (out.unmarshal b ≡ ok (some row'))
        × ((k : Text) → lookup k row' ≡ lookup k row)

-- What the code relies on of the secrets: what was encrypted without an error is decrypted to what it
-- was, and a kubeconfig, which is no encrypted text, is refused or comes back as it is.
pub record SecretLaws {C : Type 0} (parse : Text → Result C) (encrypt decrypt : Text → Result Text)
    : Type 0 where
  pub decrypts : (kc v : Text) → encrypt kc ≡ ok v → decrypt v ≡ ok kc
  pub refuses :
      (kc : Text) (cfg : C)
      → parse kc ≡ ok cfg
      → ((e : Text) × (decrypt kc ≡ fail e)) ⊎ (decrypt kc ≡ ok kc)

-- the same secrets, or none, encrypt and decrypt
abbrev pub SharesSecrets :
    {C : Type 0}
    → (Text → Result C)
    → Option (Text → Result Text)
    → Option (Text → Result Text)
    → Type 0
SharesSecrets parse none none = Unit {0}
SharesSecrets parse (some encrypt) (some decrypt) = SecretLaws parse encrypt decrypt
SharesSecrets parse _ _ = ⊥

module _ {C S B : Type 0} (kube : Kube C) {sql : Sql S B} (laws : SqlLaws sql) (p : Persist S)
    (out : Outside B) (rows : RowLaws out) (unicode_lower : ℕ → ℕ) (token : Text)
    (ops : ClientConfig C) (codec : Codec B) where
  credential_value-kept :
      (kc : Text) (cfg : C) (encrypt decrypt : Option (Text → Result Text))
      → kube.decrypt ≡ decrypt
      → kube.parse kc ≡ ok cfg
      → SharesSecrets kube.parse encrypt decrypt
      → credential_value kube
          (encrypted sql p out unicode_lower token kc encrypt)
          (is_encrypted kube sql p out unicode_lower token kc encrypt)
        ≡ some kc
  credential_value-kept kc cfg none none d valid shares = rw (d, valid) refl
  credential_value-kept kc cfg (some encrypt) (some decrypt) d valid secrets =
      elim (Result-cases (encrypt kc)) [
        | inl (v, sealed) ↦ rw (sealed, d, secrets.decrypts kc v sealed, valid) refl
        | inr (e, failed) ↦ elim (secrets.refuses kc cfg valid) [
          | inl (err, refused) ↦ rw (failed, d, refused, valid) refl
          | inr same ↦ rw (failed, d, same, valid) refl
        ]
      ]
  credential_value-kept kc cfg none (some decrypt) d valid shares = absurd shares
  credential_value-kept kc cfg (some encrypt) none d valid shares = absurd shares

  of_credential-kept :
      (id kc : Text) (cfg : C) (cred : Row)
      → kube.parse kc ≡ ok cfg
      → SharesSecrets kube.parse out.encrypt kube.decrypt
      → ((k : Text)
          → lookup k cred
            ≡ lookup k (kubeconfig_credential kube sql p out unicode_lower token id kc))
      → of_credential kube out.print cred ≡ some kc
  unfolding index lookup text_eq
  of_credential-kept id kc cfg cred valid shares same =
      ap
        (λ find.
          credential_value kube (sprint out.print (find (codes "value")))
            (is_true (find (codes "encrypted"))))
        (index_ext (kubeconfig_credential kube sql p out unicode_lower token id kc) cred same)
      ∙ credential_value-kept kc cfg out.encrypt kube.decrypt refl valid shares

  -- the table holds the credential of the kubeconfig
  abbrev Holds : Text → Text → S → Type 0
  Holds id kc s =
      (b : B) × (out.marshal (kubeconfig_credential kube sql p out unicode_lower token id kc)
        ≡ ok b)
      × (laws.stored s (codes "credentials") (kubeconfig_key id) ≡ some b)

  abbrev HoldsIn : Text → Text → Option S → Type 0
  HoldsIn id kc none = ⊥
  HoldsIn id kc (some s) = Holds id kc s

  store-put_row :
      (bucket id : Text) (row : Row) (r : Runner S) (s : S)
      → r.store ≡ some s
      → (put_row sql p out unicode_lower token bucket id row r).store
        ≡ some (put_value sql out.marshal s bucket id row).0
  store-put_row bucket id row r s at =
      ap
        (λ o.
          (elim o as (λ x. Runner S) [
            | none ↦ r
            | some s ↦ record r { store = some (put_value sql out.marshal s bucket id row).0 }
          ]).store)
        at

  ready_stored-Holds :
      (id kc : Text) (r : Runner S) (s : S) (found : Result (Option Row))
      → r.store ≡ some s
      → Holds id kc s
      → HoldsIn id kc (ready_stored kube sql p out unicode_lower token id r found).0.store
  unfolding text_eq
  ready_stored-Holds id kc r s (fail e) at h = subst (HoldsIn id kc) (sym at) h
  ready_stored-Holds id kc r s (ok none) at h = subst (HoldsIn id kc) (sym at) h
  ready_stored-Holds id kc r s (ok (some rec)) at (b, encoded, held) =
      subst (HoldsIn id kc)
        (sym (
          store-put_row (codes "clusters") id (ready_row kube sql p out unicode_lower token rec) r s
            at))
        (
          b,
          encoded,
          stored-put_value laws out.marshal s (codes "clusters") id _ (codes "credentials")
                (kubeconfig_key id) refl
              ∙ held,
        )

  if_reached-Holds :
      (id kc : Text) (r : Runner S) (s : S) (reached : Option Text)
      → r.store ≡ some s
      → Holds id kc s
      → HoldsIn id kc (if_reached kube sql p out unicode_lower token id r reached).0.store
  if_reached-Holds id kc r s (some e) at h = subst (HoldsIn id kc) (sym at) h
  if_reached-Holds id kc r s none at h =
      subst (λ o. HoldsIn id kc (mark_ready kube sql p out unicode_lower token id r o).0.store)
        (sym at) (ready_stored-Holds id kc r s _ at h)

  attached-Holds :
      (id kc : Text) (cfg : C) (r : Runner S) (s s1 : S)
      → is_empty (trim_space kc) ≡ false
      → kube.parse kc ≡ ok cfg
      → r.store ≡ some s
      → put_value sql out.marshal s
          (codes "credentials")
          (kubeconfig_key id)
          (kubeconfig_credential kube sql p out unicode_lower token id kc)
        ≡ (s1, none)
      → HoldsIn id kc (attach_kubeconfig kube sql p out unicode_lower token id kc r).0.store
  unfolding attach_kubeconfig
  attached-Holds id kc cfg r s s1 filled valid at stored =
      let cred = kubeconfig_credential kube sql p out unicode_lower token id kc in
      let r1 : Runner S =
        put_row sql p out unicode_lower token (codes "credentials") (kubeconfig_key id) cred r in
      let after : r1.store ≡ some s1 =
        store-put_row (codes "credentials") (kubeconfig_key id) cred r s at
        ∙ ap (λ x. some x.0) stored in
      rw (filled, attach_kubeconfig)
        (subst (λ c. HoldsIn id kc (if_valid kube sql p out unicode_lower token id kc r c).0.store)
          (sym valid)
          (if_reached-Holds id kc r1 s1 (kube.healthy 0 cfg) after (
            stored-put_value_ok laws out.marshal s s1 (codes "credentials") (kubeconfig_key id) cred
              stored)))

  -- the query of the credential, if there is a database, does not fail
  abbrev pub IsReadable : Text → Option S → Type 0
  IsReadable id none = Unit {0}
  IsReadable id (some s) = ¬ IsBroken (sql.select_kv s (codes "credentials") (kubeconfig_key id))

  read_kubeconfig-Holds :
      (id kc : Text) (cfg : C) (db : Option S)
      → kube.parse kc ≡ ok cfg
      → SharesSecrets kube.parse out.encrypt kube.decrypt
      → HoldsIn id kc db
      → IsReadable id db
      → read_kubeconfig kube sql p out unicode_lower token db id ≡ some kc
  unfolding read_kubeconfig
  read_kubeconfig-Holds id kc cfg none valid shares held readable = absurd held
  read_kubeconfig-Holds id kc cfg (some s) valid shares (b, encoded, held) readable =
      elim (get_value-stored laws out.unmarshal s (codes "credentials") (kubeconfig_key id) b
        held) [
          | inr failed ↦ absurd (readable failed)
          | inl got ↦
              let (cred, decoded, same) = rows.round_trip _ b refl encoded in
              ap (of_stored kube sql p out unicode_lower token) (got ∙ decoded)
              ∙ of_credential-kept id kc cfg cred valid shares same
        ]

  -- After a valid kubeconfig was attached to a cluster, without an error of its Put, the action
  -- kubeconfig answers with exactly that text, whether there are no secrets, or it was encrypted in
  -- between, or its encryption failed, and whether the cluster is reachable or not, if the query does
  -- not fail.
  pub cluster_action-attach :
      (id : Text) (o o' : Origin) (req req' : ApiRequest) (cfg : C) (r : Runner S) (s s1 : S)
      → is_empty (trim_space (kube.kubeconfig_of req.body)) ≡ false
      → kube.parse (kube.kubeconfig_of req.body) ≡ ok cfg
      → SharesSecrets kube.parse out.encrypt kube.decrypt
      → r.store ≡ some s
      → put_value sql out.marshal s (codes "credentials") (kubeconfig_key id) (
          kubeconfig_credential kube sql p out unicode_lower token id (kube.kubeconfig_of req.body))
        ≡ (s1, none)
      → let r' =
          (cluster_action kube ops sql codec p out unicode_lower token id
            (codes "attach-kubeconfig")
            o
            req
            r).0 in
        IsReadable id r'.store
        → (cluster_action kube ops sql codec p out unicode_lower token id
            (codes "kubeconfig")
            o'
            req'
            r').1
          ≡ plain 200 (kube.kubeconfig_of req.body)
  unfolding cluster_action text_eq
  cluster_action-attach id o o' req req' cfg r s s1 filled valid shares at stored readable =
      ap (yaml_or_missing kube ops sql codec p out unicode_lower token) (
        read_kubeconfig-Holds id (kube.kubeconfig_of req.body) cfg _ valid shares
          (attached-Holds id (kube.kubeconfig_of req.body) cfg r s s1 filled valid at stored)
          readable)
