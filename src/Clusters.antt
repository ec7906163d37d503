-- ===== src/Clusters.antt =====
-- internal/api/router.go: the kubeconfig of a cluster, as /api/deploy/clusters/{id} stores it and
-- `readClusterKubeconfig` reads it. Parsing a kubeconfig, dialling its cluster and decrypting are
-- operations of `Kube`; a configuration of a client has the type `C`.
pub mod ApiProxy
pub mod Routes
pub mod Attached
pub mod Fallback
use guild_net.Prelude.{
  ℕ, Bool, true, false, Option, none, some, List, [], ◌∷◌, ◌++◌, Text, codes, is_empty, insert,
  if◌then◌else◌, text_eq_inst,
}
use guild_net.Prelude.Strings.{trim_space}
use guild_net.Json.{Json, bool, str, Row}
use guild_net.DbManager.{Result, ok, fail}
use guild_net.LocalDb.{Sql, put_value, get_value}
use guild_net.Settings.Values.{index}
use guild_net.Orchestration.{sprint}
use guild_net.Jobs.{Runner, Persist}
use guild_net.Deploy.{Reply, status, json, aborted, Outside}
use guild_net.Deploy.Headscales.{all_ok, encrypted, put_row}

-- `decrypt` is none without secrets, `kubeconfig_of` decodes the body of a request, and `healthy` is the
-- outcome of the first or the second try of a request to reach a cluster.
pub record Kube (C : Type 0) : Type 0 where
  pub decrypt : Option (Text → Result Text)
  pub parse : Text → Result C
  pub healthy : ℕ → C → Option Text
  pub kubeconfig_of : Text → Text

abbrev pub kubeconfig_key : Text → Text
kubeconfig_key id = codes "cl:" ++ (id ++ codes ":kubeconfig")

abbrev pub is_true : Json → Bool
is_true (bool b) = b
is_true _ = false

-- a stored null leaves the map nil
abbrev pub row_or_nil : Option Row → Row
row_or_nil none = []
row_or_nil (some row) = row

-- `JSONError`
abbrev pub error_reply : ℕ → Text → Text → Option Text → Reply
error_reply code msg err none =
    json code ((codes "code", str err) ∷ ((codes "message", str msg) ∷ []))
error_reply code msg err (some details) =
    json code (
      (codes "code", str err)
      ∷ ((codes "message", str msg) ∷ ((codes "details", str details) ∷ [])))

module _ {C : Type 0} (kube : Kube C) where
  -- a text that is a kubeconfig
  abbrev pub if_parsed : Text → Result C → Option Text
  if_parsed v (ok cfg) = some v
  if_parsed v (fail e) = none

  abbrev pub parsed : Text → Option Text
  parsed v = if_parsed v (kube.parse v)

  abbrev pub parsed_result : Result Text → Option Text
  parsed_result (ok v) = parsed v
  parsed_result (fail e) = none

  abbrev pub decrypted : Text → Option (Text → Result Text) → Option Text
  decrypted val none = none
  decrypted val (some decrypt) = parsed_result (decrypt val)

  abbrev pub or_plaintext : Text → Option Text → Option Text
  or_plaintext val (some v) = some v
  or_plaintext val none = parsed val

  abbrev pub credential_value : Text → Bool → Option Text
  credential_value val true = decrypted val kube.decrypt
  credential_value val false = or_plaintext val (decrypted val kube.decrypt)

  abbrev pub of_credential : (Json → Text) → Row → Option Text
  of_credential print cred =
      credential_value (sprint print (index cred (codes "value")))
        (is_true (index cred (codes "encrypted")))

  module _ {S B : Type 0} (sql : Sql S B) (p : Persist S) (out : Outside B) (unicode_lower : ℕ → ℕ)
      (token : Text) where
    abbrev pub of_stored : Result (Option Row) → Option Text
    of_stored (fail e) = none
    of_stored (ok row) = of_credential out.print (row_or_nil row)

    unfoldable pub read_kubeconfig : Option S → Text → Option Text
    read_kubeconfig none id = none
    read_kubeconfig (some s) id =
        of_stored (get_value sql out.unmarshal s (codes "credentials") (kubeconfig_key id))

    -- whether the stored value is the one that Encrypt gave
    abbrev pub is_encrypted : Text → Option (Text → Result Text) → Bool
    is_encrypted kc none = false
    is_encrypted kc (some encrypt) = elim (encrypt kc) [ ok v ↦ true | fail e ↦ false ]

    abbrev pub kubeconfig_credential : Text → Text → Row
    kubeconfig_credential id kc =
        (codes "id", str out.uuid)
        ∷ ((codes "scopeType", str (codes "cluster"))
            ∷ ((codes "scopeId", str id)
                ∷ ((codes "kind", str (codes "cluster.kubeconfig"))
                    ∷ ((codes "value", str (encrypted sql p out unicode_lower token kc out.encrypt))
                        ∷ ((codes "encrypted", bool (is_encrypted kc out.encrypt))
                            ∷ ((codes "rotatedAt", str out.stamp) ∷ []))))))

    -- the state of the record of a cluster that is reachable; a stored null is a nil map
    abbrev pub ready_row : Row → Row
    ready_row rec =
        insert (codes "updatedAt") (str out.stamp)
          (insert (codes "state") (str (codes "ready")) rec)

    abbrev pub ready_stored : Text → Runner S → Result (Option Row) → Runner S × Reply
    ready_stored id r (fail e) = (r, json 200 all_ok)
    ready_stored id r (ok none) = (r, aborted)
    ready_stored id r (ok (some rec)) = (
      put_row sql p out unicode_lower token (codes "clusters") id (ready_row rec) r,
      json 200 all_ok,
    )

    -- without a database the query panics
    abbrev pub mark_ready : Text → Runner S → Option S → Runner S × Reply
    mark_ready id r none = (r, aborted)
    mark_ready id r (some s) =
        ready_stored id r (get_value sql out.unmarshal s (codes "clusters") id)

    abbrev pub if_reached : Text → Runner S → Option Text → Runner S × Reply
    if_reached id r (some e) = (r, json 200 all_ok)
    if_reached id r none = mark_ready id r r.store

    abbrev pub if_valid : Text → Text → Runner S → Result C → Runner S × Reply
    if_valid id kc r (fail e) =
        (r, error_reply 400 (codes "invalid kubeconfig") (codes "bad_kubeconfig") (some e))
    if_valid id kc r (ok cfg) =
        if_reached id
          (put_row sql p out unicode_lower token (codes "credentials") (kubeconfig_key id)
            (kubeconfig_credential id kc) r)
          (kube.healthy 0 cfg)

    -- the action attach-kubeconfig
    unfoldable pub attach_kubeconfig : Text → Text → Runner S → Runner S × Reply
    attach_kubeconfig id kc r =
        if is_empty (trim_space kc)
        then (r, error_reply 400 (codes "missing kubeconfig") (codes "missing_kubeconfig") none)
        else if_valid id kc r (kube.parse kc)
