-- ===== src/Tests/Attachments.antt =====
-- A kubeconfig that is attached to a cluster, with secrets over a cipher that writes the nonce before the
-- plain text.
use guild_net.Prelude.Equality.{pair_eq}
use guild_net.Prelude.{
  Option, insert, true, none, some, [], ◌∷◌, ◌++◌, ◌≡◌, refl, ap, inl, inr, text_eq, Text, codes,
  lookup, text_eq_inst,
}
use guild_net.Prelude.Strings.{trim_space, trim_left, trim_right, is_space, strip_prefix}
use guild_net.Json.{str, Row}
use guild_net.DbManager.{Result, ok, fail}
use guild_net.LocalDb.{put_value}
use guild_net.Jobs.{Runner}
use guild_net.Secrets.{Cipher, CipherLaws, Manager, encrypt, decrypt, decoded}
use guild_net.Secrets.RoundTrip.{decrypt-encrypt}
use guild_net.Deploy.Guards.{cluster_route, serve_route, serve_route-same}
use guild_net.Deploy.{auth_ok, ApiRequest, Outside, plain}
use guild_net.Clusters.{Kube, kubeconfig_key, kubeconfig_credential}
use guild_net.Clusters.ApiProxy.{ClientConfig}
use guild_net.Clusters.Routes.{Origin, cluster_action, cluster_health}
use guild_net.Clusters.Attached.{RowLaws, SecretLaws, IsReadable, cluster_action-attach}
use guild_net.Clusters.Fallback.{IsChecked, cluster_health-IsChecked}
use guild_net.Tests.Storage.{Tables, memory_sql, memory_laws, same_row, never-IsBroken}
use guild_net.Tests.Lifecycle.{job_store, stop_runner, with_headscale}
use guild_net.Tests.Deploys.{outside, same, secret, delete_h1}

-- the text behind a mark
abbrev unmarked : Text → Result Text
unmarked t = elim (strip_prefix (codes "!") t) [ some r ↦ ok r | none ↦ fail (codes "no mark") ]

-- a kubeconfig has no mark
abbrev unless_marked : Text → Result Text
unless_marked t = elim (strip_prefix (codes "!") t) [ some r ↦ fail (codes "marked") | none ↦ ok t ]

abbrev cipher : Cipher
cipher = record {
  failure = λ key. none;
  nonce_size = 2;
  seal = λ key nonce plaintext. plaintext;
  open_sealed = λ key nonce ct. ok ct;
  encode = λ b. b'!' ∷ b;
  decode = unmarked;
}

unmarked-mark : (b : Text) → unmarked (b'!' ∷ b) ≡ ok b
unfolding strip_prefix
unmarked-mark b = refl

cipher_laws : CipherLaws cipher
cipher_laws = record { open_seal = λ key nonce plaintext. refl; decode_encode = unmarked-mark }

abbrev master : Manager
master = record { key = codes "k" }

abbrev nonce : Text
nonce = codes "n0"

abbrev kc : Text
kc = codes "apiVersion: v1"

sealed_kc : encrypt cipher master (ok nonce) kc ≡ ok (b'!' ∷ (nonce ++ kc))
unfolding encrypt
sealed_kc = refl

decrypt-encrypt_example : decrypt cipher master (b'!' ∷ (nonce ++ kc)) ≡ ok kc
decrypt-encrypt_example =
    decrypt-encrypt cipher_laws master nonce kc (b'!' ∷ (nonce ++ kc)) refl sealed_kc

abbrev kube : Kube Text
kube = record {
  decrypt = some (decrypt cipher master);
  parse = unless_marked;
  healthy = λ n cfg. none;
  kubeconfig_of = λ body. body;
}

unmarked-unless_marked :
    (t c : Text) (o : Option Text)
    → strip_prefix (codes "!") t ≡ o
    → unless_marked t ≡ ok c
    → unmarked t ≡ fail (codes "no mark")
unfolding strip_prefix
unmarked-unless_marked t c (some r) at valid =
    (let e : unless_marked t ≡ fail (codes "marked") = (rw at refl) in cc)
unmarked-unless_marked t c none at valid = rw at refl

refused_plain :
    (t c : Text) → unless_marked t ≡ ok c → decrypt cipher master t ≡ fail (codes "no mark")
unfolding decrypt
refused_plain t c valid =
    ap (decoded cipher (codes "k"))
      (unmarked-unless_marked t c (strip_prefix (codes "!") t) refl valid)

secret_laws : SecretLaws unless_marked (encrypt cipher master (ok nonce)) (decrypt cipher master)
secret_laws = record {
  decrypts = λ t v sealed. decrypt-encrypt cipher_laws master nonce t v refl sealed;
  refuses = λ t c valid. inl (codes "no mark", refused_plain t c valid);
}

abbrev no_proxy : ClientConfig Text
no_proxy = record {
  host = λ c. c;
  with_host = λ h c. h;
  without_tls = λ c. c;
  as_http = λ u. none;
  proxy_addr = [];
}

abbrev with_secrets : Outside Row
with_secrets = record outside { encrypt = some (encrypt cipher master (ok nonce)) }

abbrev origin : Origin
origin = record { https = true; req_host = codes "host"; ca_pem = none }

abbrev attach_request : ApiRequest
attach_request = record delete_h1 { body = kc }

some_row_laws : RowLaws with_secrets
some_row_laws = record { round_trip = λ row b flat e. (row, cc, λ k. refl) }

abbrev attached : Runner Tables
attached =
    (cluster_action kube no_proxy memory_sql same_row job_store with_secrets same secret
      (codes "c1") (codes "attach-kubeconfig") origin attach_request stop_runner).0

abbrev kc_row : Row
kc_row = kubeconfig_credential kube memory_sql job_store with_secrets same secret (codes "c1") kc

abbrev with_credential : Tables
with_credential =
    (insert (codes "credentials", kubeconfig_key (codes "c1")) kc_row with_headscale.0, [])

readable :
    (db : Option Tables)
    → IsReadable kube memory_laws job_store with_secrets some_row_laws same secret no_proxy same_row
        (codes "c1")
        db
readable none = tt
readable (some s) = never-IsBroken (lookup (codes "credentials", kubeconfig_key (codes "c1")) s.0)

cluster_action-attach_example :
    (cluster_action kube no_proxy memory_sql same_row job_store with_secrets same secret
      (codes "c1")
      (codes "kubeconfig")
      origin
      delete_h1
      attached).1
    ≡ plain 200 kc
unfolding put_value strip_prefix trim_space trim_left trim_right is_space
cluster_action-attach_example =
    cluster_action-attach kube memory_laws job_store with_secrets some_row_laws same secret no_proxy
      same_row (codes "c1") origin origin attach_request delete_h1 kc stop_runner with_headscale
      with_credential refl refl secret_laws refl refl (readable attached.store)

-- a DELETE of the cluster with a token that is not the secret
abbrev delete_c1 : ApiRequest
delete_c1 = record delete_h1 { path = codes "/api/deploy/clusters/c1" }

serve_route-same_example :
    (serve_route kube no_proxy memory_sql same_row job_store with_secrets same secret
      (cluster_route origin)
      delete_c1
      stop_runner).0
    ≡ stop_runner
unfolding auth_ok trim_space trim_left trim_right is_space strip_prefix text_eq
serve_route-same_example =
    serve_route-same kube no_proxy memory_sql same_row job_store with_secrets same secret
      (cluster_route origin) delete_c1 stop_runner (inr refl)

-- a cluster that cannot be reached, and a proxy in the environment
abbrev unreachable_kube : Kube Text
unreachable_kube = record kube { decrypt = none; healthy = λ n cfg. some (codes "refused") }

abbrev local_proxy : ClientConfig Text
local_proxy = record no_proxy { proxy_addr = codes "127.0.0.1:8001" }

abbrev with_plain : Tables
with_plain =
    (((codes "credentials", kubeconfig_key (codes "c1")), (codes "value", str kc) ∷ []) ∷ [], [])

cluster_health-IsChecked_example :
    (s' : Tables) × ((cluster_health unreachable_kube local_proxy memory_sql same_row job_store
        outside same secret
        (codes "c1")
        (record stop_runner { store = some with_plain })).0.store
      ≡ some s')
    × IsChecked unreachable_kube local_proxy memory_sql same_row job_store outside same secret
        with_plain
        (codes "c1")
        s'
cluster_health-IsChecked_example =
    cluster_health-IsChecked unreachable_kube local_proxy memory_sql same_row job_store outside same
      secret (codes "c1") (record stop_runner { store = some with_plain }) with_plain refl
