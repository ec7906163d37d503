-- ===== src/Deploy/Guards.antt =====
-- The requests that change nothing.
use guild_net.Prelude.{
  ℕ, false, Bool-cases, ◌≡◌, ◌≢◌, refl, ◌⊎◌, inl, inr, Text, text_eq_inst, is_empty,
}
use guild_net.Prelude.Strings.{trim_prefix}
use guild_net.LocalDb.{Sql}
use guild_net.Jobs.{Runner, Persist}
use guild_net.Deploy.{
  Verb, get_verb, post_verb, put_verb, delete_verb, options_verb, other_verb, ApiRequest, Reply,
  Outside, auth_ok, guarded_by, with_id, jobs_verb, job_verb, jobs_prefix, handle_jobs, handle_job,
}
use guild_net.Deploy.Headscales.{
  headscales_verb, clusters_verb, headscale_verb, headscale_prefix, handle_headscales,
  handle_clusters, handle_headscale,
}
use guild_net.Settings.Values.{Codec}
use guild_net.Clusters.{Kube}
use guild_net.Clusters.ApiProxy.{ClientConfig}
use guild_net.Clusters.Routes.{Origin, clusters_prefix, cluster_verb, handle_cluster}

pub data Route : Type 0 where
  jobs_route job_route headscales_route clusters_route headscale_route : Route
  cluster_route : Origin → Route

module _ {C S B : Type 0} (kube : Kube C) (ops : ClientConfig C) (sql : Sql S B) (codec : Codec B)
    (p : Persist S) (out : Outside B) (unicode_lower : ℕ → ℕ) (token : Text) where
  abbrev pub serve_route : Route → ApiRequest → Runner S → Runner S × Reply
  serve_route jobs_route = handle_jobs sql p out unicode_lower token
  serve_route job_route = handle_job sql p out unicode_lower token
  serve_route headscales_route = handle_headscales sql p out unicode_lower token
  serve_route clusters_route = handle_clusters sql p out unicode_lower token
  serve_route headscale_route = handle_headscale sql p out unicode_lower token
  serve_route (cluster_route o) = handle_cluster kube ops sql codec p out unicode_lower token o

  -- a read, or a request that is not authorised
  abbrev pub IsIdle : Verb → ApiRequest → Type 0
  IsIdle v req = (v ≡ get_verb) ⊎ (auth_ok unicode_lower token req ≡ false)

  guarded_by-same :
      (v : Verb) (req : ApiRequest) (r : Runner S) (rest : Runner S × Reply)
      → v ≢ get_verb
      → IsIdle v req
      → (guarded_by sql p out unicode_lower token req r rest).0 ≡ r
  guarded_by-same v req r rest other (inl e) = absurd (other e)
  guarded_by-same v req r rest other (inr refused) = rw refused refl

  with_id-same :
      (id : Text) (r : Runner S) (rest : Runner S × Reply)
      → rest.0 ≡ r
      → (with_id sql p out unicode_lower token id r rest).0 ≡ r
  with_id-same id r rest h = elim (Bool-cases (is_empty id)) [
    | inl none ↦ rw none refl
    | inr some ↦ rw some h
  ]

  jobs_verb-same :
      (v : Verb) (req : ApiRequest) (r : Runner S)
      → IsIdle v req
      → (jobs_verb sql p out unicode_lower token v req r).0 ≡ r
  jobs_verb-same get_verb req r h = refl
  jobs_verb-same post_verb req r h = guarded_by-same post_verb req r _ (λ e. cc) h
  jobs_verb-same put_verb req r h = refl
  jobs_verb-same delete_verb req r h = refl
  jobs_verb-same options_verb req r h = refl
  jobs_verb-same other_verb req r h = refl

  job_verb-same :
      (v : Verb) (id : Text) (req : ApiRequest) (r : Runner S)
      → IsIdle v req
      → (job_verb sql p out unicode_lower token v id req r).0 ≡ r
  job_verb-same get_verb id req r h = refl
  job_verb-same post_verb id req r h = guarded_by-same post_verb req r _ (λ e. cc) h
  job_verb-same put_verb id req r h = refl
  job_verb-same delete_verb id req r h = refl
  job_verb-same options_verb id req r h = refl
  job_verb-same other_verb id req r h = refl

  headscales_verb-same :
      (v : Verb) (req : ApiRequest) (r : Runner S)
      → IsIdle v req
      → (headscales_verb sql p out unicode_lower token v req r).0 ≡ r
  headscales_verb-same get_verb req r h = refl
  headscales_verb-same post_verb req r h = guarded_by-same post_verb req r _ (λ e. cc) h
  headscales_verb-same put_verb req r h = refl
  headscales_verb-same delete_verb req r h = refl
  headscales_verb-same options_verb req r h = refl
  headscales_verb-same other_verb req r h = refl

  clusters_verb-same :
      (v : Verb) (req : ApiRequest) (r : Runner S)
      → IsIdle v req
      → (clusters_verb sql p out unicode_lower token v req r).0 ≡ r
  clusters_verb-same get_verb req r h = refl
  clusters_verb-same post_verb req r h = guarded_by-same post_verb req r _ (λ e. cc) h
  clusters_verb-same put_verb req r h = refl
  clusters_verb-same delete_verb req r h = refl
  clusters_verb-same options_verb req r h = refl
  clusters_verb-same other_verb req r h = refl

  headscale_verb-same :
      (v : Verb) (id : Text) (req : ApiRequest) (r : Runner S)
      → IsIdle v req
      → (headscale_verb sql p out unicode_lower token v id req r).0 ≡ r
  headscale_verb-same get_verb id req r h = refl
  headscale_verb-same post_verb id req r h = guarded_by-same post_verb req r _ (λ e. cc) h
  headscale_verb-same put_verb id req r h = refl
  headscale_verb-same delete_verb id req r h = guarded_by-same delete_verb req r _ (λ e. cc) h
  headscale_verb-same options_verb id req r h = refl
  headscale_verb-same other_verb id req r h = refl

  cluster_verb-same :
      (v : Verb) (id : Text) (o : Origin) (req : ApiRequest) (r : Runner S)
      → IsIdle v req
      → (cluster_verb kube ops sql codec p out unicode_lower token v id o req r).0 ≡ r
  cluster_verb-same get_verb id o req r h = refl
  cluster_verb-same post_verb id o req r h = guarded_by-same post_verb req r _ (λ e. cc) h
  cluster_verb-same put_verb id o req r h = refl
  cluster_verb-same delete_verb id o req r h = guarded_by-same delete_verb req r _ (λ e. cc) h
  cluster_verb-same options_verb id o req r h = refl
  cluster_verb-same other_verb id o req r h = refl

  -- A request of the routes of the jobs, the headscales and the clusters, of one of them or of the
  -- collection, that is a GET or that is not authorised leaves the runner and the database as they
  -- are.
  pub serve_route-same :
      (route : Route) (req : ApiRequest) (r : Runner S)
      → IsIdle req.verb req
      → (serve_route route req r).0 ≡ r
  unfolding handle_jobs handle_job handle_headscales handle_clusters handle_headscale handle_cluster
  serve_route-same jobs_route req r h = jobs_verb-same req.verb req r h
  serve_route-same job_route req r h =
      with_id-same (trim_prefix jobs_prefix req.path) r _ (job_verb-same req.verb _ req r h)
  serve_route-same headscales_route req r h = headscales_verb-same req.verb req r h
  serve_route-same clusters_route req r h = clusters_verb-same req.verb req r h
  serve_route-same headscale_route req r h =
      with_id-same (trim_prefix headscale_prefix req.path) r _
        (headscale_verb-same req.verb _ req r h)
  serve_route-same (cluster_route o) req r h =
      with_id-same (trim_prefix clusters_prefix req.path) r _
        (cluster_verb-same req.verb _ o req r h)
