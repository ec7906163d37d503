-- ===== src/Deploy/Actions.antt =====
-- The action that a path names.
use guild_net.Prelude.{
  ℕ, true, false, Option, some, [], ◌∷◌, ◌++◌, ◌≡◌, refl, ap, ◌∙◌, Text, codes, text_eq,
  text_eq_inst, is_empty, arith,
}
use guild_net.Prelude.Strings.{trim_space, trim_prefix, strip_prefix, trim_prefix-append}
use guild_net.Proxy.Headers.{trim_slashes}
use guild_net.Json.{str}
use guild_net.LocalDb.{Sql}
use guild_net.Jobs.{Runner, Persist, log, set_progress, float_one}
use guild_net.Headscale.{Ambient}
use guild_net.Orchestration.{handler_for}
use guild_net.Deploy.{
  post_verb, ApiRequest, Reply, json, Outside, auth_ok, submitted, job_id, with_id, guarded_by,
}
use guild_net.Deploy.Headscales.{
  trim_both, headscale_verb, headscale_action, headscale_prefix, action_of, handle_headscale,
}

strip_prefix_self : (s : Text) → strip_prefix s s ≡ some []
unfolding strip_prefix
strip_prefix_self [] = refl
strip_prefix_self (c ∷ s) = ground (arith, strip_prefix_self s)

trim_prefix_self : (s : Text) → trim_prefix s s ≡ []
trim_prefix_self s = rw (strip_prefix_self s, trim_prefix) refl

module _ {S B : Type 0} (sql : Sql S B) (p : Persist S) (out : Outside B) (unicode_lower : ℕ → ℕ)
    (token : Text) where
  -- The id is all that follows the prefix, so nothing of the path is left for the action.
  action_of-path :
      (rest : Text) (req : ApiRequest)
      → req.path ≡ headscale_prefix ++ rest
      → trim_space (req.query (codes "action")) ≡ []
      → action_of sql p out unicode_lower token rest req ≡ []
  unfolding trim_both trim_slashes
  action_of-path rest req at blank =
      rw (blank, at) (ap trim_both (trim_prefix_self (headscale_prefix ++ rest)))

  with_id-filled :
      (id : Text) (r : Runner S) (rest : Runner S × Reply)
      → is_empty id ≡ false
      → with_id sql p out unicode_lower token id r rest ≡ rest
  with_id-filled id r rest filled = rw filled refl

  guarded_by-granted :
      (req : ApiRequest) (r : Runner S) (rest : Runner S × Reply)
      → auth_ok unicode_lower token req ≡ true
      → guarded_by sql p out unicode_lower token req r rest ≡ rest
  guarded_by-granted req r rest granted = rw granted refl

  -- An authorised POST below the route of a headscale whose query has no action submits, whatever
  -- follows the route's prefix, a job of the kind `headscale.`, whose id is all of what follows, the
  -- name of an action included; and the handler of that kind logs that it is not handled and does
  -- nothing else.
  pub handle_headscale-path_action :
      (now : Ambient) (db : Option S) (spec_json rest : Text) (req : ApiRequest) (r : Runner S)
      → req.verb ≡ post_verb
      → req.path ≡ headscale_prefix ++ rest
      → is_empty rest ≡ false
      → trim_space (req.query (codes "action")) ≡ []
      → auth_ok unicode_lower token req ≡ true
      → (handle_headscale sql p out unicode_lower token req r
          ≡ submitted sql p out unicode_lower token
              (codes "headscale.")
              ((codes "id", str rest) ∷ [])
              (json 202 (job_id sql p out unicode_lower token))
              r)
        × (handler_for sql out.marshal out.unmarshal now out.decode out.print
              (codes "headscale.")
              db
              spec_json
            ≡ log
                (codes "noop")
                (codes "unhandled job kind")
                ((codes "kind", str (codes "headscale.")) ∷ [])
              ∷ set_progress float_one
              ∷ [])
  unfolding handle_headscale handler_for text_eq
  handle_headscale-path_action now db spec_json rest req r posts at filled blank granted =
      let id = ap (trim_prefix headscale_prefix) at ∙ trim_prefix-append headscale_prefix rest in
      (
        ap
              (λ i.
                with_id sql p out unicode_lower token i r
                  (headscale_verb sql p out unicode_lower token req.verb i req r))
              id
            ∙ (with_id-filled rest r
                  (headscale_verb sql p out unicode_lower token req.verb rest req r) filled
                ∙ (ap (λ v. headscale_verb sql p out unicode_lower token v rest req r) posts
                    ∙ (guarded_by-granted req r _ granted
                        ∙ ap
                            (λ action.
                              headscale_action sql p out unicode_lower token rest action req r)
                            (action_of-path rest req at blank)))),
        refl,
      )
