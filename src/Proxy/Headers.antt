-- ===== src/Proxy/Headers.antt =====
-- internal/proxy/reverse_proxy.go: the rewriting of a response's headers for a frame below the proxy.
-- `url_path` is the path of a text that url.Parse reads, and `absolute` what it reads of an absolute
-- URL: its path, and the URL printed again.
use guild_net.Prelude.{
  ℕ, Bool, true, false, ◌&&◌, ◌||◌, Option, none, some, List, [], ◌∷◌, ◌++◌, Text, codes,
  text_eq_inst, nat_eq, ◌==◌, if◌then◌else◌, is_empty, any, map,
}
use guild_net.Prelude.Strings.{trim_space, split, contains, has_prefix, to_lower}

abbrev pub slash : ℕ
slash = b'/'

-- `strings.Join` by "; "
unfoldable pub join_parts : List Text → Text
join_parts [] = []
join_parts (p ∷ []) = p
join_parts (p ∷ q ∷ parts) = p ++ (codes "; " ++ join_parts (q ∷ parts))

-- `strings.TrimRight(s, "/")`
unfoldable pub trim_slashes : Text → Text
trim_slashes [] = []
trim_slashes (c ∷ s) =
    let rest = trim_slashes s in if is_empty rest && c == slash then [] else c ∷ rest

abbrev pub ends_slash : Text → Bool
ends_slash [] = false
ends_slash (c ∷ []) = c == slash
ends_slash (c ∷ d ∷ s) = ends_slash (d ∷ s)

abbrev pub starts_slash : Text → Bool
starts_slash [] = false
starts_slash (c ∷ s) = c == slash

abbrev pub tail : Text → Text
tail [] = []
tail (c ∷ s) = s

-- `singleJoiningSlash`
abbrev pub joining_slash : Bool → Bool → Text → Text → Text
joining_slash true true a b = a ++ tail b
joining_slash false false a b = a ++ slash ∷ b
joining_slash _ _ a b = a ++ b

unfoldable pub single_joining_slash : Text → Text → Text
single_joining_slash a b = joining_slash (ends_slash a) (starts_slash b) a b

-- `rewriteLocation`
abbrev pub rewrite_absolute : Text → Text × Text → Text
rewrite_absolute base (path, printed) =
    if is_empty path || starts_slash path
    then trim_slashes base ++ path
    else trim_slashes base ++ slash ∷ printed

abbrev pub rewrite_path : Text → Text → Text
rewrite_path base loc =
    if starts_slash loc then trim_slashes base ++ loc else trim_slashes base ++ slash ∷ loc

abbrev pub rewrite_parsed : Text → Text → Option (Text × Text) → Text
rewrite_parsed base loc (some u) = rewrite_absolute base u
rewrite_parsed base loc none = rewrite_path base loc

unfoldable pub rewrite_location : (Text → Option (Text × Text)) → Text → Text → Text
rewrite_location absolute loc base =
    if is_empty loc then loc else rewrite_parsed base loc (absolute loc)

abbrev pub filled : List Text → List Text
filled [] = []
filled (p ∷ parts) =
    let rest = filled parts in if is_empty (trim_space p) then rest else trim_space p ∷ rest

-- what the loop over the attributes of a cookie has found and kept so far
pub record CookieScan : Type 0 where
  pub out : List Text
  pub has_secure : Bool
  pub has_same_site : Bool
  pub has_path : Bool

module _ (unicode_lower : ℕ → ℕ) where
  abbrev pub is_ancestors : Text → Bool
  is_ancestors p = contains (to_lower unicode_lower p) (codes "frame-ancestors")

  abbrev pub relaxed : Text → Text
  relaxed p = if is_ancestors p then codes " frame-ancestors *" else p

  -- `relaxFrameAncestors`
  unfoldable pub relax_frame_ancestors : Text → Text
  relax_frame_ancestors csp =
      let parts = split b';' csp in
      let parts' =
        if any is_ancestors parts
        then map relaxed parts
        else map relaxed parts ++ codes " frame-ancestors *" ∷ [] in
      if is_empty csp then codes "frame-ancestors *" else join_parts (filled parts')

  module _ (url_path : Text → Option Text) where
    abbrev pub or_base : Text → Option Text → Text
    or_base base none = base
    or_base base (some path) = path

    -- the path attribute of a cookie: the path of the base, or the root
    abbrev pub cookie_path : Text → Text
    cookie_path base =
        let path = or_base base (url_path base) in
        codes "Path=" ++ (if is_empty path then codes "/" else path)

    -- one round of the loop, for the trimmed attribute
    abbrev pub scan_attribute : Text → Text → CookieScan → CookieScan
    scan_attribute base p c =
        let lp = to_lower unicode_lower p in
        if is_empty p
        then c
        else (if has_prefix (codes "domain=") lp
            then c
            else (if has_prefix (codes "samesite=") lp
                then record c { has_same_site = true }
                else (if lp == codes "secure"
                    then record c { has_secure = true }
                    else (if has_prefix (codes "path=") lp
                        then record c { out = c.out ++ cookie_path base ∷ []; has_path = true }
                        else record c { out = c.out ++ p ∷ [] }))))

    unfoldable pub scan_attributes : Text → List Text → CookieScan → CookieScan
    scan_attributes base [] c = c
    scan_attributes base (p ∷ parts) c =
        scan_attributes base parts (scan_attribute base (trim_space p) c)

    -- the attributes that are added at the end
    abbrev pub added : Text → CookieScan → List Text
    added base c =
        (if c.has_secure then [] else codes "Secure" ∷ [])
        ++ ((if c.has_same_site then [] else codes "SameSite=None" ∷ [])
            ++ (codes "Partitioned" ∷ [] ++ (if c.has_path then [] else cookie_path base ∷ [])))

    abbrev pub cookie_parts : Text → List Text → List Text
    cookie_parts base [] = []
    cookie_parts base (nv ∷ parts) =
        let c =
          scan_attributes base parts
            (record { out = []; has_secure = false; has_same_site = false; has_path = false }) in
        trim_space nv ∷ (c.out ++ added base c)

    -- `rewriteSetCookieForIframe`
    unfoldable pub rewrite_set_cookie : Text → Text → Text
    rewrite_set_cookie h base =
        if is_empty h then h else join_parts (cookie_parts base (split b';' h))
