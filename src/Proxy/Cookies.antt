-- ===== src/Proxy/Cookies.antt =====
-- The attributes of a rewritten cookie.
use guild_net.Prelude.{
  ℕ, Bool, false, ◌&&◌, ◌||◌, not, Option, List, [], ◌∷◌, ◌++◌, ◌≡◌, refl, Text, codes, text_eq,
  text_eq_inst, nat_eq, ◌==◌, arith, any, drop,
}
use guild_net.Prelude.Strings.{trim_space, has_prefix, strip_prefix, to_lower, lower_char}
use guild_net.Proxy.Headers.{
  CookieScan, cookie_path, scan_attribute, scan_attributes, added, cookie_parts,
}

any-append : (q : Text → Bool) (xs ys : List Text) → any q (xs ++ ys) ≡ (any q xs || any q ys)
unfolding any
any-append q [] ys = refl
any-append q (x ∷ xs) ys = ground (arith, any-append q xs ys)

-- the kinds of attribute, on the text in lower case
abbrev secure : Text → Bool
secure lp = lp == codes "secure"

abbrev same_site : Text → Bool
same_site lp = has_prefix (codes "samesite=") lp

abbrev domain : Text → Bool
domain lp = has_prefix (codes "domain=") lp

same_site-secure : (lp : Text) → (same_site lp && secure lp) ≡ false
unfolding strip_prefix text_eq
same_site-secure [] = refl
same_site-secure (a ∷ []) = ground arith
same_site-secure (a ∷ b ∷ s) = ground arith

domain-secure : (lp : Text) → (domain lp && secure lp) ≡ false
unfolding strip_prefix text_eq
domain-secure [] = refl
domain-secure (a ∷ s) = ground arith

domain-same_site : (lp : Text) → (domain lp && same_site lp) ≡ false
unfolding strip_prefix
domain-same_site [] = refl
domain-same_site (a ∷ s) = ground arith

module _ (unicode_lower : ℕ → ℕ) where
  abbrev pub is_secure : Text → Bool
  is_secure p = secure (to_lower unicode_lower p)

  abbrev pub is_same_site : Text → Bool
  is_same_site p = same_site (to_lower unicode_lower p)

  abbrev pub is_domain : Text → Bool
  is_domain p = domain (to_lower unicode_lower p)

  module _ (url_path : Text → Option Text) (base : Text) where
    path_other :
        (any is_secure (cookie_path unicode_lower url_path base ∷ []) ≡ false)
        × (any is_same_site (cookie_path unicode_lower url_path base ∷ []) ≡ false)
        × (any is_domain (cookie_path unicode_lower url_path base ∷ []) ≡ false)
    unfolding any strip_prefix text_eq lower_char
    path_other = (refl, refl, refl)

    scan_attribute-secure :
        (p : Text) (c : CookieScan)
        → any is_secure c.out ≡ false
        → (any is_secure (scan_attribute unicode_lower url_path base p c).out ≡ false)
          × ((scan_attribute unicode_lower url_path base p c).has_secure
              ≡ (is_secure p || c.has_secure))
    unfolding any text_eq
    scan_attribute-secure [] c h = (h, refl)
    scan_attribute-secure (a ∷ s) c h =
        let lp = to_lower unicode_lower (a ∷ s) in
        ground (
          arith,
          h,
          same_site-secure lp,
          domain-secure lp,
          path_other.0,
          any-append is_secure c.out (cookie_path unicode_lower url_path base ∷ []),
          any-append is_secure c.out ((a ∷ s) ∷ []),
        )

    no_same_site : is_same_site [] ≡ false
    unfolding strip_prefix
    no_same_site = refl

    no_domain : is_domain [] ≡ false
    unfolding strip_prefix
    no_domain = refl

    scan_attribute-same_site :
        (p : Text) (c : CookieScan)
        → any is_same_site c.out ≡ false
        → (any is_same_site (scan_attribute unicode_lower url_path base p c).out ≡ false)
          × ((scan_attribute unicode_lower url_path base p c).has_same_site
              ≡ (is_same_site p || c.has_same_site))
    unfolding any
    scan_attribute-same_site [] c h = (h, rw no_same_site refl)
    scan_attribute-same_site (a ∷ s) c h =
        let lp = to_lower unicode_lower (a ∷ s) in
        ground (
          arith,
          h,
          domain-same_site lp,
          path_other.1,
          any-append is_same_site c.out (cookie_path unicode_lower url_path base ∷ []),
          any-append is_same_site c.out ((a ∷ s) ∷ []),
        )

    scan_attribute-domain :
        (p : Text) (c : CookieScan)
        → any is_domain c.out ≡ false
        → any is_domain (scan_attribute unicode_lower url_path base p c).out ≡ false
    unfolding any
    scan_attribute-domain [] c h = h
    scan_attribute-domain (a ∷ s) c h = ground (
      arith,
      h,
      path_other.2,
      any-append is_domain c.out (cookie_path unicode_lower url_path base ∷ []),
      any-append is_domain c.out ((a ∷ s) ∷ []),
    )

    scan_attributes-Fits :
        (parts : List Text) (c : CookieScan)
        → any is_secure c.out ≡ false
        → any is_same_site c.out ≡ false
        → any is_domain c.out ≡ false
        → let end = scan_attributes unicode_lower url_path base parts c in
          (any is_secure end.out ≡ false)
          × (any is_same_site end.out ≡ false)
          × (any is_domain end.out ≡ false)
          × (end.has_secure ≡ (any (λ p. is_secure (trim_space p)) parts || c.has_secure))
          × (end.has_same_site ≡ (any (λ p. is_same_site (trim_space p)) parts || c.has_same_site))
    unfolding scan_attributes any
    scan_attributes-Fits [] c hs hm hd = (hs, hm, hd, refl, refl)
    scan_attributes-Fits (p ∷ parts) c hs hm hd =
        let c' = scan_attribute unicode_lower url_path base (trim_space p) c in
        let (s, s_flag) = scan_attribute-secure (trim_space p) c hs in
        let (m, m_flag) = scan_attribute-same_site (trim_space p) c hm in
        let d = scan_attribute-domain (trim_space p) c hd in
        let (es, em, ed, e_flag, f_flag) = scan_attributes-Fits parts c' s m d in
        (es, em, ed, ground (arith, e_flag, s_flag), ground (arith, f_flag, m_flag))

    added-attributes :
        (c : CookieScan)
        → (any is_secure (added unicode_lower url_path base c) ≡ not c.has_secure)
          × (any is_same_site (added unicode_lower url_path base c) ≡ not c.has_same_site)
          × (any is_domain (added unicode_lower url_path base c) ≡ false)
    unfolding any lower_char strip_prefix text_eq
    added-attributes c = (ground arith, ground arith, ground arith)

    -- The attributes of a rewritten cookie have no domain, and have Secure exactly if the cookie had
    -- no Secure, and SameSite exactly if it had no SameSite: what the cookie already had is lost.
    cookie_parts_attributes :
        (nv : Text) (parts : List Text)
        → let out = drop 1 (cookie_parts unicode_lower url_path base (nv ∷ parts)) in
          (any is_secure out ≡ not (any (λ p. is_secure (trim_space p)) parts))
          × (any is_same_site out ≡ not (any (λ p. is_same_site (trim_space p)) parts))
          × (any is_domain out ≡ false)
    unfolding any
    cookie_parts_attributes nv parts =
        let start : CookieScan = record {
          out = [];
          has_secure = false;
          has_same_site = false;
          has_path = false;
        } in
        let end = scan_attributes unicode_lower url_path base parts start in
        let (s, m, d, s_flag, m_flag) = scan_attributes-Fits parts start refl refl refl in
        let (with_secure, with_same_site, no_more) = added-attributes end in
        (
          ground (arith, any-append is_secure end.out (added unicode_lower url_path base end)),
          ground (arith, any-append is_same_site end.out (added unicode_lower url_path base end)),
          ground (arith, any-append is_domain end.out (added unicode_lower url_path base end)),
        )
