-- ===== src/Web/Csrf/Origins.antt =====
-- What it takes for an origin to be trusted, in terms of hosts and their parts.
use fastauth.Prelude.{
  String, ◌≡◌, sym, ap, ◌∙◌, Bool, true, false, ◌⊎◌, inl, inr, List, [], ◌∷◌, ◌++◌, ◌==◌, any,
  contains, in_text, ends_with, tail, starts_with, arith, eq_iff, eq_refl, Bool-cases,
}
use fastauth.Web.Csrf.{
  UrlTools, CsrfOptions, Request, matches_origin, matches_entry, is_trusted_origin, admits,
  header_table, header, origin_of, or_default, safe_methods,
}
use Prim.Native.String as Text
use fastauth.Prelude.Suffix.{ends_with-append, tail-wildcard}
use text.Mathlib.TextEquality.{starts_with_iff}

-- The host is the pattern's, or it has at least one label before what follows the pattern's `*`.
abbrev pub IsHostOf : String → String → Type 0
IsHostOf pattern host =
    (pattern ≡ host)
    ⊎ ((label : String) × (domain : String) × (pattern ≡ Text.◌++◌ "*." domain)
        × (host ≡ Text.◌++◌ label (Text.◌++◌ "." domain)))

matches_origin-IsHostOf :
    (host pattern : String) → matches_origin host pattern ≡ true → IsHostOf pattern host
unfolding matches_origin
matches_origin-IsHostOf host pattern e = elim (Bool-cases (pattern == host)) [
  | inl same ↦ inl (ground (arith, eq_iff pattern host))
  | inr other ↦
      let wild : starts_with pattern "*." ≡ true = ground arith in
      let ending : ends_with host (tail pattern) ≡ true = ground arith in
      let (domain, pattern_is) = (starts_with_iff pattern "*.").0 wild in
      let (label, host_is) = ends_with-append host (tail pattern) ending in
      inr (
        label,
        domain,
        sym pattern_is,
        host_is ∙ ap (Text.◌++◌ label) (ap tail (sym pattern_is) ∙ tail-wildcard domain),
      )
]

-- Some entry of a list of trusted origins has the scheme of the URL, and a host that the URL's is of.
abbrev pub IsTrusted : UrlTools → List String → String → Type 0
IsTrusted tools trusted url =
    (entry : String) × (contains entry trusted ≡ true)
    × ((tools.urlparse entry).scheme ≡ (tools.urlparse url).scheme)
    × IsHostOf (tools.urlparse entry).netloc (tools.urlparse url).netloc

any-IsTrusted :
    (tools : UrlTools) (url : String) (trusted : List String)
    → any (matches_entry tools (tools.urlparse url)) trusted ≡ true
    → IsTrusted tools trusted url
unfolding matches_entry
any-IsTrusted tools url [] e = ground arith
any-IsTrusted tools url (entry ∷ trusted) e =
    elim (Bool-cases (matches_entry tools (tools.urlparse url) entry)) [
      | inl matched ↦
          let scheme : ((tools.urlparse entry).scheme == (tools.urlparse url).scheme) ≡ true =
            ground arith in
          let host : matches_origin (tools.urlparse url).netloc (tools.urlparse entry).netloc
              ≡ true =
            ground arith in
          (
            entry,
            ground (arith, eq_refl entry),
            ground (arith, eq_iff (tools.urlparse entry).scheme (tools.urlparse url).scheme),
            matches_origin-IsHostOf (tools.urlparse url).netloc (tools.urlparse entry).netloc host,
          )
      | inr other ↦
          let (found, member, scheme, host) = any-IsTrusted tools url trusted (ground arith) in
          (found, ground arith, scheme, host)
    ]

is_trusted_origin-IsTrusted :
    (tools : UrlTools) (url : String) (trusted : List String) (allow_relative : Bool)
    → starts_with url "/" ≡ false
    → is_trusted_origin tools url trusted allow_relative ≡ true
    → IsTrusted tools trusted url
unfolding is_trusted_origin
is_trusted_origin-IsTrusted tools url trusted allow_relative absolute e =
    any-IsTrusted tools url trusted (ground arith)

-- With the protection enabled and the origin required: let an HTTP request whose method is not safe
-- carry the session cookie, and let its origin, the header Origin or else Referer, not be a relative
-- path. If the request is let through, then some entry of the trusted origins has the scheme of the
-- request's origin, and its host is that origin's host, or it is `*.` and a domain, and the origin's
-- host ends in a dot and that domain.
pub admits-IsTrusted :
    (tools : UrlTools) (config : CsrfOptions) (additional_trusted_origins : List String)
    (cookie_name : String) (request : Request)
    → let table = header_table tools.lower [] request.headers in
      config.enabled ≡ true
      → config.require_origin ≡ true
      → (request.kind == "http") ≡ true
      → contains (tools.upper (or_default request.method "GET")) safe_methods ≡ false
      → in_text cookie_name (header table "cookie") ≡ true
      → starts_with (origin_of table) "/" ≡ false
      → admits tools config additional_trusted_origins cookie_name request ≡ true
      → IsTrusted tools (config.trusted_origins ++ additional_trusted_origins) (origin_of table)
unfolding admits
admits-IsTrusted tools config additional_trusted_origins cookie_name request on strict http unsafe
      cookie absolute admitted =
    let origin = origin_of (header_table tools.lower [] request.headers) in
    let trusted = config.trusted_origins ++ additional_trusted_origins in
    let passed : is_trusted_origin tools origin trusted config.allow_relative_paths ≡ true =
      ground arith in
    is_trusted_origin-IsTrusted tools origin trusted config.allow_relative_paths absolute passed
