-- ===== src/Web/Csrf.antt =====
-- src/fastauth/web/csrf.py. The parsing of URLs, the case of texts and the decoding of headers are
-- Python's, and parameters. What the middleware calls when it lets a request through is the
-- application's; the model says whether it does.
pub mod Origins
use fastauth.Prelude.{
  String, Bool, true, false, not, ◌&&◌, ◌||◌, Option, none, some, List, [], ◌∷◌, ◌++◌, ◌==◌, any,
  contains, in_text, ends_with, strip_left, tail, starts_with, if◌then◌else◌,
}
use fastauth.Dict.{Dict, get, put}

-- `scheme` and `netloc` of the result of `urlparse`.
pub record Url : Type 0 where
  pub scheme : String
  pub netloc : String

-- What the checks use of Python's texts and of `urllib.parse`.
pub record UrlTools : Type 0 where
  pub lower : String → String
  pub upper : String → String
  pub strip : String → String
  pub urlparse : String → Url
  pub is_http_url : String → Bool
  pub urlencode : Dict String → String
  pub quote : String → String

-- The fields of `CsrfOptions`.
pub record CsrfOptions : Type 0 where
  pub enabled : Bool
  pub trusted_origins : List String
  pub require_origin : Bool
  pub allow_relative_paths : Bool

unfoldable pub matches_origin : String → String → Bool
matches_origin actual_host pattern_host =
    let suffix = tail pattern_host in
    let bare = strip_left "." suffix in
    if pattern_host == actual_host
    then true
    else if starts_with pattern_host "*."
    then ends_with actual_host suffix && not (actual_host == bare)
    else false

-- One entry of `trusted`.
unfoldable pub matches_entry : UrlTools → Url → String → Bool
unfolding matches_origin
matches_entry tools parsed pattern =
    let parsed_pattern = tools.urlparse pattern in
    if not (parsed_pattern.scheme == parsed.scheme)
    then false
    else matches_origin parsed.netloc parsed_pattern.netloc

unfoldable pub is_trusted_origin : UrlTools → String → List String → Bool → Bool
unfolding matches_entry
is_trusted_origin tools url trusted allow_relative =
    let parsed = tools.urlparse url in
    if starts_with url "/"
    then allow_relative
    else if parsed.scheme == "" || parsed.netloc == ""
    then false
    else any (matches_entry tools parsed) trusted

abbrev pub safe_methods : List String
safe_methods = "GET" ∷ "HEAD" ∷ "OPTIONS" ∷ []

-- `scope`, with its headers decoded.
pub record Request : Type 0 where
  pub kind : String
  pub method : Option String
  pub headers : List (String × String)

-- The dictionary of the headers: the last one of a name counts.
unfoldable pub header_table : (String → String) → Dict String → List (String × String) → Dict String
header_table lower table [] = table
header_table lower table ((name, value) ∷ headers) =
    header_table lower (put table (lower name) value) headers

-- `headers.get(name, "")`
unfoldable pub header : Dict String → String → String
header table name = elim (get table name) [ none ↦ "" | some value ↦ value ]

abbrev pub or_default : Option String → String → String
or_default none t = t
or_default (some s) t = s

-- `headers.get("origin") or headers.get("referer", "")`
unfoldable pub origin_of : Dict String → String
unfolding header
origin_of table =
    let origin = header table "origin" in if origin == "" then header table "referer" else origin

module _ (tools : UrlTools) (config : CsrfOptions) (additional_trusted_origins : List String)
    (cookie_name : String) where
  unfoldable pub is_bearer_only : Dict String → Bool
  unfolding header
  is_bearer_only table =
      not (in_text cookie_name (header table "cookie"))
      && starts_with (tools.lower (header table "authorization")) "bearer "

  -- The checks of an unsafe request.
  unfoldable pub admits_headers : Dict String → Bool
  unfolding is_bearer_only origin_of is_trusted_origin
  admits_headers table =
      let origin = origin_of table in
      if is_bearer_only table
      then true
      else if origin == "" && not config.require_origin
      then true
      else not (origin == "")
        && is_trusted_origin tools origin (config.trusted_origins ++ additional_trusted_origins)
            config.allow_relative_paths

  -- `__call__`: whether the application is called. Otherwise the answer is 403.
  unfoldable pub admits : Request → Bool
  unfolding admits_headers header_table
  admits request =
      if not config.enabled || not (request.kind == "http")
      then true
      else if contains (tools.upper (or_default request.method "GET")) safe_methods
      then true
      else admits_headers (header_table tools.lower [] request.headers)
