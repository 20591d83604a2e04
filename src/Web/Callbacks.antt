-- ===== src/Web/Callbacks.antt =====
-- src/fastauth/web/callbacks.py and src/fastauth/flows/callbacks.py, without the base URL of a request,
-- which reads proxy headers. The validation of an HTTP URL is pydantic's, and a parameter.
use fastauth.Prelude.{
  String, Bool, true, false, not, ◌&&◌, ◌||◌, Option, none, some, List, [], ◌∷◌, ◌++◌, ◌==◌,
  starts_with, strip_left, strip_right, if◌then◌else◌,
}
use fastauth.Domain.Errors.{Result, ok, err, invalid_request, config_error}
use fastauth.Web.Csrf.{UrlTools, CsrfOptions, is_trusted_origin}
use Prim.Native.String as Text

-- The options of a base URL that depends on the request, of which these flows read the fallback.
pub data BaseUrl : Type 0 where
  fixed : String → BaseUrl
  dynamic : Option String → BaseUrl

unfoldable pub strip_trailing_slash : String → String
strip_trailing_slash value = strip_right "/" value

unfoldable pub resolve_configured_base_url : BaseUrl → Result String
unfolding strip_trailing_slash
resolve_configured_base_url (fixed base_url) = ok (strip_trailing_slash base_url)
resolve_configured_base_url (dynamic none) = err config_error
resolve_configured_base_url (dynamic (some fallback)) = ok (strip_trailing_slash fallback)

-- The origins that the configuration trusts, with the one of the base URL.
unfoldable pub trusted_callback_origins :
    UrlTools → CsrfOptions → List String → Option String → List String
trusted_callback_origins tools config plugin_origins none = config.trusted_origins ++ plugin_origins
trusted_callback_origins tools config plugin_origins (some base_url) =
    let parsed = tools.urlparse base_url in
    let trusted = config.trusted_origins ++ plugin_origins in
    if not (parsed.scheme == "") && not (parsed.netloc == "")
    then trusted ++ (Text.◌++◌ parsed.scheme (Text.◌++◌ "://" parsed.netloc) ∷ [])
    else trusted

abbrev pub is_empty : List String → Bool
is_empty [] = true
is_empty (origin ∷ origins) = false

-- The test of a value that is a text.
unfoldable pub validate_candidate : UrlTools → String → List String → Bool → Result (Option String)
validate_candidate tools candidate trusted_origins allow_relative =
    if candidate == ""
    then err invalid_request
    else if starts_with candidate "/"
    then if starts_with candidate "//" || not allow_relative
      then err invalid_request
      else ok (some candidate)
    else if not (tools.is_http_url candidate)
    then err invalid_request
    else if not (is_empty trusted_origins)
        && not (is_trusted_origin tools candidate trusted_origins false)
    then err invalid_request
    else ok (some candidate)

unfoldable pub validate_callback_url :
    UrlTools → Option String → List String → Bool → Result (Option String)
unfolding validate_candidate
validate_callback_url tools none trusted_origins allow_relative = ok none
validate_callback_url tools (some value) trusted_origins allow_relative =
    validate_candidate tools (tools.strip value) trusted_origins allow_relative

-- `app_base_url or context.config.app.base_url`, without a slash at the end.
unfoldable pub base_url_of : Option String → BaseUrl → Result String
unfolding strip_trailing_slash resolve_configured_base_url
base_url_of none configured = resolve_configured_base_url configured
base_url_of (some app_base_url) configured =
    if app_base_url == ""
    then resolve_configured_base_url configured
    else ok (strip_trailing_slash app_base_url)

unfoldable pub with_path : String → Result String → Result String
with_path callback_path (ok base_url) =
    ok (Text.◌++◌ base_url (Text.◌++◌ "/" (strip_left "/" callback_path)))
with_path callback_path (err e) = err e

-- `build_callback_url`, which `resolve_callback_url` calls.
unfoldable pub build_callback_url : Option String → BaseUrl → String → Option String → Result String
unfolding strip_trailing_slash base_url_of with_path
build_callback_url app_base_url configured callback_path (some override) =
    ok (strip_trailing_slash override)
build_callback_url app_base_url configured callback_path none =
    with_path callback_path (base_url_of app_base_url configured)
