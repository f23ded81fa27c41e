-- ===== src/Api/Auth.antt =====
-- api/auth.py: the shared secret in front of the routes that write. The verdict stands for the
-- return or the exception of `require_inbound_auth`; log lines are left out.
use llopster.Base.{
  partition, Option, none, some, [], ◌∷◌, Bool, true, false, if◌then◌else◌, Text, lit, text_eq,
  strip, lower, is_empty,
}
use llopster.Store.{get_setting}
use llopster.Process.World.{M, Result, ok, raise, pure, attempt, query, ◌>>=◌}

-- `s or None`
abbrev pub or_none : Text → Option Text
or_none [] = none
or_none (c ∷ s) = some (c ∷ s)

abbrev pub password : Option Text → Option Text
unfolding partition
password none = none
password (some decoded) = or_none (partition b':' decoded).1

-- `base64.b64decode` with the decoding of its bytes is a parameter; it gives nothing where it
-- raises a ValueError.
unfoldable pub presented_secret : (Text → Option Text) → Text → Option Text
unfolding partition strip lower lit text_eq
presented_secret b64decode header =
    let scheme = lower (strip (partition b' ' header).0) in
    let value = strip (partition b' ' header).1 in
    if text_eq scheme (lit "bearer")
    then or_none value
    else if text_eq scheme (lit "basic")
    then password (b64decode value)
    else none

-- `return`, the exception with status 401, and the TypeError of `hmac.compare_digest`
pub data Verdict : Type 0 where
  passed unauthorized type_error : Verdict

abbrev pub api_token_setting : Text
api_token_setting = lit "api_auth_token"

-- A stored secret that is not blank wins over the configuration.
abbrev pub or_configured : Text → Result (Option Text) → Text
unfolding strip
or_configured configured (raise e) = configured
or_configured configured (ok none) = configured
or_configured configured (ok (some override)) =
    if is_empty (strip override) then configured else strip override

unfoldable pub resolve_api_token : Text → M Text
unfolding get_setting
resolve_api_token configured = do
  override ← attempt (query (get_setting api_token_setting))
  pure (or_configured configured override)

abbrev pub verdict_of : Option Bool → Verdict
verdict_of none = type_error
verdict_of (some true) = passed
verdict_of (some false) = unauthorized

-- `hmac.compare_digest` is a parameter; it gives nothing where it raises a TypeError.
abbrev pub judge : (Text → Text → Option Bool) → Text → Option Text → Verdict
judge compare_digest expected none = unauthorized
judge compare_digest expected (some presented) = verdict_of (compare_digest presented expected)

unfoldable pub require_inbound_auth :
    (Text → Option Text) → (Text → Text → Option Bool) → Text → Text → M Verdict
unfolding presented_secret resolve_api_token
require_inbound_auth b64decode compare_digest configured header = do
  expected ← resolve_api_token configured
  pure (
      if is_empty expected
      then passed
      else judge compare_digest expected (presented_secret b64decode header))
