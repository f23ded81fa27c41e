-- ===== src/Tests/Auth.antt =====
-- The results on the shared secret at fixed inputs.
use llopster.Base.{
  ◌≡◌, refl, Option, Bool, none, some, ◌++◌, ◌&&◌, if◌then◌else◌, Text, lit, text_eq, strip,
}
use llopster.Store.{set_setting, put_setting}
use llopster.Process.World.{World, ok, ◌>>=◌}
use llopster.Api.Auth.{
  require_inbound_auth, resolve_api_token, api_token_setting, passed, unauthorized,
}
use llopster.Api.Guard.{
  is_ascii, IsGuarded, require_inbound_auth_passes, require_inbound_auth_bearer,
}
use llopster.Tests.Data

-- `hmac.compare_digest`, as documented.
abbrev compare_digest : Text → Text → Option Bool
unfolding is_ascii text_eq
compare_digest a b = if is_ascii a && is_ascii b then some (text_eq a b) else none

abbrev no_basic : Text → Option Text
no_basic s = none

-- A secret with a space at its end is stored, and another is configured.
abbrev secured : World
unfolding set_setting put_setting lit
secured = record Data.world { db = set_setting api_token_setting (lit "s3cret ") Data.db }

wrong_secret :
    (require_inbound_auth no_basic compare_digest (lit "other") (lit "Bearer other") secured).0
    ≡ ok unauthorized
unfolding require_inbound_auth ◌>>=◌ compare_digest secured lit
wrong_secret = refl

require_inbound_auth_passes_example :
    IsGuarded no_basic compare_digest (lit "other") (lit "Bearer s3cret") secured
unfolding compare_digest
require_inbound_auth_passes_example =
    require_inbound_auth_passes compare_digest (λ a b. refl) no_basic (lit "other")
      (lit "Bearer s3cret") secured

require_inbound_auth_bearer_example :
    (require_inbound_auth no_basic compare_digest
      (lit "other")
      (lit "Bearer " ++ lit "s3cret")
      secured).0
    ≡ ok passed
unfolding resolve_api_token ◌>>=◌ compare_digest secured lit strip
require_inbound_auth_bearer_example =
    require_inbound_auth_bearer compare_digest (λ a b. refl) no_basic (lit "other") (lit "s3cret")
      secured refl refl refl
