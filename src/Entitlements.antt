-- ===== src/Entitlements.antt =====
-- agent/license.py and agent/entitlements.py. The decoding of a signed key (`jwt.decode`) is a
-- parameter; so are the environment and the override. `fromtimestamp` raises on a time behind the
-- year 9999, which is none here.
pub mod Closed
use llopster.Base.{
  ℕ, Option, none, some, List, [], ◌∷◌, ◌++◌, Bool, true, false, if◌then◌else◌, is_empty, not, leb,
  filter, map, Text, lit, strip, split_on, member,
}
use llopster.Base.Int.{ℤ}
use llopster.Alerts.{or_empty}

pub data Source : Type 0 where
  embedded licensed invalid : Source

pub record License : Type 0 where
  pub tier : Text
  pub features : List Text
  pub valid : Bool
  pub source : Source
  pub license_id : Option Text
  pub expires_at : Option ℕ
  pub clusters : Option ℤ
  pub reason : Option Text

-- The claims of a verified key. `features` is none where the claim is missing or no list; an entry
-- is its `str`, and empty where it is falsy. `exp`, in seconds, and `clusters` are none where they
-- are no numbers.
pub record Claims : Type 0 where
  pub tier : Option Text
  pub features : Option (List Text)
  pub exp : Option ℕ
  pub clusters : Option ℤ
  pub license_id : Option Text
  pub sub : Option Text

-- What `jwt.decode` returns or raises.
pub data Decoded : Type 0 where
  claims : Claims → Decoded
  expired_signature : Decoded
  invalid_token : Text → Decoded

-- `License.is_enabled`
unfoldable pub is_enabled : License → Text → Bool
unfolding member
is_enabled license feature = if is_empty feature then false else member feature license.features

unfoldable pub community : Source → Option Text → License
community source reason = record {
  tier = lit "community";
  features = [];
  valid = true;
  source = source;
  license_id = none;
  expires_at = none;
  clusters = none;
  reason = reason;
}

abbrev pub listed_features : Option (List Text) → List Text
listed_features none = []
listed_features (some features) = filter (λ f. not (is_empty f)) features

-- The last second of the year 9999.
abbrev pub max_timestamp : ℕ
max_timestamp = 253402300799

abbrev pub or_second : Option Text → Option Text → Option Text
or_second first second = if is_empty (or_empty first) then second else first

abbrev pub tier_of : Option Text → Text
tier_of none = lit "unknown"
tier_of (some tier) = tier

unfoldable pub license_of : Claims → Option ℕ → License
license_of c expires_at = record {
  tier = tier_of c.tier;
  features = listed_features c.features;
  valid = true;
  source = licensed;
  license_id = or_second c.license_id c.sub;
  expires_at = expires_at;
  clusters = c.clusters;
  reason = none;
}

abbrev pub dated : Claims → Option ℕ → Option License
dated c none = some (license_of c none)
dated c (some exp) = if leb exp max_timestamp then some (license_of c (some exp)) else none

abbrev pub accept : Decoded → Option License
accept (claims c) = dated c c.exp
accept expired_signature = some (community invalid (some (lit "expired")))
accept (invalid_token e) = some (community invalid (some (lit "invalid: " ++ e)))

module _ (decode : Text → Decoded) where
  -- For the embedded public key.
  unfoldable pub verify_license : Option Text → Option License
  unfolding strip community license_of
  verify_license raw_jwt =
      let raw = strip (or_empty raw_jwt) in
      if is_empty raw then some (community embedded none) else accept (decode raw)

  module _ (override_key : Option Text) (env_key : Text) where
    abbrev pub effective_raw_key : Text
    effective_raw_key = elim override_key [ none ↦ env_key | some key ↦ key ]

    unfoldable pub get_active_license : Option License
    unfolding verify_license
    get_active_license = verify_license (some effective_raw_key)

    -- Of the active licence.
    unfoldable pub is_feature_enabled : Text → Option Bool
    unfolding get_active_license is_enabled
    is_feature_enabled feature = elim get_active_license [
      | none ↦ none
      | some license ↦ some (is_enabled license feature)
    ]

abbrev pub nonempty_parts : List Text → List Text
nonempty_parts parts = filter (λ part. not (is_empty part)) (map strip parts)

-- For the value of the environment variable, empty where it is not set.
unfoldable pub entitled_pack_ids : Text → List Text
unfolding strip split_on
entitled_pack_ids token =
    let raw = strip token in if is_empty raw then [] else nonempty_parts (split_on b',' raw)

abbrev pub or_listed : Option Bool → Bool → Option Bool
or_listed none listed = none
or_listed (some true) listed = some true
or_listed (some false) listed = some listed

module _ (decode : Text → Decoded) (override_key : Option Text) (env_key token : Text) where
  unfoldable pub is_pack_enabled : Text → Option Bool
  unfolding is_feature_enabled entitled_pack_ids member lit
  is_pack_enabled pack_id =
      if is_empty pack_id
      then some false
      else or_listed (is_feature_enabled decode override_key env_key (lit "pack:" ++ pack_id))
          (member pack_id (entitled_pack_ids token))
