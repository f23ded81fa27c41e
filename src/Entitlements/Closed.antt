-- ===== src/Entitlements/Closed.antt =====
-- agent/entitlements.py: a pack is enabled only where something grants it.
use llopster.Base.{
  ℕ, ◌≡◌, refl, sym, ◌∙◌, Option, none, some, [], ◌++◌, Bool, true, false, is_empty, Text, lit,
  strip, member, Bool-cases, inl, inr, ◌⊎◌, leb,
}
use mathlib.Core.Bool.{true≢false}
use llopster.Entitlements.{
  License, Claims, Decoded, claims, expired_signature, invalid_token, embedded, is_enabled,
  community, license_of, dated, accept, verify_license, effective_raw_key, get_active_license,
  is_feature_enabled, entitled_pack_ids, or_listed, is_pack_enabled, listed_features, max_timestamp,
}

-- The active key is verified, not empty, and its claims list the feature.
pub record Granted (decode : Text → Decoded) (key feature : Text) : Type 0 where
  pub claims_of : Claims
  pub present : is_empty (strip key) ≡ false
  pub verified : decode (strip key) ≡ claims claims_of
  pub listed : member feature (listed_features claims_of.features) ≡ true

some-true : {b : Bool} → some b ≡ some true → b ≡ true
some-true h = cc

none-true : none ≡ some true → ⊥
none-true h = cc

-- A feature of a licence is one that the key grants.
abbrev feature_of : Option License → Text → Option Bool
feature_of o feature = elim o [ none ↦ none | some license ↦ some (is_enabled license feature) ]

enabled_listed :
    (license : License) (feature : Text)
    → is_enabled license feature ≡ true
    → member feature license.features ≡ true
unfolding is_enabled
enabled_listed license feature h = elim (Bool-cases (is_empty feature)) [
  | inl e ↦ absurd (true≢false (sym (sym (rw e) ∙ h)))
  | inr e ↦ sym (rw e) ∙ h
]

none_listed : (feature : Text) → member feature [] ≡ true → ⊥
unfolding member
none_listed feature h = absurd (true≢false (sym h))

dated_listed :
    (c : Claims) (exp : Option ℕ) (feature : Text)
    → feature_of (dated c exp) feature ≡ some true
    → member feature (listed_features c.features) ≡ true
unfolding license_of
dated_listed c none feature h = enabled_listed (license_of c none) feature (some-true h)
dated_listed c (some exp) feature h = elim (Bool-cases (leb exp max_timestamp)) [
  | inl e ↦ enabled_listed (license_of c (some exp)) feature (some-true (sym (rw e) ∙ h))
  | inr e ↦ absurd (none-true (sym (rw e) ∙ h))
]

accept-Granted :
    (decode : Text → Decoded) (key feature : Text) (d : Decoded)
    → is_empty (strip key) ≡ false
    → decode (strip key) ≡ d
    → feature_of (accept d) feature ≡ some true
    → Granted decode key feature
unfolding community
accept-Granted decode key feature (claims c) p e h = record {
  claims_of = c;
  present = p;
  verified = e;
  listed = dated_listed c c.exp feature h;
}
accept-Granted decode key feature expired_signature p e h =
    absurd (none_listed feature (enabled_listed _ feature (some-true h)))
accept-Granted decode key feature (invalid_token x) p e h =
    absurd (none_listed feature (enabled_listed _ feature (some-true h)))

module _ (decode : Text → Decoded) (override_key : Option Text) (env_key : Text) where
  key-Granted :
      (key feature : Text)
      → feature_of (verify_license decode (some key)) feature ≡ some true
      → Granted decode key feature
  unfolding verify_license community
  key-Granted key feature h = elim (Bool-cases (is_empty (strip key))) [
    | inl e ↦ absurd (
        none_listed feature
          (enabled_listed (community embedded none) feature (some-true (sym (rw e) ∙ h))))
    | inr e ↦ accept-Granted decode key feature (decode (strip key)) e refl (sym (rw e) ∙ h)
  ]

  is_feature_enabled-Granted :
      (feature : Text)
      → is_feature_enabled decode override_key env_key feature ≡ some true
      → Granted decode (effective_raw_key decode override_key env_key) feature
  unfolding is_feature_enabled get_active_license
  is_feature_enabled-Granted feature h = key-Granted _ feature h

  module _ (token pack_id : Text) where
    -- If a pack is enabled, then its name is not empty, and the active key is not empty, verified and
    -- has the pack among its features, or the pack stands in the list of the environment variable. A
    -- key that is missing, expired or invalid enables none.
    pub is_pack_enabled-Granted :
        is_pack_enabled decode override_key env_key token pack_id ≡ some true
        → (is_empty pack_id ≡ false)
          × (Granted decode (effective_raw_key decode override_key env_key) (lit "pack:" ++ pack_id)
              ⊎ (member pack_id (entitled_pack_ids token) ≡ true))
    unfolding is_pack_enabled
    is_pack_enabled-Granted h = elim (Bool-cases (is_empty pack_id)) [
      | inl e ↦ absurd (true≢false (sym (some-true (sym (rw e) ∙ h))))
      | inr e ↦ (
        e,
        split (is_feature_enabled decode override_key env_key (lit "pack:" ++ pack_id)) refl
            (sym (rw e) ∙ h),
      )
    ]
      where
        split :
            (o : Option Bool)
            → is_feature_enabled decode override_key env_key (lit "pack:" ++ pack_id) ≡ o
            → or_listed o (member pack_id (entitled_pack_ids token)) ≡ some true
            → Granted decode
                (effective_raw_key decode override_key env_key)
                (lit "pack:" ++ pack_id)
              ⊎ (member pack_id (entitled_pack_ids token) ≡ true)
        split none e h = absurd (none-true h)
        split (some true) e h = inl (is_feature_enabled-Granted (lit "pack:" ++ pack_id) e)
        split (some false) e h = inr (some-true h)
