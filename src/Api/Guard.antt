-- ===== src/Api/Guard.antt =====
-- api/auth.py: which requests `require_inbound_auth` lets pass.
use llopster.Base.{
  partition, lit, strip, ◌++◌, lower, ◌≡◌, refl, sym, ap, ◌∙◌, ◌↔◌, ◌⊎◌, inl, inr, Option, none,
  some, List, [], ◌∷◌, Bool, true, false, ◌&&◌, if◌then◌else◌, ltb, Text, text_eq, text_eq_refl,
  eq_of_text_eq, is_empty, some_inj, Bool-cases,
}
use llopster.Api.Auth.{or_none}
use llopster.Store.{Db, get_setting}
use llopster.Process.World.{World, ok, run_db, ◌>>=◌}
use llopster.Api.Auth.{
  presented_secret, resolve_api_token, require_inbound_auth, api_token_setting, or_configured,
  judge, verdict_of, passed,
}

-- `s.isascii()`
unfoldable pub is_ascii : Text → Bool
is_ascii [] = true
is_ascii (c ∷ s) = ltb c 128 && is_ascii s

-- What the library documents of `hmac.compare_digest` on texts: it compares texts of ASCII and
-- raises a TypeError for others.
abbrev pub IsDigest : (Text → Text → Option Bool) → Type 0
IsDigest compare_digest =
    (a b : Text)
    → compare_digest a b ≡ (if is_ascii a && is_ascii b then some (text_eq a b) else none)

-- A read leaves the state but for the list of faults.
query_frame :
    {A : Type 0} (f : Db → A) (faults : List Bool) (w : World)
    → ((run_db faults (λ db. (f db, db)) w).1.db ≡ w.db)
      × ((run_db faults (λ db. (f db, db)) w).1.effects ≡ w.effects)
query_frame f [] w = (refl, refl)
query_frame f (true ∷ faults) w = (refl, refl)
query_frame f (false ∷ faults) w = (refl, refl)

verdict_passed : (o : Option Bool) → ok (verdict_of o) ≡ ok passed → o ≡ some true
verdict_passed none h = cc
verdict_passed (some true) h = refl
verdict_passed (some false) h = cc

-- What the check of a request with this header comes to: there is an active secret; the request
-- passes exactly if the secret is empty, or it is in ASCII and presented; nothing is changed.
abbrev pub IsGuarded :
    (Text → Option Text) → (Text → Text → Option Bool) → Text → Text → World → Type 0
IsGuarded b64decode compare_digest configured header w =
    let after = require_inbound_auth b64decode compare_digest configured header w in
    (token : Text) × ((resolve_api_token configured w).0 ≡ ok token)
    × ((after.0 ≡ ok passed) ↔ (
        (token ≡ [])
        ⊎ ((presented_secret b64decode header ≡ some token) × (is_ascii token ≡ true))))
    × (after.1.db ≡ w.db)
    × (after.1.effects ≡ w.effects)

ok_inj : {a b : Text} → ok a ≡ ok b → a ≡ b
ok_inj h = cc

nil_of_is_empty : (s : Text) → is_empty s ≡ true → s ≡ []
nil_of_is_empty [] h = refl
nil_of_is_empty (c ∷ s) h = cc

or_none-full : (s : Text) → is_empty s ≡ false → or_none s ≡ some s
or_none-full [] h = cc
or_none-full (c ∷ s) h = refl

presented-bearer :
    (b64decode : Text → Option Text) (token : Text)
    → strip token ≡ token
    → is_empty token ≡ false
    → presented_secret b64decode (lit "Bearer " ++ token) ≡ some token
unfolding presented_secret partition lower lit text_eq
presented-bearer b64decode token e full = ap or_none e ∙ or_none-full token full

module _ (compare_digest : Text → Text → Option Bool) (digest : IsDigest compare_digest) where
  same_secret :
      (a b : Text) → compare_digest a b ≡ some true → (some a ≡ some b) × (is_ascii b ≡ true)
  same_secret a b h = elim (Bool-cases (is_ascii a)) [
    | inl p ↦ elim (Bool-cases (is_ascii b)) [
      | inl q ↦
          (ap some (eq_of_text_eq a b (some_inj (sym (rw (p, q)) ∙ (sym (digest a b) ∙ h)))), q)
      | inr q ↦ absurd (nothing (sym (rw (p, q)) ∙ (sym (digest a b) ∙ h)))
    ]
    | inr p ↦ absurd (nothing (sym (rw p) ∙ (sym (digest a b) ∙ h)))
  ]
    where
      nothing : none ≡ some true → ⊥
      nothing h = cc

  judge_iff :
      (token : Text) (presented : Option Text)
      → (ok (if is_empty token then passed else judge compare_digest token presented) ≡ ok passed)
        ↔ ((token ≡ []) ⊎ ((presented ≡ some token) × (is_ascii token ≡ true)))
  judge_iff [] presented = (λ h. inl refl, λ h. refl)
  judge_iff (c ∷ token) presented = (forth presented, back presented)
    where
      forth :
          (presented : Option Text)
          → ok (judge compare_digest (c ∷ token) presented) ≡ ok passed
          → (c ∷ token ≡ []) ⊎ ((presented ≡ some (c ∷ token)) × (is_ascii (c ∷ token) ≡ true))
      forth none h = cc
      forth (some given) h = inr (same_secret given (c ∷ token) (verdict_passed _ h))

      back :
          (presented : Option Text)
          → (c ∷ token ≡ []) ⊎ ((presented ≡ some (c ∷ token)) × (is_ascii (c ∷ token) ≡ true))
          → ok (judge compare_digest (c ∷ token) presented) ≡ ok passed
      back presented (inl e) = cc
      back presented (inr (e, a)) =
          rw (e, digest (c ∷ token) (c ∷ token), a, text_eq_refl (c ∷ token))

  -- Given the documented behaviour of `hmac.compare_digest`: a request has an active secret,
  -- wherever the database fails; it passes exactly if that secret is empty, or it is in ASCII and
  -- the request presents it; the check changes nothing and calls no collaborator.
  pub require_inbound_auth_passes :
      (b64decode : Text → Option Text) (configured header : Text) (w : World)
      → IsGuarded b64decode compare_digest configured header w
  unfolding require_inbound_auth resolve_api_token ◌>>=◌
  require_inbound_auth_passes b64decode configured header w = (
    or_configured configured (run_db w.faults (λ db. (get_setting api_token_setting db, db)) w).0,
    refl,
    judge_iff _ (presented_secret b64decode header),
    (query_frame (get_setting api_token_setting) w.faults w).0,
    (query_frame (get_setting api_token_setting) w.faults w).1,
  )

  -- Given the documented behaviour of `hmac.compare_digest`: a request passes whose header is
  -- "Bearer " with the active secret behind it, if that is in ASCII and has no space at its ends.
  pub require_inbound_auth_bearer :
      (b64decode : Text → Option Text) (configured token : Text) (w : World)
      → (resolve_api_token configured w).0 ≡ ok token
      → is_ascii token ≡ true
      → strip token ≡ token
      → (require_inbound_auth b64decode compare_digest configured (lit "Bearer " ++ token) w).0
        ≡ ok passed
  require_inbound_auth_bearer b64decode configured token w h a e =
      let guarded = require_inbound_auth_passes b64decode configured (lit "Bearer " ++ token) w in
      let same = ok_inj (sym guarded.1 ∙ h) in
      guarded.2.1 (
        rw same (elim (Bool-cases (is_empty token)) [
          | inl empty ↦ inl (nil_of_is_empty token empty)
          | inr full ↦ inr (presented-bearer b64decode token e full, a)
        ]))
