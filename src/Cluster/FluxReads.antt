-- ===== src/Cluster/FluxReads.antt =====
-- integrations/flux_client.py: the requests of `FluxClient`.
use mathlib.Core.Path.{subst}
use llopster.Base.{
  ◌≡◌, refl, sym, ap, ◌∙◌, Option, none, some, [], ◌∷◌, ◌++◌, Bool, true, arith, ◌&&◌, not, ltb,
  ◌-◌, if◌then◌else◌, append-nil, Text, lit, is_empty, Bool-cases, Option-cases, inl, inr, some_inj,
  join_with,
}
use llopster.Json.{Json, obj, Fields, as_dict}
use llopster.Cluster.Partial.{IfSome}
use llopster.Cluster.Answers.{Answered, Served, IsFaithful, get_json-Served}
use llopster.Cluster.Objects.{Library, FluxObjectState}
use llopster.Cluster.FluxParse.{served_version}
use llopster.Cluster.FluxObjects.{parse_flux_object, own_namespace, parse_flux_object-namespace}
use llopster.Cluster.Session.{
  Session, Result, ok, failed, Cached, Server, pure, lift, tick, remembered, ◌>>=◌,
}
use llopster.Cluster.Client.{segment, get_json, get_namespaced, in_namespace, api_root}
use llopster.Cluster.Flux.{
  flux_kinds, find, is_api_version, keep_version, discover, cached_version, preferred_version,
  version_for, or_not_installed, parsed, get_flux_object, discovery_ttl,
}
use llopster.Cluster.State.{Collector, flux_in_scope}
use llopster.Cluster.Rules.{
  Api, AnyFailure, Anything, Holds, Runs, pure-Runs, fail-Runs, lift-Runs, tick-Runs,
  remembered-Runs, bind-Runs, weaken, with_failures,
}
use llopster.Cluster.Permitted.{
  Permitted, IsVersion, checked, preferred, IsName, group, flux_object, FluxPlural,
}
use llopster.Cluster.Reads.{segment-Runs, get_json-Runs}
use llopster.Cluster.FluxPaths.{flux_kinds-IsKnown, find-IsKnown, flux_path, obj_of_as_dict}

module _ (library : Library) (server : Server) (c : Collector) where
  keep_version-Runs :
      (g : Text) (version : Option Text)
      → Runs
          (Permitted library server c)
          AnyFailure
          Anything
          (keep_version library server g version)
  unfolding keep_version ◌>>=◌
  keep_version-Runs g version = record {
    grows = λ s. record { made = []; appended = sym (append-nil s.requests); permitted = tt };
    result = λ s. tt;
  }

  discover-Runs :
      (g p : Text)
      → FluxPlural g p
      → Runs (Permitted library server c) AnyFailure Anything (discover library server g)
  unfolding discover lit join_with
  discover-Runs g p k =
      bind-Runs (Permitted library server c) AnyFailure Anything _ (get_json library server _ []) _
        (with_failures (Permitted library server c) Api AnyFailure Anything _ (λ e f. tt)
          (get_json-Runs (Permitted library server c) library server _ [] (group g p k refl)))
        λ payload q.
          bind-Runs (Permitted library server c) AnyFailure Anything _
            (lift (served_version payload)) _
            (weaken (Permitted library server c) AnyFailure _ Anything _ (λ a e. tt)
              (lift-Runs (Permitted library server c) AnyFailure tt (served_version payload)))
            λ version q. keep_version-Runs g version

  cached-Runs :
      (g p : Text) (cached : Option Cached)
      → FluxPlural g p
      → Runs
          (Permitted library server c)
          AnyFailure
          Anything
          (cached_version library server g cached)
  unfolding cached_version
  cached-Runs g p none k = discover-Runs g p k
  cached-Runs g p (some cached) k =
      bind-Runs (Permitted library server c) AnyFailure Anything Anything (tick server)
        (λ now.
          if ltb (now - cached.fetched_at) discovery_ttl
          then pure cached.version
          else discover library server g)
        (tick-Runs (Permitted library server c) AnyFailure server)
        λ now q. elim (Bool-cases (ltb (now - cached.fetched_at) discovery_ttl)) [
          | inl e ↦ rw e (pure-Runs (Permitted library server c) AnyFailure Anything _ tt)
          | inr e ↦ rw e (discover-Runs g p k)
        ]

  or_not_installed-Runs :
      (g : Text) (version : Option Text)
      → Runs
          (Permitted library server c)
          AnyFailure
          Anything
          (or_not_installed library server g version)
  or_not_installed-Runs g none = fail-Runs (Permitted library server c) AnyFailure _ _ tt
  or_not_installed-Runs g (some version) = elim (Bool-cases (is_empty version)) [
    | inl e ↦ rw e (fail-Runs (Permitted library server c) AnyFailure _ _ tt)
    | inr e ↦ rw e (pure-Runs (Permitted library server c) AnyFailure _ _ tt)
  ]

  preferred-Runs :
      (g p : Text)
      → FluxPlural g p
      → Runs (Permitted library server c) AnyFailure Anything (preferred_version library server g)
  unfolding preferred_version
  preferred-Runs g p k =
      bind-Runs (Permitted library server c) AnyFailure Anything Anything remembered
        (λ versions.
          cached_version library server g (find g versions) >>= or_not_installed library server g)
        (remembered-Runs (Permitted library server c) AnyFailure)
        λ versions q.
          bind-Runs (Permitted library server c) AnyFailure Anything Anything
            (cached_version library server g (find g versions)) (or_not_installed library server g)
            (cached-Runs g p (find g versions) k) λ version q. or_not_installed-Runs g version

  -- The version that an action returns is one that it returns.
  returned-Preferred :
      (g : Text) (s : Session) (r : Result Text)
      → (preferred_version library server g s).0 ≡ r
      → Holds AnyFailure (IsVersion library server c g) r
  returned-Preferred g s (ok v) e = preferred s e
  returned-Preferred g s (failed x) e = tt

  preferred-IsVersion :
      (g p : Text)
      → FluxPlural g p
      → Runs
          (Permitted library server c)
          AnyFailure
          (IsVersion library server c g)
          (preferred_version library server g)
  preferred-IsVersion g p k = record {
    grows = (preferred-Runs g p k).grows;
    result = λ s. returned-Preferred g s (preferred_version library server g s).0 refl;
  }

  version_for-IsVersion :
      (g p : Text) (version : Option Text)
      → FluxPlural g p
      → Runs
          (Permitted library server c)
          AnyFailure
          (IsVersion library server c g)
          (version_for library server g version)
  unfolding version_for
  version_for-IsVersion g p none k = preferred-IsVersion g p k
  version_for-IsVersion g p (some version) k =
      elim (Bool-cases (not (is_empty version) && is_api_version library version)) [
        | inl e ↦ rw e (
            pure-Runs (Permitted library server c) AnyFailure _ _
              (checked (second (not (is_empty version)) (is_api_version library version) e)))
        | inr e ↦ rw e (preferred-IsVersion g p k)
      ]
    where
      second : (a b : Bool) → (a && b) ≡ true → b ≡ true
      second a b h = ground arith

  -- An object of Flux that says it is in this namespace.
  abbrev In : Text → FluxObjectState → Type 0
  In ns object = object.namespace ≡ ns

  abbrev Own : Text → Option Json → Type 0
  Own ns o = (fs : Fields) → o ≡ some (obj fs) → own_namespace fs ≡ some ns

  parsed-Runs :
      (kind ns : Text) (object : Option Json)
      → Own ns object
      → Runs (Permitted library server c) Api (IfSome (In ns)) (parsed library server kind object)
  parsed-Runs kind ns none own = pure-Runs (Permitted library server c) Api _ none tt
  parsed-Runs kind ns (some object) own =
      bind-Runs (Permitted library server c) Api _ _ (lift (as_dict object)) _
        (lift-Runs (Permitted library server c) Api tt (as_dict object))
        λ fields q.
          bind-Runs (Permitted library server c) Api _ _
            (lift (parse_flux_object library kind fields)) _
            (lift-Runs (Permitted library server c) Api tt (parse_flux_object library kind fields))
            λ state p.
              let kept =
                subst (IfSome (λ (st : FluxObjectState). own_namespace fields ≡ some st.namespace))
                  p (parse_flux_object-namespace library kind fields) in
              pure-Runs (Permitted library server c) Api (IfSome (In ns)) (some state)
                (some_inj (sym kept ∙ own fields (ap some (obj_of_as_dict object fields q))))

  module _ (faithful : IsFaithful c server) where
    Served-Own :
        (g p v s t : Text) (o : Option Json)
        → FluxPlural g p
        → IsName s
        → IsName t
        → Served server
            (record {
              path = in_namespace (api_root (g ++ (b'/' ∷ v))) s ++ (b'/' ∷ (p ++ (b'/' ∷ t)));
              params = [];
            })
            o
        → Own s o
    Served-Own g p v s t o known a b served fs e = faithful g v p s t fs known a b (
        subst (λ path. Answered server (record { path = path; params = [] }) fs)
          (flux_path c g p v s t known) (served fs e))

    flux_read :
        (g p v ns name : Text)
        → FluxPlural g p
        → IsVersion library server c g v
        → flux_in_scope c ns ≡ true
        → Runs
            (Permitted library server c)
            Api
            (Own ns)
            (get_namespaced library server (g ++ (b'/' ∷ v)) p ns name)
    unfolding get_namespaced
    flux_read g p v ns name known version i =
        bind-Runs (Permitted library server c) Api _ (Own ns) (segment library ns) _
          (segment-Runs (Permitted library server c) library ns)
          λ s h.
            bind-Runs (Permitted library server c) Api _ (Own ns) (segment library name) _
              (segment-Runs (Permitted library server c) library name)
              λ t k.
                weaken (Permitted library server c) Api _ (Own ns) (get_json library server _ [])
                  (λ o served.
                    subst (λ n. Own n o) h.0 (Served-Own g p v s t o known h.1 k.1 served))
                  (get_json-Served (Permitted library server c) library server _ [] (
                    flux_object g v p s t known version
                      (h.1, subst (λ n. flux_in_scope c n ≡ true) (sym h.0) i) k.1
                      (flux_path c g p v s t known)))

    pub get_flux_object-Runs :
        (kind ns name : Text) (version : Option Text)
        → flux_in_scope c ns ≡ true
        → Runs
            (Permitted library server c)
            AnyFailure
            (IfSome (In ns))
            (get_flux_object library server kind ns name version)
    unfolding get_flux_object
    get_flux_object-Runs kind ns name version i = elim (Option-cases (find kind flux_kinds)) [
      | inl e ↦ rw e (fail-Runs (Permitted library server c) AnyFailure _ _ tt)
      | inr (k, e) ↦ rw e (
          let known = find-IsKnown kind k flux_kinds flux_kinds-IsKnown e in
          bind-Runs (Permitted library server c) AnyFailure (IsVersion library server c k.group) _
            (version_for library server k.group version) _
            (version_for-IsVersion k.group k.plural version known)
            λ v q.
              with_failures (Permitted library server c) Api AnyFailure (IfSome (In ns)) _
                (λ e f. tt)
                (bind-Runs (Permitted library server c) Api (Own ns) _ _
                  (parsed library server kind) (flux_read k.group k.plural v ns name known q i)
                  (parsed-Runs kind ns)))
    ]
