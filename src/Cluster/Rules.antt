-- ===== src/Cluster/Rules.antt =====
-- Rules for the actions on the cluster: the requests that they make, the exceptions that they let
-- through and what they return.
use llopster.Base.{
  Bool, true, false, if◌then◌else◌, ◌≡◌, refl, sym, ap, ◌∙◌, Option, none, some, List, [], ◌∷◌,
  ◌++◌, append_assoc, append-nil, All, All-append, Text,
}
use llopster.Cluster.Session.{
  Request, Server, Cached, Session, Failure, api_error, flux_not_installed, unexpected, Result, ok,
  failed, M, pure, fail, lift, send, tick, remembered, remember, continue, recover, handle,
  and_then, ◌>>=◌,
}

-- The exceptions of the clients but those of Flux, all of them, and those that the collector of the cluster lets through.
abbrev pub Api : Failure → Type 0
Api (api_error e) = Unit
Api (flux_not_installed group) = ⊥
Api unexpected = Unit

abbrev pub AnyFailure : Failure → Type 0
AnyFailure e = Unit

abbrev pub Uncaught : Failure → Type 0
Uncaught (api_error e) = ⊥
Uncaught (flux_not_installed group) = ⊥
Uncaught unexpected = Unit

-- What the result of an action is: a value with `Q`, or a failure with `F`.
abbrev pub Holds : {A : Type 0} → (Failure → Type 0) → (A → Type 0) → Result A → Type 0
Holds F Q (ok a) = Q a
Holds F Q (failed e) = F e

abbrev pub Anything : {A : Type 0} → A → Type 0
Anything a = Unit

module _ (P : Request → Type 0) where
  -- The requests between two sessions.
  pub record Grows (s t : Session) : Type 0 where
    pub made : List Request
    pub appended : t.requests ≡ s.requests ++ made
    pub permitted : All P made

  Grows-refl : (s : Session) → Grows s s
  Grows-refl s = record { made = []; appended = sym (append-nil s.requests); permitted = tt }

  pub Grows-trans : (s t u : Session) → Grows s t → Grows t u → Grows s u
  Grows-trans s t u g h = record {
    made = g.made ++ h.made;
    appended =
        h.appended ∙ ap (λ l. l ++ h.made) g.appended ∙ append_assoc s.requests g.made h.made;
    permitted = All-append P g.made h.made g.permitted h.permitted;
  }

  pub record Runs {A : Type 0} (F : Failure → Type 0) (Q : A → Type 0) (m : M A) : Type 0 where
    pub grows : (s : Session) → Grows s (m s).1
    pub result : (s : Session) → Holds F Q (m s).0

  module _ {A : Type 0} (F : Failure → Type 0) where
    pub pure-Runs : (Q : A → Type 0) (a : A) → Q a → Runs F Q (pure a)
    unfolding pure
    pure-Runs Q a q = record { grows = Grows-refl; result = λ s. q }

    pub fail-Runs : (Q : A → Type 0) (e : Failure) → F e → Runs F Q (fail {A = A} e)
    unfolding fail
    fail-Runs Q e f = record { grows = Grows-refl; result = λ s. f }

    pub lift-Runs : F unexpected → (o : Option A) → Runs F (λ a. o ≡ some a) (lift o)
    unfolding lift
    lift-Runs f none = record { grows = Grows-refl; result = λ s. f }
    lift-Runs f (some a) = record { grows = Grows-refl; result = λ s. refl }

  module _ {A : Type 0} (F : Failure → Type 0) (Q R : A → Type 0) where
    weaken_result : (r : Result A) → ((a : A) → Q a → R a) → Holds F Q r → Holds F R r
    weaken_result (ok a) k q = k a q
    weaken_result (failed e) k q = q

    pub weaken : (m : M A) → ((a : A) → Q a → R a) → Runs F Q m → Runs F R m
    weaken m k h = record { grows = h.grows; result = λ s. weaken_result (m s).0 k (h.result s) }

  module _ {A : Type 0} (F G : Failure → Type 0) (Q : A → Type 0) where
    failures_result : (r : Result A) → ((e : Failure) → F e → G e) → Holds F Q r → Holds G Q r
    failures_result (ok a) k q = q
    failures_result (failed e) k q = k e q

    pub with_failures : (m : M A) → ((e : Failure) → F e → G e) → Runs F Q m → Runs G Q m
    with_failures m k h = record {
      grows = h.grows;
      result = λ s. failures_result (m s).0 k (h.result s);
    }

  pub if-Runs :
      {A : Type 0} (F : Failure → Type 0) (Q : A → Type 0) (b : Bool) (m k : M A)
      → (b ≡ true → Runs F Q m)
      → (b ≡ false → Runs F Q k)
      → Runs F Q (if b then m else k)
  if-Runs F Q true m k h i = h refl
  if-Runs F Q false m k h i = i refl

  pub tick-Runs : (F : Failure → Type 0) (server : Server) → Runs F Anything (tick server)
  unfolding tick
  tick-Runs F server = record {
    grows = λ s. record { made = []; appended = sym (append-nil s.requests); permitted = tt };
    result = λ s. tt;
  }

  pub remembered-Runs : (F : Failure → Type 0) → Runs F Anything remembered
  unfolding remembered
  remembered-Runs F = record { grows = Grows-refl; result = λ s. tt }

  pub remember-Runs :
      (F : Failure → Type 0) (versions : List (Text × Cached)) → Runs F Anything (remember versions)
  unfolding remember
  remember-Runs F versions = record {
    grows = λ s. record { made = []; appended = sym (append-nil s.requests); permitted = tt };
    result = λ s. tt;
  }

  -- The answer is the server's, behind some requests.
  pub send-Answered :
      (F : Failure → Type 0) (server : Server) (request : Request)
      → P request
      → Runs F
          (λ reply. (earlier : List Request) × (server.reply earlier request ≡ reply))
          (send server request)
  unfolding send
  send-Answered F server request p = record {
    grows = λ s. record { made = request ∷ []; appended = refl; permitted = (p, tt) };
    result = λ s. (s.requests, refl);
  }

  module _ {A B : Type 0} (F : Failure → Type 0) (Q : A → Type 0) (R : B → Type 0) where
    continue-Grows :
        (r : Result A) (f : A → M B) (t : Session)
        → Holds F Q r
        → ((a : A) → Q a → Runs F R (f a))
        → Grows t (continue r f t).1
    continue-Grows (ok a) f t q k = (k a q).grows t
    continue-Grows (failed e) f t q k = Grows-refl t

    continue-result :
        (r : Result A) (f : A → M B) (t : Session)
        → Holds F Q r
        → ((a : A) → Q a → Runs F R (f a))
        → Holds F R (continue r f t).0
    continue-result (ok a) f t q k = (k a q).result t
    continue-result (failed e) f t q k = q

    pub bind-Runs :
        (m : M A) (f : A → M B) → Runs F Q m → ((a : A) → Q a → Runs F R (f a)) → Runs F R (m >>= f)
    unfolding ◌>>=◌
    bind-Runs m f h k = record {
      grows = λ s.
          Grows-trans s (m s).1 _ (h.grows s) (continue-Grows (m s).0 f (m s).1 (h.result s) k);
      result = λ s. continue-result (m s).0 f (m s).1 (h.result s) k;
    }

    recover-Grows :
        (r : Result A) (on_error : Text → M B) (f : A → M B) (t : Session)
        → Holds Api Q r
        → ((e : Text) → Runs F R (on_error e))
        → ((a : A) → Q a → Runs F R (f a))
        → Grows t (recover r on_error f t).1
    recover-Grows (ok a) on_error f t q c k = (k a q).grows t
    recover-Grows (failed (api_error e)) on_error f t q c k = (c e).grows t
    recover-Grows (failed (flux_not_installed group)) on_error f t q c k = Grows-refl t
    recover-Grows (failed unexpected) on_error f t q c k = Grows-refl t

    recover-result :
        F unexpected
        → (r : Result A) (on_error : Text → M B) (f : A → M B) (t : Session) → Holds Api Q r
        → ((e : Text) → Runs F R (on_error e))
        → ((a : A) → Q a → Runs F R (f a))
        → Holds F R (recover r on_error f t).0
    recover-result u (ok a) on_error f t q c k = (k a q).result t
    recover-result u (failed (api_error e)) on_error f t q c k = (c e).result t
    recover-result u (failed (flux_not_installed group)) on_error f t q c k = elim q [ ]
    recover-result u (failed unexpected) on_error f t q c k = u

    pub handle-Runs :
        F unexpected
        → (m : M A) (on_error : Text → M B) (f : A → M B) → Runs Api Q m
        → ((e : Text) → Runs F R (on_error e))
        → ((a : A) → Q a → Runs F R (f a))
        → Runs F R (handle m on_error f)
    unfolding handle
    handle-Runs u m on_error f h c k = record {
      grows = λ s.
          Grows-trans s (m s).1 _ (h.grows s)
            (recover-Grows (m s).0 on_error f (m s).1 (h.result s) c k);
      result = λ s. recover-result u (m s).0 on_error f (m s).1 (h.result s) c k;
    }

  module _ {A B : Type 0} (F G : Failure → Type 0) (Q : A → Type 0) (R : B → Type 0) where
    pub and_then-Runs :
        (m : M A) (f : Result A → M B)
        → Runs F Q m
        → ((r : Result A) → Holds F Q r → Runs G R (f r))
        → Runs G R (and_then m f)
    unfolding and_then
    and_then-Runs m f h k = record {
      grows = λ s. Grows-trans s (m s).1 _ (h.grows s) ((k (m s).0 (h.result s)).grows (m s).1);
      result = λ s. (k (m s).0 (h.result s)).result (m s).1;
    }
