-- ===== src/Cluster/Session.antt =====
-- What the clients of the cluster work on: the requests that they have made, all of them GETs, and
-- the versions that the client of Flux remembers. The API server and the clock are parameters; an
-- answer may depend on all earlier requests. An exception is a value.
use llopster.Base.{ℕ, suc, Option, none, some, List, [], ◌∷◌, ◌++◌, Text}
use llopster.Json.{Json}

pub data Param : Type 0 where
  text : Text → Param
  number : ℕ → Param

pub record Request : Type 0 where
  pub path : Text
  pub params : List (Text × Param)

-- A response with its status, its text and its JSON, if it has any; an `httpx.HTTPError`; or
-- another exception of the client.
pub data Reply : Type 0 where
  response : ℕ → Text → Option Json → Reply
  http_error : Text → Reply
  refused : Reply

pub record Server : Type 0 where
  pub reply : List Request → Request → Reply
  -- `time.monotonic` at its n-th call
  pub clock : ℕ → ℕ

pub record Cached : Type 0 where
  pub version : Option Text
  pub fetched_at : ℕ

pub record Session : Type 0 where
  pub requests : List Request
  pub versions : List (Text × Cached)
  pub ticks : ℕ

-- `KubernetesAPIError`, `FluxNotInstalled`, and any other exception
pub data Failure : Type 0 where
  api_error : Text → Failure
  flux_not_installed : Text → Failure
  unexpected : Failure

pub data Result {ℓ} (A : Type ℓ) : Type ℓ where
  ok : A → Result A
  failed : Failure → Result A

abbrev pub M : Type 0 → Type 0
M A = Session → Result A × Session

abbrev pub continue : {A B : Type 0} → Result A → (A → M B) → M B
continue (ok a) f s = f a s
continue (failed e) f s = (failed e, s)

-- `try: … except KubernetesAPIError`, and what follows it
abbrev pub recover : {A B : Type 0} → Result A → (Text → M B) → (A → M B) → M B
recover (ok a) on_error f s = f a s
recover (failed (api_error e)) on_error f s = on_error e s
recover (failed (flux_not_installed group)) on_error f s = (failed (flux_not_installed group), s)
recover (failed unexpected) on_error f s = (failed unexpected, s)

module _ {A : Type 0} where
  unfoldable pub pure : A → M A
  pure a s = (ok a, s)

  unfoldable pub fail : Failure → M A
  fail e s = (failed e, s)

  -- A TypeError or AttributeError stands for nothing.
  unfoldable pub lift : Option A → M A
  lift none s = (failed unexpected, s)
  lift (some a) s = (ok a, s)

unfoldable pub send : Server → Request → M Reply
send server request s =
    (ok (server.reply s.requests request), record s { requests = s.requests ++ (request ∷ []) })

unfoldable pub tick : Server → M ℕ
tick server s = (ok (server.clock s.ticks), record s { ticks = suc s.ticks })

unfoldable pub remembered : M (List (Text × Cached))
remembered s = (ok s.versions, s)

unfoldable pub remember : List (Text × Cached) → M (Unit {0})
remember versions s = (ok tt, record s { versions = versions })

infixl 5 ◌>>=◌ ◌>>◌
-- To open this is to open the actions above.
unfoldable pub ◌>>=◌ : {A B : Type 0} → M A → (A → M B) → M B
unfolding pure fail lift send tick remembered remember
◌>>=◌ m f s = continue (m s).0 f (m s).1

abbrev pub ◌>>◌ : {A B : Type 0} → M A → M B → M B
m >> n = m >>= λ _. n

unfoldable pub handle : {A B : Type 0} → M A → (Text → M B) → (A → M B) → M B
handle m on_error f s = recover (m s).0 on_error f (m s).1

-- `try: …`, and what follows it on the result
unfoldable pub and_then : {A B : Type 0} → M A → (Result A → M B) → M B
and_then m f s = f (m s).0 (m s).1
