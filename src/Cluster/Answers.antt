-- ===== src/Cluster/Answers.antt =====
-- What is known of an object that the API server has returned.
use llopster.Base.{
  ℕ, ◌≡◌, ap, ◌∙◌, Option, none, some, List, [], ◌∷◌, false, leb, ◌==◌, Text, Bool-cases, inl, inr,
}
use llopster.Json.{Json, null, bool, num, str, arr, obj, Fields}
use llopster.Cluster.Objects.{Library}
use llopster.Cluster.Session.{
  Param, Request, Reply, response, http_error, refused, Server, api_error, unexpected, send,
}
use llopster.Cluster.Client.{get_json, received, body_of}
use llopster.Cluster.FluxObjects.{own_namespace}
use llopster.Cluster.Rules.{Api, Runs, pure-Runs, fail-Runs, send-Answered, bind-Runs}
use llopster.Cluster.Permitted.{IsName, FluxPlural, group_path}
use llopster.Cluster.State.{Collector}

-- The server has once answered the request with this object.
pub record Answered (server : Server) (request : Request) (fs : Fields) : Type 0 where
  pub earlier : List Request
  pub status : ℕ
  pub raw : Text
  pub answer : server.reply earlier request ≡ response status raw (some (obj fs))
  pub fine : leb 400 status ≡ false

abbrev pub Served : Server → Request → Option Json → Type 0
Served server request o = (fs : Fields) → o ≡ some (obj fs) → Answered server request fs

-- What Kubernetes documents: an object that is read in a namespace says that it is in it.
abbrev pub IsFaithful : Collector → Server → Type 0
IsFaithful c server =
    (group version plural ns name : Text) (fs : Fields)
    → FluxPlural group plural
    → IsName ns
    → IsName name
    → Answered server
        (record { path = group_path c group version ns (plural ∷ name ∷ []); params = [] }) fs
    → own_namespace fs ≡ some ns

module _ (P : Request → Type 0) (library : Library) (server : Server) (request : Request) where
  no_object : Served server request none
  no_object fs e = cc

  body_of-Served :
      (earlier : List Request) (status : ℕ) (raw : Text) (body : Option Json)
      → leb 400 status ≡ false
      → server.reply earlier request ≡ response status raw body
      → Runs P Api (Served server request) (body_of body)
  body_of-Served earlier status raw none f e = fail-Runs P Api _ unexpected tt
  body_of-Served earlier status raw (some null) f e = pure-Runs P Api _ none no_object
  body_of-Served earlier status raw (some (bool b)) f e =
      pure-Runs P Api _ (some (bool b)) (λ fs h. absurd (cc))
  body_of-Served earlier status raw (some (num n)) f e =
      pure-Runs P Api _ (some (num n)) (λ fs h. absurd (cc))
  body_of-Served earlier status raw (some (str s)) f e =
      pure-Runs P Api _ (some (str s)) (λ fs h. absurd (cc))
  body_of-Served earlier status raw (some (arr xs)) f e =
      pure-Runs P Api _ (some (arr xs)) (λ fs h. absurd (cc))
  body_of-Served earlier status raw (some (obj gs)) f e = pure-Runs P Api _ (some (obj gs)) (λ fs h.
      record {
        earlier = earlier;
        status = status;
        raw = raw;
        answer = e ∙ ap (response status raw) h;
        fine = f;
      })

  received-Served :
      (path : Text) (earlier : List Request) (reply : Reply)
      → server.reply earlier request ≡ reply
      → Runs P Api (Served server request) (received library path reply)
  received-Served path earlier (http_error t) e = fail-Runs P Api _ (api_error _) tt
  received-Served path earlier refused e = fail-Runs P Api _ unexpected tt
  received-Served path earlier (response status raw body) e = elim (Bool-cases (status == 404)) [
    | inl gone ↦ rw gone (pure-Runs P Api _ none no_object)
    | inr there ↦ elim (Bool-cases (leb 400 status)) [
      | inl bad ↦ rw (there, bad) (fail-Runs P Api _ (api_error _) tt)
      | inr good ↦ rw (there, good) (body_of-Served earlier status raw body good e)
    ]
  ]

pub get_json-Served :
    (P : Request → Type 0) (library : Library) (server : Server) (path : Text)
    (params : List (Text × Param))
    → P (record { path = path; params = params })
    → Runs P Api
        (Served server (record { path = path; params = params }))
        (get_json library server path params)
unfolding get_json
get_json-Served P library server path params p =
    bind-Runs P Api _ _ (send server (record { path = path; params = params }))
      (received library path)
      (send-Answered P Api server (record { path = path; params = params }) p)
      λ reply q.
        received-Served P library server (record { path = path; params = params }) path q.0 reply
          q.1
