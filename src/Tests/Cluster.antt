-- ===== src/Tests/Cluster.antt =====
-- The reads of the cluster at fixed inputs.
use llopster.Base.{
  ℕ, ◌≡◌, refl, none, some, [], ◌∷◌, Bool, true, false, ◌&&◌, leb, Text, lit, text_eq, member,
  join_with,
}
use llopster.Alerts.{ParsedAlert}
use llopster.Json.{str, arr, obj, nil, cons, Fields, end, field}
use llopster.Cluster.Objects.{Library}
use llopster.Cluster.Redact.{redact_pod_spec}
use llopster.Cluster.Secrets.{AlikeEntries, AlikeContainer, AlikeContainers, AlikeSpec, SameBut}
use llopster.Cluster.Withheld.{redact_pod_spec-AlikeSpec}
use llopster.Cluster.Session.{Reply, response, Server, Session}
use llopster.Cluster.Client.{resolve_owner_chain}
use llopster.Cluster.State.{Collector, in_scope}
use llopster.Cluster.Rules.{Api, Runs}
use llopster.Cluster.Permitted.{Permitted}
use llopster.Cluster.Answers.{IsFaithful}
use llopster.Cluster.Owners.{IsChain}
use llopster.Cluster.OwnerWalk.{resolve_owner_chain-Runs}
use llopster.Tests.Data

abbrev pub library : Library
library = record {
  fromisoformat = λ s. none;
  dumps_length = λ v. 2;
  str_of = λ v. [];
  show_nat = λ n. [];
  repr = λ s. s;
  is_decimal = λ c. leb b'0' c && leb c b'9';
  urlsplit = λ s. none;
  urlunsplit = λ parts. parts.path;
}

abbrev pod_fields : Fields
pod_fields =
    field (lit "metadata")
      (obj (
        field (lit "name") (str (lit "p1")) (
          field (lit "ownerReferences")
            (arr (
              cons
                (obj (
                  field (lit "apiVersion") (str (lit "apps/v1")) (
                    field (lit "kind") (str (lit "ReplicaSet"))
                      (field (lit "name") (str (lit "rs1")) end))))
                nil))
            end)))
      end

abbrev pod_path : Text
pod_path = lit "/api/v1/namespaces/shop/pods/p1"

abbrev found_or_not : Bool → Reply
found_or_not true = response 200 [] (some (obj pod_fields))
found_or_not false = response 404 [] none

-- A server that knows one pod.
abbrev pub server : Server
server = record {
  reply = λ earlier request. found_or_not (text_eq request.path pod_path);
  clock = λ n. n;
}

abbrev pub collector : Collector
collector = record {
  namespaces = lit "shop" ∷ [];
  all_namespaces = false;
  max_events = 5;
  include_pod_spec = true;
  max_pod_spec_bytes = 1000;
  max_pods = 2;
  flux = true;
  flux_namespaces = lit "flux-system" ∷ [];
}

abbrev pub pod_alert : ParsedAlert
pod_alert = record Data.crash {
  labels = (lit "namespace", lit "shop") ∷ (lit "pod", lit "p1") ∷ [];
}

abbrev pub fresh : Session
fresh = record { requests = []; versions = []; ticks = 0 }

not_found :
    (status : ℕ) (raw : Text) (fs : Fields)
    → response 404 [] none ≡ response status raw (some (obj fs))
    → ⊥
not_found status raw fs e = cc

-- It serves no object of Flux.
pub server-IsFaithful : IsFaithful collector server
unfolding text_eq lit join_with
server-IsFaithful group version plural ns name fs k a b answered =
    elim (not_found answered.status answered.raw fs answered.answer) [ ]

resolve_owner_chain-Runs_example :
    Runs
      (Permitted library server collector)
      Api
      (IsChain 4)
      (resolve_owner_chain library server (lit "shop") pod_fields)
unfolding in_scope member text_eq lit
resolve_owner_chain-Runs_example =
    resolve_owner_chain-Runs library server collector (lit "shop") pod_fields refl

-- A pod spec with one container and one variable.
abbrev spec_of : Text → Fields
spec_of secret =
    field (lit "containers")
      (arr (
        cons
          (obj (
            field (lit "env")
              (arr (
                cons
                  (obj
                    (field (lit "name") (str (lit "TOKEN")) (field (lit "value") (str secret) end)))
                  nil))
              end))
          nil))
      end

spec-AlikeSpec : AlikeSpec (spec_of (lit "a")) (spec_of (lit "b"))
unfolding text_eq lit member
spec-AlikeSpec =
    AlikeSpec.containers refl
      (AlikeContainers.changed
        (AlikeContainer.env refl
          (AlikeEntries.changed (SameBut.kept refl (SameBut.changed refl SameBut.empty))
            AlikeEntries.empty)
          AlikeContainer.empty)
        AlikeContainers.empty)
      AlikeSpec.empty

redact_pod_spec-AlikeSpec_example :
    redact_pod_spec (spec_of (lit "a")) ≡ redact_pod_spec (spec_of (lit "b"))
redact_pod_spec-AlikeSpec_example =
    redact_pod_spec-AlikeSpec (spec_of (lit "a")) (spec_of (lit "b")) spec-AlikeSpec
