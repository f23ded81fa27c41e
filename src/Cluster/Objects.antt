-- ===== src/Cluster/Objects.antt =====
-- integrations/kubernetes_client.py: the shapes that objects of the API server are reduced to. An
-- instant is a number of microseconds since year 1.
use llopster.Base.{ℕ, Option, none, List, Bool, false, Text}
use llopster.Base.Int.{ℤ, pos}
use llopster.Json.{Json, Fields}

-- The parts of a URL that `urllib.parse.urlsplit` gives.
pub record UrlParts : Type 0 where
  pub scheme : Text
  pub username : Option Text
  pub password : Option Text
  pub hostname : Option Text
  pub port : Option ℕ
  pub path : Text
  pub query : Text
  pub fragment : Text

-- What the code takes from Python's library: `datetime.fromisoformat`, for dates with an offset,
-- the length of `json.dumps`, `str` of a value that is no text and of a number, `repr` of a text,
-- the digits that `\d` matches, and `urlsplit` with its port, which may raise a ValueError, and
-- `urlunsplit`.
pub record Library : Type 0 where
  pub fromisoformat : Text → Option ℕ
  pub dumps_length : Json → ℕ
  pub str_of : Json → Text
  pub show_nat : ℕ → Text
  pub repr : Text → Text
  pub is_decimal : ℕ → Bool
  pub urlsplit : Text → Option UrlParts
  pub urlunsplit : UrlParts → Text

pub record OwnerRef : Type 0 where
  pub kind : Text
  pub name : Text
  pub resolved : Bool
  pub gitops_labels : List (Text × Text)

pub record PodCondition : Type 0 where
  pub type : Text
  pub status : Text
  pub reason : Option Text
  pub message : Option Text

pub record ContainerState : Type 0 where
  pub name : Text
  pub image : Option Text
  pub ready : Bool
  pub restart_count : ℤ
  pub state : Option Text
  pub state_reason : Option Text
  pub state_message : Option Text
  pub last_state : Option Text
  pub last_state_reason : Option Text
  pub last_state_exit_code : Option ℤ
  pub last_state_signal : Option ℤ
  pub last_state_finished_at : Option Text
  pub requests : Fields
  pub limits : Fields

-- What a container asks for.
pub record Resources : Type 0 where
  pub requests : Fields
  pub limits : Fields

-- A container without a status.
abbrev pub unstarted : Text → Resources → ContainerState
unstarted name resources = record {
  name = name;
  image = none;
  ready = false;
  restart_count = pos 0;
  state = none;
  state_reason = none;
  state_message = none;
  last_state = none;
  last_state_reason = none;
  last_state_exit_code = none;
  last_state_signal = none;
  last_state_finished_at = none;
  requests = resources.requests;
  limits = resources.limits;
}

pub record PodState : Type 0 where
  pub name : Text
  pub namespace : Text
  pub phase : Option Text
  pub node_name : Option Text
  pub conditions : List PodCondition
  pub containers : List ContainerState
  pub owner_chain : List OwnerRef
  pub spec : Option Fields
  pub spec_truncated : Bool

pub record NodeState : Type 0 where
  pub name : Text
  pub conditions : List PodCondition
  pub unschedulable : Bool

pub record PvcState : Type 0 where
  pub name : Text
  pub namespace : Text
  pub phase : Option Text
  pub storage_class : Option Text
  pub requested_storage : Option Text
  pub volume_name : Option Text

pub record ClusterEvent : Type 0 where
  pub involved_object : Text
  pub type : Option Text
  pub reason : Option Text
  pub message : Option Text
  pub count : ℤ
  pub last_timestamp : Option ℕ

pub record FluxRef : Type 0 where
  pub kind : Text
  pub namespace : Text
  pub name : Text

pub record FluxRelease : Type 0 where
  pub chart_version : Option Text
  pub app_version : Option Text
  pub status : Option Text
  pub last_deployed : Option Text

pub record FluxObjectState : Type 0 where
  pub kind : Text
  pub name : Text
  pub namespace : Text
  pub api_version : Text
  pub suspended : Bool
  pub conditions : List PodCondition
  pub applied_revision : Option Text
  pub attempted_revision : Option Text
  pub source : Option FluxRef
  pub facts : List (Text × Text)
  pub releases : List FluxRelease
  pub value_refs : List Text
