-- ===== src/Cluster/Redact.antt =====
-- integrations/kubernetes_client.py: what is blanked in a pod spec before it is handed out.
use llopster.Base.{List, [], ◌∷◌, ◌&&◌, if◌then◌else◌, Text, lit, text_eq, member}
use llopster.Json.{
  Json, null, bool, num, str, arr, obj, Items, nil, cons, Fields, end, field, is_list, is_dict,
}

abbrev pub redacted : Json
redacted = str (lit "[redacted]")

abbrev pub container_lists : List Text
container_lists = lit "containers" ∷ lit "initContainers" ∷ lit "ephemeralContainers" ∷ []

abbrev pub last_applied : Text
last_applied = lit "kubectl.kubernetes.io/last-applied-configuration"

abbrev pub argv_keys : List Text
argv_keys = lit "command" ∷ lit "args" ∷ []

abbrev pub data_keys : List Text
data_keys = lit "data" ∷ lit "stringData" ∷ []

-- `entry["value"] = REDACTED`, where there is such a key
abbrev pub redact_value : Fields → Fields
redact_value end = end
redact_value (field k v fs) =
    field k (if text_eq k (lit "value") then redacted else v) (redact_value fs)

abbrev pub redact_entry : Json → Json
redact_entry (obj fs) = obj (redact_value fs)
redact_entry v = v

abbrev pub redact_entries : Items → Items
redact_entries nil = nil
redact_entries (cons v vs) = cons (redact_entry v) (redact_entries vs)

abbrev pub entries_redacted : Json → Json
entries_redacted (arr vs) = arr (redact_entries vs)
entries_redacted v = v

-- `_redact_env`
unfoldable pub redact_env : Fields → Fields
unfolding text_eq lit
redact_env end = end
redact_env (field k v fs) =
    field k (if text_eq k (lit "env") then entries_redacted v else v) (redact_env fs)

abbrev pub blank_items : Items → Items
blank_items nil = nil
blank_items (cons v vs) = cons redacted (blank_items vs)

abbrev pub blank : Json → Json
blank (arr vs) = arr (blank_items vs)
blank v = v

-- One entry of a dict; `walked` is the value, gone through in its turn.
unfoldable pub redact_inline_field : Text → Json → Json → Json
unfolding member text_eq lit
redact_inline_field k v walked =
    if member k argv_keys && is_list v
    then blank v
    else if text_eq k (lit "httpHeaders") && is_list v
    then entries_redacted v
    else if text_eq k (lit "env")
    then v
    else walked

-- `_redact_inline_values`
unfoldable mutual
  unfolding redact_inline_field

  pub redact_inline_values : Json → Json
  redact_inline_values (arr vs) = arr (redact_inline_items vs)
  redact_inline_values (obj fs) = obj (redact_inline_fields fs)
  redact_inline_values null = null
  redact_inline_values (bool b) = bool b
  redact_inline_values (num n) = num n
  redact_inline_values (str s) = str s

  pub redact_inline_items : Items → Items
  redact_inline_items nil = nil
  redact_inline_items (cons v vs) = cons (redact_inline_values v) (redact_inline_items vs)

  pub redact_inline_fields : Fields → Fields
  redact_inline_fields end = end
  redact_inline_fields (field k v fs) =
      field k (redact_inline_field k v (redact_inline_values v)) (redact_inline_fields fs)

-- `{k: REDACTED for k in value}`
abbrev pub blank_fields : Fields → Fields
blank_fields end = end
blank_fields (field k v fs) = field k redacted (blank_fields fs)

abbrev pub blank_dict : Json → Json
blank_dict (obj fs) = obj (blank_fields fs)
blank_dict v = v

abbrev pub redact_annotations : Fields → Fields
redact_annotations end = end
redact_annotations (field k v fs) =
    field k (if text_eq k last_applied then redacted else v) (redact_annotations fs)

abbrev pub annotations_redacted : Json → Json
annotations_redacted (obj fs) = obj (redact_annotations fs)
annotations_redacted v = v

unfoldable pub redact_object_field : Text → Json → Json → Json
unfolding member text_eq lit
redact_object_field k v walked =
    if member k data_keys && is_dict v
    then blank_dict v
    else if text_eq k (lit "annotations") && is_dict v
    then annotations_redacted v
    else walked

-- `redact_object`
unfoldable mutual
  unfolding redact_object_field

  pub redact_object : Json → Json
  redact_object (arr vs) = arr (redact_object_items vs)
  redact_object (obj fs) = obj (redact_object_fields fs)
  redact_object null = null
  redact_object (bool b) = bool b
  redact_object (num n) = num n
  redact_object (str s) = str s

  pub redact_object_items : Items → Items
  redact_object_items nil = nil
  redact_object_items (cons v vs) = cons (redact_object v) (redact_object_items vs)

  pub redact_object_fields : Fields → Fields
  redact_object_fields end = end
  redact_object_fields (field k v fs) =
      field k (redact_object_field k v (redact_object v)) (redact_object_fields fs)

abbrev pub redact_container : Json → Json
redact_container (obj fs) = obj (redact_inline_fields (redact_env fs))
redact_container v = v

abbrev pub redact_containers : Items → Items
redact_containers nil = nil
redact_containers (cons v vs) = cons (redact_container v) (redact_containers vs)

abbrev pub containers_redacted : Json → Json
containers_redacted (arr vs) = arr (redact_containers vs)
containers_redacted v = v

-- the loop over the lists of containers
unfoldable pub redact_lists : Fields → Fields
unfolding member text_eq lit redact_env redact_inline_values
redact_lists end = end
redact_lists (field k v fs) =
    field k (if member k container_lists then containers_redacted v else v) (redact_lists fs)

unfoldable pub redact_pod_spec : Fields → Fields
unfolding redact_lists redact_object
redact_pod_spec spec = redact_object_fields (redact_lists spec)
