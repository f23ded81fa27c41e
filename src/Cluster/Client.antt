-- ===== src/Cluster/Client.antt =====
-- integrations/kubernetes_client.py: `KubernetesClient`. The token and the transport are left out.
use llopster.Base.{
  ℕ, zero, suc, Option, none, some, List, [], ◌∷◌, ◌++◌, Bool, false, ◌&&◌, ◌||◌, not,
  if◌then◌else◌, leb, ◌==◌, any, take, length, Text, lit, text_eq, contains,
}
use llopster.Json.{
  Json, null, obj, Fields, lookup, is_truthy, as_dict, list_or_empty, dict_or_empty, text_or_empty,
}
use llopster.Cluster.Objects.{Library, OwnerRef, ClusterEvent}
use llopster.Cluster.Parse.{owner_plural, parse_owner_ref}
use llopster.Cluster.Labels.{to_str, gitops_labels, controller_ref}
use llopster.Cluster.Events.{parse_events}
use llopster.Cluster.Session.{
  Param, text, number, Reply, response, http_error, refused, Server, api_error, unexpected, M, pure,
  fail, lift, send, handle, ◌>>=◌,
}

-- `s` without a line feed at its end, before which `$` matches too
unfoldable pub chomp : Text → Text
chomp [] = []
chomp (c ∷ []) = if c == 10 then [] else c ∷ []
chomp (c ∷ d ∷ s) = c ∷ chomp (d ∷ s)

abbrev pub is_alnum : ℕ → Bool
is_alnum c = (leb b'a' c && leb c b'z') || (leb b'0' c && leb c b'9')

abbrev pub is_name_char : ℕ → Bool
is_name_char c = is_alnum c || c == b'-' || c == b'.'

abbrev pub ends_alnum : Text → Bool
ends_alnum [] = false
ends_alnum (c ∷ []) = is_alnum c
ends_alnum (c ∷ d ∷ s) = ends_alnum (d ∷ s)

abbrev pub starts_alnum : Text → Bool
starts_alnum [] = false
starts_alnum (c ∷ s) = is_alnum c

-- `_OBJECT_NAME.match(name)`
unfoldable pub is_object_name : Text → Bool
unfolding chomp
is_object_name name =
    starts_alnum (chomp name)
    && ends_alnum (chomp name)
    && not (any (λ c. not (is_name_char c)) (chomp name))
    && leb (length (chomp name)) 253

unfoldable pub is_segment : Text → Bool
unfolding is_object_name contains lit
is_segment name = is_object_name name && not (contains name (lit ".."))

-- `_segment`
unfoldable pub segment : Library → Text → M Text
unfolding is_segment
segment library name =
    if is_segment name
    then pure name
    else fail (api_error (lit "refusing invalid Kubernetes object name " ++ library.repr name))

abbrev message_of : Library → Text → Option Json → Text
message_of library raw (some (obj body)) =
    if is_truthy (lookup (lit "message") body)
    then elim (lookup (lit "message") body) [
      | none ↦ take 200 raw
      | some message ↦ take 300 (to_str library message)
    ]
    else take 200 raw
message_of library raw _ = take 200 raw

abbrev pub body_of : Option Json → M (Option Json)
body_of none = fail unexpected
body_of (some null) = pure none
body_of (some v) = pure (some v)

abbrev pub received : Library → Text → Reply → M (Option Json)
received library path (http_error e) =
    fail (api_error (lit "GET " ++ (path ++ (lit " failed: " ++ e))))
received library path refused = fail unexpected
received library path (response status raw body) =
    if status == 404
    then pure none
    else if leb 400 status
    then fail (
        api_error (
          lit "GET "
          ++ (path
              ++ (lit " -> "
                  ++ (library.show_nat status ++ (b' ' ∷ message_of library raw body))))))
    else body_of body

abbrev pub api_root : Text → Text
api_root api_version =
    if text_eq api_version (lit "v1") then lit "/api/v1" else lit "/apis/" ++ api_version

abbrev pub in_namespace : Text → Text → Text
in_namespace root namespace = root ++ (lit "/namespaces/" ++ namespace)

-- `list((payload or {}).get("items") or [])`
abbrev pub items_of : Option Json → Option (List Json)
items_of payload = elim (dict_or_empty payload) [
  | none ↦ none
  | some body ↦ list_or_empty (lookup (lit "items") body)
]

-- The reference was read, and its object was not.
abbrev pub unreadable : OwnerRef → OwnerRef
unreadable ref = record ref { resolved = false }

abbrev pub is_seen : OwnerRef → List OwnerRef → Bool
is_seen ref = any (λ r. text_eq r.kind ref.kind && text_eq r.name ref.name)

abbrev pub max_owner_depth : ℕ
max_owner_depth = 4

module _ (library : Library) (server : Server) where
  unfoldable pub get_json : Text → List (Text × Param) → M (Option Json)
  unfolding ◌>>=◌ send lit lookup is_truthy
  get_json path params = do
    reply ← send server (record { path = path; params = params })
    received library path reply

  unfoldable pub get_pod : Text → Text → M (Option Json)
  unfolding segment get_json ◌>>=◌ lit
  get_pod namespace name = do
    ns ← segment library namespace
    pod ← segment library name
    get_json (in_namespace (lit "/api/v1") ns ++ (lit "/pods/" ++ pod)) []

  unfoldable pub list_pods : Text → Text → ℕ → M (List Json)
  unfolding segment get_json ◌>>=◌ lit list_or_empty lookup dict_or_empty
  list_pods namespace selector limit = do
    ns ← segment library namespace
    payload ←
        get_json (in_namespace (lit "/api/v1") ns ++ lit "/pods")
          ((lit "labelSelector", text selector) ∷ (lit "limit", number limit) ∷ [])
    lift (items_of payload)

  unfoldable pub get_namespaced : Text → Text → Text → Text → M (Option Json)
  unfolding segment get_json ◌>>=◌ lit
  get_namespaced api_version plural namespace name = do
    ns ← segment library namespace
    object ← segment library name
    get_json (in_namespace (api_root api_version) ns ++ (b'/' ∷ (plural ++ (b'/' ∷ object)))) []

  unfoldable pub get_node : Text → M (Option Json)
  unfolding segment get_json ◌>>=◌ lit
  get_node name = do node ← segment library name; get_json (lit "/api/v1/nodes/" ++ node) []

  unfoldable pub get_pvc : Text → Text → M (Option Json)
  unfolding segment get_json ◌>>=◌ lit
  get_pvc namespace name = do
    ns ← segment library namespace
    claim ← segment library name
    get_json (in_namespace (lit "/api/v1") ns ++ (lit "/persistentvolumeclaims/" ++ claim)) []

  unfoldable pub list_events : Text → Text → ℕ → M (List ClusterEvent)
  unfolding segment get_json ◌>>=◌ lit parse_events dict_or_empty
  list_events namespace involved limit = do
    ns ← segment library namespace
    object ← segment library involved
    payload ← get_json (in_namespace (lit "/api/v1") ns ++ lit "/events") (
        (lit "fieldSelector", text (lit "involvedObject.name=" ++ object))
        ∷ (lit "limit", number limit)
        ∷ [])
    body ← lift (dict_or_empty payload)
    lift (parse_events library body)

  -- The rounds that are left, the references so far and the object they have led to.
  unfoldable pub walk_owners : Text → ℕ → List OwnerRef → Fields → M (List OwnerRef)
  unfolding get_namespaced handle ◌>>=◌ controller_ref parse_owner_ref lookup lit text_eq
      text_or_empty owner_plural gitops_labels
  walk_owners namespace zero chain current = pure chain
  walk_owners namespace (suc rounds) chain current = do
    found ← lift (controller_ref current)
    elim found [
      | none ↦ pure chain
      | some raw ↦ do
        ref ← lift (parse_owner_ref raw)
        api_version ← lift (text_or_empty (lookup (lit "apiVersion") raw))
        if is_seen ref chain then pure chain else elim (owner_plural api_version ref.kind) [
          | none ↦ pure (chain ++ (ref ∷ []))
          | some plural ↦
              handle (get_namespaced api_version plural namespace ref.name)
                (λ e. pure (chain ++ (unreadable ref ∷ [])))
                λ parent. elim parent [
                  | none ↦ pure (chain ++ (unreadable ref ∷ []))
                  | some object ↦ do
                    fields ← lift (as_dict object)
                    labels ← lift (gitops_labels library fields)
                    walk_owners namespace rounds
                        (chain ++ (record ref { gitops_labels = labels } ∷ [])) fields
                ]
        ]
    ]

  unfoldable pub resolve_owner_chain : Text → Fields → M (List OwnerRef)
  unfolding walk_owners
  resolve_owner_chain namespace object = walk_owners namespace max_owner_depth [] object
