-- ===== src/Cluster/Withheld.antt =====
-- Pod specs that differ in the places of secrets alone are handed out alike.
use llopster.Base.{
  ◌≡◌, refl, sym, ap, ◌∙◌, Bool, true, false, Text, lit, text_eq, member, Bool-cases, inl, inr,
}
use llopster.Json.{Json, arr, obj, Items, cons, Fields, field}
use llopster.Cluster.Redact.{
  last_applied, argv_keys, data_keys, redact_env, redact_object, redact_object_items,
  redact_object_fields, redact_containers, redact_container, redact_pod_spec,
}
use llopster.Cluster.Secrets.{
  SameLength, SameKeys, SameBut, AlikeEntries, Alike, AlikeItems, AlikeFields, AlikeField,
  AlikeContainer, AlikeContainers, AlikeSpec,
}
use llopster.Cluster.Walk.{
  blank_items_alike, blank_fields_alike, redact_entries_alike, walk, walk_items, walk_fields,
  walked, out, out-plain, out-arr, walked-argv, walked-dict, dict_walked, dict_walked-keeps,
  SameKeys-inline, SameBut-inline, walk-arr, walk-obj, walk_items-cons, walk_fields-field,
  out-contents, out-annotations, SameBut-SameKeys, walked-headers, length_of_entries,
}

argv_alike :
    (k : Text) {xs ys : Items}
    → member k argv_keys ≡ true
    → SameLength xs ys
    → out k (walked true k (arr xs)) ≡ out k (walked true k (arr ys))
argv_alike k {xs} {ys} h s =
    ap (out k) (walked-argv k xs h ∙ ap arr (blank_items_alike s) ∙ sym (walked-argv k ys h))

headers_alike :
    (k : Text) {xs ys : Items}
    → text_eq k (lit "httpHeaders") ≡ true
    → AlikeEntries xs ys
    → out k (walked true k (arr xs)) ≡ out k (walked true k (arr ys))
headers_alike k {xs} {ys} h s = elim (Bool-cases (member k argv_keys)) [
  | inl a ↦ argv_alike k a (length_of_entries s)
  | inr n ↦
      ap (out k)
        (walked-headers k xs h n ∙ ap arr (redact_entries_alike s) ∙ sym (walked-headers k ys h n))
]

contents_alike :
    (inside : Bool) (k : Text) {fs gs : Fields}
    → member k data_keys ≡ true
    → SameKeys fs gs
    → out k (walked inside k (obj fs)) ≡ out k (walked inside k (obj gs))
contents_alike inside k {fs} {gs} h s =
    ap (out k) (walked-dict inside k fs)
    ∙ out-contents k (dict_walked inside k fs) h
    ∙ ap obj (blank_fields_alike (dict_walked-keeps SameKeys SameKeys-inline inside k fs gs s))
    ∙ sym (out-contents k (dict_walked inside k gs) h)
    ∙ sym (ap (out k) (walked-dict inside k gs))

annotations_alike :
    (inside : Bool) (k : Text) {fs gs : Fields}
    → text_eq k (lit "annotations") ≡ true
    → SameBut last_applied fs gs
    → out k (walked inside k (obj fs)) ≡ out k (walked inside k (obj gs))
annotations_alike inside k {fs} {gs} h s =
    let both =
      dict_walked-keeps (SameBut last_applied) (SameBut-inline last_applied) inside k fs gs s in
    ap (out k) (walked-dict inside k fs)
    ∙ out-annotations k (dict_walked inside k fs) (dict_walked inside k gs) h both
        (SameBut-SameKeys last_applied _ _ both)
    ∙ sym (ap (out k) (walked-dict inside k gs))

mutual
  unfolding redact_object

  alike :
      (inside : Bool) (v w : Json)
      → Alike inside v w
      → redact_object (walk inside v) ≡ redact_object (walk inside w)
  alike inside v w (Alike.same e) = ap (λ x. redact_object (walk inside x)) e
  alike inside _ _ (Alike.items {xs} {ys} s) =
      ap redact_object (walk-arr inside xs)
      ∙ ap arr (items_alike inside xs ys s)
      ∙ sym (ap redact_object (walk-arr inside ys))
  alike inside _ _ (Alike.fields {fs} {gs} s) =
      ap redact_object (walk-obj inside fs)
      ∙ ap obj (fields_alike inside fs gs s)
      ∙ sym (ap redact_object (walk-obj inside gs))

  items_alike :
      (inside : Bool) (xs ys : Items)
      → AlikeItems inside xs ys
      → redact_object_items (walk_items inside xs) ≡ redact_object_items (walk_items inside ys)
  items_alike inside _ _ AlikeItems.no_item = refl
  items_alike inside _ _ (AlikeItems.item {v} {w} {xs} {ys} h s) =
      ap redact_object_items (walk_items-cons inside v xs)
      ∙ (λ i. cons (alike inside v w h i) (items_alike inside xs ys s i))
      ∙ sym (ap redact_object_items (walk_items-cons inside w ys))

  fields_alike :
      (inside : Bool) (fs gs : Fields)
      → AlikeFields inside fs gs
      → redact_object_fields (walk_fields inside fs) ≡ redact_object_fields (walk_fields inside gs)
  fields_alike inside _ _ AlikeFields.no_entry = refl
  fields_alike inside _ _ (AlikeFields.entry {k} {v} {w} {fs} {gs} h s) =
      ap redact_object_fields (walk_fields-field inside k v fs)
      ∙ (λ i. field k (field_alike inside k v w h i) (fields_alike inside fs gs s i))
      ∙ sym (ap redact_object_fields (walk_fields-field inside k w gs))

  field_alike :
      (inside : Bool) (k : Text) (v w : Json)
      → AlikeField inside k v w
      → out k (walked inside k v) ≡ out k (walked inside k w)
  field_alike inside k v w (AlikeField.kept e) = ap (λ x. out k (walked inside k x)) e
  field_alike inside k v w (AlikeField.below p h) =
      out-plain inside k v p ∙ alike inside v w h ∙ sym (out-plain inside k w p)
  field_alike inside k _ _ (AlikeField.argv e h s) = rw e (argv_alike k h s)
  field_alike inside k _ _ (AlikeField.headers e h s) = rw e (headers_alike k h s)
  field_alike inside k _ _ (AlikeField.contents h s) = contents_alike inside k h s
  field_alike inside k _ _ (AlikeField.annotations h s) = annotations_alike inside k h s

AlikeFields-redact_env :
    (fs gs : Fields) → AlikeContainer fs gs → AlikeFields true (redact_env fs) (redact_env gs)
unfolding redact_env
AlikeFields-redact_env _ _ AlikeContainer.empty = AlikeFields.no_entry
AlikeFields-redact_env _ _ (AlikeContainer.env {fs} {gs} h s rest) =
    AlikeFields.entry (AlikeField.kept (rw h (ap arr (redact_entries_alike s))))
      (AlikeFields-redact_env fs gs rest)
AlikeFields-redact_env _ _ (AlikeContainer.other {fs} {gs} h s rest) =
    AlikeFields.entry (rw h s) (AlikeFields-redact_env fs gs rest)

containers_alike :
    (xs ys : Items)
    → AlikeContainers xs ys
    → redact_object_items (redact_containers xs) ≡ redact_object_items (redact_containers ys)
unfolding redact_object
containers_alike _ _ AlikeContainers.empty = refl
containers_alike _ _ (AlikeContainers.kept {xs} {ys} e s) =
    λ i. cons (redact_object (redact_container (e i))) (containers_alike xs ys s i)
containers_alike _ _ (AlikeContainers.changed {fs} {gs} {xs} {ys} h s) = λ i.
    cons
      (obj (fields_alike true (redact_env fs) (redact_env gs) (AlikeFields-redact_env fs gs h) i))
      (containers_alike xs ys s i)

-- Two pod specs give the same redacted spec if they differ only in: the values of the environment,
-- the elements of command lines and the values of HTTP headers of their containers; the values of
-- data and stringData; and the last applied configuration among the annotations.
pub redact_pod_spec-AlikeSpec :
    (fs gs : Fields) → AlikeSpec fs gs → redact_pod_spec fs ≡ redact_pod_spec gs
unfolding redact_pod_spec
redact_pod_spec-AlikeSpec _ _ AlikeSpec.empty = refl
redact_pod_spec-AlikeSpec _ _ (AlikeSpec.containers {k} {xs} {ys} {fs} {gs} h s rest) =
    let same =
      out-arr k (redact_containers xs)
      ∙ ap arr (containers_alike xs ys s)
      ∙ sym (out-arr k (redact_containers ys)) in
    rw h (λ i. field k (same i) (redact_pod_spec-AlikeSpec fs gs rest i))
redact_pod_spec-AlikeSpec _ _ (AlikeSpec.other {k} {v} {w} {fs} {gs} h s rest) =
    rw h (λ i. field k (field_alike false k v w s i) (redact_pod_spec-AlikeSpec fs gs rest i))
