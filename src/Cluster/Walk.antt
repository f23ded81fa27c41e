-- ===== src/Cluster/Walk.antt =====
-- What the two walks of the redaction make of values under one key.
use llopster.Base.{
  ◌≡◌, refl, ap, Bool, true, false, ◌&&◌, Text, lit, text_eq, member, if◌then◌else◌, Bool-cases,
  inl, inr,
}
use llopster.Json.{Json, arr, obj, Items, cons, Fields, field}
use llopster.Cluster.Redact.{
  redacted, last_applied, argv_keys, data_keys, redact_value, redact_entries, blank_items,
  redact_inline_field, redact_inline_values, redact_inline_items, redact_inline_fields,
  blank_fields, redact_annotations, redact_object_field, redact_object, redact_object_items,
}
use llopster.Cluster.Secrets.{SameLength, SameKeys, SameBut, AlikeEntries, IsPlain}

pub and_false : (b : Bool) → (b && false) ≡ false
and_false true = refl
and_false false = refl

pub blank_items_alike : {xs ys : Items} → SameLength xs ys → blank_items xs ≡ blank_items ys
blank_items_alike SameLength.empty = refl
blank_items_alike (SameLength.next s) = ap (cons redacted) (blank_items_alike s)

pub blank_fields_alike : {fs gs : Fields} → SameKeys fs gs → blank_fields fs ≡ blank_fields gs
blank_fields_alike SameKeys.empty = refl
blank_fields_alike (SameKeys.next {k} s) = ap (field k redacted) (blank_fields_alike s)

pub redact_value_alike :
    {fs gs : Fields} → SameBut (lit "value") fs gs → redact_value fs ≡ redact_value gs
redact_value_alike SameBut.empty = refl
redact_value_alike (SameBut.kept e s) = rw (e, redact_value_alike s)
redact_value_alike (SameBut.changed h s) = rw (h, redact_value_alike s)

pub redact_annotations_alike :
    {fs gs : Fields} → SameBut last_applied fs gs → redact_annotations fs ≡ redact_annotations gs
redact_annotations_alike SameBut.empty = refl
redact_annotations_alike (SameBut.kept e s) = rw (e, redact_annotations_alike s)
redact_annotations_alike (SameBut.changed h s) = rw (h, redact_annotations_alike s)

pub redact_entries_alike :
    {xs ys : Items} → AlikeEntries xs ys → redact_entries xs ≡ redact_entries ys
redact_entries_alike AlikeEntries.empty = refl
redact_entries_alike (AlikeEntries.kept e s) = rw (e, redact_entries_alike s)
redact_entries_alike (AlikeEntries.changed h s) = rw (redact_value_alike h, redact_entries_alike s)

abbrev pub walk : Bool → Json → Json
walk true v = redact_inline_values v
walk false v = v

abbrev pub walk_items : Bool → Items → Items
walk_items true xs = redact_inline_items xs
walk_items false xs = xs

abbrev pub walk_fields : Bool → Fields → Fields
walk_fields true fs = redact_inline_fields fs
walk_fields false fs = fs

-- The value of a key behind the walk through a container, if there is one.
abbrev pub walked : Bool → Text → Json → Json
walked true k v = redact_inline_field k v (redact_inline_values v)
walked false k v = v

abbrev pub out : Text → Json → Json
out k v = redact_object_field k v (redact_object v)

pub out-plain :
    (inside : Bool) (k : Text) (v : Json)
    → IsPlain k
    → out k (walked inside k v) ≡ redact_object (walk inside v)
unfolding redact_object_field redact_inline_field
out-plain true k v (a, h, e, c, n) = rw (a, h, e, c, n)
out-plain false k v (a, h, e, c, n) = rw (c, n)

-- An array under any key.
pub out-arr : (k : Text) (vs : Items) → out k (arr vs) ≡ arr (redact_object_items vs)
unfolding redact_object_field redact_object
out-arr k vs = rw (and_false (member k data_keys), and_false (text_eq k (lit "annotations")))

pub walked-argv :
    (k : Text) (vs : Items)
    → member k argv_keys ≡ true
    → walked true k (arr vs) ≡ arr (blank_items vs)
unfolding redact_inline_field
walked-argv k vs h = rw h

-- What a dict under a key of a container becomes.
abbrev pub dict_walked : Bool → Text → Fields → Fields
dict_walked true k fs = if text_eq k (lit "env") then fs else redact_inline_fields fs
dict_walked false k fs = fs

pub walked-dict :
    (inside : Bool) (k : Text) (fs : Fields)
    → walked inside k (obj fs) ≡ obj (dict_walked inside k fs)
unfolding redact_inline_field redact_inline_values
walked-dict false k fs = refl
walked-dict true k fs = elim (Bool-cases (text_eq k (lit "env"))) [
  | inl e ↦ rw (and_false (member k argv_keys), and_false (text_eq k (lit "httpHeaders")), e)
  | inr e ↦ rw (and_false (member k argv_keys), and_false (text_eq k (lit "httpHeaders")), e)
]

-- A relation of dicts that a walk through them keeps holds behind `dict_walked`.
pub dict_walked-keeps :
    (R : Fields → Fields → Type 0)
    → ((fs gs : Fields) → R fs gs → R (redact_inline_fields fs) (redact_inline_fields gs))
    → (inside : Bool) (k : Text) (fs gs : Fields) → R fs gs
    → R (dict_walked inside k fs) (dict_walked inside k gs)
dict_walked-keeps R keep false k fs gs r = r
dict_walked-keeps R keep true k fs gs r = elim (Bool-cases (text_eq k (lit "env"))) [
  | inl e ↦ rw e r
  | inr e ↦ rw e (keep fs gs r)
]

pub SameKeys-inline :
    (fs gs : Fields) → SameKeys fs gs → SameKeys (redact_inline_fields fs) (redact_inline_fields gs)
unfolding redact_inline_values
SameKeys-inline _ _ SameKeys.empty = SameKeys.empty
SameKeys-inline _ _ (SameKeys.next {fs} {gs} s) = SameKeys.next (SameKeys-inline fs gs s)

pub SameBut-inline :
    (key : Text) (fs gs : Fields)
    → SameBut key fs gs
    → SameBut key (redact_inline_fields fs) (redact_inline_fields gs)
unfolding redact_inline_values
SameBut-inline key _ _ SameBut.empty = SameBut.empty
SameBut-inline key _ _ (SameBut.kept {k} {fs} {gs} e s) =
    SameBut.kept (ap (λ v. redact_inline_field k v (redact_inline_values v)) e)
      (SameBut-inline key fs gs s)
SameBut-inline key _ _ (SameBut.changed {fs} {gs} h s) =
    SameBut.changed h (SameBut-inline key fs gs s)

pub walk-arr : (inside : Bool) (xs : Items) → walk inside (arr xs) ≡ arr (walk_items inside xs)
unfolding redact_inline_values
walk-arr true xs = refl
walk-arr false xs = refl

pub walk-obj : (inside : Bool) (fs : Fields) → walk inside (obj fs) ≡ obj (walk_fields inside fs)
unfolding redact_inline_values
walk-obj true fs = refl
walk-obj false fs = refl

pub walk_items-cons :
    (inside : Bool) (v : Json) (xs : Items)
    → walk_items inside (cons v xs) ≡ cons (walk inside v) (walk_items inside xs)
unfolding redact_inline_values
walk_items-cons true v xs = refl
walk_items-cons false v xs = refl

pub walk_fields-field :
    (inside : Bool) (k : Text) (v : Json) (fs : Fields)
    → walk_fields inside (field k v fs) ≡ field k (walked inside k v) (walk_fields inside fs)
unfolding redact_inline_values
walk_fields-field true k v fs = refl
walk_fields-field false k v fs = refl

pub out-contents :
    (k : Text) (fs : Fields) → member k data_keys ≡ true → out k (obj fs) ≡ obj (blank_fields fs)
unfolding redact_object_field
out-contents k fs h = rw h

-- A dict of annotations is blanked in one of two ways, by its key alone.
pub out-annotations :
    (k : Text) (fs gs : Fields)
    → text_eq k (lit "annotations") ≡ true
    → SameBut last_applied fs gs
    → SameKeys fs gs
    → out k (obj fs) ≡ out k (obj gs)
unfolding redact_object_field
out-annotations k fs gs h s t = elim (Bool-cases (member k data_keys)) [
  | inl e ↦ rw (e, blank_fields_alike t)
  | inr e ↦ rw (e, h, redact_annotations_alike s)
]

pub SameBut-SameKeys : (key : Text) (fs gs : Fields) → SameBut key fs gs → SameKeys fs gs
SameBut-SameKeys key _ _ SameBut.empty = SameKeys.empty
SameBut-SameKeys key _ _ (SameBut.kept {fs} {gs} e s) = SameKeys.next (SameBut-SameKeys key fs gs s)
SameBut-SameKeys key _ _ (SameBut.changed {fs} {gs} h s) =
    SameKeys.next (SameBut-SameKeys key fs gs s)

pub walked-headers :
    (k : Text) (vs : Items)
    → text_eq k (lit "httpHeaders") ≡ true
    → member k argv_keys ≡ false
    → walked true k (arr vs) ≡ arr (redact_entries vs)
unfolding redact_inline_field
walked-headers k vs h n = rw (n, h)

pub length_of_entries : {xs ys : Items} → AlikeEntries xs ys → SameLength xs ys
length_of_entries AlikeEntries.empty = SameLength.empty
length_of_entries (AlikeEntries.kept e s) = SameLength.next (length_of_entries s)
length_of_entries (AlikeEntries.changed h s) = SameLength.next (length_of_entries s)
