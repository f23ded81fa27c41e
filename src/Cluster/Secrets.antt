-- ===== src/Cluster/Secrets.antt =====
-- What two pod specs may differ in, for the redaction to give the same: the places of secrets.
use llopster.Base.{◌≡◌, Bool, true, false, Text, lit, text_eq, member}
use llopster.Json.{Json, arr, obj, Items, nil, cons, Fields, end, field}
use llopster.Cluster.Redact.{container_lists, last_applied, argv_keys, data_keys}

pub data SameLength : Items → Items → Type 0 where
  empty : SameLength nil nil
  next : {v w : Json} {xs ys : Items} → SameLength xs ys → SameLength (cons v xs) (cons w ys)

pub data SameKeys : Fields → Fields → Type 0 where
  empty : SameKeys end end
  next :
      {k : Text} {v w : Json} {fs gs : Fields}
      → SameKeys fs gs
      → SameKeys (field k v fs) (field k w gs)

-- The values of one key differ.
pub data SameBut (key : Text) : Fields → Fields → Type 0 where
  empty : SameBut key end end
  kept :
      {k : Text} {v w : Json} {fs gs : Fields}
      → v ≡ w
      → SameBut key fs gs
      → SameBut key (field k v fs) (field k w gs)
  changed :
      {k : Text} {v w : Json} {fs gs : Fields}
      → text_eq k key ≡ true
      → SameBut key fs gs
      → SameBut key (field k v fs) (field k w gs)

-- The values of the name and value pairs differ.
pub data AlikeEntries : Items → Items → Type 0 where
  empty : AlikeEntries nil nil
  kept :
      {v w : Json} {xs ys : Items}
      → v ≡ w
      → AlikeEntries xs ys
      → AlikeEntries (cons v xs) (cons w ys)
  changed :
      {fs gs : Fields} {xs ys : Items}
      → SameBut (lit "value") fs gs
      → AlikeEntries xs ys
      → AlikeEntries (cons (obj fs) xs) (cons (obj gs) ys)

-- A key that has no meaning for the redaction.
abbrev pub IsPlain : Text → Type 0
IsPlain k =
    (member k argv_keys ≡ false)
    × (text_eq k (lit "httpHeaders") ≡ false)
    × (text_eq k (lit "env") ≡ false)
    × (member k data_keys ≡ false)
    × (text_eq k (lit "annotations") ≡ false)

-- Objects that differ, below keys without a meaning, in the values of data and of the last applied
-- configuration, and inside of a container also in command lines and in the values of headers.
mutual
  pub data Alike (inside : Bool) : Json → Json → Type 0 where
    same : {v w : Json} → v ≡ w → Alike inside v w
    items : {xs ys : Items} → AlikeItems inside xs ys → Alike inside (arr xs) (arr ys)
    fields : {fs gs : Fields} → AlikeFields inside fs gs → Alike inside (obj fs) (obj gs)

  pub data AlikeItems (inside : Bool) : Items → Items → Type 0 where
    no_item : AlikeItems inside nil nil
    item :
        {v w : Json} {xs ys : Items}
        → Alike inside v w
        → AlikeItems inside xs ys
        → AlikeItems inside (cons v xs) (cons w ys)

  pub data AlikeFields (inside : Bool) : Fields → Fields → Type 0 where
    no_entry : AlikeFields inside end end
    entry :
        {k : Text} {v w : Json} {fs gs : Fields}
        → AlikeField inside k v w
        → AlikeFields inside fs gs
        → AlikeFields inside (field k v fs) (field k w gs)

  pub data AlikeField (inside : Bool) : Text → Json → Json → Type 0 where
    kept : {k : Text} {v w : Json} → v ≡ w → AlikeField inside k v w
    below : {k : Text} {v w : Json} → IsPlain k → Alike inside v w → AlikeField inside k v w
    argv :
        {k : Text} {xs ys : Items}
        → inside ≡ true
        → member k argv_keys ≡ true
        → SameLength xs ys
        → AlikeField inside k (arr xs) (arr ys)
    headers :
        {k : Text} {xs ys : Items}
        → inside ≡ true
        → text_eq k (lit "httpHeaders") ≡ true
        → AlikeEntries xs ys
        → AlikeField inside k (arr xs) (arr ys)
    contents :
        {k : Text} {fs gs : Fields}
        → member k data_keys ≡ true
        → SameKeys fs gs
        → AlikeField inside k (obj fs) (obj gs)
    annotations :
        {k : Text} {fs gs : Fields}
        → text_eq k (lit "annotations") ≡ true
        → SameBut last_applied fs gs
        → AlikeField inside k (obj fs) (obj gs)

-- Containers may differ in the values of their environment too.
pub data AlikeContainer : Fields → Fields → Type 0 where
  empty : AlikeContainer end end
  env :
      {k : Text} {xs ys : Items} {fs gs : Fields}
      → text_eq k (lit "env") ≡ true
      → AlikeEntries xs ys
      → AlikeContainer fs gs
      → AlikeContainer (field k (arr xs) fs) (field k (arr ys) gs)
  other :
      {k : Text} {v w : Json} {fs gs : Fields}
      → text_eq k (lit "env") ≡ false
      → AlikeField true k v w
      → AlikeContainer fs gs
      → AlikeContainer (field k v fs) (field k w gs)

pub data AlikeContainers : Items → Items → Type 0 where
  empty : AlikeContainers nil nil
  kept :
      {v w : Json} {xs ys : Items}
      → v ≡ w
      → AlikeContainers xs ys
      → AlikeContainers (cons v xs) (cons w ys)
  changed :
      {fs gs : Fields} {xs ys : Items}
      → AlikeContainer fs gs
      → AlikeContainers xs ys
      → AlikeContainers (cons (obj fs) xs) (cons (obj gs) ys)

pub data AlikeSpec : Fields → Fields → Type 0 where
  empty : AlikeSpec end end
  containers :
      {k : Text} {xs ys : Items} {fs gs : Fields}
      → member k container_lists ≡ true
      → AlikeContainers xs ys
      → AlikeSpec fs gs
      → AlikeSpec (field k (arr xs) fs) (field k (arr ys) gs)
  other :
      {k : Text} {v w : Json} {fs gs : Fields}
      → member k container_lists ≡ false
      → AlikeField false k v w
      → AlikeSpec fs gs
      → AlikeSpec (field k v fs) (field k w gs)
