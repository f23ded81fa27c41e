-- ===== src/Json.antt =====
-- The values that `json.loads` gives, and what the clients of the cluster do with them. A dict is
-- its list of entries. Numbers are integers, as in the objects of the API server.
use llopster.Base.{
  Option, none, some, List, [], ◌∷◌, Bool, true, false, not, if◌then◌else◌, is_empty, map, Text,
  text_eq,
}
use llopster.Base.Int.{ℤ, pos, negsuc}
use Prim.Native.Nat.{zero, suc}

mutual
  pub data Json : Type 0 where
    null : Json
    bool : Bool → Json
    num : ℤ → Json
    str : Text → Json
    arr : Items → Json
    obj : Fields → Json

  pub data Items : Type 0 where
    nil : Items
    cons : Json → Items → Items

  pub data Fields : Type 0 where
    end : Fields
    field : Text → Json → Fields → Fields

-- `d.get(key)`
unfoldable pub lookup : Text → Fields → Option Json
unfolding text_eq
lookup key end = none
lookup key (field k v rest) = if text_eq k key then some v else lookup key rest

abbrev is_zero : ℤ → Bool
is_zero (pos zero) = true
is_zero (pos (suc n)) = false
is_zero (negsuc n) = false

-- `bool(value)`
unfoldable pub truthy : Json → Bool
truthy null = false
truthy (bool b) = b
truthy (num n) = not (is_zero n)
truthy (str s) = not (is_empty s)
truthy (arr nil) = false
truthy (arr (cons v vs)) = true
truthy (obj end) = false
truthy (obj (field k v fs)) = true

unfoldable pub is_truthy : Option Json → Bool
unfolding truthy
is_truthy none = false
is_truthy (some v) = truthy v

abbrev pub is_list : Json → Bool
is_list (arr xs) = true
is_list _ = false

abbrev pub is_dict : Json → Bool
is_dict (obj fs) = true
is_dict _ = false

abbrev pub as_dict : Json → Option Fields
as_dict (obj fs) = some fs
as_dict _ = none

abbrev pub to_list : Items → List Json
to_list nil = []
to_list (cons v vs) = v ∷ to_list vs

abbrev pub keys : Fields → List Json
keys end = []
keys (field k v fs) = str k ∷ keys fs

-- In what follows nothing stands for an exception, a TypeError or AttributeError of the source. A
-- value that is kept without a test, and is not of the type that the annotation says, counts as
-- one too.

-- `value or {}`, of which `.get` is called
unfoldable pub dict_or_empty : Option Json → Option Fields
unfolding truthy
dict_or_empty none = some end
dict_or_empty (some v) = if truthy v then as_dict v else some end

-- `iter(value)`
abbrev pub iterate : Json → Option (List Json)
iterate (arr xs) = some (to_list xs)
iterate (obj fs) = some (keys fs)
iterate (str s) = some (map (λ c. str (c ∷ [])) s)
iterate _ = none

-- `for x in value or []`
unfoldable pub list_or_empty : Option Json → Option (List Json)
unfolding truthy
list_or_empty none = some []
list_or_empty (some v) = if truthy v then iterate v else some []

abbrev pub as_text : Json → Option Text
as_text (str s) = some s
as_text _ = none

-- `value or ""`
unfoldable pub text_or_empty : Option Json → Option Text
unfolding truthy
text_or_empty none = some []
text_or_empty (some v) = if truthy v then as_text v else some []

-- a field that is a text or None
unfoldable pub text_or_none : Option Json → Option (Option Text)
text_or_none none = some none
text_or_none (some null) = some none
text_or_none (some (str s)) = some (some s)
text_or_none (some _) = none

abbrev as_int : Json → Option ℤ
as_int (num n) = some n
as_int (bool true) = some (pos 1)
as_int _ = none

-- `int(value or default)`, but for texts that `int` would parse
unfoldable pub int_or : ℤ → Option Json → Option ℤ
unfolding truthy
int_or default none = some default
int_or default (some v) = if truthy v then as_int v else some default

-- the entries that are dicts
unfoldable pub dicts : List Json → List Fields
dicts [] = []
dicts (obj fs ∷ vs) = fs ∷ dicts vs
dicts (_ ∷ vs) = dicts vs

-- `d.get(key, {})`, of which `.get` is called
unfoldable pub dict_or_default : Option Json → Option Fields
dict_or_default none = some end
dict_or_default (some v) = as_dict v

-- `for x in d.get(key, [])`
unfoldable pub list_or_default : Option Json → Option (List Json)
list_or_default none = some []
list_or_default (some v) = iterate v
