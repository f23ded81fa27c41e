-- ===== src/Cluster/Partial.antt =====
-- A computation that may raise a TypeError or AttributeError, which nothing stands for.
use llopster.Base.{Option, none, some, List, [], ◌∷◌, if◌then◌else◌, Text, text_eq}

infixl 5 ◌>>=◌
abbrev pub ◌>>=◌ {ℓ κ} : {A : Type ℓ} {B : Type κ} → Option A → (A → Option B) → Option B
none >>= f = none
some a >>= f = f a

-- `[f(x) for x in xs]`
abbrev pub traverse {ℓ κ} : {A : Type ℓ} {B : Type κ} → (A → Option B) → List A → Option (List B)
traverse f [] = some []
traverse f (x ∷ xs) = do y ← f x; ys ← traverse f xs; some (y ∷ ys)

-- `d[key] = value`
unfoldable pub put {ℓ} : {A : Type ℓ} → Text → A → List (Text × A) → List (Text × A)
unfolding text_eq
put key value [] = (key, value) ∷ []
put key value ((k, v) ∷ rest) =
    if text_eq k key then (k, value) ∷ rest else (k, v) ∷ put key value rest

-- What a computation gives, if it gives something.
abbrev pub IfSome {ℓ κ} : {A : Type ℓ} → (A → Type κ) → Option A → Type κ
IfSome Q none = Unit
IfSome Q (some a) = Q a

pub bind-IfSome {ℓ κ μ} :
    {A : Type ℓ} {B : Type κ} (Q : B → Type μ) (o : Option A) (f : A → Option B)
    → ((a : A) → IfSome Q (f a))
    → IfSome Q (o >>= f)
bind-IfSome Q none f h = tt
bind-IfSome Q (some a) f h = h a
