-- ===== src/Base/Lists.antt =====
-- Lists measured by native numbers, and Python's `in`, `any`, `all` and comprehensions.
use Prim.Native.Nat.{ℕ, zero, suc, ◌+◌, ◌-◌, ◌≤◌}
use mathlib.Core.Path.{◌≡◌, refl, ap, sym, ◌∙◌}
use mathlib.Core.Bool.{Bool, true, false, ◌||◌, true≢false}
use mathlib.Core.Option.{Option, none, some}
use mathlib.Core.List.{List, [], ◌∷◌, ◌++◌, map}
use native.Mathlib.Nat.{zero-add, add-zero, suc-add}
use native.Mathlib.Omega.{arith}
use mathlib.Core.Logic.{inl, inr}
use llopster.Base.Tests.{if◌then◌else◌, Bool-cases}

module _ {ℓ} {A : Type ℓ} where
  abbrev pub length : List A → ℕ
  length [] = 0
  length (x ∷ xs) = suc (length xs)

  abbrev pub take : ℕ → List A → List A
  take zero xs = []
  take (suc n) [] = []
  take (suc n) (x ∷ xs) = x ∷ take n xs

  abbrev pub drop : ℕ → List A → List A
  drop zero xs = xs
  drop (suc n) [] = []
  drop (suc n) (x ∷ xs) = drop n xs

  abbrev pub get_elem? : List A → ℕ → Option A
  get_elem? [] i = none
  get_elem? (x ∷ xs) zero = some x
  get_elem? (x ∷ xs) (suc i) = get_elem? xs i

  abbrev pub any : (A → Bool) → List A → Bool
  any p [] = false
  any p (x ∷ xs) = p x || any p xs

  abbrev pub filter : (A → Bool) → List A → List A
  filter p [] = []
  filter p (x ∷ xs) = let rest = filter p xs in if p x then x ∷ rest else rest

  abbrev pub is_empty : List A → Bool
  is_empty [] = true
  is_empty (x ∷ xs) = false

  abbrev pub All {κ} : (A → Type κ) → List A → Type κ
  All P [] = Unit
  All P (x ∷ xs) = P x × All P xs

  -- `x` stands in the list.
  pub data Has (x : A) : List A → Type ℓ where
    here : {y : A} {xs : List A} → x ≡ y → Has x (y ∷ xs)
    there : {y : A} {xs : List A} → Has x xs → Has x (y ∷ xs)

module _ {ℓ} {A : Type ℓ} where
  pub length-append : (xs ys : List A) → length (xs ++ ys) ≡ length xs + length ys
  length-append [] ys = omega arith
  length-append (x ∷ xs) ys = omega (arith, length-append xs ys)

  pub take-append-drop : (n : ℕ) (xs : List A) → take n xs ++ drop n xs ≡ xs
  take-append-drop zero xs = refl
  take-append-drop (suc n) [] = refl
  take-append-drop (suc n) (x ∷ xs) = rw (take-append-drop n xs)

  pub length-drop : (n : ℕ) (xs : List A) → length (drop n xs) ≡ length xs - n
  length-drop zero xs = omega arith
  length-drop (suc n) [] = omega arith
  length-drop (suc n) (x ∷ xs) = omega (arith, length-drop n xs)

  pub length-take : (n : ℕ) (xs : List A) → n ≤ length xs → length (take n xs) ≡ n
  length-take zero xs h = refl
  length-take (suc n) [] h = elim h [ ]
  length-take (suc n) (x ∷ xs) h = ap suc (length-take n xs (omega arith))

  pub take-append_length : (xs ys : List A) → take (length xs) (xs ++ ys) ≡ xs
  take-append_length [] ys = refl
  take-append_length (x ∷ xs) ys = ap (λ (r : List A). x ∷ r) (take-append_length xs ys)

  pub drop-append_length : (xs ys : List A) → drop (length xs) (xs ++ ys) ≡ ys
  drop-append_length [] ys = refl
  drop-append_length (x ∷ xs) ys = drop-append_length xs ys

  pub All_of_Has {κ} : (P : A → Type κ) {x : A} {xs : List A} → All P xs → Has x xs → P x
  All_of_Has P h (here e) = rw e h.0
  All_of_Has P h (there m) = All_of_Has P h.1 m

  pub drop-step :
      (xs : List A) (i : ℕ) {x : A} {rest : List A}
      → drop i xs ≡ x ∷ rest
      → (get_elem? xs i ≡ some x) × (drop (suc i) xs ≡ rest)
  drop-step [] zero e = cc
  drop-step [] (suc i) e = cc
  drop-step (y ∷ xs) zero e = (cc, cc)
  drop-step (y ∷ xs) (suc i) e = drop-step xs i e

  pub drop-drop : (i j : ℕ) (xs : List A) → drop j (drop i xs) ≡ drop (i + j) xs
  drop-drop zero j xs = rw zero-add
  drop-drop (suc i) zero [] = rw add-zero
  drop-drop (suc i) (suc j) [] = rw suc-add
  drop-drop (suc i) j (x ∷ xs) = rw suc-add (drop-drop i j xs)

  pub no_Has : {x : A} → Has x [] → ⊥
  no_Has m = elim m [ ]

  pub Has-filter :
      (p : A → Bool) {x : A} {xs : List A} → Has x xs → p x ≡ true → Has x (filter p xs)
  Has-filter p (here e) h = rw (← e) (rw h (here refl))
  Has-filter p (there {y} m) h = elim (Bool-cases (p y)) [
    | inl e ↦ rw e (there (Has-filter p m h))
    | inr e ↦ rw e (Has-filter p m h)
  ]

  pub filter-All : (p : A → Bool) (xs : List A) → All (λ x. p x ≡ true) (filter p xs)
  filter-All p [] = tt
  filter-All p (x ∷ xs) = elim (Bool-cases (p x)) [
    | inl e ↦ rw e (e, filter-All p xs)
    | inr e ↦ rw e (filter-All p xs)
  ]

  pub All-filter {κ} :
      (P : A → Type κ) (p : A → Bool) (xs : List A) → All P xs → All P (filter p xs)
  All-filter P p [] h = h
  All-filter P p (x ∷ xs) h = elim (Bool-cases (p x)) [
    | inl e ↦ rw e (h.0, All-filter P p xs h.1)
    | inr e ↦ rw e (All-filter P p xs h.1)
  ]

  pub any_of_Has : (p : A → Bool) {x : A} {xs : List A} → Has x xs → p x ≡ true → any p xs ≡ true
  any_of_Has p (here e) h = rw (← e) (rw h)
  any_of_Has p (there {y} m) h = ground (arith, any_of_Has p m h)

pub Has-map {ℓ κ} :
    {A : Type ℓ} {B : Type κ} (f : A → B) {x : A} {xs : List A} → Has x xs → Has (f x) (map f xs)
Has-map f (here e) = here (ap f e)
Has-map f (there m) = there (Has-map f m)

module _ {ℓ} {A : Type ℓ} where
  pub any-append : (p : A → Bool) (xs ys : List A) → any p (xs ++ ys) ≡ (any p xs || any p ys)
  any-append p [] ys = refl
  any-append p (x ∷ xs) ys = ground (arith, any-append p xs ys)

  pub filter-append :
      (p : A → Bool) (xs ys : List A) → filter p (xs ++ ys) ≡ filter p xs ++ filter p ys
  filter-append p [] ys = refl
  filter-append p (x ∷ xs) ys = elim (Bool-cases (p x)) [
    | inl e ↦ rw (e, filter-append p xs ys)
    | inr e ↦ rw (e, filter-append p xs ys)
  ]

  pub All-append {κ} : (P : A → Type κ) (xs ys : List A) → All P xs → All P ys → All P (xs ++ ys)
  All-append P [] ys h k = k
  All-append P (x ∷ xs) ys (a, h) k = (a, All-append P xs ys h k)

  -- Nothing passes the test.
  pub length-filter_none :
      (p : A → Bool) (xs : List A) → any p xs ≡ false → length (filter p xs) ≡ 0
  length-filter_none p [] h = refl
  length-filter_none p (x ∷ xs) h = elim (Bool-cases (p x)) [
    | inl e ↦ absurd (true≢false (sym (rw e) ∙ h))
    | inr e ↦ rw e (length-filter_none p xs (sym (rw e) ∙ h))
  ]

  pub length-filter_some : (p : A → Bool) (xs : List A) → any p xs ≡ true → 1 ≤ length (filter p xs)
  length-filter_some p [] h = absurd (cc)
  length-filter_some p (x ∷ xs) h = elim (Bool-cases (p x)) [
    | inl e ↦ rw e (omega arith)
    | inr e ↦ rw e (length-filter_some p xs (sym (rw e) ∙ h))
  ]
