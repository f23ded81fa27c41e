-- ===== src/Base/Newest.antt =====
-- Python's `sorted(xs, key=…, reverse=True)` for a key that is a number.
use Prim.Native.Nat.{ℕ, suc}
use mathlib.Core.Path.{◌≡◌, refl, ap, ◌∙◌}
use mathlib.Core.Logic.{inl, inr}
use mathlib.Core.Bool.{true, false}
use mathlib.Core.List.{List, [], ◌∷◌}
use native.Mathlib.Omega.{arith}
use llopster.Base.Tests.{if◌then◌else◌, leb, ◌==◌, Bool-cases}
use llopster.Base.Lists.{All, filter, length, Has, here, there}

module _ {ℓ} {A : Type ℓ} (key : A → ℕ) where
  unfoldable pub insert_newest : A → List A → List A
  insert_newest x [] = x ∷ []
  insert_newest x (y ∷ rest) =
      let later = insert_newest x rest in if leb (key y) (key x) then x ∷ y ∷ rest else y ∷ later

  unfoldable pub sort_newest : List A → List A
  unfolding insert_newest
  sort_newest [] = []
  sort_newest (x ∷ rest) = insert_newest x (sort_newest rest)

  abbrev pub AreAtMost : ℕ → List A → Type 0
  AreAtMost bound xs = All (λ x. leb (key x) bound ≡ true) xs

  -- No element is followed by a newer one.
  abbrev pub IsNewestFirst : List A → Type 0
  IsNewestFirst [] = Unit
  IsNewestFirst (x ∷ xs) = AreAtMost (key x) xs × IsNewestFirst xs

  AreAtMost-le : (a b : ℕ) (xs : List A) → leb a b ≡ true → AreAtMost a xs → AreAtMost b xs
  AreAtMost-le a b [] h k = tt
  AreAtMost-le a b (x ∷ xs) h (e, k) = (ground arith, AreAtMost-le a b xs h k)

  insert_newest-AreAtMost :
      (bound : ℕ) (x : A) (xs : List A)
      → leb (key x) bound ≡ true
      → AreAtMost bound xs
      → AreAtMost bound (insert_newest x xs)
  unfolding insert_newest
  insert_newest-AreAtMost bound x [] h k = (h, tt)
  insert_newest-AreAtMost bound x (y ∷ rest) h (e, k) = elim (Bool-cases (leb (key y) (key x))) [
    | inl l ↦ rw l (h, (e, k))
    | inr l ↦ rw l (e, insert_newest-AreAtMost bound x rest h k)
  ]

  leb_other : (a b : ℕ) → leb a b ≡ false → leb b a ≡ true
  leb_other a b h = ground arith

  insert_newest-IsNewestFirst :
      (x : A) (xs : List A) → IsNewestFirst xs → IsNewestFirst (insert_newest x xs)
  unfolding insert_newest
  insert_newest-IsNewestFirst x [] h = (tt, tt)
  insert_newest-IsNewestFirst x (y ∷ rest) (a, h) = elim (Bool-cases (leb (key y) (key x))) [
    | inl l ↦ rw l ((l, AreAtMost-le (key y) (key x) rest l a), (a, h))
    | inr l ↦ rw l (
      insert_newest-AreAtMost (key y) x rest (leb_other (key y) (key x) l) a,
      insert_newest-IsNewestFirst x rest h,
    )
  ]

  pub sort_newest-IsNewestFirst : (xs : List A) → IsNewestFirst (sort_newest xs)
  unfolding sort_newest
  sort_newest-IsNewestFirst [] = tt
  sort_newest-IsNewestFirst (x ∷ xs) =
      insert_newest-IsNewestFirst x (sort_newest xs) (sort_newest-IsNewestFirst xs)

  -- The elements with a key, in their order.
  abbrev pub at : ℕ → List A → List A
  at n xs = filter (λ x. key x == n) xs

  not_both : (a b n : ℕ) → leb a b ≡ false → (b == n) ≡ true → (a == n) ≡ false
  not_both a b n h e = ground arith

  at-insert_newest : (n : ℕ) (x : A) (xs : List A) → at n (insert_newest x xs) ≡ at n (x ∷ xs)
  unfolding insert_newest
  at-insert_newest n x [] = refl
  at-insert_newest n x (y ∷ rest) = elim (Bool-cases (leb (key y) (key x))) [
    | inl l ↦ rw l
    | inr l ↦ elim (Bool-cases (key x == n)) [
      | inl e ↦
          let other = not_both (key y) (key x) n l e in
          let later = at-insert_newest n x rest in rw (l, other, e) (simp (later, e))
      | inr e ↦ let later = at-insert_newest n x rest in rw (l, e) (simp (later, e))
    ]
  ]

  -- The sort is stable, and it neither drops nor adds an element.
  pub at-sort_newest : (n : ℕ) (xs : List A) → at n (sort_newest xs) ≡ at n xs
  unfolding sort_newest
  at-sort_newest n [] = refl
  at-sort_newest n (x ∷ xs) =
      let rest = at-sort_newest n xs in rw (at-insert_newest n x (sort_newest xs), rest)

  length-insert_newest : (x : A) (xs : List A) → length (insert_newest x xs) ≡ suc (length xs)
  unfolding insert_newest
  length-insert_newest x [] = refl
  length-insert_newest x (y ∷ rest) = elim (Bool-cases (leb (key y) (key x))) [
    | inl e ↦ rw e refl
    | inr e ↦ rw e (ap suc (length-insert_newest x rest))
  ]

  pub length-sort_newest : (xs : List A) → length (sort_newest xs) ≡ length xs
  unfolding sort_newest
  length-sort_newest [] = refl
  length-sort_newest (x ∷ xs) =
      length-insert_newest x (sort_newest xs) ∙ ap suc (length-sort_newest xs)

  insert_newest-here : (x : A) (xs : List A) → Has x (insert_newest x xs)
  unfolding insert_newest
  insert_newest-here x [] = here refl
  insert_newest-here x (y ∷ rest) = elim (Bool-cases (leb (key y) (key x))) [
    | inl e ↦ rw e (here refl)
    | inr e ↦ rw e (there (insert_newest-here x rest))
  ]

  insert_newest-there : (z x : A) (xs : List A) → Has z xs → Has z (insert_newest x xs)
  unfolding insert_newest
  insert_newest-there z x [] m = elim m [ ]
  insert_newest-there z x (y ∷ rest) m = elim (Bool-cases (leb (key y) (key x))) [
    | inl e ↦ rw e (there m)
    | inr e ↦ rw e (elim m [ here h ↦ here h | there k ↦ there (insert_newest-there z x rest k) ])
  ]

  pub Has-sort_newest : (z : A) (xs : List A) → Has z xs → Has z (sort_newest xs)
  unfolding sort_newest
  Has-sort_newest z [] m = elim m [ ]
  Has-sort_newest z (x ∷ xs) (here e) = rw e (insert_newest-here x (sort_newest xs))
  Has-sort_newest z (x ∷ xs) (there m) =
      insert_newest-there z x (sort_newest xs) (Has-sort_newest z xs m)

  insert_newest-All {κ} :
      (P : A → Type κ) (x : A) (xs : List A) → P x → All P xs → All P (insert_newest x xs)
  unfolding insert_newest
  insert_newest-All P x [] a h = (a, tt)
  insert_newest-All P x (y ∷ rest) a (b, h) = elim (Bool-cases (leb (key y) (key x))) [
    | inl e ↦ rw e (a, (b, h))
    | inr e ↦ rw e (b, insert_newest-All P x rest a h)
  ]

  pub sort_newest-All {κ} : (P : A → Type κ) (xs : List A) → All P xs → All P (sort_newest xs)
  unfolding sort_newest
  sort_newest-All P [] h = tt
  sort_newest-All P (x ∷ xs) (a, h) =
      insert_newest-All P x (sort_newest xs) a (sort_newest-All P xs h)
