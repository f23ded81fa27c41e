-- ===== src/Store/Newest.antt =====
-- agent/dedup.py: what the queries for the newest run of a kind find.
use mathlib.Core.Path.{subst}
use llopster.Base.{
  no_Has, sym, any, any_of_Has, is_some, ℕ, ◌≡◌, refl, Option, none, some, List, [], ◌∷◌, Bool,
  true, false, arith, leb, filter, All, Has, here, there, All_of_Has, filter-All, Has-filter,
  Bool-cases, inl, inr, Text, ◌⊎◌,
}
use llopster.Store.{Run, Db}
use llopster.Store.Dedup.{
  newest, is_open_for, find_open_run_by_dedup_key, is_blocking, find_blocking_open_pr_run,
  is_unproductive_run, find_recent_unproductive_run, merged_time, is_merged_run,
  find_previous_merged_attempt,
}

Has_of_filter : (p : Run → Bool) {r : Run} {runs : List Run} → Has r (filter p runs) → Has r runs
Has_of_filter p {r} {runs} m = All_of_Has (λ x. Has x runs) (kept p runs (λ x h. h)) m
  where
    kept :
        (p : Run → Bool) (xs : List Run)
        → ((x : Run) → Has x xs → Has x runs)
        → All (λ x. Has x runs) (filter p xs)
    kept p [] h = tt
    kept p (x ∷ xs) h = elim (Bool-cases (p x)) [
      | inl e ↦ rw e (h x (here refl), kept p xs (λ y m. h y (there m)))
      | inr e ↦ rw e (kept p xs (λ y m. h y (there m)))
    ]

filter_empty :
    (p : Run → Bool) {r : Run} {runs : List Run} → filter p runs ≡ [] → Has r runs → p r ≡ false
filter_empty p {r} e m = elim (Bool-cases (p r)) [
  | inl h ↦ absurd (no_Has (subst (Has r) e (Has-filter p m h)))
  | inr h ↦ h
]

-- The row is of the list, and none of the list is newer.
record IsNewest (column : Run → ℕ) (runs : List Run) (r : Run) : Type 0 where
  pub member : Has r runs
  pub top : All (λ other. leb (column other) (column r) ≡ true) runs

All-trans :
    (column : Run → ℕ) (runs : List Run) (r s : Run)
    → leb (column r) (column s) ≡ true
    → All (λ other. leb (column other) (column r) ≡ true) runs
    → All (λ other. leb (column other) (column s) ≡ true) runs
All-trans column [] r s h a = tt
All-trans column (run ∷ runs) r s h (k, a) = (ground arith, All-trans column runs r s h a)

leb_self : (n : ℕ) → leb n n ≡ true
leb_self n = ground arith

newest_cons :
    (column : Run → ℕ) (run : Run) (runs : List Run)
    → (r : Run) × (newest column (run ∷ runs) ≡ some r) × IsNewest column (run ∷ runs) r
unfolding newest
newest_cons column run [] =
    (run, refl, record { member = here refl; top = (leb_self (column run), tt) })
newest_cons column run (next ∷ runs) =
    let (r, e, n) = newest_cons column next runs in
    elim (Bool-cases (leb (column r) (column run))) [
      | inl l ↦ (
        run,
        rw (e, l),
        record {
          member = here refl;
          top = (leb_self (column run), All-trans column (next ∷ runs) r run l n.top);
        },
      )
      | inr l ↦ (r, rw (e, l), record { member = there n.member; top = (ground arith, n.top) })
    ]

-- Where nothing is found the list is empty; what is found is the newest.
newest_lem :
    (column : Run → ℕ) (runs : List Run)
    → ((newest column runs ≡ none) × (runs ≡ []))
      ⊎ ((r : Run) × (newest column runs ≡ some r) × IsNewest column runs r)
unfolding newest
newest_lem column [] = inl (refl, refl)
newest_lem column (run ∷ runs) = inr (newest_cons column run runs)

IsNewest-filter :
    (column : Run → ℕ) (p : Run → Bool) (runs : List Run) (r : Run)
    → IsNewest column (filter p runs) r
    → Has r runs
      × (p r ≡ true)
      × ((other : Run) → Has other runs → p other ≡ true → leb (column other) (column r) ≡ true)
IsNewest-filter column p runs r n = (
  Has_of_filter p n.member,
  All_of_Has _ (filter-All p runs) n.member,
  λ other m h. All_of_Has _ n.top (Has-filter p m h),
)

-- Whether there is an open run for the key.
abbrev pub has_open : Text → Db → Bool
has_open key db = any (is_open_for key) db.runs

filter_none : (p : Run → Bool) (runs : List Run) → filter p runs ≡ [] → any p runs ≡ false
filter_none p [] h = refl
filter_none p (run ∷ runs) h = elim (Bool-cases (p run)) [
  | inl e ↦ absurd (cons≢nil _ _ (rw e at h))
  | inr e ↦ rw e (filter_none p runs (rw e at h))
]
  where
    cons≢nil : (x : Run) (xs : List Run) → x ∷ xs ≡ [] → ⊥
    cons≢nil x xs h = cc

filter_there :
    (p : Run → Bool) {r : Run} (runs : List Run) → Has r (filter p runs) → any p runs ≡ true
filter_there p runs m = any_of_Has p (Has_of_filter p m) (All_of_Has _ (filter-All p runs) m)

-- The lookup for an open run finds one exactly if there is one.
pub is_some-find_open_run_by_dedup_key :
    (key : Text) (db : Db) → is_some (find_open_run_by_dedup_key key db) ≡ has_open key db
unfolding find_open_run_by_dedup_key
is_some-find_open_run_by_dedup_key key db =
    elim (newest_lem (λ run. run.created_at) (filter (is_open_for key) db.runs)) [
      | inl (e, f) ↦ rw e (sym (filter_none (is_open_for key) db.runs f))
      | inr (r, e, n) ↦ rw e (sym (filter_there (is_open_for key) db.runs n.member))
    ]

-- A query's answer `o` for the newest row with `p`: there is no such row, or `o` is one of
-- them and none of them is newer.
abbrev pub Found : (Run → ℕ) → (Run → Bool) → List Run → Option Run → Type 0
Found column p runs o =
    ((o ≡ none) × ((run : Run) → Has run runs → p run ≡ false))
    ⊎ ((r : Run) × (o ≡ some r)
        × Has r runs
        × (p r ≡ true)
        × ((other : Run) → Has other runs → p other ≡ true → leb (column other) (column r) ≡ true))

newest-filter :
    (column : Run → ℕ) (p : Run → Bool) (runs : List Run)
    → Found column p runs (newest column (filter p runs))
newest-filter column p runs = elim (newest_lem column (filter p runs)) [
  | inl (e, f) ↦ inl (e, λ run m. filter_empty p f m)
  | inr (r, e, n) ↦ let (m, b, top) = IsNewest-filter column p runs r n in inr (r, e, m, b, top)
]

-- The lookup for a pull request that blocks a firing either finds nothing, and then no row but the
-- excluded one has an open pull request for the key, or it finds such a row, and none of them
-- is newer.
find_blocking_open_pr_run_lem :
    (key : Text) (exclude : Option Text) (db : Db)
    → Found
        (λ run. run.created_at)
        (is_blocking key exclude)
        db.runs
        (find_blocking_open_pr_run key exclude db)
unfolding find_blocking_open_pr_run
find_blocking_open_pr_run_lem key exclude db = newest-filter _ _ db.runs

-- The lookup of the backoff finds nothing only if no row but the excluded one, of the key and since
-- the given time, ended without a pull request; else it finds the newest of them.
find_recent_unproductive_run_lem :
    (key : Text) (since : ℕ) (exclude : Option Text) (db : Db)
    → Found
        (λ run. run.created_at)
        (is_unproductive_run key since exclude)
        db.runs
        (find_recent_unproductive_run key since exclude db)
unfolding find_recent_unproductive_run
find_recent_unproductive_run_lem key since exclude db = newest-filter _ _ db.runs

-- The lookup of the previous attempt finds nothing only if no row but the excluded one has a merged
-- pull request for the key; else it finds the one merged last.
find_previous_merged_attempt_lem :
    (key : Text) (exclude : Option Text) (db : Db)
    → Found merged_time
        (is_merged_run key exclude)
        db.runs
        (find_previous_merged_attempt key exclude db)
unfolding find_previous_merged_attempt
find_previous_merged_attempt_lem key exclude db = newest-filter _ _ db.runs
