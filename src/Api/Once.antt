-- ===== src/Api/Once.antt =====
-- api/main.py: at most one open run for each deduplication key.
use llopster.Base.{
  ℕ, ◌≡◌, sym, ap, ◌∙◌, none, List, [], ◌∷◌, ◌++◌, Bool, true, false, map, Text, text_eq,
  eq_of_text_eq, member, arith, Bool-cases, inl, inr, ◌≤◌, suc, filter, length, is_some, any-append,
  filter-append, All-append, length-append, length-filter_none, AreDistinct-append, map-append,
}
use llopster.Alerts.{ParsedAlert}
use llopster.Alerts.Payload.{RawAlert}
use llopster.Store.{Run, Db}
use llopster.Store.Dedup.{find_open_run_by_dedup_key, is_open_for}
use llopster.Store.Newest.{has_open, is_some-find_open_run_by_dedup_key}
use llopster.Store.Valid.{IsValidRun, IsValidDb, run_id_of}
use llopster.Process.World.{World, Result}
use llopster.Process.Breaker.{Mode}
use llopster.Api.Webhook.{Summary}
use llopster.Api.Rows.{IsFresh, Handled, failed, deduped, added}

-- The number of open runs for the key.
abbrev pub open_count : Text → Db → ℕ
open_count key db = length (filter (is_open_for key) db.runs)

abbrev pub AtMostOneOpen : Db → Type 0
AtMostOneOpen db = (key : Text) → open_count key db ≤ 1

-- The keys are distinct, also from each other.
abbrev pub AreDistinctIds : (ℕ → Text) → Type 0
AreDistinctIds fresh_id = (i j : ℕ) → text_eq (fresh_id i) (fresh_id j) ≡ true → i ≡ j

abbrev pub append_row : Run → Db → Db
append_row row db = record db { runs = db.runs ++ (row ∷ []) }

pub record Ready (fresh_id : ℕ → Text) (i : ℕ) (db : Db) : Type 0 where
  pub single : AtMostOneOpen db
  pub valid : IsValidDb db
  pub fresh : IsFresh fresh_id i db

pub none_open :
    (key : Text) (db : Db) → find_open_run_by_dedup_key key db ≡ none → has_open key db ≡ false
none_open key db e = sym (is_some-find_open_run_by_dedup_key key db) ∙ ap is_some e

filter_one : (p : Run → Bool) (row : Run) → length (filter p (row ∷ [])) ≤ 1
filter_one p row = ground arith

append_row-single :
    (other : Text) (row : Run) (key : Text) (db : Db)
    → has_open key db ≡ false
    → row.dedup_key ≡ key
    → open_count other db ≤ 1
    → open_count other (append_row row db) ≤ 1
append_row-single other row key db none_open k h = elim (Bool-cases (text_eq row.dedup_key other)) [
  | inl t ↦
      rw
        (
          filter-append (is_open_for other) db.runs (row ∷ []),
          length-append (filter (is_open_for other) db.runs) _,
          length-filter_none (is_open_for other) db.runs
              (ap (λ x. has_open x db) (sym (eq_of_text_eq _ _ t) ∙ k) ∙ none_open),
        )
        (omega (arith, filter_one (is_open_for other) row))
  | inr t ↦
      rw
        (
          filter-append (is_open_for other) db.runs (row ∷ []),
          length-append (filter (is_open_for other) db.runs) _,
          t,
        )
        (omega (arith, h))
]

module _ (fresh_id : ℕ → Text) (distinct : AreDistinctIds fresh_id) where
  append_row-IsFresh :
      (i : ℕ) (row : Run) (db : Db)
      → row.id ≡ fresh_id i
      → IsFresh fresh_id i db
      → IsFresh fresh_id (suc i) (append_row row db)
  unfolding member
  append_row-IsFresh i row db e h j l =
      ap (member (fresh_id j)) (map-append run_id_of db.runs (row ∷ []))
      ∙ (any-append (text_eq (fresh_id j)) (map run_id_of db.runs) (row.id ∷ [])
          ∙ rw (h j (omega arith), e)
              (elim (Bool-cases (text_eq (fresh_id j) (fresh_id i))) [
                | inl t ↦ absurd (contra (distinct j i t) l)
                | inr t ↦ rw t
              ]))
    where
      contra : j ≡ i → suc i ≤ j → ⊥
      contra e l = omega arith

  append_row-Ready :
      (i : ℕ) (row : Run) (key : Text) (db : Db)
      → has_open key db ≡ false
      → row.id ≡ fresh_id i
      → row.dedup_key ≡ key
      → IsValidRun row
      → Ready fresh_id i db
      → Ready fresh_id (suc i) (append_row row db)
  append_row-Ready i row key db none_open e k v h = record {
    single = λ other. append_row-single other row key db none_open k (h.single other);
    valid = record {
      rows = All-append IsValidRun db.runs (row ∷ []) h.valid.rows (v, tt);
      keys = rw (map-append run_id_of db.runs (row ∷ [])) (
          AreDistinct-append _ row.id h.valid.keys
            (ap (λ x. member x (map run_id_of db.runs)) e ∙ h.fresh i (omega arith)));
    };
    fresh = append_row-IsFresh i row db e h.fresh;
  }

  pub weaken : {i : ℕ} {db : Db} → Ready fresh_id i db → Ready fresh_id (suc i) db
  weaken h = record { single = h.single; valid = h.valid; fresh = λ j l. h.fresh j (omega arith) }

  module _ (now : ℕ → ℕ) (payload : List RawAlert) (mode : Mode) where
    pub Handled-Ready :
        {i : ℕ} {alert : ParsedAlert} {u w : World} {r : Result Summary}
        → Handled fresh_id now payload mode i alert u w r
        → Ready fresh_id i u.db
        → Ready fresh_id (suc i) w.db
    Handled-Ready {i} (failed d x) h = rw d (weaken h)
    Handled-Ready {i} (deduped run f d x) h = rw d (weaken h)
    Handled-Ready {i} {u} (added row f e k o v x d t) h =
        rw d (append_row-Ready i row _ u.db (none_open _ u.db f) e k v h)
