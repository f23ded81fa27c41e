-- ===== src/Store/Laws.antt =====
-- Laws of the tables.
use llopster.Base.{
  ◌≡◌, refl, List, [], ◌∷◌, if◌then◌else◌, map, Bool-cases, inl, inr, arith, Text, text_eq,
  text_eq_iff,
}
use mathlib.Core.Option as Opt
use llopster.Store.{Run, Db, find_row, get_run, change_row, modify}

-- The function keeps the primary key.
abbrev pub KeepsId : (Run → Run) → Type 0
KeepsId f = (run : Run) → (f run).id ≡ run.id

find_row-change_row :
    (i j : Text) (f : Run → Run) (runs : List Run)
    → KeepsId f
    → find_row j (change_row i f runs)
      ≡ (if text_eq i j then Opt.map f (find_row j runs) else find_row j runs)
unfolding find_row change_row
find_row-change_row i j f [] k = ground arith
find_row-change_row i j f (run ∷ runs) k = ground (
  arith,
  k run,
  find_row-change_row i j f runs k,
  text_eq_iff i j,
  text_eq_iff run.id i,
  text_eq_iff run.id j,
  text_eq_iff (f run).id j,
)

-- A change of one row is seen at its key and nowhere else.
pub get_run-modify :
    (i j : Text) (f : Run → Run) (db : Db)
    → KeepsId f
    → get_run j (modify i f db) ≡ (if text_eq i j then Opt.map f (get_run j db) else get_run j db)
unfolding get_run modify
get_run-modify i j f db k = find_row-change_row i j f db.runs k

map-change_row {ℓ} :
    {A : Type ℓ} (g : Run → A) (i : Text) (f : Run → Run) (runs : List Run)
    → ((run : Run) → g (f run) ≡ g run)
    → map g (change_row i f runs) ≡ map g runs
unfolding change_row
map-change_row g i f [] k = refl
map-change_row g i f (run ∷ runs) k = elim (Bool-cases (text_eq run.id i)) [
  | inl e ↦ rw (e, k run)
  | inr e ↦ rw (e, map-change_row g i f runs k)
]

-- A column that the change leaves alone is the same in every row.
pub runs-modify {ℓ} :
    {A : Type ℓ} (g : Run → A) (i : Text) (f : Run → Run) (db : Db)
    → ((run : Run) → g (f run) ≡ g run)
    → map g (modify i f db).runs ≡ map g db.runs
unfolding modify
runs-modify g i f db k = map-change_row g i f db.runs k
