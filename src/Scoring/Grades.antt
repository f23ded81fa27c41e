-- ===== src/Scoring/Grades.antt =====
-- eval/scoring.py: what the grades mean.
use llopster.Base.{ℕ, Bool, if◌then◌else◌}

abbrev one_if : Bool → ℕ
one_if b = if b then 1 else 0
