-- ===== src/Process/World.antt =====
-- What a run of the pipeline works on. The collaborators (models, Loki, Prometheus, the cluster,
-- GitHub, the notifier, the clock) are parameters. A use of the database may fail: `faults` says,
-- for each use in turn, whether it does; behind its end none fails. `effects` lists what was asked
-- of the collaborators. Other tasks do not run in between.
use Prim.Native.Nat.{suc}
use llopster.Base.{
  ℕ, ◌+◌, ◌-◌, ◌*◌, Option, none, some, List, [], ◌∷◌, ◌++◌, Bool, true, false, if◌then◌else◌, ltb,
  Text,
}
use llopster.Base.Int.{ℤ, pos, negsuc, parse_int}
use llopster.Alerts.{ParsedAlert}
use llopster.Github.Client.{Request, Server}
use llopster.Github.Validate.{Parsers}
use llopster.Messages.{Exn, value_error, overflow_error, db_error}
use llopster.Services.{Registry}
use llopster.Store.{Db, ContextColumns, TriageDecision, Investigation, PatchProposal}
use llopster.Store.Dedup.{PreviousAttempt}

-- config.py, as far as the pipeline reads it
pub record Config : Type 0 where
  pub patch_confidence_threshold : ℤ
  pub log_lookback_minutes : ℤ
  pub triage_enabled : Bool
  pub triage_min_confidence : ℤ
  pub investigation_enabled : Bool
  pub open_prs_as_draft : Bool
  pub patch_backoff_minutes : ℤ
  pub max_runs_per_hour : ℤ
  -- in hundred-millionths of a dollar
  pub max_usd_per_day : ℤ

-- A delivery object that is suspended.
pub record HeldObject : Type 0 where
  pub kind : Text
  pub namespace : Text
  pub name : Text

-- What the collector finds: the columns but for the lookback, and the suspended Flux objects of
-- the cluster state (none, if there is no such state).
pub record Collected : Type 0 where
  pub columns : ContextColumns
  pub held : List HeldObject

pub data Answer {ℓ} (A : Type ℓ) : Type ℓ where
  returned : A → Answer A
  raised : Text → Answer A

pub data Effect : Type 0 where
  triage_called : Effect
  context_collected : Effect
  investigation_called : Effect
  synthesis_called : Option PreviousAttempt → Effect
  github_called : List Request → Effect
  notified : Option Text → Effect
  -- a background run of `process_alert`: its run, its alert, its lookback if it is not the default,
  -- and whether the cost breaker is enforced
  task_created : Text → ParsedAlert → Option ℤ → Bool → Effect

-- The optional collaborators are `None` in the source where their credentials are missing.
pub record Env : Type 0 where
  pub config : Config
  pub services : Registry
  pub parse_usd : Text → Option ℤ
  pub now_breaker : ℕ
  pub now_backoff : ℕ
  pub now_grace : ℕ
  pub branch_timestamp : Text
  pub triage : Option (ParsedAlert → Bool → Option Text → Answer TriageDecision)
  pub collect : ParsedAlert → Option ℤ → Answer Collected
  pub investigator : Option (Collected → Text → Option Text → Answer (Investigation × ℕ))
  pub patcher : Option (
      Collected → Text → Option PreviousAttempt → Option Investigation → Answer (PatchProposal × ℕ))
  -- whether the clone of a codebase is a directory, and the chart manifests in it
  pub chart_manifests : Text → Bool × List (List Text)
  pub github : Option Server
  pub parsers : Parsers
  pub notifier : Option (Text × (PatchProposal → Option Text → Answer (Unit {0})))

pub record World : Type 0 where
  pub db : Db
  pub faults : List Bool
  pub effects : List Effect

pub data Result {ℓ} (A : Type ℓ) : Type ℓ where
  ok : A → Result A
  raise : Exn → Result A

abbrev pub M : Type 0 → Type 0
M A = World → Result A × World

module _ {A : Type 0} where
  unfoldable pub pure : A → M A
  pure a w = (ok a, w)

  -- A value or an exception that is at hand.
  unfoldable pub lift : Result A → M A
  lift r w = (r, w)

  abbrev pub run_db : List Bool → (Db → A × Db) → M A
  run_db [] f w = (ok (f w.db).0, record w { db = (f w.db).1 })
  run_db (true ∷ faults) f w = (raise db_error, record w { faults = faults })
  run_db (false ∷ faults) f w = (ok (f w.db).0, record w { db = (f w.db).1; faults = faults })

  -- One use of the database.
  unfoldable pub db_op : (Db → A × Db) → M A
  db_op f w = run_db w.faults f w

  -- `try: …` with the exception as a value
  unfoldable pub attempt : M A → M (Result A)
  attempt m w = (ok (m w).0, (m w).1)

unfoldable pub emit : Effect → M (Unit {0})
emit effect w = (ok tt, record w { effects = w.effects ++ (effect ∷ []) })

abbrev pub continue : {A B : Type 0} → Result A → (A → M B) → M B
continue (ok a) f w = f a w
continue (raise e) f w = (raise e, w)

infixl 5 ◌>>=◌ ◌>>◌
-- To open this is to open the actions above.
unfoldable pub ◌>>=◌ : {A B : Type 0} → M A → (A → M B) → M B
unfolding pure lift db_op attempt emit
◌>>=◌ m f w = continue (m w).0 f (m w).1

abbrev pub ◌>>◌ : {A B : Type 0} → M A → M B → M B
m >> n = m >>= λ _. n

abbrev pub as_result : {A : Type 0} → Answer A → Result A
as_result (returned a) = ok a
as_result (raised e) = raise (Exn.raised e)

-- A read and a write of the database.
abbrev pub query : {A : Type 0} → (Db → A) → M A
query f = db_op (λ db. (f db, db))

abbrev pub write : (Db → Db) → M (Unit {0})
write f = db_op (λ db. (tt, f db))

-- `int(text)`
abbrev pub int_or_raise : Text → Option ℤ → Result ℤ
int_or_raise text none = raise (value_error text)
int_or_raise text (some n) = ok n

abbrev pub int : Text → Result ℤ
int text = int_or_raise text (parse_int text)

-- The last microsecond of the year 9999.
abbrev pub max_instant : ℕ
max_instant = 315537897599999999

abbrev pub minute : ℕ
minute = 60000000

-- `instant - timedelta(minutes=k)` and `instant + timedelta(minutes=k)`, for k ≥ 0
unfoldable pub back : ℕ → ℕ → Result ℕ
back instant k =
    if ltb instant (minute * k) then raise overflow_error else ok (instant - minute * k)

unfoldable pub forth : ℕ → ℕ → Result ℕ
forth instant k =
    if ltb max_instant (instant + minute * k)
    then raise overflow_error
    else ok (instant + minute * k)

unfoldable pub plus_minutes : ℕ → ℤ → Result ℕ
unfolding back forth
plus_minutes instant (pos k) = forth instant k
plus_minutes instant (negsuc k) = back instant (suc k)

unfoldable pub minus_minutes : ℕ → ℤ → Result ℕ
unfolding back forth
minus_minutes instant (pos k) = back instant k
minus_minutes instant (negsuc k) = forth instant (suc k)
