-- ===== src/Github/Client/Laws.antt =====
-- Rules for the actions of `open_pr`: which of them write nothing, and what their values say.
use llopster.Base.{
  ◌≡◌, refl, sym, ap, ◌∙◌, Option, List, [], ◌∷◌, ◌++◌, Bool, false, ◌||◌, any, arith, Text,
}
use llopster.Github.Diff.{Patches}
use llopster.Github.Apply.{apply_patch}
use llopster.Github.Validate.{Parsers}
use llopster.Github.Client.{
  Request, get_file, is_write, Reply, returned, raised, Server, Outcome, ok, err, Git, continue,
  ◌>>=◌, ask, as_outcome, or_apply_failed, get_default_branch, fetch_and_apply, prepare, pure, lift,
}

abbrev has_write : List Request → Bool
has_write = any is_write

pub any-append :
    (xs ys : List Request) → any is_write (xs ++ ys) ≡ (any is_write xs || any is_write ys)
any-append [] ys = refl
any-append (x ∷ xs) ys = ground (arith, any-append xs ys)

-- The action makes no write, whether it returns or raises.
pub record Quiet {A : Type 0} (m : Git A) : Type 0 where
  pub at : (log : List Request) → any is_write (m log).1 ≡ any is_write log

module _ {A : Type 0} where
  pub pure-Quiet : (a : A) → Quiet (pure a)
  unfolding pure
  pure-Quiet a = record { at = λ log. refl }

  pub lift-Quiet : (o : Outcome A) → Quiet (lift o)
  unfolding lift
  lift-Quiet o = record { at = λ log. refl }

  pub ask-Quiet :
      (request : Request) (answer : List Request → Reply A)
      → is_write request ≡ false
      → Quiet (ask request answer)
  unfolding ask
  ask-Quiet request answer e = record { at = λ log. any-append log (request ∷ []) ∙ ground arith }

module _ {A B : Type 0} where
  continue-Quiet :
      (o : Outcome A) (f : A → Git B) (log : List Request)
      → ((a : A) → Quiet (f a))
      → any is_write (continue o f log).1 ≡ any is_write log
  continue-Quiet (ok a) f log q = (q a).at log
  continue-Quiet (err e) f log q = refl

  pub bind-Quiet : (m : Git A) (f : A → Git B) → Quiet m → ((a : A) → Quiet (f a)) → Quiet (m >>= f)
  unfolding ◌>>=◌
  bind-Quiet m f qm qf = record { at = λ log. continue-Quiet (m log).0 f (m log).1 qf ∙ qm.at log }

  continue_ok :
      (o : Outcome A) (f : A → Git B) (log log' : List Request) {b : B}
      → continue o f log ≡ (ok b, log')
      → (a : A) × (o ≡ ok a) × (f a log ≡ (ok b, log'))
  continue_ok (ok a) f log log' h = (a, refl, h)
  continue_ok (err e) f log log' h = absurd (cc)

  -- An action that returns did so at every step.
  pub bind_ok :
      (m : Git A) (f : A → Git B) (log log' : List Request) {b : B}
      → (m >>= f) log ≡ (ok b, log')
      → (a : A) × (between : List Request) × (m log ≡ (ok a, between))
        × (f a between ≡ (ok b, log'))
  unfolding ◌>>=◌
  bind_ok m f log log' h =
      let (a, e, g) = continue_ok (m log).0 f (m log).1 log' h in (a, (m log).1, cc, g)

module _ {A : Type 0} where
  pub pure_ok :
      (a : A) (log log' : List Request) {b : A} → pure a log ≡ (ok b, log') → (a ≡ b) × (log ≡ log')
  unfolding pure
  pure_ok a log log' h = ground arith

  pub lift_ok :
      (o : Outcome A) (log log' : List Request) {a : A}
      → lift o log ≡ (ok a, log')
      → (o ≡ ok a) × (log ≡ log')
  unfolding lift
  lift_ok o log log' h = ground arith

  pub ask_ok :
      (request : Request) (answer : List Request → Reply A) (log log' : List Request) {a : A}
      → ask request answer log ≡ (ok a, log')
      → (answer log ≡ returned a) × (log' ≡ log ++ (request ∷ []))
  unfolding ask
  ask_ok request answer log log' h =
      from_reply (answer log) (ap (λ p. p.0) h, sym (ap (λ p. p.1) h))
    where
      from_reply :
          (r : Reply A) {a : A} {log : List Request}
          → (as_outcome r ≡ ok a) × (log' ≡ log)
          → (r ≡ returned a) × (log' ≡ log)
      from_reply (returned x) h = ground arith
      from_reply (raised e) h = absurd (cc)

ruleset quiet_rules = (pure-Quiet, lift-Quiet, ask-Quiet, bind-Quiet)

module _ (server : Server) (parsers : Parsers) (repo : Text) where
  get_default_branch-Quiet : Quiet (get_default_branch server parsers repo)
  unfolding get_default_branch
  get_default_branch-Quiet = search quiet_rules

  fetch_and_apply-Quiet :
      (branch : Text) (patches : Patches)
      → Quiet (fetch_and_apply server parsers repo branch patches)
  unfolding fetch_and_apply
  fetch_and_apply-Quiet branch [] = search quiet_rules
  fetch_and_apply-Quiet branch ((path, hunks) ∷ patches) =
      bind-Quiet (ask (get_file repo path branch) _) _
        (ask-Quiet (get_file repo path branch) _ refl)
        λ (original, sha).
          bind-Quiet (lift (or_apply_failed path (apply_patch original hunks))) _ (lift-Quiet _)
            λ patched.
              bind-Quiet (fetch_and_apply server parsers repo branch patches) _
                (fetch_and_apply-Quiet branch patches) λ rest. pure-Quiet _

  pub prepare-Quiet :
      (allowed roots : Option (List Text)) (patches : Patches)
      → Quiet (prepare server parsers repo allowed roots patches)
  unfolding prepare
  prepare-Quiet allowed roots patches =
      search (quiet_rules, get_default_branch-Quiet, fetch_and_apply-Quiet) depth 12
