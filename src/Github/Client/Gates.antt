-- ===== src/Github/Client/Gates.antt =====
-- What a run of `open_pr` asks of the server, and under which conditions.
use llopster.Base.{
  ◌≡◌, refl, sym, ap, ◌∙◌, Option, List, [], ◌∷◌, ◌++◌, Bool, true, false, any, Text, lit,
  append_assoc, append-nil,
}
use llopster.Alerts.{ParsedAlert}
use llopster.Github.Diff.{Patches, extract_diff, parse_file_patches}
use llopster.Github.Validate.{Parsers}
use llopster.Github.Client.{
  PullRequest, Request, create_branch, update_file, create_pr, is_write, Server, Outcome, ok, err,
  continue, ◌>>=◌, ask, PatchedFile, title, update_files, prepare, publish, open_pr,
  make_branch_name,
}
use llopster.Github.Client.Laws.{prepare-Quiet, bind_ok, pure_ok, ask_ok}
use llopster.Github.Client.Gated.{Gated, prepare-Gated}

module _ (server : Server) (parsers : Parsers) (repo : Text) where
  -- The writes of the files, in order.
  pub update_requests : ParsedAlert → Text → List PatchedFile → List Request
  update_requests alert branch [] = []
  update_requests alert branch ((path, content, sha) ∷ files) =
      update_file repo path content sha branch (title alert ++ lit " — applied llopster patch")
      ∷ update_requests alert branch files

  update_files_ok :
      (alert : ParsedAlert) (branch : Text) (files : List PatchedFile) (log log' : List Request)
      {u : Unit {0}}
      → update_files server parsers repo alert branch files log ≡ (ok u, log')
      → log' ≡ log ++ update_requests alert branch files
  unfolding update_files update_requests
  update_files_ok alert branch [] log log' h = sym (pure_ok _ log log' h).1 ∙ sym (append-nil log)
  update_files_ok alert branch ((path, content, sha) ∷ files) log log' h =
      let (u, log1, h1, k1) =
        bind_ok (ask (update_file repo path content sha branch _) _) _ log log' h in
      update_files_ok alert branch files log1 log' k1
      ∙ ap (λ l. l ++ update_requests alert branch files) (ask_ok _ _ log log1 h1).1
      ∙ append_assoc log _ _

regroup :
    (reads : List Request) (first : Request) (middle last : List Request)
    → ((reads ++ (first ∷ [])) ++ middle) ++ last ≡ reads ++ (first ∷ (middle ++ last))
regroup reads first middle last =
    append_assoc (reads ++ (first ∷ [])) middle last
    ∙ append_assoc reads (first ∷ []) (middle ++ last)

module _ (server : Server) (parsers : Parsers) (repo timestamp : Text) (alert : ParsedAlert)
    (proposal_text : Text) (draft : Bool) (allowed roots : Option (List Text)) where
  abbrev diff : Patches
  diff = parse_file_patches (extract_diff proposal_text)

  abbrev branch_name : Text
  branch_name = make_branch_name timestamp alert

  abbrev run : Outcome PullRequest × List Request
  run = open_pr server parsers repo timestamp alert proposal_text draft allowed roots []

  quiet_err :
      (o : Outcome (Text × Text × List PatchedFile)) (log : List Request)
      → any is_write log ≡ false
      → any is_write (continue o (publish server parsers repo alert draft branch_name) log).1 ≡ true
      → (p : Text × Text × List PatchedFile) × (o ≡ ok p)
  quiet_err (ok p) log q w = (p, refl)
  quiet_err (err e) log q w = absurd (cc)

  -- If a run asks the server for any change at all, whether or not it then succeeds, then every
  -- gate has passed: the diff has a patch, no path of it is protected, each is on the allowlist
  -- if there is one, each file's hunks apply to the content that the server gave, and the result
  -- passes validation.
  pub open_pr-write :
      any is_write run.1 ≡ true
      → (branch : Text) × (files : List PatchedFile) × Gated server parsers repo allowed roots diff
          branch files
  unfolding open_pr ◌>>=◌
  open_pr-write w =
      let first = prepare server parsers repo allowed roots diff [] in
      let (p, e) =
        quiet_err first.0 first.1 ((prepare-Quiet server parsers repo allowed roots diff).at [])
          w in
      (
        p.0,
        p.2,
        prepare-Gated server parsers repo allowed roots diff [] first.1 (λ i. (e i, first.1)),
      )

  published :
      (p : Text × Text × List PatchedFile) (reads : List Request) (pr : PullRequest)
      (log : List Request)
      → publish server parsers repo alert draft branch_name p reads ≡ (ok pr, log)
      → log
        ≡ reads
          ++ (create_branch repo branch_name p.1
              ∷ (update_requests server parsers repo alert branch_name p.2
                  ++ (create_pr repo (title alert) branch_name p.0 draft ∷ [])))
  unfolding publish
  published (base, sha, files) reads pr log k =
      let (u1, log1, h1, k1) =
        bind_ok (ask (create_branch repo branch_name sha) server.branch_created) _ reads log k in
      let (u2, log2, h2, k2) =
        bind_ok (update_files server parsers repo alert branch_name files) _ log1 log k1 in
      let (made, log3, h3, k3) =
        bind_ok (ask (create_pr repo (title alert) branch_name base draft) server.pr_created) _ log2
          log k2 in
      sym (pure_ok _ log3 log k3).1
      ∙ (ask_ok _ _ log2 log3 h3).1
      ∙ ap (λ l. l ++ (create_pr repo (title alert) branch_name base draft ∷ []))
          (update_files_ok server parsers repo alert branch_name files log1 log2 h2
            ∙ ap (λ l. l ++ update_requests server parsers repo alert branch_name files)
                (ask_ok _ _ reads log1 h1).1)
      ∙ regroup reads (create_branch repo branch_name sha)
          (update_requests server parsers repo alert branch_name files) _

  -- A run that returns a pull request has, behind requests that only read, created the branch,
  -- updated each file of the diff once and in order on that branch, and opened the pull request.
  pub open_pr_requests :
      (pr : PullRequest) (log : List Request)
      → run ≡ (ok pr, log)
      → (base sha : Text) × (files : List PatchedFile) × (reads : List Request) × Gated server
          parsers repo allowed roots diff base files
        × (any is_write reads ≡ false)
        × (log
            ≡ reads
              ++ (create_branch repo branch_name sha
                  ∷ (update_requests server parsers repo alert branch_name files
                      ++ (create_pr repo (title alert) branch_name base draft ∷ []))))
  unfolding open_pr
  open_pr_requests pr log h =
      let (p, reads, hp, kp) =
        bind_ok (prepare server parsers repo allowed roots diff) _ [] log h in
      let gated = prepare-Gated server parsers repo allowed roots diff [] reads hp in
      let quiet =
        ap (λ r. any is_write r.1) (sym hp)
        ∙ (prepare-Quiet server parsers repo allowed roots diff).at [] in
      (p.0, p.1, p.2, reads, gated, quiet, published p reads pr log kp)
