-- ===== src/Cli/Proven.antt =====
-- What the exit code 0 of `_dispatch` in src/durable_threads/cli.py stands on.
use durable_threads.Prelude.{
  Text, lit, ==_iff, Bool, true, false, not, ◌&&◌, none, some, List, [], ℤ, pos, eq_ℤ, ◌≡◌, refl,
  arith, ok, err, >>=-eq-ok, ok-injective, sym, ap, ◌∙◌, subst, raise_if, or_else, if◌then◌else◌,
  ◌>>=◌, ◌>>◌,
}
use durable_threads.Errors.{Error, Res, evidence_error, provider_error}
use durable_threads.Json.{Json, Fields}
use durable_threads.Contracts.{is_empty}
use durable_threads.Ledger.{Disk}
use durable_threads.Ledger.Numbering.{eq_ℤ→≡}
use durable_threads.Evidence.{WorkerEvidence, validate_evidence}
use durable_threads.Evidence.Git.{git_changed_paths}
use durable_threads.Evidence.Report.{parse_worker_result}
use durable_threads.Evidence.Safety.{IsSafe, validate_evidence-IsSafe}
use durable_threads.Providers.{ProviderInvocation}
use durable_threads.Cli.Args.{
  DispatchArgs, Machine, Target, Attempted, is_caught, evidence_accepted,
}
use durable_threads.Cli.{
  exit_code, verify, attempt, run_it, other_session, record_end, record_stop, raised_again, stopped,
  recorded, claimed, begun, with_ledger, started, prepared, dispatch, no_ledger,
}

module _ (machine : Machine) (args : DispatchArgs) where
  -- Evidence that was read from a process's output and agrees with git.
  pub record IsChecked (a : Attempted) (valid : WorkerEvidence) : Type 0 where
    pub claimed : WorkerEvidence
    pub actual : List Text
    pub read : parse_worker_result machine.decode a.result.stdout ≡ ok claimed
    pub changed :
        git_changed_paths (machine.is_dir args.cwd) (machine.git args.cwd) args.base_ref ≡ ok actual
    pub safe : IsSafe machine.fnmatch args.allowed_path (some actual) claimed valid

  -- A run whose code is that of an attempt.
  abbrev IsRun : Target → ProviderInvocation → ℤ → Attempted → Type 0
  IsRun target invocation code a =
      (attempt machine args target invocation ≡ ok a) × (code ≡ exit_code machine a)

  module _ (target : Target) (task_id : Text) (code : ℤ) (a : Attempted) where
    raised_again-raises :
        (e : Error) (out : Res Json × Disk) → (raised_again machine e out).0 ≡ ok (code, a) → ⊥
    raised_again-raises e (ok j, disk) h = ground arith
    raised_again-raises e (err e', disk) h = ground arith

    stopped-raises :
        (e : Error) (disk : Disk)
        → (stopped machine args target task_id e disk).0 ≡ ok (code, a)
        → ⊥
    stopped-raises e disk h = caught (is_caught e) h
      where
        caught :
            (b : Bool)
            → (if b
                then raised_again machine e (record_stop machine args target task_id e disk)
                else (err e, disk)).0
              ≡ ok (code, a)
            → ⊥
        caught true h = raised_again-raises e (record_stop machine args target task_id e disk) h
        caught false h = ground arith

    recorded-ok :
        (b : Attempted) (out : Res Json × Disk)
        → (recorded machine args target task_id b out).0 ≡ ok (code, a)
        → (b ≡ a) × (code ≡ exit_code machine a)
    recorded-ok b (ok j, disk) h =
        let same = ap (λ (x : ℤ × Attempted). x.1) (ok-injective h) in
        (same, ap (λ (x : ℤ × Attempted). x.0) (sym (ok-injective h)) ∙ ap (exit_code machine) same)
    recorded-ok b (err e, disk) h = absurd (stopped-raises e disk h)

    claimed-ok :
        (reply : Res Attempted) (disk : Disk)
        → (claimed machine args target task_id reply disk).0 ≡ ok (code, a)
        → (reply ≡ ok a) × (code ≡ exit_code machine a)
    claimed-ok (ok b) disk h =
        let (same, exits) = recorded-ok b (record_end machine args target task_id b disk) h in
        (ap ok same, exits)
    claimed-ok (err e) disk h = absurd (stopped-raises e disk h)

    begun-ok :
        (invocation : ProviderInvocation) (reply : Res Fields × Disk)
        → (begun machine args target task_id invocation reply).0 ≡ ok (code, a)
        → IsRun target invocation code a
    begun-ok invocation (ok task, disk) h =
        claimed-ok (attempt machine args target invocation) disk h
    begun-ok invocation (err e, disk) h = absurd (ground arith)

  no_ledger-ok :
      (reply : Res Attempted) (code : ℤ) (a : Attempted)
      → no_ledger machine reply ≡ ok (code, a)
      → (reply ≡ ok a) × (code ≡ exit_code machine a)
  no_ledger-ok (ok b) code a h =
      let same = ap (λ (x : ℤ × Attempted). x.1) (ok-injective h) in
      (
        ap ok same,
        ap (λ (x : ℤ × Attempted). x.0) (sym (ok-injective h)) ∙ ap (exit_code machine) same,
      )
  no_ledger-ok (err e) code a h = absurd (ground arith)

  -- A dispatch that returns has run an attempt.
  dispatch-IsRun :
      (before : Disk) (code : ℤ) (a : Attempted)
      → (dispatch machine args before).0 ≡ ok (code, a)
      → (target : Target) × (invocation : ProviderInvocation) × IsRun target invocation code a
  unfolding dispatch with_ledger
  dispatch-IsRun before code a h = found (prepared machine args) h
    where
      either_way :
          (target : Target) (invocation : ProviderInvocation) (b : Bool)
          → (if b
              then with_ledger machine args target (or_else args.task_id []) invocation before
              else (no_ledger machine (attempt machine args target invocation), before)).0
            ≡ ok (code, a)
          → IsRun target invocation code a
      either_way target invocation true h =
          begun-ok target (or_else args.task_id []) code a invocation _ h
      either_way target invocation false h =
          no_ledger-ok (attempt machine args target invocation) code a h

      found :
          (r : Res (Target × ProviderInvocation))
          → (started machine args r before).0 ≡ ok (code, a)
          → (target : Target) × (invocation : ProviderInvocation) × IsRun target invocation code a
      found (err e) h = absurd (ground arith)
      found (ok (target, invocation)) h =
          (target, invocation, either_way target invocation args.ledger h)

  -- The evidence of an attempt, where it was asked for.
  verify-IsChecked :
      (a : Attempted)
      → args.verify_evidence ≡ true
      → verify machine args a.result ≡ ok a.verified
      → (valid : WorkerEvidence) × (a.verified ≡ some valid) × IsChecked a valid
  unfolding verify
  verify-IsChecked a asked h =
      let body =
        subst
          (λ b.
            (if b
              then (raise_if (is_empty args.allowed_path)
                    (evidence_error "--verify-evidence requires at least one --allowed-path")
                  >> (parse_worker_result machine.decode a.result.stdout >>= λ evidence.
                      git_changed_paths (machine.is_dir args.cwd) (machine.git args.cwd)
                        args.base_ref
                      >>= λ actual.
                          validate_evidence machine.fnmatch evidence args.allowed_path (some actual)
                          >>= λ verified. ok (some verified)))
              else ok none)
            ≡ ok a.verified)
          asked h in
      let (u, allowed, h₁) =
        >>=-eq-ok
          (raise_if (is_empty args.allowed_path)
            (evidence_error "--verify-evidence requires at least one --allowed-path"))
          _ body in
      let (claimed, read, h₂) =
        >>=-eq-ok (parse_worker_result machine.decode a.result.stdout) _ h₁ in
      let (actual, changed, h₃) =
        >>=-eq-ok (git_changed_paths (machine.is_dir args.cwd) (machine.git args.cwd) args.base_ref)
          _ h₂ in
      let (valid, safe, same) =
        >>=-eq-ok (validate_evidence machine.fnmatch claimed args.allowed_path (some actual)) _
          h₃ in
      (
        valid,
        sym (ok-injective same),
        record {
          claimed = claimed;
          actual = actual;
          read = read;
          changed = changed;
          safe =
              validate_evidence-IsSafe machine.fnmatch claimed valid args.allowed_path (some actual)
                safe;
        },
      )

  attempt-verify :
      (target : Target) (invocation : ProviderInvocation) (a : Attempted)
      → attempt machine args target invocation ≡ ok a
      → verify machine args a.result ≡ ok a.verified
  unfolding attempt
  attempt-verify target invocation a h =
      let (result, ran, h₁) =
        >>=-eq-ok (run_it machine invocation args.cwd args.timeout target.max_output_chars) _ h in
      let (u, own, h₂) =
        >>=-eq-ok
          (raise_if (other_session machine target.session_id result.session_id)
            (provider_error "provider returned a different session ID; inspect before retry"))
          _ h₁ in
      let (verified, e, same) = >>=-eq-ok (verify machine args result) _ h₂ in
      subst (λ (x : Attempted). verify machine args x.result ≡ ok x.verified) (ok-injective same) e

  exit_code-0 :
      (a : Attempted)
      → pos 0 ≡ exit_code machine a
      → (a.result.return_code ≡ pos 0) × (evidence_accepted a.verified ≡ true)
  exit_code-0 a h =
      codes_of (eq_ℤ a.result.return_code (pos 0)) (evidence_accepted a.verified) refl refl h
    where
      codes_of :
          (b c : Bool)
          → eq_ℤ a.result.return_code (pos 0) ≡ b
          → evidence_accepted a.verified ≡ c
          → pos 0 ≡ (if not b then a.result.return_code else if b && c then pos 0 else pos 2)
          → (a.result.return_code ≡ pos 0) × (evidence_accepted a.verified ≡ true)
      codes_of true true e f h = (eq_ℤ→≡ a.result.return_code (pos 0) e, f)
      codes_of true false e f h = absurd (ground arith)
      codes_of false c e f h = absurd (ground (arith, h))

  -- A dispatch with --verify-evidence that returns the exit code 0 has run a process that ended with
  -- code 0, and the evidence that was read from its output is complete, its paths are allowed and are
  -- the ones that git names, its provider is an id, and its checks are there with none that
  -- says it failed.
  pub dispatch-IsChecked :
      (before : Disk) (a : Attempted)
      → (dispatch machine args before).0 ≡ ok (pos 0, a)
      → args.verify_evidence ≡ true
      → (a.result.return_code ≡ pos 0)
        × ((valid : WorkerEvidence) × (a.verified ≡ some valid)
            × (valid.status ≡ lit "complete")
            × IsChecked a valid)
  dispatch-IsChecked before a h asked =
      let (target, invocation, (ran, exits)) = dispatch-IsRun before (pos 0) a h in
      let (code, complete) = exit_code-0 a exits in
      let (valid, same, checked) =
        verify-IsChecked a asked (attempt-verify target invocation a ran) in
      (
        code,
        (
          valid,
          same,
          (==_iff valid.status (lit "complete")).0
              (subst (λ v. evidence_accepted v ≡ true) same complete),
          checked,
        ),
      )
