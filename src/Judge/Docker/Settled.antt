-- ===== src/Judge/Docker/Settled.antt =====
-- From an execution to a terminal result (internal/judge/docker_executor.go and result.go).
use code_duel.Base.{
  ℕ, suc, ◌+◌, ◌≤◌, ◌<◌, ◌≡◌, refl, sym, inl, inr, arith, some, List, [], ◌∷◌, length, subst,
}
use code_duel.Judge.Store.{TestCase, TerminalResult}
use code_duel.Db.{Verdict, pass, fail, error, timeout}
use code_duel.Judge.Outcome.{
  OutcomeKind, outcome_pass, outcome_wrong_answer, outcome_compile_error, outcome_runtime_error,
  outcome_output_limit, outcome_timeout, other_outcome, ExecutionOutcome,
  terminal_result_from_outcome,
}
use code_duel.Judge.Results.{Agrees, terminal_total}
use code_duel.Judge.Executor.{LimitedRequest}
use code_duel.Judge.Sandbox.{Sandbox}
use code_duel.Judge.Docker.{Engine, execute}
use code_duel.Judge.Docker.Verdicts.{FailsAt, Failing, Truthful, execute-Truthful}
use code_duel.World.{Env, ok}

FailsAt-lt :
    (g : Engine) (limit index : ℕ) (tests : List TestCase) (n : ℕ)
    → FailsAt g limit index tests n
    → n < index + length tests
FailsAt-lt g limit index [] n h = absurd h
FailsAt-lt g limit index (test ∷ tests) n (inl (here, bad)) = ground arith
FailsAt-lt g limit index (test ∷ tests) n (inr (passed, later)) =
    let below = FailsAt-lt g limit (suc index) tests n later in ground arith

Failing-Agrees :
    (kind : OutcomeKind) (passed total : ℕ)
    → Failing kind
    → passed ≤ total
    → (v : Verdict) × Agrees kind passed total v
Failing-Agrees outcome_pass passed total f h = absurd f
Failing-Agrees (other_outcome name) passed total f h = absurd f
Failing-Agrees outcome_wrong_answer passed total f h = (fail, (refl, h))
Failing-Agrees outcome_compile_error passed total f h = (error, (refl, h))
Failing-Agrees outcome_runtime_error passed total f h = (error, (refl, h))
Failing-Agrees outcome_output_limit passed total f h = (error, (refl, h))
Failing-Agrees outcome_timeout passed total f h = (timeout, (refl, h))

Truthful-Agrees :
    (g : Engine) (r : LimitedRequest) (o : ExecutionOutcome)
    → Truthful g r o
    → (v : Verdict) × Agrees o.kind o.tests_passed (length r.tests) v
Truthful-Agrees g r o (inl (compiled, inl (kind, all, count))) = (
  pass,
  subst (λ k. Agrees k o.tests_passed (length r.tests) pass) (sym kind)
      (refl, count_all o.tests_passed count),
)
  where
    count_all : (n : ℕ) → n ≡ 0 + length r.tests → n ≡ length r.tests
    count_all n h = ground arith
Truthful-Agrees g r o (inl (compiled, inr (kind, at))) =
    Failing-Agrees o.kind o.tests_passed (length r.tests) kind
      (at_most (FailsAt-lt g r.limits.max_output_bytes 0 r.tests o.tests_passed at))
  where
    at_most : o.tests_passed < 0 + length r.tests → o.tests_passed ≤ length r.tests
    at_most h = ground arith
Truthful-Agrees g r o (inr (failed, kind, none_passed)) =
    Failing-Agrees o.kind o.tests_passed (length r.tests) kind (ground arith)

-- Every outcome of an execution gives a terminal result for the number of the request's tests: the
-- judge never has to reject what its executor returns.
pub execute_settles :
    (e : Env) (g : Engine) (r : LimitedRequest) (s : Sandbox) (o : ExecutionOutcome)
    → (execute e g r s).0 ≡ ok o
    → (t : TerminalResult) × (terminal_result_from_outcome o (length r.tests) ≡ some t)
execute_settles e g r s o h =
    let (v, agrees) = Truthful-Agrees g r o (execute-Truthful e g r s o h) in
    let (t, found, _) = terminal_total o.kind v o.tests_passed (length r.tests) agrees in (t, found)
