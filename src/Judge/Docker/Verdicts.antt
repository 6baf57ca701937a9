-- ===== src/Judge/Docker/Verdicts.antt =====
-- What the outcome of an execution says about the runs of its tests.
use code_duel.Base.{
  ℕ, suc, ◌+◌, ◌==◌, Bytes, Bool, true, false, not, ◌||◌, Option, none, some, List, [], ◌∷◌, ◌≡◌,
  refl, sym, ◌∙◌, inl, inr, ◌⊎◌, arith, length, some_inj,
}
use code_duel.Judge.Store.{TestCase}
use code_duel.Judge.Outcome.{
  OutcomeKind, outcome_pass, outcome_wrong_answer, outcome_compile_error, outcome_runtime_error,
  outcome_output_limit, outcome_timeout, other_outcome, ExecutionOutcome,
}
use code_duel.Judge.Output.{output_matches}
use code_duel.Judge.Executor.{LimitedRequest, validate_request}
use code_duel.Judge.Sandbox.{Sandbox, Attempt, ◌>>◌, check, cleanup, compiling}
use code_duel.Judge.Docker.{
  Engine, Parent, alive, past_deadline, parent_cancelled, ProcessEnd, exited, over_limit, timed_out,
  broken, on_process, judge_test, after_test, run_container, test_name, execute_tests,
  after_compile, execute_attempt, attempt_and_clean, with_cleanup, when_valid, execute, oom_killed,
  inspected, inspect_failed, missing_state, Inspection, outcome,
}
use code_duel.Judge.Docker.Yields.{Yields, return-Yields, abort-Yields, then-Yields, if-Yields}
use code_duel.World.{Env, Error, Result, ok, no_image}

-- A test passes: its program stops with code 0 within its limits, is not killed for its memory, and
-- its output matches.
abbrev pub Passes : Engine → ℕ → ℕ → TestCase → Type 0
Passes g limit index test =
    (stdout : Bytes) × (run_container (g.process (test_name index) test.input) limit
      ≡ exited 0 stdout)
    × (g.inspection (test_name index) ≡ inspected false)
    × (output_matches stdout test.expected ≡ true)

-- All tests from an index on pass.
abbrev pub PassesFrom : Engine → ℕ → ℕ → List TestCase → Type 0
PassesFrom g limit index [] = Unit
PassesFrom g limit index (test ∷ tests) =
    Passes g limit index test × PassesFrom g limit (suc index) tests

-- The test with the index `passed` is the first that does not pass.
abbrev pub FailsAt : Engine → ℕ → ℕ → List TestCase → ℕ → Type 0
FailsAt g limit index [] passed = ⊥
FailsAt g limit index (test ∷ tests) passed =
    ((passed ≡ index) × ¬ Passes g limit index test)
    ⊎ (Passes g limit index test × FailsAt g limit (suc index) tests passed)

abbrev pub Failing : OutcomeKind → Type 0
Failing outcome_pass = ⊥
Failing (other_outcome kind) = ⊥
Failing outcome_wrong_answer = Unit
Failing outcome_compile_error = Unit
Failing outcome_runtime_error = Unit
Failing outcome_output_limit = Unit
Failing outcome_timeout = Unit

abbrev pub Judged : Engine → ℕ → ℕ → List TestCase → ExecutionOutcome → Type 0
Judged g limit index tests o =
    ((o.kind ≡ outcome_pass)
      × PassesFrom g limit index tests
      × (o.tests_passed ≡ index + length tests))
    ⊎ (Failing o.kind × FailsAt g limit index tests o.tests_passed)

abbrev NotExited : ProcessEnd → Type 0
NotExited ended = (code : ℕ) (stdout : Bytes) → ended ≡ exited code stdout → ⊥

on_process-Yields :
    {Q : ExecutionOutcome → Type 0} (parent : Parent) (passed : ℕ)
    (next : ℕ → Bytes → Attempt ExecutionOutcome) (ended : ProcessEnd)
    → ((code : ℕ) (stdout : Bytes) → ended ≡ exited code stdout → Yields Q (next code stdout))
    → ((kind : OutcomeKind) → Failing kind → NotExited ended → Q (outcome kind passed))
    → Yields Q (on_process parent passed next ended)
unfolding on_process
on_process-Yields parent passed next (exited code stdout) h fails = h code stdout refl
on_process-Yields parent passed next over_limit h fails =
    return-Yields _ (fails outcome_output_limit tt (λ code stdout e. cc))
on_process-Yields parent_cancelled passed next timed_out h fails = abort-Yields _
on_process-Yields alive passed next timed_out h fails =
    return-Yields _ (fails outcome_timeout tt (λ code stdout e. cc))
on_process-Yields past_deadline passed next timed_out h fails =
    return-Yields _ (fails outcome_timeout tt (λ code stdout e. cc))
on_process-Yields parent passed next broken h fails = abort-Yields _

oom_killed-some : (i : Inspection) (oom : Bool) → oom_killed i ≡ some oom → i ≡ inspected oom
oom_killed-some inspect_failed oom h = cc
oom_killed-some missing_state oom h = cc
oom_killed-some (inspected b) oom h = rw (some_inj b oom h) refl

exited_inj : {c d : ℕ} {s t : Bytes} → exited c s ≡ exited d t → (c ≡ d) × (s ≡ t)
exited_inj h = (cc, cc)

inspected_inj : {a b : Bool} → inspected a ≡ inspected b → a ≡ b
inspected_inj h = cc

-- The test that has just run passes, or it does not.
tested :
    {Q : ExecutionOutcome → Type 0} (g : Engine) (limit index : ℕ) (test : TestCase) (code : ℕ)
    (stdout : Bytes) (rest : Attempt ExecutionOutcome)
    → run_container (g.process (test_name index) test.input) limit ≡ exited code stdout
    → (Passes g limit index test → Yields Q rest)
    → ((kind : OutcomeKind) → Failing kind → ¬ Passes g limit index test → Q (outcome kind index))
    → (o : Option Bool) → oom_killed (g.inspection (test_name index)) ≡ o
    → Yields Q (judge_test index test code stdout o rest)
tested g limit index test code stdout rest ran passes fails none seen = abort-Yields _
tested g limit index test code stdout rest ran passes fails (some oom) seen =
    if-Yields (not (code == 0) || oom) _ _
      (λ bad. return-Yields _ (fails outcome_runtime_error tt (λ p. crashed p.0 p.1 p.2 bad)))
      (λ good.
        if-Yields (not (output_matches stdout test.expected)) _ _
          (λ differs.
            return-Yields _ (fails outcome_wrong_answer tt (λ p. differed p.0 p.1 p.3 differs)))
          (λ same.
            passes
              (stdout, rw (code_zero good) at ran, rw (no_oom good) at stated, same_output same)))
  where
    stated : g.inspection (test_name index) ≡ inspected oom
    stated = oom_killed-some (g.inspection (test_name index)) oom seen

    code_zero : (not (code == 0) || oom) ≡ false → code ≡ 0
    code_zero good = ground arith

    no_oom : (not (code == 0) || oom) ≡ false → oom ≡ false
    no_oom good = ground arith

    same_output :
        not (output_matches stdout test.expected) ≡ false
        → output_matches stdout test.expected ≡ true
    same_output same = ground arith

    clash : code ≡ 0 → oom ≡ false → (not (code == 0) || oom) ≡ true → ⊥
    clash zero_code kept bad = ground arith

    crashed :
        (out : Bytes)
        → run_container (g.process (test_name index) test.input) limit ≡ exited 0 out
        → g.inspection (test_name index) ≡ inspected false
        → (not (code == 0) || oom) ≡ true
        → ⊥
    crashed out stopped kept bad =
        clash (exited_inj (sym ran ∙ stopped)).0 (inspected_inj (sym stated ∙ kept)) bad

    unequal : (a : Bool) → a ≡ true → not a ≡ true → ⊥
    unequal a h k = ground arith

    differed :
        (out : Bytes)
        → run_container (g.process (test_name index) test.input) limit ≡ exited 0 out
        → output_matches out test.expected ≡ true
        → not (output_matches stdout test.expected) ≡ true
        → ⊥
    differed out stopped matched differs =
        unequal (output_matches stdout test.expected)
          (rw (exited_inj (sym ran ∙ stopped)).1 matched) differs

execute_tests-Judged :
    (g : Engine) (limit index : ℕ) (tests : List TestCase)
    → Yields (Judged g limit index tests) (execute_tests g limit index tests)
unfolding execute_tests after_test
execute_tests-Judged g limit index [] = return-Yields _ (inl (refl, tt, ground arith))
execute_tests-Judged g limit index (test ∷ tests) = then-Yields _ _ (λ _.
    on_process-Yields g.parent index
      (after_test g index test (execute_tests g limit (suc index) tests))
      (run_container (g.process (test_name index) test.input) limit)
      (λ code stdout ran. then-Yields _ _ (λ _. then-Yields _ _ (λ _.
        tested g limit index test code stdout (execute_tests g limit (suc index) tests) ran
          (λ pass. passed pass (execute_tests-Judged g limit (suc index) tests)) failed
          (oom_killed (g.inspection (test_name index))) refl)))
      (λ kind fails never. failed kind fails (λ p. never 0 p.0 p.1)))
  where
    failed :
        (kind : OutcomeKind)
        → Failing kind
        → ¬ Passes g limit index test
        → Judged g limit index (test ∷ tests) (outcome kind index)
    failed kind fails bad = inr (fails, inl (refl, bad))

    counted : (n : ℕ) → n ≡ suc index + length tests → n ≡ index + suc (length tests)
    counted n h = ground arith

    more :
        Passes g limit index test
        → (o : ExecutionOutcome) → Judged g limit (suc index) tests o
        → Judged g limit index (test ∷ tests) o
    more pass o (inl (kind, all, count)) = inl (kind, (pass, all), counted o.tests_passed count)
    more pass o (inr (kind, at)) = inr (kind, inr (pass, at))

    passed :
        Passes g limit index test
        → Yields (Judged g limit (suc index) tests) (execute_tests g limit (suc index) tests)
        → Yields (Judged g limit index (test ∷ tests)) (execute_tests g limit (suc index) tests)
    passed pass h = record { value = λ s o e. more pass o (h.value s o e) }

-- What an outcome says: the program compiled, and the first tests passed, up to the count; or it did
-- not compile.
abbrev pub Compiles : Engine → LimitedRequest → Type 0
Compiles g r =
    (stdout : Bytes) × (run_container (g.process compiling []) r.limits.max_output_bytes
      ≡ exited 0 stdout)

abbrev pub Truthful : Engine → LimitedRequest → ExecutionOutcome → Type 0
Truthful g r o =
    (Compiles g r × Judged g r.limits.max_output_bytes 0 r.tests o)
    ⊎ (¬ Compiles g r × Failing o.kind × (o.tests_passed ≡ 0))

execute_attempt-Truthful :
    (g : Engine) (r : LimitedRequest) → Yields (Truthful g r) (execute_attempt g r)
unfolding execute_attempt after_compile
execute_attempt-Truthful g r = then-Yields _ _ (λ _. then-Yields _ _ (λ _. then-Yields _ _ (λ _.
    then-Yields _ _ (λ _. then-Yields _ _ (λ _. then-Yields _ _ (λ _.
      on_process-Yields g.parent 0 (after_compile g r)
        (run_container (g.process compiling []) r.limits.max_output_bytes)
        (λ code stdout ran.
          if-Yields (not (code == 0)) _ _
            (λ bad.
              return-Yields _ (inr ((λ c. nonzero bad (exited_inj (sym ran ∙ c.1)).0), tt, refl)))
            (λ good. then-Yields _ _ (λ _.
              compiled (stdout, rw (is_zero code good) at ran)
                (execute_tests-Judged g r.limits.max_output_bytes 0 r.tests))))
        (λ kind fails never. inr ((λ c. never 0 c.0 c.1), fails, refl))))))))
  where
    nonzero : {code : ℕ} → not (code == 0) ≡ true → code ≡ 0 → ⊥
    nonzero h k = ground arith

    is_zero : (code : ℕ) → not (code == 0) ≡ false → code ≡ 0
    is_zero code h = ground arith

    compiled :
        Compiles g r
        → Yields
            (Judged g r.limits.max_output_bytes 0 r.tests)
            (execute_tests g r.limits.max_output_bytes 0 r.tests)
        → Yields (Truthful g r) (execute_tests g r.limits.max_output_bytes 0 r.tests)
    compiled c h = record { value = λ s o e. inl (c, h.value s o e) }

cleaned-Truthful : (g : Engine) (r : LimitedRequest) → Yields (Truthful g r) (attempt_and_clean g r)
unfolding attempt_and_clean
cleaned-Truthful g r = record {
  value = λ s o e.
      go (cleanup g.cleanup_removal g.volume_removal (execute_attempt g r s).1).0
        (execute_attempt g r s).0 o (λ e. (execute_attempt-Truthful g r).value s o e) e;
}
  where
    go :
        (failed : Bool) (result : Result ExecutionOutcome) (o : ExecutionOutcome)
        → (result ≡ ok o → Truthful g r o)
        → with_cleanup failed result ≡ ok o
        → Truthful g r o
    go true result o h e = cc
    go false result o h e = h e

-- The outcome of an execution is what its runs were: a pass has compiled and passed every test, with
-- all of them counted; any other outcome has not compiled, with none counted, or has compiled and
-- counts the tests before the first that did not pass. A test passes if its program stops with code 0
-- within its limits, is not killed for its memory, and its output matches.
pub execute-Truthful :
    (e : Env) (g : Engine) (r : LimitedRequest) (s : Sandbox) (o : ExecutionOutcome)
    → (execute e g r s).0 ≡ ok o
    → Truthful g r o
unfolding execute
execute-Truthful e g r s o h = (then-Yields _ _ (λ _. valid (validate_request e r))).value s o h
  where
    valid :
        (x : Option Error)
        → Yields
            (Truthful g r)
            (when_valid x (check (g.has_image r.language) no_image >> attempt_and_clean g r))
    valid (some x) = abort-Yields x
    valid none = then-Yields _ _ (λ _. cleaned-Truthful g r)
