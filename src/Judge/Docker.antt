-- ===== src/Judge/Docker.antt =====
-- internal/judge/docker_executor.go: `Execute` and `runContainer`. The daemon's answers, what a
-- program writes, and in which order a run's channels answer are parameters. Which context is passed
-- on only decides those answers.
pub mod Yields
pub mod Verdicts
pub mod Cleaned
pub mod Settled
use code_duel.Base.{
  ℕ, suc, ◌+◌, ◌==◌, Bytes, Bool, true, false, not, ◌||◌, Option, none, some, List, [], ◌∷◌,
  if◌then◌else◌,
}
use code_duel.Db.{Language}
use code_duel.Judge.Store.{TestCase}
use code_duel.Judge.Outcome.{
  OutcomeKind, outcome_pass, outcome_wrong_answer, outcome_compile_error, outcome_runtime_error,
  outcome_output_limit, outcome_timeout, ExecutionOutcome,
}
use code_duel.Judge.Output.{Chunk, Copied, copy_chunks, output_matches}
use code_duel.Judge.Executor.{Limits, LimitedRequest, validate_request}
use code_duel.Judge.Sandbox.{
  staging, compiling, Sandbox, Creation, Removal, Attempt, return, abort, ◌>>=◌, ◌>>◌, check,
  create_workspace, create_container, remove_container, cleanup,
}
use code_duel.World.{
  Error, engine_failed, not_initialized, no_image, cancelled, cleanup_failed, Result, ok, err, Env,
}

-- How the copy of the output ends.
pub data Copy : Type 0 where
  copied copy_limited copy_failed : Copy

-- The inner `select` after the output has been copied, and after the container has stopped.
pub data WaitAfter : Type 0 where
  wait_expired wait_failed wait_silent : WaitAfter
  waited : ℕ → Bool → WaitAfter

pub data CopyAfter : Type 0 where
  copy_expired copy_done : CopyAfter

-- Which channel of the outer `select` answers first: the context, the output, the error of the wait
-- (with the context expired or not; or nil, with what has been copied by then), or its result (an exit
-- code, and whether the response carries an error).
pub data Order : Type 0 where
  expired_first : Order
  output_first : WaitAfter → Order
  error_first : Bool → Order
  silent_first : Bytes → Order
  result_first : ℕ → Bool → CopyAfter → Order

-- One run of a container.
pub record Process : Type 0 where
  pub attaches : Bool
  pub starts : Bool
  pub chunks : List Chunk
  pub read_fails : Bool
  pub order : Order

-- `processResult`, `errOutputLimit`, `errProcessTimeout`, or any other error.
pub data ProcessEnd : Type 0 where
  exited : ℕ → Bytes → ProcessEnd
  over_limit timed_out broken : ProcessEnd

abbrev pub copy_of : Copied → Bool → Copy
copy_of output fails =
    if output.limited then copy_limited else if fails then copy_failed else copied

abbrev pub respond : ℕ → Bool → Bytes → ProcessEnd
respond code has_error stdout = if has_error then broken else exited code stdout

abbrev pub after_output : Copy → WaitAfter → Bytes → ProcessEnd
after_output copy_limited next stdout = over_limit
after_output copy_failed next stdout = broken
after_output copied wait_expired stdout = timed_out
after_output copied wait_failed stdout = broken
after_output copied wait_silent stdout = respond 0 false stdout
after_output copied (waited code has_error) stdout = respond code has_error stdout

abbrev pub after_result : Copy → CopyAfter → ℕ → Bool → Bytes → ProcessEnd
after_result copy copy_expired code has_error stdout = timed_out
after_result copied copy_done code has_error stdout = respond code has_error stdout
after_result copy_limited copy_done code has_error stdout = over_limit
after_result copy_failed copy_done code has_error stdout = broken

abbrev pub select_end : Order → Copy → Bytes → ProcessEnd
select_end expired_first copy stdout = timed_out
select_end (output_first next) copy stdout = after_output copy next stdout
select_end (error_first expired) copy stdout = if expired then timed_out else broken
select_end (silent_first so_far) copy stdout = respond 0 false so_far
select_end (result_first code has_error next) copy stdout =
    after_result copy next code has_error stdout

-- `runContainer`
unfoldable pub run_container : Process → ℕ → ProcessEnd
unfolding copy_chunks
run_container p limit =
    let output = copy_chunks limit p.chunks [] [] in
    if not p.attaches
    then broken
    else if not p.starts
    then broken
    else select_end p.order (copy_of output p.read_fails) output.stdout

pub data Inspection : Type 0 where
  inspect_failed missing_state : Inspection
  inspected : Bool → Inspection

-- The error of the caller's context.
pub data Parent : Type 0 where
  alive past_deadline parent_cancelled : Parent

-- The executor's images and the daemon's answers in one attempt.
pub record Engine : Type 0 where
  pub initialized : Bool
  pub has_image : Language → Bool
  pub volume_creation : Creation
  pub creation : ℕ → Creation
  pub starts_staging : Bool
  pub archives : Bool
  pub copies : Bool
  pub process : ℕ → Bytes → Process
  pub inspection : ℕ → Inspection
  pub removal : ℕ → Removal
  pub cleanup_removal : ℕ → Removal
  pub volume_removal : Removal
  pub parent : Parent

abbrev pub test_name : ℕ → ℕ
test_name index = index + 2

abbrev pub outcome : OutcomeKind → ℕ → ExecutionOutcome
outcome kind passed = record { kind = kind; tests_passed = passed }

abbrev pub timeout_of : Parent → ℕ → Attempt ExecutionOutcome
timeout_of parent_cancelled passed = abort cancelled
timeout_of alive passed = return (outcome outcome_timeout passed)
timeout_of past_deadline passed = return (outcome outcome_timeout passed)

-- `classifyProcessError`, or what follows a result.
unfoldable pub on_process :
    Parent → ℕ → (ℕ → Bytes → Attempt ExecutionOutcome) → ProcessEnd → Attempt ExecutionOutcome
on_process parent passed next (exited code stdout) = next code stdout
on_process parent passed next over_limit = return (outcome outcome_output_limit passed)
on_process parent passed next timed_out = timeout_of parent passed
on_process parent passed next broken = abort engine_failed

abbrev pub inspects : Inspection → Bool
inspects inspect_failed = false
inspects missing_state = true
inspects (inspected oom) = true

abbrev pub oom_killed : Inspection → Option Bool
oom_killed inspect_failed = none
oom_killed missing_state = none
oom_killed (inspected oom) = some oom

abbrev pub judge_test :
    ℕ → TestCase → ℕ → Bytes → Option Bool → Attempt ExecutionOutcome → Attempt ExecutionOutcome
judge_test index test code stdout none rest = abort engine_failed
judge_test index test code stdout (some oom) rest =
    if not (code == 0) || oom
    then return (outcome outcome_runtime_error index)
    else if not (output_matches stdout test.expected)
    then return (outcome outcome_wrong_answer index)
    else rest

-- What follows a run of the test with the given index.
unfoldable pub after_test :
    Engine → ℕ → TestCase → Attempt ExecutionOutcome → ℕ → Bytes → Attempt ExecutionOutcome
after_test g index test rest code stdout = do
  check (inspects (g.inspection (test_name index))) engine_failed
  remove_container (g.removal (test_name index)) (test_name index)
  judge_test index test code stdout (oom_killed (g.inspection (test_name index))) rest

-- The loop over the tests, from an index.
unfoldable pub execute_tests : Engine → ℕ → ℕ → List TestCase → Attempt ExecutionOutcome
unfolding after_test on_process run_container
execute_tests g limit index [] = return (outcome outcome_pass index)
execute_tests g limit index (test ∷ tests) = do
  let rest = execute_tests g limit (suc index) tests
  create_container (g.creation (test_name index)) (test_name index)
  on_process g.parent index (after_test g index test rest)
      (run_container (g.process (test_name index) test.input) limit)

unfoldable pub after_compile : Engine → LimitedRequest → ℕ → Bytes → Attempt ExecutionOutcome
unfolding execute_tests
after_compile g r code stdout =
    let tests = execute_tests g r.limits.max_output_bytes 0 r.tests in
    if not (code == 0)
    then return (outcome outcome_compile_error 0)
    else (remove_container (g.removal compiling) compiling >> tests)

-- `Execute` up to its deferred cleanup.
unfoldable pub execute_attempt : Engine → LimitedRequest → Attempt ExecutionOutcome
unfolding after_compile
execute_attempt g r = do
  create_workspace g.volume_creation
  create_container (g.creation staging) staging
  check g.starts_staging engine_failed
  check g.archives engine_failed
  check g.copies engine_failed
  create_container (g.creation compiling) compiling
  on_process g.parent 0 (after_compile g r)
      (run_container (g.process compiling []) r.limits.max_output_bytes)

-- The deferred cleanup: its error takes the outcome's place.
abbrev pub with_cleanup : Bool → Result ExecutionOutcome → Result ExecutionOutcome
with_cleanup true r = err cleanup_failed
with_cleanup false r = r

unfoldable pub attempt_and_clean : Engine → LimitedRequest → Attempt ExecutionOutcome
unfolding execute_attempt
attempt_and_clean g r s =
    let (result, s') = execute_attempt g r s in
    let (failed, s'') = cleanup g.cleanup_removal g.volume_removal s' in
    (with_cleanup failed result, s'')

abbrev pub when_valid : Option Error → Attempt ExecutionOutcome → Attempt ExecutionOutcome
when_valid (some x) attempt = abort x
when_valid none attempt = attempt

-- `Execute`
unfoldable pub execute : Env → Engine → LimitedRequest → Attempt ExecutionOutcome
unfolding validate_request attempt_and_clean
execute e g r = do
  check g.initialized not_initialized
  when_valid (validate_request e r)
      (check (g.has_image r.language) no_image >> attempt_and_clean g r)
