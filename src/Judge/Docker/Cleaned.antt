-- ===== src/Judge/Docker/Cleaned.antt =====
-- An execution leaves nothing of its attempt on the host.
use code_duel.Base.{
  ℕ, suc, ◌==◌, Bytes, Bool, true, false, not, ◌||◌, Option, none, some, List, [], ◌∷◌, ◌≡◌, ◌≢◌,
  refl, inl, inr, Bool-cases, if◌then◌else◌,
}
use code_duel.Judge.Store.{TestCase}
use code_duel.Judge.Outcome.{ExecutionOutcome}
use code_duel.Judge.Output.{output_matches}
use code_duel.Judge.Executor.{LimitedRequest, validate_request}
use code_duel.Judge.Sandbox.{Sandbox, Attempt, ◌>>=◌, ◌>>◌, check, cleanup, compiling}
use code_duel.Judge.Sandbox.Tracked.{
  TracksAll, Stays, return-Stays, abort-Stays, check-Stays, bind-Stays, create_workspace-TracksAll,
  create_container-TracksAll, remove_container-TracksAll, cleanup-none,
}
use code_duel.Judge.Docker.{
  Engine, Parent, alive, past_deadline, parent_cancelled, ProcessEnd, exited, over_limit, timed_out,
  broken, on_process, run_container, judge_test, after_test, execute_tests, after_compile,
  execute_attempt, attempt_and_clean, with_cleanup, when_valid, execute,
}
use code_duel.World.{Env, Error, Result, err, cleanup_failed, no_image, not_initialized}

if-Stays :
    {P : Sandbox → Type 0} {A : Type 0} (b : Bool) (m n : Attempt A)
    → Stays P m
    → Stays P n
    → Stays P (if b then m else n)
if-Stays true m n hm hn = hm
if-Stays false m n hm hn = hn

on_process-Stays :
    {P : Sandbox → Type 0} (parent : Parent) (passed : ℕ)
    (next : ℕ → Bytes → Attempt ExecutionOutcome) (ended : ProcessEnd)
    → ((code : ℕ) (stdout : Bytes) → Stays P (next code stdout))
    → Stays P (on_process parent passed next ended)
unfolding on_process
on_process-Stays parent passed next (exited code stdout) h = h code stdout
on_process-Stays parent passed next over_limit h = return-Stays _
on_process-Stays parent_cancelled passed next timed_out h = abort-Stays _
on_process-Stays alive passed next timed_out h = return-Stays _
on_process-Stays past_deadline passed next timed_out h = return-Stays _
on_process-Stays parent passed next broken h = abort-Stays _

judge_test-Stays :
    {P : Sandbox → Type 0} (index : ℕ) (test : TestCase) (code : ℕ) (stdout : Bytes)
    (oom : Option Bool) (rest : Attempt ExecutionOutcome)
    → Stays P rest
    → Stays P (judge_test index test code stdout oom rest)
judge_test-Stays index test code stdout none rest h = abort-Stays _
judge_test-Stays index test code stdout (some oom) rest h =
    if-Stays (not (code == 0) || oom) _ _ (return-Stays _)
      (if-Stays (not (output_matches stdout test.expected)) _ _ (return-Stays _) h)

execute_tests-TracksAll :
    (g : Engine) (limit index : ℕ) (tests : List TestCase)
    → Stays TracksAll (execute_tests g limit index tests)
unfolding execute_tests after_test
execute_tests-TracksAll g limit index [] = return-Stays _
execute_tests-TracksAll g limit index (test ∷ tests) =
    bind-Stays _ _ (create_container-TracksAll _ _) (λ _.
      on_process-Stays g.parent index _ _ (λ code stdout. bind-Stays _ _ (check-Stays _ _) (λ _.
        bind-Stays _ _ (remove_container-TracksAll _ _) (λ _.
          judge_test-Stays index test code stdout _ _
            (execute_tests-TracksAll g limit (suc index) tests)))))

after_compile-TracksAll :
    (g : Engine) (r : LimitedRequest) (code : ℕ) (stdout : Bytes)
    → Stays TracksAll (after_compile g r code stdout)
unfolding after_compile
after_compile-TracksAll g r code stdout = if-Stays (not (code == 0)) _ _ (return-Stays _) (
    bind-Stays _ _ (remove_container-TracksAll _ _)
      (λ _. execute_tests-TracksAll g r.limits.max_output_bytes 0 r.tests))

execute_attempt-TracksAll :
    (g : Engine) (r : LimitedRequest) → Stays TracksAll (execute_attempt g r)
unfolding execute_attempt
execute_attempt-TracksAll g r = bind-Stays _ _ (create_workspace-TracksAll _) (λ _.
    bind-Stays _ _ (create_container-TracksAll _ _) (λ _. bind-Stays _ _ (check-Stays _ _) (λ _.
      bind-Stays _ _ (check-Stays _ _) (λ _. bind-Stays _ _ (check-Stays _ _) (λ _.
        bind-Stays _ _ (create_container-TracksAll _ _) (λ _.
          on_process-Stays g.parent 0 (after_compile g r)
            (run_container (g.process compiling []) r.limits.max_output_bytes)
            (after_compile-TracksAll g r)))))))

-- Before an attempt the host has nothing of it.
abbrev pub fresh : Sandbox
fresh = record { containers = []; has_volume = false; tracked = []; tracks_volume = false }

abbrev pub Clean : Sandbox → Type 0
Clean s = (s.containers ≡ []) × (s.has_volume ≡ false)

attempt-Clean :
    (g : Engine) (r : LimitedRequest)
    → (attempt_and_clean g r fresh).0 ≢ err cleanup_failed
    → Clean (attempt_and_clean g r fresh).1
unfolding attempt_and_clean
attempt-Clean g r h = go (execute_attempt g r fresh).0 (execute_attempt g r fresh).1 tracked h
  where
    tracked : TracksAll (execute_attempt g r fresh).1
    tracked =
        (execute_attempt-TracksAll g r).at fresh
          (record { containers_tracked = tt; volume_tracked = λ has. has })

    go :
        (result : Result ExecutionOutcome) (s : Sandbox)
        → TracksAll s
        → with_cleanup (cleanup g.cleanup_removal g.volume_removal s).0 result ≢ err cleanup_failed
        → Clean (cleanup g.cleanup_removal g.volume_removal s).1
    go result s all h = elim (Bool-cases (cleanup g.cleanup_removal g.volume_removal s).0) [
      | inl failed ↦ absurd (h (rw failed refl))
      | inr done ↦ cleanup-none g.cleanup_removal g.volume_removal s all done
    ]

-- Whatever the daemon answers, and with whatever outcome or error, an execution that does not report
-- that its cleanup failed leaves no container and no volume of its attempt on the host.
pub execute-Clean :
    (e : Env) (g : Engine) (r : LimitedRequest)
    → (execute e g r fresh).0 ≢ err cleanup_failed
    → Clean (execute e g r fresh).1
unfolding execute ◌>>=◌ check
execute-Clean e g r h = go g.initialized (validate_request e r) (g.has_image r.language) h
  where
    go :
        (b : Bool) (o : Option Error) (c : Bool)
        → ((check b not_initialized >>= λ _.
              when_valid o (check c no_image >> attempt_and_clean g r))
            fresh).0
          ≢ err cleanup_failed
        → Clean
            ((check b not_initialized >>= λ _.
                when_valid o (check c no_image >> attempt_and_clean g r))
              fresh).1
    go false o c h = (refl, refl)
    go true (some x) c h = (refl, refl)
    go true none false h = (refl, refl)
    go true none true h = attempt-Clean g r h
