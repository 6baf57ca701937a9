-- ===== src/Safety/Jobs.antt =====
-- One judge job, from its claim to the removal of its entry, keeps the invariant.
use code_duel.Base.{ℕ, Option, none, some, List, [], ◌∷◌}
use code_duel.Db.{Db}
use code_duel.Db.Invariant.{DbOk}
use code_duel.World.{Env, Result, ok, err}
use code_duel.World.Keeps.{
  Keeps, Keeps-pure, Keeps-raise, Keeps-gets, Keeps-some_or, Keeps-guard, Keeps-bind, Keeps-attempt,
  Keeps-call, InDurable,
}
use code_duel.Proto.{Envelope}
use code_duel.Redisx.JudgeQueue.{JudgeJob, DecodeError, finalize}
use code_duel.Redisx.Keys.{publish}
use code_duel.World.{Site}
use code_duel.Base.{Bytes}
use code_duel.Judge.Store.{
  ClaimedSubmission, CompletedSubmission, ClaimResult, claim_acquired, claim_completed,
  claim_running, claim_expired, claim_missing, CompletionResult, completion_applied,
  completion_lost_ownership,
}
use code_duel.Judge.Outcome.{ExecutionOutcome, ResultEvent}
use code_duel.Judge.Service.{
  JobEnv, publish_each, publish_and_finalize, finish_completion, lift, judge_claimed, act_on_claim,
  process_decoded, process_job,
}
use code_duel.Safety.Judging.{claim-DbOk, complete-DbOk}

-- Messages and stream commands leave the tables alone.
module _ (P : Db → Type 0) where
  pub Durable-publish :
      (e : Env) (s : Site) (channel : Bytes) (payload : Envelope)
      → Keeps (InDurable P) (publish e s channel payload)
  unfolding publish
  Durable-publish e s channel payload = Keeps-call e _ _ (λ w h. h)

  pub Durable-finalize : (e : Env) (id : ℕ) → Keeps (InDurable P) (finalize e id)
  unfolding finalize
  Durable-finalize e id = Keeps-bind _ _ (Keeps-guard _ _) (λ _.
      Keeps-bind _ _ (Keeps-gets _)
        (λ reply. Keeps-bind _ _ (Keeps-call e _ _ (λ w h. h)) (λ _. Keeps-guard _ _)))

  each-Durable : (e : Env) (events : List ResultEvent) → Keeps (InDurable P) (publish_each e events)
  unfolding publish_each
  each-Durable e [] = Keeps-pure _
  each-Durable e (event ∷ events) =
      Keeps-attempt _ _ (Durable-publish e _ _ _)
        (λ r. Keeps-bind _ _ (each-Durable e events) (λ failures. Keeps-pure _))

  deliver-Durable :
      (e : Env) (entry : ℕ) (c : CompletedSubmission)
      → Keeps (InDurable P) (publish_and_finalize e entry c)
  unfolding publish_and_finalize
  deliver-Durable e entry c = Keeps-bind _ _ (Keeps-some_or _ _) (λ events.
      Keeps-bind _ _ (each-Durable e events)
        (λ failures. Keeps-bind _ _ (Keeps-guard _ _) (λ _. Durable-finalize e entry)))

  finish-Durable :
      (e : Env) (entry : ℕ) (r : CompletionResult)
      → Keeps (InDurable P) (finish_completion e entry r)
  unfolding finish_completion
  finish-Durable e entry (completion_applied c) = deliver-Durable e entry c
  finish-Durable e entry completion_lost_ownership = Keeps-raise _

  lift-Durable : (o : Result ExecutionOutcome) → Keeps (InDurable P) (lift o)
  unfolding lift
  lift-Durable (ok o) = Keeps-pure _
  lift-Durable (err x) = Keeps-raise _

module _ (max : ℕ) where
  claimed-DbOk :
      (j : JobEnv) (entry : ℕ) (c : ClaimedSubmission)
      → Keeps (InDurable (DbOk max)) (judge_claimed j entry c)
  unfolding judge_claimed
  claimed-DbOk j entry c = Keeps-bind _ _ (lift-Durable (DbOk max) _) (λ outcome.
      Keeps-bind _ _ (Keeps-some_or _ _) (λ terminal.
        Keeps-bind _ _ (complete-DbOk max j.completing _ c terminal)
          (λ completion. finish-Durable (DbOk max) j.delivering entry completion)))

  act-DbOk :
      (j : JobEnv) (entry : ℕ) (r : ClaimResult)
      → Keeps (InDurable (DbOk max)) (act_on_claim j entry r)
  unfolding act_on_claim
  act-DbOk j entry claim_missing = Durable-finalize (DbOk max) j.delivering entry
  act-DbOk j entry (claim_running until) = Durable-finalize (DbOk max) j.delivering entry
  act-DbOk j entry claim_expired = Keeps-pure _
  act-DbOk j entry (claim_completed c) = deliver-Durable (DbOk max) j.delivering entry c
  act-DbOk j entry (claim_acquired c) = claimed-DbOk j entry c

  decoded-DbOk :
      (j : JobEnv) (job : JudgeJob) (why : Option DecodeError)
      → Keeps (InDurable (DbOk max)) (process_decoded j job why)
  unfolding process_decoded
  decoded-DbOk j job (some why) = Durable-finalize (DbOk max) j.delivering job.entry_id
  decoded-DbOk j job none =
      Keeps-bind _ _ (claim-DbOk max j.claiming _ _ _ _) (λ r. act-DbOk j job.entry_id r)

  -- `processJob` keeps the invariant.
  pub process_job-DbOk :
      (j : JobEnv) (job : JudgeJob) → Keeps (InDurable (DbOk max)) (process_job j job)
  unfolding process_job
  process_job-DbOk j job = Keeps-bind _ _ (Keeps-guard _ _) (λ _. decoded-DbOk j job job.decode_err)
