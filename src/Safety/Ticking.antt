-- ===== src/Safety/Ticking.antt =====
-- A whole tick of the reaper keeps the invariant.
use code_duel.Base.{ℕ, Bytes, Option, none, some, List, [], ◌∷◌}
use code_duel.Db.{SubmissionStatus, pending, running, completed, other_status}
use code_duel.Db.Invariant.{DbOk}
use code_duel.World.{Env, Error, pure}
use code_duel.World.Keeps.{
  Keeps, Keeps-pure, Keeps-raise, Keeps-gets, Keeps-if, Keeps-guard, Keeps-query, Keeps-bind,
  Keeps-attempt, Keeps-call, InDurable,
}
use code_duel.Redisx.JudgeQueue.{JudgeJob, DecodeError, reclaim_idle}
use code_duel.Submission.Dispatch.{Dispatcher}
use code_duel.Reaper.Leases.{ReaperConfig}
use code_duel.Reaper.Sweep.{
  lookup_submission_status, replace_job, handle_status, handle_decoded, handle_reclaimed_job,
  sweep_each, return_error, sweep_stream, TickEnv, tick_locked, tick,
}
use code_duel.Safety.Admission.{dispatch-DbOk}
use code_duel.Safety.Jobs.{Durable-finalize}
use code_duel.Safety.Reaping.{leases-DbOk, matches-DbOk}

module _ (max : ℕ) (e : Env) (d : Dispatcher) where
  replace-DbOk : (job : JudgeJob) → Keeps (InDurable (DbOk max)) (replace_job e d job)
  unfolding replace_job
  replace-DbOk job = Keeps-bind _ _ (dispatch-DbOk max e d _) (λ _. Durable-finalize (DbOk max) e _)

  status-DbOk :
      (job : JudgeJob) (status : Option SubmissionStatus)
      → Keeps (InDurable (DbOk max)) (handle_status e d job status)
  unfolding handle_status
  status-DbOk job none = Durable-finalize (DbOk max) e _
  status-DbOk job (some pending) = replace-DbOk job
  status-DbOk job (some completed) = replace-DbOk job
  status-DbOk job (some running) = Keeps-pure _
  status-DbOk job (some (other_status raw)) = Keeps-raise _

  decoded-DbOk :
      (job : JudgeJob) (why : Option DecodeError)
      → Keeps (InDurable (DbOk max)) (handle_decoded e d job why)
  unfolding handle_decoded lookup_submission_status
  decoded-DbOk job (some why) = Durable-finalize (DbOk max) e _
  decoded-DbOk job none =
      Keeps-bind _ _
        (Keeps-bind _ _ (Keeps-guard _ _) (λ _.
          Keeps-bind _ _ (Keeps-query e _)
            (λ _. Keeps-bind _ _ (Keeps-gets _) (λ row. Keeps-pure _))))
        (λ status. status-DbOk job status)

  pub handle-DbOk : (job : JudgeJob) → Keeps (InDurable (DbOk max)) (handle_reclaimed_job e d job)
  unfolding handle_reclaimed_job
  handle-DbOk job = Keeps-bind _ _ (Keeps-guard _ _) (λ _. decoded-DbOk job job.decode_err)

  each-DbOk : (jobs : List JudgeJob) → Keeps (InDurable (DbOk max)) (sweep_each e d jobs)
  unfolding sweep_each
  each-DbOk [] = Keeps-pure _
  each-DbOk (job ∷ jobs) =
      Keeps-attempt _ _ (handle-DbOk job)
        (λ r. Keeps-bind _ _ (each-DbOk jobs) (λ later. Keeps-pure _))

  return-DbOk : (o : Option Error) → Keeps (InDurable (DbOk max)) (return_error o)
  unfolding return_error
  return-DbOk none = Keeps-pure _
  return-DbOk (some x) = Keeps-raise _

  pub sweep-DbOk :
      (consumer : Bytes) (cfg : ReaperConfig)
      → Keeps (InDurable (DbOk max)) (sweep_stream e d consumer cfg)
  unfolding sweep_stream reclaim_idle
  sweep-DbOk consumer cfg =
      Keeps-bind _ _
        (Keeps-bind _ _ (Keeps-guard _ _) (λ _. Keeps-bind _ _ (Keeps-gets _) (λ claimed.
          Keeps-bind _ _ (Keeps-gets _)
            (λ messages. Keeps-bind _ _ (Keeps-call e _ _ (λ w h. h)) (λ _. Keeps-pure _)))))
        (λ jobs. Keeps-bind _ _ (each-DbOk jobs) (λ failure. return-DbOk failure))

-- `tick` keeps the invariant for its own limit of attempts.
pub tick-DbOk :
    (t : TickEnv) (d : Dispatcher) (consumer : Bytes) (cfg : ReaperConfig)
    → Keeps (InDurable (DbOk cfg.max_attempts)) (tick t d consumer cfg)
unfolding tick tick_locked
tick-DbOk t d consumer cfg = Keeps-bind _ _ (Keeps-query t.locking _) (λ _.
    Keeps-bind _ _ (Keeps-query t.locking _) (λ _.
      Keeps-if t.acquired _ (pure tt)
        (Keeps-bind _ _ (leases-DbOk t.leasing cfg) (λ _.
          Keeps-bind _ _ (sweep-DbOk cfg.max_attempts t.sweeping d consumer cfg)
            (λ _. matches-DbOk cfg.max_attempts t.ending cfg)))
        (Keeps-pure _)))
