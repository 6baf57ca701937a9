-- ===== src/Reaper/Sweep.antt =====
-- internal/reaper/stream.go and service.go: abandoned stream entries, and one tick of the reaper.
use code_duel.Base.{
  ℕ, ◌/◌, ◌==◌, Bytes, Bool, not, Option, none, some, List, [], ◌∷◌, if◌then◌else◌, find_row,
}
use code_duel.Db.{SubmissionStatus, pending, running, completed, other_status, Submission}
use code_duel.Redisx.JudgeQueue.{JudgeJob, DecodeError, reclaim_idle, finalize}
use code_duel.Submission.Dispatch.{Dispatcher, dispatch}
use code_duel.World.{
  lookup_status, acquire_conn, try_lock, Error, invalid_arguments, missing_entry, invalid_status,
  Result, ok, err, Env, M, pure, raise, gets, ◌>>=◌, ◌>>◌, attempt, query, guard,
}
use code_duel.Reaper.Leases.{ReaperConfig, reclaim_leases}
use code_duel.Reaper.Matches.{finalize_matches}

abbrev status_of : Option Submission → Option SubmissionStatus
status_of none = none
status_of (some s) = some s.status

-- `lookupSubmissionStatus` reads outside a transaction.
unfoldable pub lookup_submission_status : Env → ℕ → M (Option SubmissionStatus)
lookup_submission_status e id = do
  guard (not (id == 0)) invalid_arguments
  query e (lookup_status id)
  row ← gets (λ w. find_row (λ s. s.id == id) w.durable.submissions)
  pure (status_of row)

unfoldable pub replace_job : Env → Dispatcher → JudgeJob → M (Unit {0})
replace_job e d job = do dispatch e d job.submission_id; finalize e job.entry_id

unfoldable pub handle_status : Env → Dispatcher → JudgeJob → Option SubmissionStatus → M (Unit {0})
handle_status e d job none = finalize e job.entry_id
handle_status e d job (some pending) = replace_job e d job
handle_status e d job (some completed) = replace_job e d job
handle_status e d job (some running) = pure tt
handle_status e d job (some (other_status raw)) = raise invalid_status

unfoldable pub handle_decoded : Env → Dispatcher → JudgeJob → Option DecodeError → M (Unit {0})
handle_decoded e d job (some why) = finalize e job.entry_id
handle_decoded e d job none = do
  status ← lookup_submission_status e job.submission_id
  handle_status e d job status

-- `handleReclaimedJob`
unfoldable pub handle_reclaimed_job : Env → Dispatcher → JudgeJob → M (Unit {0})
handle_reclaimed_job e d job = do
  guard (not (job.entry_id == 0)) missing_entry
  handle_decoded e d job job.decode_err

abbrev pub first_error : Result (Unit {0}) → Option Error → Option Error
first_error (ok done) later = later
first_error (err x) later = some x

-- Every job is handled, and the first error is kept.
unfoldable pub sweep_each : Env → Dispatcher → List JudgeJob → M (Option Error)
sweep_each e d [] = pure none
sweep_each e d (job ∷ jobs) =
    attempt (handle_reclaimed_job e d job)
      (λ r. do later ← sweep_each e d jobs; pure (first_error r later))

unfoldable pub return_error : Option Error → M (Unit {0})
return_error none = pure tt
return_error (some x) = raise x

-- `sweepStream`. The configuration counts nanoseconds, and the clock microseconds.
unfoldable pub sweep_stream : Env → Dispatcher → Bytes → ReaperConfig → M (Unit {0})
sweep_stream e d consumer cfg = do
  jobs ← reclaim_idle e consumer (cfg.stream_min_idle / 1000) cfg.batch_size
  failure ← sweep_each e d jobs
  return_error failure

-- The environments of the parts of a tick, and whether its advisory lock was free.
pub record TickEnv : Type 0 where
  pub locking : Env
  pub leasing : Env
  pub sweeping : Env
  pub ending : Env
  pub acquired : Bool

unfoldable pub tick_locked : TickEnv → Dispatcher → Bytes → ReaperConfig → M (Unit {0})
tick_locked t d consumer cfg = do
  reclaim_leases t.leasing cfg
  sweep_stream t.sweeping d consumer cfg
  finalize_matches t.ending cfg

-- `tick`. The unlock at its end changes nothing here.
unfoldable pub tick : TickEnv → Dispatcher → Bytes → ReaperConfig → M (Unit {0})
tick t d consumer cfg = do
  query t.locking acquire_conn
  query t.locking try_lock
  if t.acquired then tick_locked t d consumer cfg else pure tt
