-- ===== src/System/Reach.antt =====
-- The steps of the roles on the shared state (internal/match/service.go and dispatch.go,
-- internal/gateway/conn.go, internal/judge/run.go, internal/reaper/run.go call these handlers in
-- their loops), the states that they reach, and what holds of all of them.
use code_duel.Base.{ℕ, ◌<◌, Bytes, true, List}
use code_duel.Db.Invariant.{DbOk}
use code_duel.Redisx.{QueueMember}
use code_duel.Redisx.JudgeQueue.{JudgeJob}
use code_duel.Redisx.Queue.{Queue, QueueEntry}
use code_duel.Gateway.Matchmaking.{enqueue_for_match}
use code_duel.Gateway.Matchmaking.Admitted.{admission-InDurable}
use code_duel.Match.Service
use code_duel.Match.Service.{Matchmaker}
use code_duel.Match.Service.Steps.{step-DbOk}
use code_duel.Submission.{Request, Service, accept}
use code_duel.Submission.Dispatch.{Dispatcher, dispatch_pending}
use code_duel.Judge.Service.{JobEnv, process_job}
use code_duel.Reaper.Leases.{ReaperConfig, reclaim_leases}
use code_duel.Reaper.Sweep.{TickEnv, sweep_stream, tick}
use code_duel.Match.Create.{create_match}
use code_duel.World.{Env, World}
use code_duel.Safety.Admission.{accept-DbOk, dispatch_pending-DbOk}
use code_duel.Safety.Jobs.{process_job-DbOk}
use code_duel.Safety.Ticking.{sweep-DbOk, tick-DbOk}
use code_duel.Safety.Judging.{claim-DbOk, complete-DbOk}
use code_duel.Safety.Reaping.{leases-DbOk, matches-DbOk}
use code_duel.Judge.Store.{ClaimedSubmission, TerminalResult, claim}
use code_duel.Judge.Completion.{complete}
use code_duel.Reaper.Matches.{finalize_matches}
use code_duel.Safety.Matching.{create_match-DbOk}

-- The state after one handler, whose calls end as its environment says.
pub data Step (cfg : ReaperConfig) : World → World → Type 0 where
  creates :
      (e : Env) (milliseconds : ℕ) (a b : QueueMember) (w : World)
      → Step cfg w (create_match e true milliseconds a b w).1
  -- A step of the matchmaker, from any entries that it holds back.
  pairs :
      (e : Env) (s : Matchmaker) (pending : List QueueEntry) (w : World)
      → Step cfg w (Service.step e s pending w).1
  admits :
      (e : Env) (queue : Queue) (m : QueueMember) (w : World)
      → Step cfg w (enqueue_for_match e true queue m w).1
  accepts :
      (e : Env) (service : Service) (r : Request) (w : World) → Step cfg w (accept e service r w).1
  dispatches : (e : Env) (d : Dispatcher) (w : World) → Step cfg w (dispatch_pending e d w).1
  judges : (j : JobEnv) (job : JudgeJob) (w : World) → Step cfg w (process_job j job w).1
  -- The transactions of a judge job and of a tick one by one, with anything between them.
  claims : (e : Env) (id token lease : ℕ) (w : World) → Step cfg w (claim e true id token lease w).1
  completes :
      (e : Env) (c : ClaimedSubmission) (r : TerminalResult) (w : World)
      → Step cfg w (complete e true c r w).1
  reclaims : (e : Env) (w : World) → Step cfg w (reclaim_leases e cfg w).1
  sweeps :
      (e : Env) (d : Dispatcher) (consumer : Bytes) (w : World)
      → Step cfg w (sweep_stream e d consumer cfg w).1
  finishes : (e : Env) (w : World) → Step cfg w (finalize_matches e cfg w).1
  reaps :
      (t : TickEnv) (d : Dispatcher) (consumer : Bytes) (w : World)
      → Step cfg w (tick t d consumer cfg w).1

pub data Reaches (cfg : ReaperConfig) : World → World → Type 0 where
  here : (w : World) → Reaches cfg w w
  then_step : {u v w : World} → Reaches cfg u v → Step cfg v w → Reaches cfg u w

Step-DbOk :
    (cfg : ReaperConfig) (v w : World)
    → 0 < cfg.max_attempts
    → Step cfg v w
    → DbOk cfg.max_attempts v.durable
    → DbOk cfg.max_attempts w.durable
Step-DbOk cfg v w pos (creates e milliseconds a b _) h =
    (create_match-DbOk cfg.max_attempts e true milliseconds a b).at v h
Step-DbOk cfg v w pos (pairs e s pending _) h = (step-DbOk cfg.max_attempts e s pending).at v h
Step-DbOk cfg v w pos (admits e queue m _) h =
    (admission-InDurable e (DbOk cfg.max_attempts) true queue m).at v h
Step-DbOk cfg v w pos (accepts e service r _) h =
    (accept-DbOk cfg.max_attempts e service r pos).at v h
Step-DbOk cfg v w pos (dispatches e d _) h = (dispatch_pending-DbOk cfg.max_attempts e d).at v h
Step-DbOk cfg v w pos (judges j job _) h = (process_job-DbOk cfg.max_attempts j job).at v h
Step-DbOk cfg v w pos (claims e id token lease _) h =
    (claim-DbOk cfg.max_attempts e true id token lease).at v h
Step-DbOk cfg v w pos (completes e c r _) h = (complete-DbOk cfg.max_attempts e true c r).at v h
Step-DbOk cfg v w pos (reclaims e _) h = (leases-DbOk e cfg).at v h
Step-DbOk cfg v w pos (sweeps e d consumer _) h =
    (sweep-DbOk cfg.max_attempts e d consumer cfg).at v h
Step-DbOk cfg v w pos (finishes e _) h = (matches-DbOk cfg.max_attempts e cfg).at v h
Step-DbOk cfg v w pos (reaps t d consumer _) h = (tick-DbOk t d consumer cfg).at v h

-- Whatever the handlers do, in any order and with any failures of their calls, the tables satisfy
-- the invariant DbOk in every state that they reach from one that satisfies it, for a limit of
-- attempts that is not 0.
pub reaches-DbOk :
    (cfg : ReaperConfig) (v w : World)
    → 0 < cfg.max_attempts
    → DbOk cfg.max_attempts v.durable
    → Reaches cfg v w
    → DbOk cfg.max_attempts w.durable
reaches-DbOk cfg v w pos h (here _) = h
reaches-DbOk cfg v w pos h (then_step {v = u} run step) =
    Step-DbOk cfg u w pos step (reaches-DbOk cfg v u pos h run)
