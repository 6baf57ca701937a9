-- ===== src/Db/Lifecycle.antt =====
-- What every stored submission satisfies, and that the row changes of the handlers keep it.
use code_duel.Base.{ℕ, ◌<◌, ◌≤◌, ◌≡◌, true, false, none, arith}
use code_duel.Db.{Submission, is_pending, is_running, is_completed, is_none}
use code_duel.World.{Env}
use code_duel.Submission.{Request, new_submission}
use code_duel.Submission.Dispatch.{stamp}
use code_duel.Judge.Store.{start_attempt, TerminalResult}
use code_duel.Judge.Completion.{settle_row}
use code_duel.Reaper.Leases.{reclaim_row}

-- `max` is REAPER_MAX_ATTEMPTS.
pub record IsSound (max : ℕ) (s : Submission) : Type 0 where
  pub open_unsettled : is_completed s.status ≡ false → s.result ≡ none
  pub completed_settled : is_completed s.status ≡ true → is_none s.result ≡ false
  pub idle_untaken : is_running s.status ≡ false → s.attempt_token ≡ none
  pub running_taken : is_running s.status ≡ true → is_none s.attempt_token ≡ false
  pub pending_may_run : is_pending s.status ≡ true → s.attempts < max
  pub attempts_capped : s.attempts ≤ max

pub new_submission-IsSound :
    (max : ℕ) (e : Env) (r : Request) → 0 < max → IsSound max (new_submission e r)
new_submission-IsSound max e r h = ground arith

pub stamp-IsSound : (max now : ℕ) (s : Submission) → IsSound max s → IsSound max (stamp now s)
stamp-IsSound max now s h = ground arith

pub start_attempt-IsSound :
    (max token until : ℕ) (s : Submission)
    → is_pending s.status ≡ true
    → IsSound max s
    → IsSound max (start_attempt token until s)
start_attempt-IsSound max token until s p h = ground arith

pub settle_row-IsSound :
    (max now : ℕ) (r : TerminalResult) (s : Submission)
    → IsSound max s
    → IsSound max (settle_row r now s)
settle_row-IsSound max now r s h = ground arith

pub reclaim_row-IsSound :
    (max now : ℕ) (s : Submission)
    → is_running s.status ≡ true
    → IsSound max s
    → IsSound max (reclaim_row max now s)
reclaim_row-IsSound max now s r h = ground arith
