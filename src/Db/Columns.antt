-- ===== src/Db/Columns.antt =====
-- What the tests of a column say of it.
use code_duel.Base.{ℕ, ◌≡◌, refl, true, Option, none, some}
use code_duel.Db.{
  SubmissionStatus, pending, running, completed, other_status, MatchStatus, active, finished,
  other_match_status, Verdict, pass, fail, error, timeout, failed, other_verdict, is_running,
  is_completed, is_active, is_pass, is_none,
}

pub pass_of : (v : Verdict) → is_pass v ≡ true → v ≡ pass
pass_of pass h = refl
pass_of fail h = cc
pass_of error h = cc
pass_of timeout h = cc
pass_of failed h = cc
pass_of (other_verdict raw) h = cc

pub active_of : (s : MatchStatus) → is_active s ≡ true → s ≡ active
active_of active h = refl
active_of finished h = cc
active_of (other_match_status raw) h = cc

pub running_of : (s : SubmissionStatus) → is_running s ≡ true → s ≡ running
running_of running h = refl
running_of pending h = cc
running_of completed h = cc
running_of (other_status raw) h = cc

pub none_of : (o : Option ℕ) → is_none o ≡ true → o ≡ none
none_of none h = refl
none_of (some a) h = cc

pub completed_of : (s : SubmissionStatus) → is_completed s ≡ true → s ≡ completed
completed_of completed h = refl
completed_of pending h = cc
completed_of running h = cc
completed_of (other_status raw) h = cc
