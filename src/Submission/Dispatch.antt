-- ===== src/Submission/Dispatch.antt =====
-- internal/submission/dispatch.go: from durable pending submissions to the judge stream.
pub mod Runs
use code_duel.Base.{
  ℕ, ◌+◌, ◌-◌, ◌==◌, ltb, leb, Bool, true, false, not, ◌&&◌, ◌||◌, Option, none, some, List, [],
  ◌∷◌, map, if◌then◌else◌, length, take, select_rows, update_rows, order_by,
}
use code_duel.Db.{Submission, Db, is_pending}
use code_duel.World.{
  begin_tx, commit_tx, select_rows_site, mark_enqueued, invalid_arguments, missing_dependency, Env,
  World, M, pure, gets, ◌>>=◌, ◌>>◌, query, begin_with, exec, commit_with, exec_now, guard,
}
use code_duel.Redisx.JudgeQueue.{enqueue}

pub record Dispatcher : Type 0 where
  pub has_dependencies : Bool
  pub stale_after : ℕ
  pub batch_size : ℕ

abbrev pub default_dispatch_batch_size : ℕ
default_dispatch_batch_size = 32

-- `NewDispatcher`
abbrev pub new_dispatcher : Bool → ℕ → ℕ → Option Dispatcher
new_dispatcher has_dependencies stale_after batch_size =
    if has_dependencies && ltb 0 stale_after && ltb 0 batch_size
    then some (record {
      has_dependencies = has_dependencies;
      stale_after = stale_after;
      batch_size = batch_size;
    })
    else none

-- UPDATE submissions SET last_enqueued_at = clock_timestamp() WHERE id = $1 AND status = 'pending'
abbrev pub to_stamp : ℕ → Submission → Bool
to_stamp id s = s.id == id && is_pending s.status

abbrev pub stamp : ℕ → Submission → Submission
stamp now s = record s { last_enqueued_at = some now }

unfoldable pub stamp_enqueued : ℕ → ℕ → Db → Db
stamp_enqueued id now db = record db {
  submissions = update_rows (to_stamp id) (stamp now) db.submissions;
}

-- `Dispatch` marks the row only after XADD.
unfoldable pub dispatch : Env → Dispatcher → ℕ → M (Unit {0})
dispatch e d id = do
  guard d.has_dependencies missing_dependency
  guard (not (id == 0)) invalid_arguments
  enqueue e id
  exec_now e (mark_enqueued id) (stamp_enqueued id (e.clock (mark_enqueued id)))

-- `last_enqueued_at IS NULL OR last_enqueued_at <= clock_timestamp() - staleAfter`
abbrev pub is_stale : ℕ → ℕ → Option ℕ → Bool
is_stale now stale_after none = true
is_stale now stale_after (some at) = leb (at + stale_after) now

abbrev pub is_candidate : ℕ → ℕ → Submission → Bool
is_candidate now stale_after s = is_pending s.status && is_stale now stale_after s.last_enqueued_at

abbrev pub older : Submission → Submission → Bool
older a b = ltb a.created_at b.created_at || (a.created_at == b.created_at && ltb a.id b.id)

abbrev pub candidates : ℕ → Dispatcher → Db → List ℕ
candidates now d db =
    map (λ s. s.id)
      (take d.batch_size
        (order_by older (select_rows (is_candidate now d.stale_after) db.submissions)))

unfoldable pub dispatch_each : Env → List ℕ → M (Unit {0})
dispatch_each e [] = pure tt
dispatch_each e (id ∷ ids) = do
  enqueue e id
  exec e (mark_enqueued id) (stamp_enqueued id (e.clock (mark_enqueued id)))
  dispatch_each e ids

-- `DispatchPending`: the transaction spans the XADDs, and nothing is marked unless it commits.
unfoldable pub dispatch_pending : Env → Dispatcher → M ℕ
dispatch_pending e d = do
  guard d.has_dependencies missing_dependency
  begin_with e begin_tx
  query e select_rows_site
  ids ← gets (λ w. candidates (e.clock select_rows_site) d w.working)
  dispatch_each e ids
  commit_with e commit_tx
  pure (length ids)
