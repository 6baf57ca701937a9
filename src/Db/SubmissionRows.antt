-- ===== src/Db/SubmissionRows.antt =====
-- The statements on the submissions keep what is required of them.
use code_duel.Base.{
  ℕ, ◌<◌, ◌==◌, ◌≡◌, refl, All-both, All-update_met, Bool, true, false, some, List, [], ◌∷◌, ◌++◌,
  find_row, exists_row, find_row-none, exists_row_left, All, All-append, All-update_rows,
  All-implies, Keyed-add, Keyed-update_rows, Keyed-selected, by_key, update_rows, arith,
}
use code_duel.Db.{Submission, MatchPlayer, is_running}
use code_duel.Db.Lifecycle.{
  IsSound, new_submission-IsSound, stamp-IsSound, start_attempt-IsSound, settle_row-IsSound,
  reclaim_row-IsSound,
}
use code_duel.Db.Invariant.{SubmissionsOk, IsSubmitted}
use code_duel.World.{Env}
use code_duel.Submission.{Request, new_submission, is_member}
use code_duel.Submission.Dispatch.{to_stamp, stamp}
use code_duel.Judge.Store.{start_attempt, TerminalResult}
use code_duel.Judge.Completion.{settle_row}
use code_duel.Reaper.Leases.{reclaim_row, in_rows}

module _ (max : ℕ) (players : List MatchPlayer) (rows : List Submission) where
  -- A change of rows that meet a test, where the change keeps the keys and the owner of a row.
  update-SubmissionsOk :
      (test : Submission → Bool) (change : Submission → Submission)
      → ((s : Submission) → (change s).id ≡ s.id)
      → ((s : Submission) → IsSubmitted players s → IsSubmitted players (change s))
      → ((s : Submission) → test s ≡ true → IsSound max s → IsSound max (change s))
      → SubmissionsOk max players rows
      → SubmissionsOk max players (update_rows test change rows)
  update-SubmissionsOk test change same_id same_owner keep h = record {
    key = Keyed-update_rows _ test change rows same_id h.key;
    sound = All-update_rows _ test change rows keep h.sound;
    submitted = All-update_rows _ test change rows (λ s _. same_owner s) h.submitted;
  }

  pub add-SubmissionsOk :
      (e : Env) (r : Request)
      → 0 < max
      → exists_row (λ s. s.id == (new_submission e r).id) rows ≡ false
      → is_member players r.match_id r.player_id ≡ true
      → SubmissionsOk max players rows
      → SubmissionsOk max players (rows ++ new_submission e r ∷ [])
  add-SubmissionsOk e r pos free member h = record {
    key = Keyed-add _ rows (new_submission e r) (find_row-none _ rows free) h.key;
    sound = All-append _ rows _ h.sound (new_submission-IsSound max e r pos, tt);
    submitted = All-append _ rows _ h.submitted (member, tt);
  }

  pub stamp-SubmissionsOk :
      (id now : ℕ)
      → SubmissionsOk max players rows
      → SubmissionsOk max players (update_rows (to_stamp id) (stamp now) rows)
  stamp-SubmissionsOk id now =
      update-SubmissionsOk (to_stamp id) (stamp now) (λ _. refl) (λ _ o. o)
        (λ s _. stamp-IsSound max now s)

  pub start-SubmissionsOk :
      (id token until : ℕ)
      → SubmissionsOk max players rows
      → SubmissionsOk max players (update_rows (to_stamp id) (start_attempt token until) rows)
  start-SubmissionsOk id token until =
      update-SubmissionsOk (to_stamp id) (start_attempt token until) (λ _. refl) (λ _ o. o)
        (λ s hit. start_attempt-IsSound max token until s (ground arith))

  pub settle-SubmissionsOk :
      (id now : ℕ) (r : TerminalResult)
      → SubmissionsOk max players rows
      → SubmissionsOk max players (update_rows (λ s. s.id == id) (settle_row r now) rows)
  settle-SubmissionsOk id now r =
      update-SubmissionsOk (λ s. s.id == id) (settle_row r now) (λ _. refl) (λ _ o. o)
        (λ s _. settle_row-IsSound max now r s)

  -- The rows that a statement changes are those that it selected.
  abbrev pub Expired : List Submission → Type 0
  Expired selected =
      All
        (λ s.
          (find_row (by_key (λ (x : Submission). x.id) s.id) rows ≡ some s)
          × (is_running s.status ≡ true))
        selected

  pub reclaim-SubmissionsOk :
      (selected : List Submission) (now : ℕ)
      → Expired selected
      → SubmissionsOk max players rows
      → SubmissionsOk max players (update_rows (in_rows selected) (reclaim_row max now) rows)
  reclaim-SubmissionsOk selected now expired h = record {
    key =
        Keyed-update_rows _ (in_rows selected) (reclaim_row max now) rows (λ s. ground arith) h.key;
    sound =
        All-update_met (λ s. IsSound max s × Own s) (IsSound max) (in_rows selected)
          (reclaim_row max now) rows
          (λ s hit k.
            reclaim_row-IsSound max now s
              (Keyed-selected (λ (x : Submission). x.id) (λ x. is_running x.status ≡ true) rows
                selected s expired k.1 hit)
              k.0)
          (λ s _ k. k.0) (All-both (IsSound max) Own rows h.sound h.key);
    submitted =
        All-update_rows _ (in_rows selected) (reclaim_row max now) rows (λ s _ o. ground arith)
          h.submitted;
  }
    where
      Own : Submission → Type 0
      Own s = find_row (by_key (λ (x : Submission). x.id) s.id) rows ≡ some s

  -- A player more takes no submission away.
  pub later-SubmissionsOk :
      (p : MatchPlayer)
      → SubmissionsOk max players rows
      → SubmissionsOk max (players ++ p ∷ []) rows
  later-SubmissionsOk p h = record {
    key = h.key;
    sound = h.sound;
    submitted =
        All-implies (IsSubmitted players) _ rows (λ s o. exists_row_left _ players _ o) h.submitted;
  }
