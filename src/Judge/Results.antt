-- ===== src/Judge/Results.antt =====
-- What the executor's outcome becomes, and what the two players are told.
use code_duel.Base.{
  ℕ, ◌==◌, ==→eq, leb→le, if_some, ◌≤◌, ◌≡◌, refl, sym, ◌⊎◌, inl, inr, true, ◌&&◌, Bool-cases,
  Option, none, some, List, [], ◌∷◌, if◌then◌else◌, arith, subst,
}
use code_duel.Db.{
  Verdict, pass, fail, error, timeout, FailureKind, wrong_answer, compile_error, runtime_error,
  output_limit,
}
use code_duel.Proto.{Outcome, win, loss, Envelope, result}
use code_duel.World.{Env}
use code_duel.Judge.Store.{CompletedSubmission, TerminalResult}
use code_duel.Judge.Completion.{validate_terminal_result}
use code_duel.Judge.Outcome.{
  OutcomeKind, outcome_pass, outcome_wrong_answer, outcome_compile_error, outcome_runtime_error,
  outcome_output_limit, outcome_timeout, other_outcome, terminal_result_from_outcome, ResultEvent,
  result_event, build_result_events, valid_completed, valid_players, valid_winner,
}

-- The verdict that an outcome kind stands for, and whether the count of passed tests agrees.
abbrev pub Agrees : OutcomeKind → ℕ → ℕ → Verdict → Type 0
Agrees outcome_pass passed total v = (v ≡ pass) × (passed ≡ total)
Agrees outcome_wrong_answer passed total v = (v ≡ fail) × (passed ≤ total)
Agrees outcome_compile_error passed total v = (v ≡ error) × (passed ≤ total)
Agrees outcome_runtime_error passed total v = (v ≡ error) × (passed ≤ total)
Agrees outcome_output_limit passed total v = (v ≡ error) × (passed ≤ total)
Agrees outcome_timeout passed total v = (v ≡ timeout) × (passed ≤ total)
Agrees (other_outcome kind) passed total v = ⊥

abbrev terminal : Verdict → Option FailureKind → ℕ → TerminalResult
terminal v f passed = record { verdict = v; failure_kind = f; tests_passed = passed }

abbrev Right : OutcomeKind → ℕ → ℕ → TerminalResult → Type 0
Right kind passed total r =
    (validate_terminal_result r total ≡ true)
    × (r.tests_passed ≡ passed)
    × Agrees kind passed total r.verdict

counted :
    (kind : OutcomeKind) (v : Verdict) (f : Option FailureKind) (passed total : ℕ)
    (r : TerminalResult)
    → (validate_terminal_result (terminal v f passed) total ≡ true → Agrees kind passed total v)
    → (if validate_terminal_result (terminal v f passed) total
        then some (terminal v f passed)
        else none)
      ≡ some r
    → Right kind passed total r
counted kind v f passed total r agrees h = go (if_some _ _ _ h)
  where
    go :
        (validate_terminal_result (terminal v f passed) total ≡ true) × (terminal v f passed ≡ r)
        → Right kind passed total r
    go (valid, same) = subst (Right kind passed total) same (valid, refl, agrees valid)

-- A terminal result that an outcome gives is one that `Complete` accepts, keeps the count of
-- passed tests, and has the verdict of the outcome's kind, where a pass has passed all tests.
pub terminal-Agrees :
    (kind : OutcomeKind) (passed total : ℕ) (r : TerminalResult)
    → terminal_result_from_outcome (record { kind = kind; tests_passed = passed }) total ≡ some r
    → (validate_terminal_result r total ≡ true)
      × (r.tests_passed ≡ passed)
      × Agrees kind passed total r.verdict
unfolding terminal_result_from_outcome validate_terminal_result
terminal-Agrees outcome_pass passed total r h =
    counted outcome_pass pass none passed total r (λ v. (refl, ==→eq _ _ (ground arith))) h
terminal-Agrees outcome_wrong_answer passed total r h =
    counted outcome_wrong_answer fail (some wrong_answer) passed total r
      (λ v. (refl, leb→le _ _ (ground arith))) h
terminal-Agrees outcome_compile_error passed total r h =
    counted outcome_compile_error error (some compile_error) passed total r
      (λ v. (refl, leb→le _ _ (ground arith))) h
terminal-Agrees outcome_runtime_error passed total r h =
    counted outcome_runtime_error error (some runtime_error) passed total r
      (λ v. (refl, leb→le _ _ (ground arith))) h
terminal-Agrees outcome_output_limit passed total r h =
    counted outcome_output_limit error (some output_limit) passed total r
      (λ v. (refl, leb→le _ _ (ground arith))) h
terminal-Agrees outcome_timeout passed total r h =
    counted outcome_timeout timeout none passed total r (λ v. (refl, leb→le _ _ (ground arith))) h
terminal-Agrees (other_outcome kind) passed total r h = cc

given :
    (v w : Verdict) (f : Option FailureKind) (passed total : ℕ)
    → v ≡ w
    → validate_terminal_result (terminal w f passed) total ≡ true
    → (r : TerminalResult) × ((if validate_terminal_result (terminal w f passed) total
          then some (terminal w f passed)
          else none)
        ≡ some r)
      × (r.verdict ≡ v)
given v w f passed total same valid = (terminal w f passed, rw valid refl, sym same)

-- An outcome of a known kind gives a terminal result where its count of passed tests is possible:
-- all of them for a pass, at most all of them otherwise.
pub terminal_total :
    (kind : OutcomeKind) (v : Verdict) (passed total : ℕ)
    → Agrees kind passed total v
    → (r : TerminalResult) × (terminal_result_from_outcome
          (record { kind = kind; tests_passed = passed })
          total
        ≡ some r)
      × (r.verdict ≡ v)
unfolding terminal_result_from_outcome validate_terminal_result
terminal_total outcome_pass v passed total (a, b) = given v pass none passed total a (ground arith)
terminal_total outcome_wrong_answer v passed total (a, b) =
    given v fail (some wrong_answer) passed total a (ground arith)
terminal_total outcome_compile_error v passed total (a, b) =
    given v error (some compile_error) passed total a (ground arith)
terminal_total outcome_runtime_error v passed total (a, b) =
    given v error (some runtime_error) passed total a (ground arith)
terminal_total outcome_output_limit v passed total (a, b) =
    given v error (some output_limit) passed total a (ground arith)
terminal_total outcome_timeout v passed total (a, b) =
    given v timeout none passed total a (ground arith)
terminal_total (other_outcome kind) v passed total h = absurd h

-- What a player is told about the end of the match.
abbrev pub told : Envelope → Option Outcome
told (result d) = d.outcome
told _ = none

-- The events of a settled submission go to the two players, in their order. Before the match has a
-- winner neither of them names an outcome, and after that the winner is told a win and the other
-- player a loss.
pub events_complementary :
    (e : Env) (c : CompletedSubmission) (events : List ResultEvent)
    → build_result_events e c ≡ some events
    → (first second : ResultEvent) × (events ≡ first ∷ second ∷ [])
      × (first.recipient_id ≡ c.players.0)
      × (second.recipient_id ≡ c.players.1)
      × (((c.winner_id ≡ 0) × (told first.payload ≡ none) × (told second.payload ≡ none))
          ⊎ ((c.winner_id ≡ c.players.0)
              × (told first.payload ≡ some win)
              × (told second.payload ≡ some loss))
          ⊎ ((c.winner_id ≡ c.players.1)
              × (told first.payload ≡ some loss)
              × (told second.payload ≡ some win)))
unfolding build_result_events
events_complementary e c events h = go (if_some _ _ _ h)
  where
    Ends : ResultEvent → ResultEvent → Type 0
    Ends first second =
        ((c.winner_id ≡ 0) × (told first.payload ≡ none) × (told second.payload ≡ none))
        ⊎ ((c.winner_id ≡ c.players.0)
            × (told first.payload ≡ some win)
            × (told second.payload ≡ some loss))
        ⊎ ((c.winner_id ≡ c.players.1)
            × (told first.payload ≡ some loss)
            × (told second.payload ≡ some win))

    ends :
        (valid_completed c && valid_players c && valid_winner c) ≡ true
        → Ends (result_event e c c.players.0) (result_event e c c.players.1)
    ends valid = elim (Bool-cases (c.winner_id == 0)) [
      | inl nobody ↦ inl (==→eq _ _ nobody, rw nobody refl, rw nobody refl)
      | inr somebody ↦ elim (Bool-cases (c.players.0 == c.winner_id)) [
        | inl first ↦ inr (inl (sym (==→eq _ _ first), ground arith, ground arith))
        | inr other ↦ inr (inr (==→eq _ _ (ground arith), ground arith, ground arith))
      ]
    ]

    go :
        ((valid_completed c && valid_players c && valid_winner c) ≡ true)
          × (result_event e c c.players.0 ∷ result_event e c c.players.1 ∷ [] ≡ events)
        → (first second : ResultEvent) × (events ≡ first ∷ second ∷ [])
          × (first.recipient_id ≡ c.players.0)
          × (second.recipient_id ≡ c.players.1)
          × Ends first second
    go (valid, same) = (
      result_event e c c.players.0,
      result_event e c c.players.1,
      sym same,
      refl,
      refl,
      ends valid,
    )
