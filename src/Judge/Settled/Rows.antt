-- ===== src/Judge/Settled/Rows.antt =====
-- What the updates of a completion leave of the rows, and what its checks say of them.
use code_duel.Base.{
  ℕ, ◌==◌, ◌≤◌, ◌≡◌, refl, ap, ◌∙◌, ◌⊎◌, inl, inr, arith, Bool, true, false, ◌&&◌, Bool-cases,
  ==→eq, Option, none, some, find_row_test, find_row-update_some, find_row-update_apart,
}
use code_duel.Db.{running, Submission, Db}
use code_duel.Judge.Store.{ClaimedSubmission, TerminalResult}
use code_duel.Judge.Completion.{token_is, owns, validate_terminal_result, persist, settle_row}
use code_duel.Db.Columns.{running_of}
use code_duel.Db.Finish.{submission_at}

pub token_of : (o : Option ℕ) (token : ℕ) → token_is o token ≡ true → o ≡ some token
token_of none token h = cc
token_of (some stored) token h = ap some (==→eq stored token h)

pub and_parts : (a b c : Bool) → (a && b && c) ≡ true → (a ≡ true) × (b ≡ true) × (c ≡ true)
and_parts a b c h = (ground arith, ground arith, ground arith)

abbrev pub Parts : (a b c : Bool) → Type 0
Parts a b c = (a ≡ false) ⊎ (b ≡ false) ⊎ (c ≡ false)

pub and_fails : (a b c : Bool) → (a && b && c) ≡ false → Parts a b c
and_fails false b c h = inl refl
and_fails true false c h = inr (inl refl)
and_fails true true false h = inr (inr refl)
and_fails true true true h = cc

-- What the two updates leave of the rows by identifier.
pub persist-others :
    (k id : ℕ) (r : TerminalResult) (now : ℕ) (db : Db)
    → (k ≡ id) ⊎ (submission_at k (persist id r now db) ≡ submission_at k db)
unfolding persist
persist-others k id r now db = elim (Bool-cases (k == id)) [
  | inl same ↦ inl (==→eq k id same)
  | inr other ↦ inr (
      find_row-update_apart (λ (s : Submission). s.id == k) (λ s. s.id == id) (settle_row r now)
        db.submissions (λ s. refl) (λ s h. ground arith))
]

pub persist-stored :
    (id : ℕ) (r : TerminalResult) (now : ℕ) (db : Db) (s : Submission)
    → submission_at id db ≡ some s
    → submission_at id (persist id r now db) ≡ some (settle_row r now s)
unfolding persist
persist-stored id r now db s found =
    find_row-update_some (λ (x : Submission). x.id == id) (λ x. x.id == id) (settle_row r now)
      db.submissions s (λ x. refl) found
    ∙ rw (find_row_test (λ (x : Submission). x.id == id) db.submissions s found) refl

pub persist-matches :
    (id : ℕ) (r : TerminalResult) (now : ℕ) (db : Db) → (persist id r now db).matches ≡ db.matches
unfolding persist
persist-matches id r now db = refl

pub owns_parts :
    (c : ClaimedSubmission) (s : Submission)
    → owns c s ≡ true
    → (s.status ≡ running) × (s.attempt_token ≡ some c.attempt_token) × (s.player_id ≡ c.player_id)
unfolding owns
owns_parts c s h = (
  running_of s.status (ground arith),
  token_of s.attempt_token c.attempt_token (ground arith),
  ==→eq s.player_id c.player_id (ground arith),
)

pub result_in_range :
    (r : TerminalResult) (total : ℕ)
    → validate_terminal_result r total ≡ true
    → r.tests_passed ≤ total
unfolding validate_terminal_result
result_in_range r total h = ground arith
