-- ===== src/Reaper/Scores.antt =====
-- The best score of a player in a match, in terms of the rows.
use code_duel.Base.{
  ℕ, ◌==◌, ltb, ◌≤◌, ◌≡◌, ◌≢◌, refl, sym, subst, ap, ◌⊎◌, inl, inr, Bool, true, false, ◌&&◌,
  Bool-cases, ==→eq, List, [], ◌∷◌, arith, All, All-implies,
}
use native.Mathlib.Nat.{le_trans}
use code_duel.Db.{completed, Submission, is_completed}
use code_duel.Db.Columns.{completed_of}
use code_duel.Reaper.Matches.{best_score, counts_for}

abbrev pub Any : {A : Type 0} → (A → Type 0) → List A → Type 0
Any P [] = ⊥
Any P (x ∷ xs) = P x ⊎ Any P xs

-- A completed submission of the player to the match, with this many tests passed.
abbrev pub Scored : ℕ → ℕ → ℕ → Submission → Type 0
Scored match user passed s =
    (s.match_id ≡ match) × (s.player_id ≡ user) × (s.status ≡ completed) × (s.tests_passed ≡ passed)

-- No completed submission of the player to the match has passed more tests.
abbrev pub Within : ℕ → ℕ → ℕ → Submission → Type 0
Within match user best s =
    (s.match_id ≢ match) ⊎ (s.player_id ≢ user) ⊎ (s.status ≢ completed) ⊎ (s.tests_passed ≤ best)

abbrev pub IsBest : ℕ → ℕ → List Submission → ℕ → Type 0
IsBest match user rows best =
    All (Within match user best) rows × ((best ≡ 0) ⊎ Any (Scored match user best) rows)

differs : (a b : ℕ) → (a == b) ≡ false → a ≢ b
differs a b h e = ground arith

uncounted :
    (match user best : ℕ) (s : Submission)
    → counts_for match user s ≡ false
    → Within match user best s
uncounted match user best s h = elim (Bool-cases (s.match_id == match)) [
  | inr other ↦ inl (differs s.match_id match other)
  | inl there ↦ elim (Bool-cases (s.player_id == user)) [
    | inr other ↦ inr (inl (differs s.player_id user other))
    | inl own ↦
        inr (inr (inl (λ e. cc (ap is_completed e, rest (is_completed s.status) there own h))))
  ]
]
  where
    rest :
        (done : Bool)
        → (s.match_id == match) ≡ true
        → (s.player_id == user) ≡ true
        → (s.match_id == match && s.player_id == user && done) ≡ false
        → done ≡ false
    rest done a b h = ground arith

counted :
    (match user : ℕ) (s : Submission)
    → counts_for match user s ≡ true
    → Scored match user s.tests_passed s
counted match user s h = (
  ==→eq s.match_id match (ground arith),
  ==→eq s.player_id user (ground arith),
  completed_of s.status (ground arith),
  refl,
)

Within-grows :
    (match user : ℕ) {a b : ℕ} (s : Submission)
    → a ≤ b
    → Within match user a s
    → Within match user b s
Within-grows match user s more (inl m) = inl m
Within-grows match user s more (inr (inl p)) = inr (inl p)
Within-grows match user s more (inr (inr (inl c))) = inr (inr (inl c))
Within-grows match user s more (inr (inr (inr le))) = inr (inr (inr (le_trans le more)))

best_covers :
    (match user : ℕ) (s : Submission) (rest : List Submission)
    → (best_score match user rest ≤ best_score match user (s ∷ rest))
      × Within match user (best_score match user (s ∷ rest)) s
best_covers match user s rest = elim (Bool-cases (counts_for match user s)) [
  | inl counts ↦ (ground arith, inr (inr (inr (ground arith))))
  | inr skips ↦ (ground arith, uncounted match user (best_score match user (s ∷ rest)) s skips)
]

best_score-Within :
    (match user : ℕ) (rows : List Submission)
    → All (Within match user (best_score match user rows)) rows
best_score-Within match user [] = tt
best_score-Within match user (s ∷ rest) =
    let (more, own) = best_covers match user s rest in
    (
      own,
      All-implies _ _ rest (λ x h. Within-grows match user x more h)
          (best_score-Within match user rest),
    )

-- The best score is that of the later rows, or that of a completed submission.
best_from :
    (match user : ℕ) (s : Submission) (rest : List Submission)
    → (best_score match user (s ∷ rest) ≡ best_score match user rest)
      ⊎ (Scored match user (best_score match user (s ∷ rest)) s)
best_from match user s rest = elim (Bool-cases (counts_for match user s)) [
  | inr skips ↦ inl (ground arith)
  | inl counts ↦ elim (Bool-cases (ltb s.tests_passed (best_score match user rest))) [
    | inl less ↦ inl (ground arith)
    | inr top ↦
        let (there, own, over, _) = counted match user s counts in
        inr (there, own, over, ground arith)
  ]
]

best_attained :
    (match user : ℕ) (rows : List Submission)
    → (best_score match user rows ≡ 0) ⊎ Any (Scored match user (best_score match user rows)) rows
best_attained match user [] = inl refl
best_attained match user (s ∷ rest) = elim (best_from match user s rest) [
  | inr own ↦ inr (inl own)
  | inl same ↦
      subst (λ b. (b ≡ 0) ⊎ (Scored match user b s ⊎ Any (Scored match user b) rest)) (sym same)
        (later (best_score match user rest) (best_attained match user rest))
]
  where
    later :
        (best : ℕ)
        → (best ≡ 0) ⊎ Any (Scored match user best) rest
        → (best ≡ 0) ⊎ (Scored match user best s ⊎ Any (Scored match user best) rest)
    later best (inl nothing) = inl nothing
    later best (inr some_row) = inr (inr some_row)

pub best_score-IsBest :
    (match user : ℕ) (rows : List Submission) → IsBest match user rows (best_score match user rows)
best_score-IsBest match user rows =
    (best_score-Within match user rows, best_attained match user rows)
