-- ===== src/System/Promises.antt =====
-- What every reached state promises about matches, winners and submissions.
use code_duel.Base.{
  ℕ, ◌<◌, ◌≤◌, ◌==◌, ==→eq, eq→==, ◌≡◌, ◌≢◌, refl, sym, ◌∙◌, Bool, true, false, not, ◌&&◌, ◌||◌,
  some, List, [], ◌∷◌, find_row, find_row_test, exists_row, exists_row_witness, All-find_row,
  Bool-cases, ◌⊎◌, inl, inr, arith, subst,
}
use code_duel.Db.{
  Submission, Match, MatchPlayer, ActiveClaim, Db, is_active, is_completed, is_none, is_running,
}
use code_duel.Db.Triggers.{match_at, is_active_row}
use code_duel.Db.Invariant.{DbOk, OneEach, is_claimed, claims_user_in, IsHeld, IsSettled}
use code_duel.Db.Lifecycle.{IsSound}
use code_duel.Submission.{is_member}
use code_duel.Reaper.Leases.{ReaperConfig}
use code_duel.World.{World}
use code_duel.System.Reach.{Reaches, reaches-DbOk}

exists_row_weaken :
    {A : Type 0} (f g : A → Bool) (xs : List A)
    → ((x : A) → f x ≡ true → g x ≡ true)
    → exists_row f xs ≡ true
    → exists_row g xs ≡ true
exists_row_weaken f g [] weaker h = cc
exists_row_weaken f g (x ∷ xs) weaker h = elim (Bool-cases (f x)) [
  | inl hit ↦ rw (weaker x hit) refl
  | inr miss ↦ or_right (g x) _ (exists_row_weaken f g xs weaker (rw miss at h))
]
  where
    or_right : (a b : Bool) → b ≡ true → (a || b) ≡ true
    or_right true b h = refl
    or_right false b h = h

owner_of :
    (user match : ℕ) (c : ActiveClaim) → claims_user_in match user c ≡ true → c.user_id ≡ user
owner_of user match c h = ground arith

-- A user that has a claim has no other one further down.
taken_twice :
    (user match : ℕ) (c : ActiveClaim) (cs : List ActiveClaim)
    → c.user_id ≡ user
    → is_claimed cs match user ≡ true
    → exists_row (λ d. d.user_id == c.user_id) cs ≢ false
taken_twice user match c cs own h free = cc (
  exists_row_weaken (claims_user_in match user) (λ d. d.user_id == c.user_id) cs
      (λ d hit. eq→== _ _ (owner_of user match d hit ∙ sym own)) h,
  free,
)

-- Where a claim of a user is in a match, every claim of that user is.
claimed_once :
    (user first second : ℕ) (claims : List ActiveClaim)
    → OneEach claims
    → is_claimed claims first user ≡ true
    → is_claimed claims second user ≡ true
    → first ≡ second
claimed_once user first second [] each h k = cc
claimed_once user first second (c ∷ cs) each h k = elim (Bool-cases (claims_user_in first user c)) [
  | inl a ↦ elim (Bool-cases (claims_user_in second user c)) [
    | inl b ↦ ground arith
    | inr b ↦ absurd (taken_twice user second c cs (owner_of user first c a) (rw b at k) each.0)
  ]
  | inr a ↦ elim (Bool-cases (claims_user_in second user c)) [
    | inl b ↦ absurd (taken_twice user first c cs (owner_of user second c b) (rw a at h) each.0)
    | inr b ↦ claimed_once user first second cs each.1 (rw a at h) (rw b at k)
  ]
]

held_claim :
    (max : ℕ) (db : Db) (match user : ℕ)
    → DbOk max db
    → is_member db.match_players match user ≡ true
    → is_active_row (match_at match db.matches) ≡ true
    → is_claimed db.active_claims match user ≡ true
held_claim max db match user h member act =
    claimed (exists_row_witness _ _ db.match_players h.matches_ok.held member)
  where
    match_same :
        (p : MatchPlayer) → (p.match_id == match && p.user_id == user) ≡ true → p.match_id ≡ match
    match_same p same = ground arith

    user_same :
        (p : MatchPlayer) → (p.match_id == match && p.user_id == user) ≡ true → p.user_id ≡ user
    user_same p same = ground arith

    claimed :
        (p : MatchPlayer) × IsHeld db.matches db.active_claims p
          × ((p.match_id == match && p.user_id == user) ≡ true)
        → is_claimed db.active_claims match user ≡ true
    claimed (p, held, same) =
        rw (sym (match_same p same), sym (user_same p same)) (held (rw (match_same p same) act))

settled_only :
    (max : ℕ) (s : Submission) → IsSound max s → is_completed s.status ≡ not (is_none s.result)
settled_only max s h = elim (Bool-cases (is_completed s.status)) [
  | inl over ↦ rw (over, h.completed_settled over) refl
  | inr going ↦ rw (going, h.open_unsettled going) refl
]

taken_only :
    (max : ℕ) (s : Submission) → IsSound max s → is_running s.status ≡ not (is_none s.attempt_token)
taken_only max s h = elim (Bool-cases (is_running s.status)) [
  | inl busy ↦ rw (busy, h.running_taken busy) refl
  | inr idle ↦ rw (idle, h.idle_untaken idle) refl
]

module _ (cfg : ReaperConfig) (v w : World) (pos : 0 < cfg.max_attempts)
    (start : DbOk cfg.max_attempts v.durable) (run : Reaches cfg v w) where
  -- In every state that is reached from one that satisfies the invariant, for a limit of attempts
  -- that is not 0, two active matches of one user are the same match.
  pub one_active_match :
      (user first second : ℕ)
      → is_member w.durable.match_players first user ≡ true
      → is_active_row (match_at first w.durable.matches) ≡ true
      → is_member w.durable.match_players second user ≡ true
      → is_active_row (match_at second w.durable.matches) ≡ true
      → first ≡ second
  one_active_match user first second a p b q =
      claimed_once user first second w.durable.active_claims h.matches_ok.one_each
        (held_claim _ w.durable first user h a p) (held_claim _ w.durable second user h b q)
    where
      h : DbOk cfg.max_attempts w.durable
      h = reaches-DbOk cfg v w pos start run

  -- In every state that is reached from one that satisfies the invariant, for a limit of attempts
  -- that is not 0, the winner of a match is one of its players, and the match is no longer active.
  pub winner_is_player :
      (m : Match) (id winner : ℕ)
      → match_at id w.durable.matches ≡ some m
      → m.winner_id ≡ some winner
      → (is_member w.durable.match_players id winner ≡ true) × (is_active m.status ≡ false)
  winner_is_player m id winner found won = (
    subst (λ k. is_member w.durable.match_players k winner ≡ true)
        (==→eq m.id id (find_row_test _ w.durable.matches m found))
        (settled.winner_played winner won),
    closed (Bool-cases (is_active m.status)),
  )
    where
      h : DbOk cfg.max_attempts w.durable
      h = reaches-DbOk cfg v w pos start run

      settled : IsSettled w.durable.match_players m
      settled = All-find_row _ _ w.durable.matches m h.matches_ok.settled found

      closed :
          (is_active m.status ≡ true) ⊎ (is_active m.status ≡ false) → is_active m.status ≡ false
      closed (inl act) = cc (settled.active_open act, won)
      closed (inr idle) = idle

  -- In every state that is reached from one that satisfies the invariant, for a limit of attempts
  -- that is not 0, a stored submission has had at most that many attempts, has a verdict exactly
  -- where it is completed, an attempt token exactly where it is running, and a player of its match
  -- as its owner.
  pub submission_sound :
      (s : Submission) (id : ℕ)
      → find_row (λ x. x.id == id) w.durable.submissions ≡ some s
      → (s.attempts ≤ cfg.max_attempts)
        × (is_completed s.status ≡ (not (is_none s.result)))
        × (is_running s.status ≡ (not (is_none s.attempt_token)))
        × (is_member w.durable.match_players s.match_id s.player_id ≡ true)
  submission_sound s id found =
      (sound.attempts_capped, settled_only _ s sound, taken_only _ s sound, submitted)
    where
      h : DbOk cfg.max_attempts w.durable
      h = reaches-DbOk cfg v w pos start run

      sound : IsSound cfg.max_attempts s
      sound = All-find_row _ _ w.durable.submissions s h.submissions_ok.sound found

      submitted : is_member w.durable.match_players s.match_id s.player_id ≡ true
      submitted = All-find_row _ _ w.durable.submissions s h.submissions_ok.submitted found
