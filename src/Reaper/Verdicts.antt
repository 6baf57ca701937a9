-- ===== src/Reaper/Verdicts.antt =====
-- How an overdue match is decided.
use code_duel.Base.{
  ℕ, ◌==◌, ltb, ltb→lt, ◌<◌, ◌≡◌, refl, sym, ◌⊎◌, inl, inr, true, false, not, ◌&&◌, Bool-cases,
  Option, none, some, List, [], ◌∷◌, arith, if_some,
}
use code_duel.Proto.{Outcome, win, loss, draw, Envelope, match_end}
use code_duel.World.{Env}
use code_duel.Reaper.Events.{
  PublishedEvent, distinct_players, winner_is_player, build_match_end_events, match_end_event,
}
use code_duel.Reaper.Matches.{decide_tiebreak_winner}

-- The tiebreak: the player with more passed tests wins, and with equally many nobody does.
pub tiebreak_decides :
    (players scores : ℕ × ℕ)
    → ((scores.1 < scores.0) × (decide_tiebreak_winner players scores ≡ some players.0))
      ⊎ ((scores.0 < scores.1) × (decide_tiebreak_winner players scores ≡ some players.1))
      ⊎ ((scores.0 ≡ scores.1) × (decide_tiebreak_winner players scores ≡ none))
unfolding decide_tiebreak_winner
tiebreak_decides players scores = elim (Bool-cases (ltb scores.1 scores.0)) [
  | inl first ↦ inl (ltb→lt _ _ first, rw first refl)
  | inr behind ↦ elim (Bool-cases (ltb scores.0 scores.1)) [
    | inl second ↦ inr (inl (ltb→lt _ _ second, rw (behind, second) refl))
    | inr even ↦ inr (inr (level _ _ behind even, rw (behind, even) refl))
  ]
]
  where
    level : (a b : ℕ) → ltb b a ≡ false → ltb a b ≡ false → a ≡ b
    level a b h k = ground arith

abbrev pub outcome_in : Envelope → Option Outcome
outcome_in (match_end d) = some d.outcome
outcome_in _ = none

-- What the two players are told about an overdue match agrees with the tiebreak: the winner wins,
-- the other player loses, and without a winner both draw.
pub match_end_agrees :
    (e : Env) (id : ℕ) (players scores : ℕ × ℕ) (total : ℕ) (events : List PublishedEvent)
    → build_match_end_events e id players scores total (decide_tiebreak_winner players scores)
      ≡ some events
    → (first second : PublishedEvent) × (events ≡ first ∷ second ∷ [])
      × (first.recipient_id ≡ players.0)
      × (second.recipient_id ≡ players.1)
      × (((scores.1 < scores.0)
            × (outcome_in first.payload ≡ some win)
            × (outcome_in second.payload ≡ some loss))
          ⊎ ((scores.0 < scores.1)
              × (outcome_in first.payload ≡ some loss)
              × (outcome_in second.payload ≡ some win))
          ⊎ ((scores.0 ≡ scores.1)
              × (outcome_in first.payload ≡ some draw)
              × (outcome_in second.payload ≡ some draw)))
unfolding build_match_end_events
match_end_agrees e id players scores total events h = go (if_some _ _ _ h)
  where
    winner : Option ℕ
    winner = decide_tiebreak_winner players scores

    Told : PublishedEvent → PublishedEvent → Type 0
    Told first second =
        ((scores.1 < scores.0)
          × (outcome_in first.payload ≡ some win)
          × (outcome_in second.payload ≡ some loss))
        ⊎ ((scores.0 < scores.1)
            × (outcome_in first.payload ≡ some loss)
            × (outcome_in second.payload ≡ some win))
        ⊎ ((scores.0 ≡ scores.1)
            × (outcome_in first.payload ≡ some draw)
            × (outcome_in second.payload ≡ some draw))

    told :
        distinct_players players ≡ true
        → Told
            (match_end_event e id total winner players.0 scores.0)
            (match_end_event e id total winner players.1 scores.1)
    told apart = elim (tiebreak_decides players scores) [
      | inl (more, first) ↦ inl (more, rw first (ground arith), rw first (ground arith))
      | inr (inl (more, second)) ↦
          inr (inl (more, rw second (ground arith), rw second (ground arith)))
      | inr (inr (level, nobody)) ↦ inr (inr (level, rw nobody refl, rw nobody refl))
    ]

    go :
        ((not (id == 0) && distinct_players players && winner_is_player winner players) ≡ true)
          × (match_end_event e id total winner players.0 scores.0
                ∷ match_end_event e id total winner players.1 scores.1
                ∷ []
              ≡ events)
        → (first second : PublishedEvent) × (events ≡ first ∷ second ∷ [])
          × (first.recipient_id ≡ players.0)
          × (second.recipient_id ≡ players.1)
          × Told first second
    go (fine, same) = (
      match_end_event e id total winner players.0 scores.0,
      match_end_event e id total winner players.1 scores.1,
      sym same,
      refl,
      refl,
      told (ground arith),
    )
