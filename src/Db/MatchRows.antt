-- ===== src/Db/MatchRows.antt =====
-- The statements on matches and players keep what is required of them.
use mathlib.Core.Option
use code_duel.Base.{
  ℕ, ◌==◌, ==→eq, ◌≡◌, refl, sym, subst, ◌∙◌, inl, inr, Bool, true, false, Option, none, some, List,
  [], ◌∷◌, ◌++◌, if◌then◌else◌, Bool-cases, Option-cases, find_row_test, find_row-update_rows,
  find_row-exists, find_row_left, exists_row_left, exists_row_last, exists_row-append,
  exists_row-delete_rows, exists_row-delete_rows-false, update_rows, delete_rows, All, All-append,
  All-find_row, All-update_met, All-delete_met, All-implies, All-both, Keyed-add, Keyed-update_rows,
  arith,
}
use code_duel.Db.{Match, MatchPlayer, ActiveClaim, is_active, is_none}
use code_duel.Db.Triggers.{finish, is_open, claim_ends, match_at, is_active_row, has_claim}
use code_duel.Db.Invariant.{is_claimed, OneEach, IsSettled, IsStored, IsLive, IsHeld, MatchesOk}
use code_duel.Submission.{is_member}

OneEach-delete :
    (del : ActiveClaim → Bool) (claims : List ActiveClaim)
    → OneEach claims
    → OneEach (delete_rows del claims)
OneEach-delete del [] h = tt
OneEach-delete del (c ∷ cs) h = elim (Bool-cases (del c)) [
  | inl gone ↦ rw gone (OneEach-delete del cs h.1)
  | inr kept ↦ rw kept (exists_row-delete_rows-false _ del cs h.0, OneEach-delete del cs h.1)
]

OneEach-add :
    (claims : List ActiveClaim) (c : ActiveClaim)
    → has_claim claims c.user_id ≡ false
    → OneEach claims
    → OneEach (claims ++ c ∷ [])
OneEach-add [] c free h = (refl, tt)
OneEach-add (d ∷ ds) c free h = (
  ground (arith, exists_row-append (λ x. x.user_id == d.user_id) ds (c ∷ [])),
  OneEach-add ds c (ground arith) h.1,
)

module _ (matches : List Match) (players : List MatchPlayer) (claims : List ActiveClaim) where
  module _ (id : ℕ) (winner : Option ℕ) where
    abbrev closed : List Match
    closed = update_rows (is_open id) (finish winner) matches

    match_at-closed :
        (k : ℕ)
        → match_at k closed
          ≡ Option.map (λ m. if is_open id m then finish winner m else m) (match_at k matches)
    match_at-closed k = find_row-update_rows _ (is_open id) (finish winner) matches (λ _. refl)

    IsStored-closed : (p : MatchPlayer) → IsStored matches p → IsStored closed p
    IsStored-closed p h = rw (match_at-closed p.match_id) (ground arith)

    IsLive-closed :
        (c : ActiveClaim) → IsLive matches c → claim_ends id matches c ≡ false → IsLive closed c
    IsLive-closed c h kept =
        rw (match_at-closed c.match_id) (go (match_at c.match_id matches) refl h)
      where
        go :
            (o : Option Match)
            → match_at c.match_id matches ≡ o
            → is_active_row o ≡ true
            → is_active_row (Option.map (λ m. if is_open id m then finish winner m else m) o) ≡ true
        go none e a = a
        go (some m) e a = elim (Bool-cases (is_open id m)) [
          | inl hit ↦ absurd (
              ground (
                arith,
                find_row_test _ matches m e,
                find_row-exists _ (is_open id) matches m e hit,
              ))
          | inr miss ↦ rw miss a
        ]

    IsHeld-closed :
        All (IsSettled players) matches
        → (p : MatchPlayer) → IsHeld matches claims p
        → IsHeld closed (delete_rows (claim_ends id matches) claims) p
    IsHeld-closed settled p h live =
        go (match_at p.match_id matches) refl (rw (match_at-closed p.match_id) at live)
      where
        go :
            (o : Option Match)
            → match_at p.match_id matches ≡ o
            → is_active_row (Option.map (λ m. if is_open id m then finish winner m else m) o) ≡ true
            → is_claimed (delete_rows (claim_ends id matches) claims) p.match_id p.user_id ≡ true
        go none e a = cc
        go (some m) e a = elim (Bool-cases (is_open id m)) [
          | inl hit ↦ cc (rw hit at a)
          | inr miss ↦
              exists_row-delete_rows _ (claim_ends id matches) claims
                (λ c same. ground (
                  arith,
                  rw miss at a,
                  find_row_test _ matches m e,
                  (All-find_row (IsSettled players) _ matches m settled e).active_open,
                ))
                (h (rw e (rw miss at a)))
        ]

    finish-IsSettled :
        ((u : ℕ) → winner ≡ some u → is_member players id u ≡ true)
        → (m : Match) → is_open id m ≡ true
        → IsSettled players (finish winner m)
    finish-IsSettled played m hit = record {
      active_open = λ a. cc;
      winner_played = λ u e.
          subst (λ k. is_member players k u ≡ true) (sym (==→eq m.id id (ground arith)))
            (played u e);
    }

    -- A match that ends frees its players, and its winner is one of them.
    pub finish-MatchesOk :
        ((u : ℕ) → winner ≡ some u → is_member players id u ≡ true)
        → MatchesOk matches players claims
        → MatchesOk closed players (delete_rows (claim_ends id matches) claims)
    finish-MatchesOk played h = record {
      key = Keyed-update_rows _ (is_open id) (finish winner) matches (λ _. refl) h.key;
      settled =
          All-update_met (IsSettled players) (IsSettled players) (is_open id) (finish winner)
            matches (λ m hit _. finish-IsSettled played m hit) (λ m _ s. s) h.settled;
      stored = All-implies (IsStored matches) (IsStored closed) players IsStored-closed h.stored;
      live =
          All-delete_met (IsLive matches) (IsLive closed) (claim_ends id matches) claims
            IsLive-closed h.live;
      held = All-implies (IsHeld matches claims) _ players (IsHeld-closed h.settled) h.held;
      one_each = OneEach-delete _ claims h.one_each;
    }

  -- A new match with a new identifier has no players yet.
  pub add_match-MatchesOk :
      (m : Match)
      → match_at m.id matches ≡ none
      → m.winner_id ≡ none
      → MatchesOk matches players claims
      → MatchesOk (matches ++ m ∷ []) players claims
  add_match-MatchesOk m free open_match h = record {
    key = Keyed-add _ matches m free h.key;
    settled =
        All-append _ matches _ h.settled
          (record { active_open = λ _. open_match; winner_played = λ u e. cc (open_match, e) }, tt);
    stored =
        All-implies (IsStored matches) (IsStored (matches ++ m ∷ [])) players
          (λ p s. rw (kept p.match_id s) s) h.stored;
    live =
        All-implies (IsLive matches) (IsLive (matches ++ m ∷ [])) claims
          (λ c l. rw (kept c.match_id (ground arith)) l) h.live;
    held =
        All-implies (λ p. IsHeld matches claims p × IsStored matches p) _ players
          (λ p s a. s.0 (rw (kept p.match_id s.1) at a)) (All-both _ _ players h.held h.stored);
    one_each = h.one_each;
  }
    where
      kept :
          (k : ℕ)
          → is_none (match_at k matches) ≡ false
          → match_at k (matches ++ m ∷ []) ≡ match_at k matches
      kept k s = elim (Option-cases (match_at k matches)) [
        | inl e ↦ cc (rw e at s)
        | inr (found, e) ↦ find_row_left _ matches (m ∷ []) found e ∙ sym e
      ]

  module _ (p : MatchPlayer) where
    member_later :
        (k u : ℕ) → is_member players k u ≡ true → is_member (players ++ p ∷ []) k u ≡ true
    member_later k u h = exists_row_left _ players (p ∷ []) h

    IsSettled-later : (m : Match) → IsSettled players m → IsSettled (players ++ p ∷ []) m
    IsSettled-later m h = record {
      active_open = h.active_open;
      winner_played = λ u e. member_later m.id u (h.winner_played u e);
    }

    -- A player of an active match gets the claim that no other match holds.
    pub add_claimed-MatchesOk :
        (m : Match)
        → match_at p.match_id matches ≡ some m
        → is_active m.status ≡ true
        → has_claim claims p.user_id ≡ false
        → MatchesOk matches players claims
        → MatchesOk matches
            (players ++ p ∷ [])
            (claims ++ record { user_id = p.user_id; match_id = p.match_id } ∷ [])
    add_claimed-MatchesOk m found act free h = record {
      key = h.key;
      settled = All-implies _ _ matches IsSettled-later h.settled;
      stored = All-append _ players _ h.stored (rw found refl, tt);
      live = All-append _ claims _ h.live (rw found act, tt);
      held =
          All-append _ players _
            (All-implies (IsHeld matches claims) _ players
              (λ q s a. exists_row_left _ claims _ (s a)) h.held)
            (λ _. exists_row_last _ claims _ (ground arith), tt);
      one_each = OneEach-add claims _ free h.one_each;
    }

    -- A player of a match that is not active needs no claim.
    pub add_unclaimed-MatchesOk :
        (m : Match)
        → match_at p.match_id matches ≡ some m
        → is_active m.status ≡ false
        → MatchesOk matches players claims
        → MatchesOk matches (players ++ p ∷ []) claims
    add_unclaimed-MatchesOk m found idle h = record {
      key = h.key;
      settled = All-implies _ _ matches IsSettled-later h.settled;
      stored = All-append _ players _ h.stored (rw found refl, tt);
      live = h.live;
      held = All-append _ players _ h.held (λ a. cc (rw found at a, idle), tt);
      one_each = h.one_each;
    }
