-- ===== src/Match/Service/Frame.antt =====
-- A step of the matchmaker never fails, and keeps what its calls keep.
use code_duel.Base.{
  ℕ, Bytes, Bool, Option, none, some, List, [], ◌∷◌, if◌then◌else◌, All, All-append,
}
use code_duel.Redisx.{QueueMember}
use code_duel.Redisx.Keys.{publish}
use code_duel.Redisx.Queue.{Queue, QueueEntry, pop_pair, requeue}
use code_duel.Redisx.QueueOk.Given.{BothFit}
use code_duel.Match.Create.{CreatedMatch, create_match}
use code_duel.Match.Service.{
  Matchmaker, restore_pending, restored, requeue_or_retain, retained, publish_active_match_error,
  keep_unmatched, eligible_entries, match_for, has_player, handle_ineligible_players, ineligible_of,
  publish_match_start, after_refusal, after_create, after_pop, step,
}
use code_duel.Proto.{Envelope}
use code_duel.World.{Env, World, Site, Error, Result, ok, err, pure, attempt}
use code_duel.World.Keeps.{Keeps}
use code_duel.World.Ends.{Ends, weaken, bind_ends, attempt_ends, end_pure, ends_of_keeps, if_ends}

-- What a step may rest on: a property of the world and one of queue entries, which the calls of a
-- step keep.
pub record Frame (e : Env) : Type 1 where
  pub Holds : World → Type 0
  pub Fits : QueueEntry → Type 0
  pub requeue_keeps :
      (queue : Queue) (entries : List QueueEntry)
      → All Fits entries
      → Keeps Holds (requeue e queue entries)
  pub pop_ends :
      (queue : Queue) (w : World)
      → Holds w
      → Ends (pop_pair e queue) w (λ o v. Holds v × BothFit Fits o) (λ _ v. Holds v)
  pub create_keeps :
      (has_db : Bool) (milliseconds : ℕ) (a b : QueueMember)
      → Keeps Holds (create_match e has_db milliseconds a b)
  pub publish_keeps :
      (s : Site) (channel : Bytes) (payload : Envelope) → Keeps Holds (publish e s channel payload)

module _ (e : Env) (f : Frame e) where
  open f use {Holds, Fits, requeue_keeps, pop_ends, create_keeps, publish_keeps}

  -- An action that cannot fail, and keeps the world and what is pending.
  abbrev Goes : {A : Type 0} → (World → Result (A × List QueueEntry) × World) → World → Type 0
  Goes m w = Ends m w (λ r v. Holds v × All Fits r.1) (λ _ _. ⊥)

  -- A call whose failure is handled.
  handled :
      {A B : Type 0} {Q : B → World → Type 0} {R : Error → World → Type 0}
      (m : World → Result A × World) (k : Result A → World → Result B × World) (w : World)
      → Keeps Holds m
      → Holds w
      → ((r : Result A) (v : World) → Holds v → Ends (k r) v Q R)
      → Ends (attempt m k) w Q R
  handled m k w keeps h go =
      attempt_ends m k w
        (weaken m w (ends_of_keeps m keeps w h) (λ a v s. go (ok a) v s) (λ x v s. go (err x) v s))

  restore_pending-Goes :
      (queue : Queue) (pending : List QueueEntry) (w : World)
      → Holds w
      → All Fits pending
      → Goes (restore_pending e queue pending) w
  unfolding restore_pending
  restore_pending-Goes queue [] w h small = end_pure _ w (h, tt)
  restore_pending-Goes queue (x ∷ xs) w h small =
      handled _ _ w (requeue_keeps queue (x ∷ xs) small) h (λ r v s. end_pure _ v (s, left r))
    where
      left : (r : Result (Unit {0})) → All Fits (restored (x ∷ xs) r).1
      left (ok u) = tt
      left (err y) = small

  requeue_or_retain-Goes :
      (queue : Queue) (pending entries : List QueueEntry) (w : World)
      → Holds w
      → All Fits pending
      → All Fits entries
      → Goes (requeue_or_retain e queue pending entries) w
  unfolding requeue_or_retain
  requeue_or_retain-Goes queue pending [] w h held small = end_pure _ w (h, held)
  requeue_or_retain-Goes queue pending (x ∷ xs) w h held small =
      handled _ _ w (requeue_keeps queue (x ∷ xs) small) h (λ r v s. end_pure _ v (s, left r))
    where
      left : (r : Result (Unit {0})) → All Fits (retained pending (x ∷ xs) r).1
      left (ok u) = held
      left (err y) = All-append _ pending (x ∷ xs) held small

  -- Those who stay eligible are of the pair.
  abbrev Chosen : (World → Result (List QueueEntry) × World) → World → Type 0
  Chosen m w = Ends m w (λ entries v. Holds v × All Fits entries) (λ _ _. ⊥)

  keep_unmatched-Chosen :
      (x : QueueEntry) (o : Option ℕ) (w : World)
      → Holds w
      → Fits x
      → Chosen (keep_unmatched e x [] o) w
  unfolding publish_active_match_error
  keep_unmatched-Chosen x none w h small = end_pure _ w (h, (small, tt))
  keep_unmatched-Chosen x (some id) w h small =
      bind_ends _ _ w
        (handled _ _ w (publish_keeps _ _ _) h (λ r v s. end_pure _ v (end_pure _ v (s, tt))))

  eligible_entries-Chosen :
      (missing : List ℕ) (claims : List (ℕ × ℕ)) (entries : List QueueEntry) (w : World)
      → Holds w
      → All Fits entries
      → Chosen (eligible_entries e missing claims entries) w
  unfolding eligible_entries
  eligible_entries-Chosen missing claims [] w h small = end_pure _ w (h, tt)
  eligible_entries-Chosen missing claims (x ∷ xs) w h small = bind_ends _ _ w (
      weaken _ w kept
        (λ one v k. bind_ends _ _ v (
          weaken _ v (eligible_entries-Chosen missing claims xs v k.0 small.1)
            (λ rest u l. end_pure _ u (l.0, All-append _ one rest k.1 l.1)) (λ _ _ f. f)))
        (λ _ _ f. f))
    where
      kept :
          Chosen
            (if has_player missing x.member.user_id
              then pure []
              else keep_unmatched e x [] (match_for claims x.member.user_id))
            w
      kept =
          if_ends (has_player missing x.member.user_id) (pure [])
            (keep_unmatched e x [] (match_for claims x.member.user_id)) w
            (λ _. end_pure [] w (h, tt))
            (λ _. keep_unmatched-Chosen x (match_for claims x.member.user_id) w h small.0)

  after_refusal-Goes :
      (s : Matchmaker) (pending : List QueueEntry) (a b : QueueEntry)
      (o : Option (List ℕ × List (ℕ × ℕ))) (w : World)
      → Holds w
      → All Fits pending
      → All Fits (a ∷ b ∷ [])
      → Goes (after_refusal e s pending a b o) w
  unfolding after_refusal handle_ineligible_players
  after_refusal-Goes s pending a b none w h held small = bind_ends _ _ w (
      weaken _ w (requeue_or_retain-Goes s.queue pending (a ∷ b ∷ []) w h held small)
        (λ r v k. end_pure _ v k) (λ _ _ f. f))
  after_refusal-Goes s pending a b (some (missing, claims)) w h held small = bind_ends _ _ w (
      bind_ends _ _ w (
        weaken _ w (eligible_entries-Chosen missing claims (a ∷ b ∷ []) w h small)
          (λ entries v k.
            weaken _ v (requeue_or_retain-Goes s.queue pending entries v k.0 held k.1)
              (λ r u l. end_pure _ u l) (λ _ _ f. f))
          (λ _ _ f. f)))

  after_create-Goes :
      (s : Matchmaker) (pending : List QueueEntry) (a b : QueueEntry) (r : Result CreatedMatch)
      (w : World)
      → Holds w
      → All Fits pending
      → All Fits (a ∷ b ∷ [])
      → Goes (after_create e s pending a b r) w
  unfolding after_create publish_match_start
  after_create-Goes s pending a b (err x) w h held small =
      after_refusal-Goes s pending a b (ineligible_of x) w h held small
  after_create-Goes s pending a b (ok created) w h held small = bind_ends _ _ w (
      handled _ _ w (publish_keeps _ _ _) h (λ first v k.
        handled _ _ v (publish_keeps _ _ _) k
          (λ second u l. end_pure _ u (end_pure _ u (l, held)))))

  after_pop-Goes :
      (s : Matchmaker) (pending : List QueueEntry) (o : Option (QueueEntry × QueueEntry))
      (w : World)
      → Holds w
      → All Fits pending
      → BothFit Fits o
      → Goes (after_pop e s pending (ok o)) w
  unfolding after_pop
  after_pop-Goes s pending none w h held small = end_pure _ w (h, held)
  after_pop-Goes s pending (some (a, b)) w h held small =
      handled _ _ w (create_keeps s.has_db s.milliseconds a.member b.member) h
        (λ r v k. after_create-Goes s pending a b r v k held (small.0, (small.1, tt)))

  pub step-Goes :
      (s : Matchmaker) (pending : List QueueEntry) (w : World)
      → Holds w
      → All Fits pending
      → Ends (step e s pending) w (λ r v. Holds v × All Fits r.1) (λ _ _. ⊥)
  unfolding step after_pop
  step-Goes s pending w h small = bind_ends _ _ w (
      weaken _ w (restore_pending-Goes s.queue pending w h small)
        (λ r v k.
          if_ends r.0 (attempt (pop_pair e s.queue) (after_pop e s r.1))
            (pure (s.retry_interval, r.1)) v
            (λ _. attempt_ends (pop_pair e s.queue) (after_pop e s r.1) v (
              weaken _ v (pop_ends s.queue v k.0) (λ o u l. after_pop-Goes s r.1 o u l.0 k.1 l.1)
                (λ x u l. end_pure (s.retry_interval, r.1) u (l, k.1))))
            (λ _. end_pure (s.retry_interval, r.1) v k))
        (λ _ _ f. f))
