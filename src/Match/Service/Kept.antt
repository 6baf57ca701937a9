-- ===== src/Match/Service/Kept.antt =====
-- A step of the matchmaker does not lose the entries that it popped.
use code_duel.Base.{ℕ, ◌≡◌, refl, none, some, List, [], ◌∷◌, ◌⊎◌, inl, inr}
use code_duel.Redisx.Queue.{Queue, QueueEntry, pop_pair, requeue, requeue_script}
use code_duel.Redisx.QueueOk.Runs.{check_entries-Keeps}
use code_duel.Match.Create.{create_match}
use code_duel.Match.Service.{
  Matchmaker, restore_pending, step, after_pop, after_create, after_refusal, ineligible_of,
  requeue_or_retain,
}
use code_duel.World.{Env, World, Error, Result, ok, err, M, attempt, ◌>>=◌}
use code_duel.World.Ends.{
  Ends, weaken, ends_of_keeps, HoldsOf, then_guard, bind_ends, end_call, end_pure, attempt_ends,
}

-- A run that cannot fail has a result.
returned :
    {A : Type 0} {Q : A → World → Type 0} (m : M A) (w : World)
    → Ends m w Q (λ _ _. ⊥)
    → (a : A) × ((m w).0 ≡ ok a) × Q a (m w).1
returned {A} {Q} m w h = go (m w).0 refl h.holds
  where
    go :
        (r : Result A)
        → (m w).0 ≡ r
        → HoldsOf Q (λ _ _. ⊥) r (m w).1
        → (a : A) × ((m w).0 ≡ ok a) × Q a (m w).1
    go (ok a) same q = (a, same, q)
    go (err x) same q = absurd q

module _ (e : Env) where
  requeue-queue :
      (queue : Queue) (x : QueueEntry) (xs : List QueueEntry) (w : World)
      → Ends
          (requeue e queue (x ∷ xs))
          w
          (λ _ v. v.queue ≡ requeue_script e (x ∷ xs) w.queue)
          (λ _ _. Unit {0})
  unfolding requeue
  requeue-queue queue x xs w =
      then_guard _ _ _ w
        (λ _. bind_ends _ _ w (
          weaken _ w
            (ends_of_keeps _ (check_entries-Keeps e {P = λ v. v.queue ≡ w.queue} (x ∷ xs)) w refl)
            (λ _ v same. end_call e _ _ v (λ _. rw same refl) (λ _. tt) (λ _. tt)) (λ _ _ _. tt)))
        (λ _. tt)

  -- Where a popped pair is after its match could not be created.
  abbrev pub Returned :
      Matchmaker → QueueEntry → QueueEntry → World → ℕ × List QueueEntry → World → Type 0
  Returned s a b w r v =
      (r.0 ≡ s.retry_interval)
      × (((r.1 ≡ []) × (v.queue ≡ requeue_script e (a ∷ b ∷ []) w.queue)) ⊎ (r.1 ≡ a ∷ b ∷ []))

  after_refusal-Returned :
      (s : Matchmaker) (a b : QueueEntry) (w : World)
      → Ends (after_refusal e s [] a b none) w (Returned s a b w) (λ _ _. ⊥)
  unfolding after_refusal requeue_or_retain
  after_refusal-Returned s a b w = bind_ends _ _ w (
      attempt_ends _ _ w (
        weaken _ w (requeue-queue s.queue a (b ∷ []) w)
          (λ u v same. end_pure _ v (end_pure _ v (refl, inl (refl, same))))
          (λ x v _. end_pure _ v (end_pure _ v (refl, inr refl)))))

  -- A popped pair is not lost where its match cannot be created for a reason other than that a player
  -- is ineligible: a step that starts with nothing pending, pops the pair and fails to create the match
  -- asks for a retry, and either the queue has run requeue.lua for both entries, or both are pending.
  pub popped_pair_kept :
      (s : Matchmaker) (a b : QueueEntry) (x : Error) (w popped failed : World)
      → pop_pair e s.queue w ≡ (ok (some (a, b)), popped)
      → create_match e s.has_db s.milliseconds a.member b.member popped ≡ (err x, failed)
      → ineligible_of x ≡ none
      → (r : ℕ × List QueueEntry) × ((step e s [] w).0 ≡ ok r)
        × Returned s a b failed r (step e s [] w).1
  unfolding step restore_pending after_pop after_create ◌>>=◌ attempt
  popped_pair_kept s a b x w popped failed pops fails other =
      rw (pops, fails, other)
        (returned (after_refusal e s [] a b none) failed (after_refusal-Returned s a b failed))
