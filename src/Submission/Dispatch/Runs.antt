-- ===== src/Submission/Dispatch/Runs.antt =====
-- How the immediate dispatch ends.
use code_duel.Base.{ℕ, ◌≡◌, refl, ◌⊎◌, inl, inr}
use code_duel.World.{mark_enqueued, Env, World}
use code_duel.World.Ends.{Ends, end_call, end_gets, then_guard, then_call, bind_ends}
use code_duel.World.{exec_now}
use code_duel.Redisx.JudgeQueue.{enqueue}
use code_duel.Submission.Dispatch.{Dispatcher, dispatch, stamp_enqueued}

-- The durable rows are untouched, or the row of the submission is stamped.
abbrev pub Stamped : Env → ℕ → World → World → Type 0
Stamped e id w v =
    (v.durable ≡ w.durable) ⊎ (v.durable ≡ stamp_enqueued id (e.clock (mark_enqueued id)) w.durable)

pub dispatch_ends :
    (e : Env) (d : Dispatcher) (id : ℕ) (w : World)
    → Ends (dispatch e d id) w (λ _ v. Stamped e id w v) (λ _ v. Stamped e id w v)
unfolding dispatch enqueue exec_now
dispatch_ends e d id w =
    then_guard _ _ _ w
      (λ _.
        then_guard _ _ _ w
          (λ _. bind_ends _ _ w (
            then_guard _ _ _ w
              (λ _.
                then_call e _ _ _ w
                  (λ _.
                    end_gets _ _ (end_call e _ _ _ (λ _. inr refl) (λ _. inl refl) (λ _. inr refl)))
                  (λ _. inl refl) (λ _. inl refl))
              (λ _. inl refl)))
          (λ _. inl refl))
      (λ _. inl refl)
