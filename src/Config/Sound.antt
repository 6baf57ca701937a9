-- ===== src/Config/Sound.antt =====
-- What a loaded configuration guarantees to the roles.
use code_duel.Base.{
  ℕ, ◌+◌, ◌*◌, ◌<◌, ltb, Bool, true, ◌≡◌, refl, Option, none, some, some_inj, if_some, arith, subst,
  ltb→lt, if◌then◌else◌, ◌⊎◌, inl, inr, Bool-cases, ◌≤◌,
}
use code_duel.Judge.Executor.{valid_limits}
use code_duel.Reaper.Leases.{ReaperConfig}
use code_duel.Config.{
  JudgeConfig, Config, judge_setup_margin, int64_bound, int64_below, valid_judge, valid_reaper,
  limits_from_config,
}
use code_duel.Config.Load.{
  Settings, ◌>>=◌, when_judge, when_reaper, load_judge_config, load_reaper_config, load,
}

-- What holds of an optional value, if there is one.
pub record Found {A : Type 0} (P : A → Type 0) (o : Option A) : Type 0 where
  pub holds : (a : A) → o ≡ some a → P a

module _ {A B : Type 0} {P : B → Type 0} where
  Found-bind :
      (o : Option A) (f : A → Option B) → ((a : A) → o ≡ some a → Found P (f a)) → Found P (o >>= f)
  unfolding ◌>>=◌
  Found-bind none f h = record { holds = λ b e. never b e }
    where
      never : (b : B) → none ≡ some b → P b
      never b e = cc
  Found-bind (some a) f h = h a refl

Found-if :
    {A : Type 0} (test : A → Bool) (a : A)
    → Found (λ b. test b ≡ true) (if test a then some a else none)
Found-if test a = record { holds = λ b e. checked b (if_some (test a) a b e) }
  where
    checked : (b : _) → (test a ≡ true) × (a ≡ b) → test b ≡ true
    checked b (met, same) = subst (λ c. test c ≡ true) same met

when_judge-valid : (c : JudgeConfig) → Found (λ d. valid_judge d ≡ true) (when_judge c)
unfolding when_judge
when_judge-valid c = Found-if valid_judge c

when_reaper-valid :
    (lease : ℕ) (c : ReaperConfig) → Found (λ d. valid_reaper lease d ≡ true) (when_reaper lease c)
unfolding when_reaper
when_reaper-valid lease c = Found-if (valid_reaper lease) c

load_judge-valid : (s : Settings) → Found (λ c. valid_judge c ≡ true) (load_judge_config s)
unfolding load_judge_config
load_judge-valid s = Found-bind _ _ (λ _ _. Found-bind _ _ (λ _ _. Found-bind _ _ (λ _ _.
    Found-bind _ _ (λ _ _. Found-bind _ _ (λ _ _. Found-bind _ _ (λ _ _. Found-bind _ _ (λ _ _.
      Found-bind _ _ (λ _ _. Found-bind _ _ (λ _ _. Found-bind _ _ (λ _ _. Found-bind _ _ (λ _ _.
        Found-bind _ _ (λ _ _.
          Found-bind _ _
            (λ _ _. Found-bind _ _ (λ _ _. Found-bind _ _ (λ _ _. when_judge-valid _)))))))))))))))

load_reaper-valid :
    (s : Settings) (lease : ℕ)
    → Found (λ c. valid_reaper lease c ≡ true) (load_reaper_config s lease)
unfolding load_reaper_config
load_reaper-valid s lease = Found-bind _ _ (λ _ _.
    Found-bind _ _
      (λ _ _. Found-bind _ _ (λ _ _. Found-bind _ _ (λ _ _. when_reaper-valid lease _))))

-- Both sections of a loaded configuration have passed their validation.
abbrev Valid : Config → Type 0
Valid c = (valid_judge c.judge ≡ true) × (valid_reaper c.judge.attempt_lease c.reaper ≡ true)

load-Valid : (s : Settings) → Found Valid (load s)
unfolding load
load-Valid s = Found-bind _ _ (λ _ _. Found-bind _ _ (λ _ _. Found-bind _ _ (λ _ _.
    Found-bind _ _ (λ _ _. Found-bind _ _ (λ _ _. Found-bind _ _ (λ judge at_judge.
      Found-bind _ _ (λ reaper at_reaper. record {
        holds = λ c e. subst Valid (some_inj _ c e) (
          (load_judge-valid s).holds judge at_judge,
          (load_reaper-valid s judge.attempt_lease).holds reaper at_reaper,
        );
      })))))))

judge_lease :
    (j : JudgeConfig)
    → valid_judge j ≡ true
    → int64_below (j.total_timeout + 2 * j.cleanup_timeout + judge_setup_margin) j.attempt_lease
      ≡ true
unfolding valid_judge
judge_lease j h = ground arith

reaper_idle :
    (lease : ℕ) (r : ReaperConfig)
    → valid_reaper lease r ≡ true
    → ltb lease r.stream_min_idle ≡ true
unfolding valid_reaper
reaper_idle lease r h = ground arith

-- Where the sum does not wrap, the comparison is the one of numbers.
below_limit : (sum limit : ℕ) → int64_below sum limit ≡ true → (sum < limit) ⊎ (int64_bound ≤ sum)
below_limit sum limit h = elim (Bool-cases (ltb sum int64_bound)) [
  | inl fits ↦ inl (ground arith)
  | inr wraps ↦ inr (ground arith)
]

judge_limits : (j : JudgeConfig) → valid_judge j ≡ true → valid_limits (limits_from_config j) ≡ true
unfolding valid_judge valid_limits
judge_limits j h = ground arith

-- The limits that the judge takes from a loaded configuration are ones that its executor accepts.
pub load_limits :
    (s : Settings) (c : Config) → load s ≡ some c → valid_limits (limits_from_config c.judge) ≡ true
load_limits s c h = judge_limits c.judge ((load-Valid s).holds c h).0

-- In a loaded configuration the reaper takes over a stream entry only after longer than a lease, and a
-- claim's lease is longer than an execution with its cleanup twice and the margin for the setup, or the
-- sum of these is more than an int64 of nanoseconds holds.
pub load_timings :
    (s : Settings) (c : Config)
    → load s ≡ some c
    → (c.judge.attempt_lease < c.reaper.stream_min_idle)
      × ((c.judge.total_timeout + 2 * c.judge.cleanup_timeout + judge_setup_margin
            < c.judge.attempt_lease)
          ⊎ (int64_bound
              ≤ c.judge.total_timeout + 2 * c.judge.cleanup_timeout + judge_setup_margin))
load_timings s c h =
    let (judge, reaper) = (load-Valid s).holds c h in
    (
      ltb→lt _ _ (reaper_idle c.judge.attempt_lease c.reaper reaper),
      below_limit _ _ (judge_lease c.judge judge),
    )
