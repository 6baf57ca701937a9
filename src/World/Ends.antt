-- ===== src/World/Ends.antt =====
-- How a run of an action ends: `Q` holds of its value and the world after it, or `R` of its error
-- and the world after it. One rule for each way to begin a do block.
use code_duel.Base.{◌≡◌, refl, ◌≢◌, Bool, true, false, Option, none, some, if◌then◌else◌}
use code_duel.Db.{Db}
use code_duel.World.Keeps.{Keeps}
use code_duel.World.{
  Site, Fault, done, refused, unacknowledged, Error, unavailable, Result, ok, err, Env, World, M,
  pure, raise, gets, continue, ended, ◌>>=◌, attempt, call, query, begin_with, exec, commit_with,
  guard, some_or,
}

-- Nothing changed but what the open transaction sees.
abbrev pub Untouched : World → World → Type 0
Untouched v w =
    (v.durable ≡ w.durable) × (v.jobs ≡ w.jobs) × (v.queue ≡ w.queue) × (v.sent ≡ w.sent)

pub Untouched-refl : (w : World) → Untouched w w
Untouched-refl w = (refl, refl, refl, refl)

abbrev pub HoldsOf :
    {A : Type 0} → (A → World → Type 0) → (Error → World → Type 0) → Result A → World → Type 0
HoldsOf Q R (ok a) w = Q a w
HoldsOf Q R (err x) w = R x w

pub record Ends {A : Type 0} (m : M A) (w : World) (Q : A → World → Type 0)
    (R : Error → World → Type 0) : Type 0 where
  pub holds : HoldsOf Q R (m w).0 (m w).1

module _ {A : Type 0} {Q : A → World → Type 0} {R : Error → World → Type 0} where
  -- Reading off a run that is known to succeed, or to fail.
  pub Ends-ok : (m : M A) (w : World) (a : A) → Ends m w Q R → (m w).0 ≡ ok a → Q a (m w).1
  Ends-ok m w a h e = rw e at h.holds

  pub Ends-err : (m : M A) (w : World) (x : Error) → Ends m w Q R → (m w).0 ≡ err x → R x (m w).1
  Ends-err m w x h e = rw e at h.holds

  pub end_pure : (a : A) (w : World) → Q a w → Ends (pure a) w Q R
  unfolding pure
  end_pure a w h = record { holds = h }

  pub end_raise : (x : Error) (w : World) → R x w → Ends (raise x) w Q R
  unfolding raise
  end_raise x w h = record { holds = h }

  pub end_gets : (f : World → A) (w : World) → Q (f w) w → Ends (gets f) w Q R
  unfolding gets
  end_gets f w h = record { holds = h }

  pub end_some_or :
      (o : Option A) (x : Error) (w : World)
      → ((a : A) → o ≡ some a → Q a w)
      → (o ≡ none → R x w)
      → Ends (some_or o x) w Q R
  unfolding some_or
  end_some_or none x w q r = record { holds = r refl }
  end_some_or (some a) x w q r = record { holds = q a refl }

  pub if_ends :
      (b : Bool) (m n : M A) (w : World)
      → (b ≡ true → Ends m w Q R)
      → (b ≡ false → Ends n w Q R)
      → Ends (if b then m else n) w Q R
  if_ends true m n w h k = h refl
  if_ends false m n w h k = k refl

  -- Weaker conclusions.
  pub weaken :
      {Q' : A → World → Type 0} {R' : Error → World → Type 0} (m : M A) (w : World)
      → Ends m w Q R
      → ((a : A) (w' : World) → Q a w' → Q' a w')
      → ((x : Error) (w' : World) → R x w' → R' x w')
      → Ends m w Q' R'
  weaken {Q'} {R'} m w h q r = record { holds = go (m w).0 (m w).1 h.holds }
    where
      go : (s : Result A) (v : World) → HoldsOf Q R s v → HoldsOf Q' R' s v
      go (ok a) v k = q a v k
      go (err x) v k = r x v k

module _ {Q : Unit {0} → World → Type 0} {R : Error → World → Type 0} where
  pub end_call :
      (e : Env) (s : Site) (effect : World → World) (w : World)
      → (e.fault s ≡ done → Q tt (effect w))
      → (e.fault s ≡ refused → R (unavailable s) w)
      → (e.fault s ≡ unacknowledged → R (unavailable s) (effect w))
      → Ends (call e s effect) w Q R
  unfolding call
  end_call e s effect w q r u = record { holds = go (e.fault s) refl }
    where
      go :
          (f : Fault)
          → e.fault s ≡ f
          → HoldsOf Q R (ended e s f w (effect w)).0 (ended e s f w (effect w)).1
      go done p = q p
      go refused p = r p
      go unacknowledged p = u p

  pub end_guard :
      (b : Bool) (x : Error) (w : World)
      → (b ≡ true → Q tt w)
      → (b ≡ false → R x w)
      → Ends (guard b x) w Q R
  unfolding guard
  end_guard true x w q r = record { holds = q refl }
  end_guard false x w q r = record { holds = r refl }

module _ {A B : Type 0} {Q : B → World → Type 0} {R : Error → World → Type 0} where
  pub bind_ends :
      (m : M A) (k : A → M B) (w : World)
      → Ends m w (λ a w'. Ends (k a) w' Q R) R
      → Ends (m >>= k) w Q R
  unfolding ◌>>=◌
  bind_ends m k w h = record { holds = go (m w).0 (m w).1 h.holds }
    where
      go :
          (r : Result A) (v : World)
          → HoldsOf (λ a w'. Ends (k a) w' Q R) R r v
          → HoldsOf Q R (continue r k v).0 (continue r k v).1
      go (ok a) v p = p.holds
      go (err x) v p = p

  pub attempt_ends :
      (m : M A) (k : Result A → M B) (w : World)
      → Ends m w (λ a w'. Ends (k (ok a)) w' Q R) (λ x w'. Ends (k (err x)) w' Q R)
      → Ends (attempt m k) w Q R
  unfolding attempt
  attempt_ends m k w h = record { holds = go (m w).0 (m w).1 h.holds }
    where
      go :
          (r : Result A) (v : World)
          → HoldsOf (λ a w'. Ends (k (ok a)) w' Q R) (λ x w'. Ends (k (err x)) w' Q R) r v
          → HoldsOf Q R (k r v).0 (k r v).1
      go (ok a) v p = p.holds
      go (err x) v p = p.holds

  pub then_gets :
      (f : World → A) (k : A → M B) (w : World) → Ends (k (f w)) w Q R → Ends (gets f >>= k) w Q R
  then_gets f k w h = bind_ends (gets f) k w (end_gets f w h)

  pub then_pure : (a : A) (k : A → M B) (w : World) → Ends (k a) w Q R → Ends (pure a >>= k) w Q R
  then_pure a k w h = bind_ends (pure a) k w (end_pure a w h)

  pub then_some_or :
      (o : Option A) (x : Error) (k : A → M B) (w : World)
      → ((a : A) → o ≡ some a → Ends (k a) w Q R)
      → (o ≡ none → R x w)
      → Ends (some_or o x >>= k) w Q R
  unfolding some_or ◌>>=◌
  then_some_or none x k w q r = record { holds = r refl }
  then_some_or (some a) x k w q r = q a refl

module _ {B : Type 0} {Q : B → World → Type 0} {R : Error → World → Type 0} where
  pub then_guard :
      (b : Bool) (x : Error) (k : Unit {0} → M B) (w : World)
      → (b ≡ true → Ends (k tt) w Q R)
      → (b ≡ false → R x w)
      → Ends (guard b x >>= k) w Q R
  then_guard b x k w q r = bind_ends (guard b x) k w (end_guard b x w q r)

  pub then_call :
      (e : Env) (s : Site) (effect : World → World) (k : Unit {0} → M B) (w : World)
      → (e.fault s ≡ done → Ends (k tt) (effect w) Q R)
      → (e.fault s ≡ refused → R (unavailable s) w)
      → (e.fault s ≡ unacknowledged → R (unavailable s) (effect w))
      → Ends (call e s effect >>= k) w Q R
  then_call e s effect k w q r u = bind_ends (call e s effect) k w (end_call e s effect w q r u)

  pub then_query :
      (e : Env) (s : Site) (k : Unit {0} → M B) (w : World)
      → (e.fault s ≡ done → Ends (k tt) w Q R)
      → (e.fault s ≢ done → R (unavailable s) w)
      → Ends (query e s >>= k) w Q R
  unfolding query
  then_query e s k w q r = then_call e s (λ v. v) k w q (λ p. r (λ h. cc)) (λ p. r (λ h. cc))

  pub then_begin :
      (e : Env) (s : Site) (k : Unit {0} → M B) (w : World)
      → (e.fault s ≡ done → Ends (k tt) (record w { working = w.durable }) Q R)
      → (e.fault s ≢ done → (v : World) → Untouched v w → R (unavailable s) v)
      → Ends (begin_with e s >>= k) w Q R
  unfolding begin_with
  then_begin e s k w q r =
      then_call e s (λ v. record v { working = v.durable }) k w q
        (λ p. r (λ h. cc) w (Untouched-refl w))
        (λ p. r (λ h. cc) (record w { working = w.durable }) (Untouched-refl w))

  pub then_exec :
      (e : Env) (s : Site) (change : Db → Db) (k : Unit {0} → M B) (w : World)
      → (e.fault s ≡ done → Ends (k tt) (record w { working = change w.working }) Q R)
      → (e.fault s ≢ done → (v : World) → Untouched v w → R (unavailable s) v)
      → Ends (exec e s change >>= k) w Q R
  unfolding exec
  then_exec e s change k w q r =
      then_call e s (λ v. record v { working = change v.working }) k w q
        (λ p. r (λ h. cc) w (Untouched-refl w))
        (λ p. r (λ h. cc) (record w { working = change w.working }) (Untouched-refl w))

  pub then_commit :
      (e : Env) (s : Site) (k : Unit {0} → M B) (w : World)
      → (e.fault s ≡ done → Ends (k tt) (record w { durable = w.working }) Q R)
      → (e.fault s ≡ refused → R (unavailable s) w)
      → (e.fault s ≡ unacknowledged → R (unavailable s) (record w { durable = w.working }))
      → Ends (commit_with e s >>= k) w Q R
  unfolding commit_with
  then_commit e s k w q r u = then_call e s (λ v. record v { durable = v.working }) k w q r u

module _ {A : Type 0} {P : World → Type 0} where
  -- What holds however the run ends.
  pub world_of_ends : (m : M A) (w : World) → Ends m w (λ _ v. P v) (λ _ v. P v) → P (m w).1
  world_of_ends m w h = go (m w).0 (m w).1 h.holds
    where
      go : (r : Result A) (v : World) → HoldsOf (λ _ u. P u) (λ _ u. P u) r v → P v
      go (ok a) v h = h
      go (err x) v h = h

  pub Keeps-of_ends :
      (m : M A) → ((w : World) → P w → Ends m w (λ _ v. P v) (λ _ v. P v)) → Keeps P m
  Keeps-of_ends m ends = record { at = λ w h. world_of_ends m w (ends w h) }

  pub ends_of_keeps : (m : M A) → Keeps P m → (w : World) → P w → Ends m w (λ _ v. P v) (λ _ v. P v)
  ends_of_keeps m k w h = record { holds = go (m w).0 (m w).1 (k.at w h) }
    where
      go : (r : Result A) (v : World) → P v → HoldsOf (λ _ u. P u) (λ _ u. P u) r v
      go (ok a) v p = p
      go (err x) v p = p
