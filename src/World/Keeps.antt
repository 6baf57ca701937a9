-- ===== src/World/Keeps.antt =====
-- Invariants of actions, with a rule for each way to build an action.
use code_duel.Base.{Bool, true, false, Option, none, some, if◌then◌else◌}
use code_duel.Db.{Db}
use code_duel.World.{
  Site, Fault, done, refused, unacknowledged, Error, Result, ok, err, Env, World, M, pure, raise,
  gets, continue, ended, ◌>>=◌, attempt, call, query, begin_with, exec, commit_with, exec_now,
  guard, some_or,
}

-- `m` keeps `P`, whether it returns or fails.
pub record Keeps {A : Type 0} (P : World → Type 0) (m : M A) : Type 0 where
  pub at : (w : World) → P w → P (m w).1

module _ {A : Type 0} {P : World → Type 0} where
  pub Keeps-pure : (a : A) → Keeps P (pure a)
  unfolding pure
  Keeps-pure a = record { at = λ w h. h }

  pub Keeps-raise : (x : Error) → Keeps P (raise {A = A} x)
  unfolding raise
  Keeps-raise x = record { at = λ w h. h }

  pub Keeps-gets : (f : World → A) → Keeps P (gets f)
  unfolding gets
  Keeps-gets f = record { at = λ w h. h }

  pub Keeps-some_or : (o : Option A) (x : Error) → Keeps P (some_or o x)
  unfolding some_or
  Keeps-some_or none x = record { at = λ w h. h }
  Keeps-some_or (some a) x = record { at = λ w h. h }

  -- Both branches of a test.
  pub Keeps-if :
      (test : Bool) (first second : M A)
      → Keeps P first
      → Keeps P second
      → Keeps P (if test then first else second)
  Keeps-if true first second held other = held
  Keeps-if false first second held other = other

module _ {P : World → Type 0} where
  pub Keeps-guard : (b : Bool) (x : Error) → Keeps P (guard b x)
  unfolding guard
  Keeps-guard true x = record { at = λ w h. h }
  Keeps-guard false x = record { at = λ w h. h }

  pub Keeps-call :
      (e : Env) (s : Site) (effect : World → World)
      → ((w : World) → P w → P (effect w))
      → Keeps P (call e s effect)
  unfolding call
  Keeps-call e s effect keep = record { at = λ w h. go (e.fault s) w h }
    where
      go : (f : Fault) (w : World) → P w → P (ended e s f w (effect w)).1
      go done w h = keep w h
      go refused w h = h
      go unacknowledged w h = keep w h

  pub Keeps-query : (e : Env) (s : Site) → Keeps P (query e s)
  unfolding query
  Keeps-query e s = Keeps-call e s (λ w. w) (λ w h. h)

module _ {A B : Type 0} {P : World → Type 0} where
  pub Keeps-bind :
      (m : M A) (f : A → M B) → Keeps P m → ((a : A) → Keeps P (f a)) → Keeps P (m >>= f)
  unfolding ◌>>=◌
  Keeps-bind m f km kf = record { at = λ w h. go (m w).0 (m w).1 (km.at w h) }
    where
      go : (r : Result A) (w : World) → P w → P (continue r f w).1
      go (ok a) w h = (kf a).at w h
      go (err x) w h = h

  pub Keeps-attempt :
      (m : M A) (f : Result A → M B)
      → Keeps P m
      → ((r : Result A) → Keeps P (f r))
      → Keeps P (attempt m f)
  unfolding attempt
  Keeps-attempt m f km kf = record { at = λ w h. (kf (m w).0).at (m w).1 (km.at w h) }

  -- What a read returns may be used together with the world that it was read from.
  pub Keeps-bind-gets :
      (g : World → A) (f : A → M B) → ((w : World) → P w → P (f (g w) w).1) → Keeps P (gets g >>= f)
  unfolding ◌>>=◌
  Keeps-bind-gets g f k = record { at = k }

-- An invariant of the database holds of what is durable and of what the transaction sees.
pub record InDb (P : Db → Type 0) (w : World) : Type 0 where
  pub durable_holds : P w.durable
  pub working_holds : P w.working

module _ {P : Db → Type 0} where
  pub InDb-begin : (e : Env) (s : Site) → Keeps (InDb P) (begin_with e s)
  unfolding begin_with
  InDb-begin e s =
      Keeps-call e s (λ w. record w { working = w.durable })
        (λ w h. record { durable_holds = h.durable_holds; working_holds = h.durable_holds })

  pub InDb-commit : (e : Env) (s : Site) → Keeps (InDb P) (commit_with e s)
  unfolding commit_with
  InDb-commit e s =
      Keeps-call e s (λ w. record w { durable = w.working })
        (λ w h. record { durable_holds = h.working_holds; working_holds = h.working_holds })

  pub InDb-exec :
      (e : Env) (s : Site) (change : Db → Db)
      → ((db : Db) → P db → P (change db))
      → Keeps (InDb P) (exec e s change)
  unfolding exec
  InDb-exec e s change keep =
      Keeps-call e s (λ w. record w { working = change w.working })
        (λ w h. record {
          durable_holds = h.durable_holds;
          working_holds = keep w.working h.working_holds;
        })

  pub InDb-exec_now :
      (e : Env) (s : Site) (change : Db → Db)
      → ((db : Db) → P db → P (change db))
      → Keeps (InDb P) (exec_now e s change)
  unfolding exec_now
  InDb-exec_now e s change keep =
      Keeps-call e s (λ w. record w { durable = change w.durable })
        (λ w h. record {
          durable_holds = keep w.durable h.durable_holds;
          working_holds = h.working_holds;
        })

-- What is durable satisfies an invariant of the database.
abbrev pub InDurable : (Db → Type 0) → World → Type 0
InDurable P w = P w.durable

module _ {A : Type 0} {P : Db → Type 0} where
  -- A transaction may use the invariant of what it sees, and answers for what is durable.
  pub Keeps-tx :
      (e : Env) (s : Site) (k : Unit {0} → M A)
      → ((w : World) → InDb P w → P (k tt w).1.durable)
      → Keeps (InDurable P) (begin_with e s >>= k)
  unfolding ◌>>=◌ begin_with call
  Keeps-tx e s k safe = record { at = λ w h. go (e.fault s) w h }
    where
      after : (w : World) → P w.durable → P (k tt (record w { working = w.durable })).1.durable
      after w h =
          safe (record w { working = w.durable }) (record { durable_holds = h; working_holds = h })

      go :
          (f : Fault) (w : World)
          → P w.durable
          → P
              (let (r, v) = ended e s f w (record w { working = w.durable }) in
                continue r k v).1.durable
      go done w h = after w h
      go refused w h = h
      go unacknowledged w h = h

  pub Keeps-body : (m : M A) → Keeps (InDb P) m → (w : World) → InDb P w → P (m w).1.durable
  Keeps-body m k w h = (k.at w h).durable_holds

module _ {P : Db → Type 0} where
  pub Durable-exec_now :
      (e : Env) (s : Site) (change : Db → Db)
      → ((db : Db) → P db → P (change db))
      → Keeps (InDurable P) (exec_now e s change)
  unfolding exec_now
  Durable-exec_now e s change keep =
      Keeps-call e s (λ w. record w { durable = change w.durable }) (λ w h. keep w.durable h)

pub ruleset keeps_rules = (
  Keeps-pure, Keeps-raise, Keeps-gets, Keeps-some_or, Keeps-if, Keeps-guard, Keeps-query,
  Keeps-bind, Keeps-attempt, InDb-begin, InDb-commit,
)
