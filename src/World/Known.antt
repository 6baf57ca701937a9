-- ===== src/World/Known.antt =====
-- A transaction that has read something: a fact about the tables that its later statements keep.
use code_duel.Db.{Db}
use code_duel.World.{Site, Env, World, M, exec, commit_with}
use code_duel.World.Keeps.{Keeps, Keeps-call, InDb}

-- `P` holds of what is durable and of what the transaction sees, and `Q` of what it sees.
pub record Knows (P Q : Db → Type 0) (w : World) : Type 0 where
  pub both : InDb P w
  pub known : Q w.working

module _ {P Q : Db → Type 0} where
  pub Knows-exec :
      (e : Env) (s : Site) (change : Db → Db)
      → ((db : Db) → P db → Q db → P (change db))
      → ((db : Db) → Q db → Q (change db))
      → Keeps (Knows P Q) (exec e s change)
  unfolding exec
  Knows-exec e s change keep keep_known =
      Keeps-call e s (λ w. record w { working = change w.working })
        (λ w h. record {
          both = record {
            durable_holds = h.both.durable_holds;
            working_holds = keep w.working h.both.working_holds h.known;
          };
          known = keep_known w.working h.known;
        })

  pub Knows-commit : (e : Env) (s : Site) → Keeps (Knows P Q) (commit_with e s)
  unfolding commit_with
  Knows-commit e s =
      Keeps-call e s (λ w. record w { durable = w.working })
        (λ w h. record {
          both = record {
            durable_holds = h.both.working_holds;
            working_holds = h.both.working_holds;
          };
          known = h.known;
        })

  -- With the fact, the rest keeps more than without it.
  pub with_known :
      {A : Type 0} (m : M A)
      → Keeps (Knows P Q) m
      → (w : World) → InDb P w
      → Q w.working
      → InDb P (m w).1
  with_known m k w h q = (k.at w (record { both = h; known = q })).both
