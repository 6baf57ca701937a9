-- ===== src/Judge/Docker/Yields.antt =====
-- What the value of an action of an attempt satisfies, with a rule for each way to build one.
use code_duel.Base.{Bool, true, false, ◌≡◌, refl, subst, if◌then◌else◌}
use code_duel.Judge.Sandbox.{Sandbox, Attempt, return, abort, proceed, ◌>>=◌}
use code_duel.World.{Error, Result, ok, err}

-- What holds of the value that an action returns, if it returns one.
pub record Yields {A : Type 0} (Q : A → Type 0) (m : Attempt A) : Type 0 where
  pub value : (s : Sandbox) (a : A) → (m s).0 ≡ ok a → Q a

ok_inj : {A : Type 0} (a b : A) → ok a ≡ ok b → a ≡ b
ok_inj a b e = cc

module _ {A : Type 0} {Q : A → Type 0} where
  pub return-Yields : (a : A) → Q a → Yields Q (return a)
  unfolding return
  return-Yields a h = record { value = λ s b e. subst Q (ok_inj a b e) h }

  pub abort-Yields : (x : Error) → Yields Q (abort x)
  unfolding abort
  abort-Yields x = record { value = λ s b e. never s b e }
    where
      never : (s : Sandbox) (b : A) → err x ≡ ok b → Q b
      never s b e = cc

  pub then-Yields :
      {B : Type 0} (m : Attempt B) (k : B → Attempt A)
      → ((b : B) → Yields Q (k b))
      → Yields Q (m >>= k)
  unfolding ◌>>=◌
  then-Yields m k h = record { value = λ s a e. go (m s).0 (m s).1 a e }
    where
      go : (r : Result _) (s : Sandbox) (a : A) → (proceed r k s).0 ≡ ok a → Q a
      go (ok b) s a e = (h b).value s a e
      go (err x) s a e = cc

  pub if-Yields :
      (b : Bool) (m n : Attempt A)
      → (b ≡ true → Yields Q m)
      → (b ≡ false → Yields Q n)
      → Yields Q (if b then m else n)
  if-Yields true m n hm hn = hm refl
  if-Yields false m n hm hn = hn refl
