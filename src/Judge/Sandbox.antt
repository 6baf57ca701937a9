-- ===== src/Judge/Sandbox.antt =====
-- internal/judge/docker_executor.go: what one attempt has on the Docker host, what it keeps track
-- of, and the calls that create and remove it. The daemon is a parameter: its answers.
pub mod Tracked
use code_duel.Base.{
  ℕ, ◌==◌, Bool, true, false, ◌||◌, List, [], ◌∷◌, ◌++◌, if◌then◌else◌, delete_rows, exists_row,
}
use code_duel.World.{engine_failed, Error, Result, ok, err}

-- The containers of an attempt are named by their roles.
abbrev pub staging : ℕ
staging = 0

abbrev pub compiling : ℕ
compiling = 1

-- `attemptResources` beside what the host has.
pub record Sandbox : Type 0 where
  pub containers : List ℕ
  pub has_volume : Bool
  pub tracked : List ℕ
  pub tracks_volume : Bool

-- How a creation ends. A container that is refused for its warnings exists, and one whose answer is
-- lost may exist.
pub data Creation : Type 0 where
  created : Creation
  not_created : Bool → Creation

-- How a removal ends; a daemon that knows no such container has none.
pub data Removal : Type 0 where
  removed no_such : Removal
  remove_failed : Removal

abbrev pub Attempt : Type 0 → Type 0
Attempt A = Sandbox → Result A × Sandbox

module _ {A : Type 0} where
  unfoldable pub return : A → Attempt A
  return a s = (ok a, s)

  unfoldable pub abort : Error → Attempt A
  abort x s = (err x, s)

module _ {A B : Type 0} where
  abbrev pub proceed : Result A → (A → Attempt B) → Attempt B
  proceed (ok a) f s = f a s
  proceed (err x) f s = (err x, s)

  infixl 10 ◌>>=◌ ◌>>◌
  unfoldable pub ◌>>=◌ : Attempt A → (A → Attempt B) → Attempt B
  unfolding return abort
  ◌>>=◌ m f s = let (r, s') = m s in proceed r f s'

  abbrev pub ◌>>◌ : Attempt A → Attempt B → Attempt B
  m >> n = m >>= λ _. n

unfoldable pub check : Bool → Error → Attempt (Unit {0})
unfolding return abort
check true x = return tt
check false x = abort x

abbrev pub creation_result : Creation → Sandbox → Result (Unit {0}) × Sandbox
creation_result created s = (ok tt, s)
creation_result (not_created there) s = (err engine_failed, s)

abbrev pub may_exist : Creation → Bool
may_exist created = true
may_exist (not_created there) = there

-- `createWorkspace`, whose name is kept before the error is looked at.
unfoldable pub create_workspace : Creation → Attempt (Unit {0})
create_workspace answer s =
    creation_result answer
      (record s { has_volume = s.has_volume || may_exist answer; tracks_volume = true })

-- `createContainer` and `addContainer`, which comes before the error is looked at.
unfoldable pub create_container : Creation → ℕ → Attempt (Unit {0})
create_container answer name s = creation_result answer (record s {
  containers = if may_exist answer then name ∷ s.containers else s.containers;
  tracked = s.tracked ++ name ∷ [];
})

-- `slices.Delete` at the first index of a name.
abbrev pub delete_first : ℕ → List ℕ → List ℕ
delete_first name [] = []
delete_first name (n ∷ names) = if n == name then names else n ∷ delete_first name names

abbrev pub without : ℕ → Sandbox → Sandbox
without name s = record s { containers = delete_rows (λ n. n == name) s.containers }

-- `removeContainer`: any error of the daemon is one.
unfoldable pub remove_container : Removal → ℕ → Attempt (Unit {0})
remove_container removed name s =
    (ok tt, record (without name s) { tracked = delete_first name s.tracked })
remove_container no_such name s = (err engine_failed, without name s)
remove_container remove_failed name s = (err engine_failed, s)

-- The loop of `cleanup`, from the last name to the first: whether a removal failed.
abbrev pub last_first : List ℕ → List ℕ
last_first [] = []
last_first (n ∷ names) = last_first names ++ n ∷ []

abbrev pub clean_one : Removal → ℕ → Sandbox → Bool × Sandbox
clean_one removed name s = (false, without name s)
clean_one no_such name s = (false, without name s)
clean_one remove_failed name s = (true, s)

unfoldable pub clean_containers : (ℕ → Removal) → List ℕ → Sandbox → Bool × Sandbox
clean_containers removal [] s = (false, s)
clean_containers removal (n ∷ names) s =
    let (failed, s') = clean_one (removal n) n s in
    let (others_failed, s'') = clean_containers removal names s' in (failed || others_failed, s'')

abbrev pub clean_volume : Removal → Sandbox → Bool × Sandbox
clean_volume removed s = (false, record s { has_volume = false })
clean_volume no_such s = (false, record s { has_volume = false })
clean_volume remove_failed s = (true, s)

-- `cleanup`: whether it failed.
unfoldable pub cleanup : (ℕ → Removal) → Removal → Sandbox → Bool × Sandbox
unfolding clean_containers
cleanup removal volume s =
    let (failed, s') = clean_containers removal (last_first s.tracked) s in
    let (volume_failed, s'') = (if s.tracks_volume then clean_volume volume s' else (false, s')) in
    (failed || volume_failed, s'')
