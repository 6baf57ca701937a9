-- ===== src/Judge/Sandbox/Tracked.antt =====
-- What an attempt has on the host is what it keeps track of, so its cleanup finds all of it.
use code_duel.Base.{
  ℕ, ◌==◌, eq→==, Bool, true, false, ◌||◌, List, [], ◌∷◌, ◌++◌, ◌≡◌, refl, arith, if◌then◌else◌,
  All, All-implies, All-delete_met, All-delete_rows, exists_row, exists_row-append, exists_row_last,
  exists_row_left, delete_rows, ◌∙◌,
}
use code_duel.World.{Error, Result, ok, err}
use code_duel.Judge.Sandbox.{
  Sandbox, Creation, created, not_created, Removal, removed, no_such, remove_failed, Attempt,
  return, abort, proceed, ◌>>=◌, check, create_workspace, create_container, remove_container,
  delete_first, last_first, clean_one, clean_containers, clean_volume, cleanup, without, may_exist,
  creation_result,
}

abbrev pub named : ℕ → List ℕ → Bool
named n names = exists_row (λ m. m == n) names

-- Every container and the volume of the attempt are tracked.
pub record TracksAll (s : Sandbox) : Type 0 where
  pub containers_tracked : All (λ n. named n s.tracked ≡ true) s.containers
  pub volume_tracked : s.has_volume ≡ true → s.tracks_volume ≡ true

pub record Stays {A : Type 0} (P : Sandbox → Type 0) (m : Attempt A) : Type 0 where
  pub at : (s : Sandbox) → P s → P (m s).1

module _ {P : Sandbox → Type 0} where
  pub return-Stays : {A : Type 0} (a : A) → Stays P (return a)
  unfolding return
  return-Stays a = record { at = λ s h. h }

  pub abort-Stays : {A : Type 0} (x : Error) → Stays P (abort {A = A} x)
  unfolding abort
  abort-Stays x = record { at = λ s h. h }

  pub check-Stays : (b : Bool) (x : Error) → Stays P (check b x)
  unfolding check
  check-Stays true x = record { at = λ s h. h }
  check-Stays false x = record { at = λ s h. h }

  pub bind-Stays :
      {A B : Type 0} (m : Attempt A) (k : A → Attempt B)
      → Stays P m
      → ((a : A) → Stays P (k a))
      → Stays P (m >>= k)
  unfolding ◌>>=◌
  bind-Stays m k hm hk = record { at = λ s h. go (m s).0 (m s).1 (hm.at s h) }
    where
      go : (r : Result _) (s : Sandbox) → P s → P (proceed r k s).1
      go (ok a) s h = (hk a).at s h
      go (err x) s h = h

creation_result-state : (c : Creation) (s : Sandbox) → (creation_result c s).1 ≡ s
creation_result-state created s = refl
creation_result-state (not_created there) s = refl

pub create_workspace-TracksAll : (c : Creation) → Stays TracksAll (create_workspace c)
unfolding create_workspace
create_workspace-TracksAll c = record {
  at = λ s h.
      rw (creation_result-state c _)
        (record { containers_tracked = h.containers_tracked; volume_tracked = λ _. refl });
}

pub create_container-TracksAll :
    (c : Creation) (name : ℕ) → Stays TracksAll (create_container c name)
unfolding create_container
create_container-TracksAll c name = record {
  at = λ s h. rw (creation_result-state c _) (record {
    containers_tracked = tracked s (may_exist c) h.containers_tracked;
    volume_tracked = h.volume_tracked;
  });
}
  where
    more :
        (s : Sandbox)
        → All (λ n. named n s.tracked ≡ true) s.containers
        → All (λ n. named n (s.tracked ++ name ∷ []) ≡ true) s.containers
    more s h =
        All-implies _ _ s.containers
          (λ n there. exists_row_left (λ m. m == n) s.tracked (name ∷ []) there) h

    tracked :
        (s : Sandbox) (there : Bool)
        → All (λ n. named n s.tracked ≡ true) s.containers
        → All
            (λ n. named n (s.tracked ++ name ∷ []) ≡ true)
            (if there then name ∷ s.containers else s.containers)
    tracked s true h =
        (exists_row_last (λ m. m == name) s.tracked name (eq→== name name refl), more s h)
    tracked s false h = more s h

named-delete_first :
    (n name : ℕ) (names : List ℕ)
    → (n == name) ≡ false
    → named n names ≡ true
    → named n (delete_first name names) ≡ true
named-delete_first n name [] differ h = h
named-delete_first n name (m ∷ names) differ h =
    ground (arith, named-delete_first n name names differ)

pub remove_container-TracksAll :
    (r : Removal) (name : ℕ) → Stays TracksAll (remove_container r name)
unfolding remove_container
remove_container-TracksAll removed name = record {
  at = λ s h. record {
    containers_tracked =
        All-delete_met _ _ (λ n. n == name) s.containers
          (λ n there differ. named-delete_first n name s.tracked differ there) h.containers_tracked;
    volume_tracked = h.volume_tracked;
  };
}
remove_container-TracksAll no_such name = record {
  at = λ s h. record {
    containers_tracked = All-delete_rows _ (λ n. n == name) s.containers h.containers_tracked;
    volume_tracked = h.volume_tracked;
  };
}
remove_container-TracksAll remove_failed name = record { at = λ s h. h }

named-last_first :
    (n : ℕ) (names : List ℕ) → named n names ≡ true → named n (last_first names) ≡ true
named-last_first n [] h = h
named-last_first n (m ∷ names) h =
    ground
      (arith, named-last_first n names, exists_row-append (λ k. k == n) (last_first names) (m ∷ []))

-- No container is left, and the volume is as it was.
abbrev Emptied : Sandbox → Bool × Sandbox → Type 0
Emptied s out =
    (out.1.containers ≡ [])
    × (out.1.has_volume ≡ s.has_volume)
    × (out.1.tracks_volume ≡ s.tracks_volume)

-- The loop of the cleanup leaves no container that it has been given.
clean_containers-none :
    (removal : ℕ → Removal) (names : List ℕ) (s : Sandbox)
    → (clean_containers removal names s).0 ≡ false
    → All (λ n. named n names ≡ true) s.containers
    → Emptied s (clean_containers removal names s)
unfolding clean_containers
clean_containers-none removal [] s h there = (nothing s.containers there, refl, refl)
  where
    nothing : (xs : List ℕ) → All (λ n. false ≡ true) xs → xs ≡ []
    nothing [] h = refl
    nothing (x ∷ xs) h = cc
clean_containers-none removal (n ∷ names) s h there =
    go (removal n) (λ t. clean_containers-none removal names t) h
  where
    rest : All (λ m. named m names ≡ true) (delete_rows (λ m. m == n) s.containers)
    rest = All-delete_met _ _ (λ m. m == n) s.containers (λ m in_all differ. ground arith) there

    go :
        (r : Removal)
        → ((t : Sandbox)
            → (clean_containers removal names t).0 ≡ false
            → All (λ m. named m names ≡ true) t.containers
            → Emptied t (clean_containers removal names t))
        → ((clean_one r n s).0 || (clean_containers removal names (clean_one r n s).1).0) ≡ false
        → Emptied s (clean_containers removal names (clean_one r n s).1)
    go removed later h = later (without n s) h rest
    go no_such later h = later (without n s) h rest
    go remove_failed later h = cc

-- A cleanup that does not fail leaves nothing of what is tracked.
pub cleanup-none :
    (removal : ℕ → Removal) (volume : Removal) (s : Sandbox)
    → TracksAll s
    → (cleanup removal volume s).0 ≡ false
    → ((cleanup removal volume s).1.containers ≡ [])
      × ((cleanup removal volume s).1.has_volume ≡ false)
unfolding cleanup
cleanup-none removal volume s h done =
    go s.tracks_volume (clean_containers removal (last_first s.tracked) s).0
      (clean_containers removal (last_first s.tracked) s).1
      (λ ended.
        clean_containers-none removal (last_first s.tracked) s ended
          (All-implies _ _ s.containers (λ n. named-last_first n s.tracked) h.containers_tracked))
      h.volume_tracked done
  where
    untracked : (b : Bool) → (b ≡ true → false ≡ true) → b ≡ false
    untracked false h = refl
    untracked true h = let k = h refl in cc

    volume_gone :
        (v : Removal) (failed : Bool) (t : Sandbox)
        → (failed ≡ false → Emptied s (failed, t))
        → (failed || (clean_volume v t).0) ≡ false
        → ((clean_volume v t).1.containers ≡ []) × ((clean_volume v t).1.has_volume ≡ false)
    volume_gone removed failed t emptied e = ((emptied (ground arith)).0, refl)
    volume_gone no_such failed t emptied e = ((emptied (ground arith)).0, refl)
    volume_gone remove_failed failed t emptied e = absurd (never failed e)
      where
        never : (b : Bool) → (b || true) ≡ false → ⊥
        never true h = cc
        never false h = cc

    go :
        (tracks failed : Bool) (t : Sandbox)
        → (failed ≡ false → Emptied s (failed, t))
        → (s.has_volume ≡ true → tracks ≡ true)
        → (failed || (if tracks then clean_volume volume t else (false, t)).0) ≡ false
        → ((if tracks then clean_volume volume t else (false, t)).1.containers ≡ [])
          × ((if tracks then clean_volume volume t else (false, t)).1.has_volume ≡ false)
    go true failed t emptied kept e = volume_gone volume failed t emptied e
    go false failed t emptied kept e =
        let all = emptied (ground arith) in (all.0, all.1 ∙ untracked s.has_volume kept)
