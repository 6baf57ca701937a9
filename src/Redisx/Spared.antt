-- ===== src/Redisx/Spared.antt =====
-- Whom scripts/pop_pair.lua leaves in the queue.
use code_duel.Base.{
  ℕ, ltb, Bytes, bytes_eq, bytes_eq→eq, true, false, List, [], ◌∷◌, ◌≡◌, refl, ◌∙◌, inl, inr, arith,
  Bool-cases, take, length,
}
use code_duel.Redisx.{QueueState}
use code_duel.Redisx.Scripts.{
  queued, remove_member, scan_entry, scan_entries, remove_selected, pop_selected, pop_pair_script,
  valid_entry, is_mapped, is_present, is_ready,
}
use code_duel.Redisx.SortedSet.{queued-zrem, entry_sym}
use code_duel.World.{Env}
use code_duel.Redisx.Pairing.{is_ready-scan_entry}

module _ (e : Env) where
  -- An entry that is ready and in the set.
  abbrev Waits : Bytes × ℕ → QueueState → Type 0
  Waits y q = (is_ready e q y ≡ true) × (queued y.0 q.ordered ≡ true)

  is_ready-same :
      (x y : Bytes × ℕ) (q : QueueState) → bytes_eq x.0 y.0 ≡ true → is_ready e q x ≡ is_ready e q y
  unfolding is_ready
  is_ready-same (a, s) (b, t) q h = rw (bytes_eq→eq a b h) refl

  queued-scan_entry :
      (x y : Bytes × ℕ) (selected : List (Bytes × ℕ)) (q : QueueState)
      → bytes_eq y.0 x.0 ≡ false
      → queued y.0 q.ordered ≡ true
      → queued y.0 (scan_entry e x (selected, q)).1.ordered ≡ true
  unfolding scan_entry remove_member
  queued-scan_entry x y selected q differ h = elim (Bool-cases (valid_entry e x.0)) [
    | inr bad ↦ rw bad (queued-zrem y.0 x.0 q.ordered differ h)
    | inl good ↦ elim (Bool-cases (is_mapped e x.0 q)) [
      | inr free ↦ rw (good, free) (queued-zrem y.0 x.0 q.ordered differ h)
      | inl held ↦ elim (Bool-cases (is_present e x.0 q)) [
        | inr gone ↦ rw (good, held, gone) (queued-zrem y.0 x.0 q.ordered differ h)
        | inl here ↦ rw (good, held, here) h
      ]
    ]
  ]

  scan_entry-ready :
      (x : Bytes × ℕ) (selected : List (Bytes × ℕ)) (q : QueueState)
      → is_ready e q x ≡ true
      → (scan_entry e x (selected, q)).1 ≡ q
  unfolding scan_entry is_ready
  scan_entry-ready x selected q h = ground arith

  Waits-scan_entry :
      (x y : Bytes × ℕ) (state : List (Bytes × ℕ) × QueueState)
      → Waits y state.1
      → Waits y (scan_entry e x state).1
  Waits-scan_entry x y (selected, q) h = elim (Bool-cases (bytes_eq x.0 y.0)) [
    | inr differ ↦ (
      is_ready-scan_entry e x y selected q differ ∙ h.0,
      queued-scan_entry x y selected q (entry_sym x.0 y.0 differ) h.1,
    )
    | inl same ↦ rw (scan_entry-ready x selected q (is_ready-same x y q same ∙ h.0)) h
  ]

  Waits-scan_entries :
      (entries : List (Bytes × ℕ)) (y : Bytes × ℕ) (state : List (Bytes × ℕ) × QueueState)
      → Waits y state.1
      → Waits y (scan_entries e entries state).1
  unfolding scan_entries
  Waits-scan_entries [] y state h = h
  Waits-scan_entries (x ∷ entries) y state h =
      Waits-scan_entries entries y (scan_entry e x state) (Waits-scan_entry x y state h)

  queued-remove_selected :
      (entries : List (Bytes × ℕ)) (raw : Bytes) (q : QueueState)
      → queued raw entries ≡ false
      → queued raw q.ordered ≡ true
      → queued raw (remove_selected e entries q).ordered ≡ true
  unfolding remove_selected remove_member
  queued-remove_selected [] raw q other h = h
  queued-remove_selected (x ∷ entries) raw q other h =
      queued-remove_selected entries raw (remove_member e x.0 q) (ground arith)
        (queued-zrem raw x.0 q.ordered (entry_sym x.0 raw (ground arith)) h)

  queued-pop_selected :
      (state : List (Bytes × ℕ) × QueueState) (raw : Bytes)
      → queued raw (pop_selected e state).0 ≡ false
      → queued raw state.1.ordered ≡ true
      → queued raw (pop_selected e state).1.ordered ≡ true
  queued-pop_selected (selected, q) raw other h = elim (Bool-cases (ltb (length selected) 2)) [
    | inl few ↦ rw few h
    | inr pair ↦ rw pair (queued-remove_selected selected raw q (rw pair at other) h)
  ]

  -- pop_pair.lua takes nobody out of the queue whom it does not return: an entry that is well-formed,
  -- mapped by its user, present and in the sorted set stays there unless it is in the reply.
  pub pop_pair_spares :
      (limit : ℕ) (y : Bytes × ℕ) (q : QueueState)
      → is_ready e q y ≡ true
      → queued y.0 q.ordered ≡ true
      → queued y.0 (pop_pair_script e limit q).0 ≡ false
      → queued y.0 (pop_pair_script e limit q).1.ordered ≡ true
  unfolding pop_pair_script
  pop_pair_spares limit y q ready h other =
      queued-pop_selected (scan_entries e (take limit q.ordered) ([], q)) y.0 other
        (Waits-scan_entries (take limit q.ordered) y ([], q) (ready, h)).1
