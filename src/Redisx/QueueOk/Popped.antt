-- ===== src/Redisx/QueueOk/Popped.antt =====
-- scripts/pop_pair.lua keeps the invariant of the queue.
use code_duel.Base.{
  ℕ, ltb, length, Bytes, bytes_eq, bytes_eq→eq, bytes_eq_refl, true, false, Option, none, some,
  List, [], ◌∷◌, ◌≡◌, sym, inl, inr, Bool-cases, some_inj, take,
}
use code_duel.Redisx.{QueueState}
use code_duel.Redisx.Scripts.{
  zrem, is_value, user_of, unmap, remove_member, scan_entry, scan_entries, holds_member,
  remove_selected, pop_selected, pop_pair_script, valid_entry, is_mapped, is_present,
}
use code_duel.Redisx.SortedSet.{ZsetOk-zrem, queued-zrem}
use code_duel.World.{Env}
use code_duel.Redisx.QueueOk.{QueueOk}

module _ (e : Env) where
  -- Removing a member takes the one user away that maps to it.
  pub not_raw :
      (raw : Bytes) (hash : Bytes → Option Bytes) (u r : Bytes)
      → hash u ≡ some r
      → ¬ (hash u ≡ some raw)
      → bytes_eq r raw ≡ false
  not_raw raw hash u r maps free = elim (Bool-cases (bytes_eq r raw)) [
    | inl same ↦ absurd (free (rw (sym (bytes_eq→eq r raw same)) maps))
    | inr other ↦ other
  ]

  unmap-none :
      (raw u r : Bytes) (hash : Bytes → Option Bytes)
      → (hash u ≡ some raw → none ≡ some u)
      → hash u ≡ some raw
      → ⊥
  unmap-none raw u r hash own maps = let no_user = own maps in cc

  hdel_self :
      (raw u v : Bytes) (hash : Bytes → Option Bytes)
      → (hash u ≡ some raw → some v ≡ some u)
      → bytes_eq u v ≡ false
      → hash u ≡ some raw
      → ⊥
  hdel_self raw u v hash own other maps = clash (some_inj v u (own maps)) (bytes_eq_refl u)
    where
      clash : v ≡ u → bytes_eq u u ≡ true → ⊥
      clash eq same = cc

  kept_self :
      (raw u v : Bytes) (hash : Bytes → Option Bytes)
      → (hash u ≡ some raw → some v ≡ some u)
      → is_value raw (hash v) ≡ false
      → hash u ≡ some raw
      → ⊥
  kept_self raw u v hash own free maps =
      clash (rw (some_inj v u (own maps), maps) at free) (bytes_eq_refl raw)
    where
      clash : bytes_eq raw raw ≡ false → bytes_eq raw raw ≡ true → ⊥
      clash a b = cc

  unmapped :
      (raw : Bytes) (hash : Bytes → Option Bytes) (o : Option Bytes) (u r : Bytes)
      → (hash u ≡ some raw → o ≡ some u)
      → unmap o raw hash u ≡ some r
      → (hash u ≡ some r) × (bytes_eq r raw ≡ false)
  unmapped raw hash none u r own maps =
      (maps, not_raw raw hash u r maps (unmap-none raw u r hash own))
  unmapped raw hash (some v) u r own maps = elim (Bool-cases (is_value raw (hash v))) [
    | inl held ↦ elim (Bool-cases (bytes_eq u v)) [
      | inl same ↦ gone (rw (held, same) at maps)
      | inr other ↦
          let theirs : hash u ≡ some r = rw (held, other) at maps in
          (theirs, not_raw raw hash u r theirs (hdel_self raw u v hash own other))
    ]
    | inr free ↦
        let theirs : hash u ≡ some r = rw free at maps in
        (theirs, not_raw raw hash u r theirs (kept_self raw u v hash own free))
  ]
    where
      gone : none ≡ some r → (hash u ≡ some r) × (bytes_eq r raw ≡ false)
      gone eq = cc

  pub remove_member-QueueOk :
      (raw : Bytes) (q : QueueState) → QueueOk e q → QueueOk e (remove_member e raw q)
  unfolding remove_member
  remove_member-QueueOk raw q h = record {
    ordered_ok = ZsetOk-zrem q.last_score raw q.ordered h.ordered_ok;
    mapped_ok = λ u r maps.
        (let (theirs, other) =
            unmapped raw q.members (user_of e raw) u r (λ m. (h.mapped_ok u raw m).0) maps in
          (
            (h.mapped_ok u r theirs).0,
            queued-zrem r raw q.ordered other (h.mapped_ok u r theirs).1,
          ));
  }

  holds_member-some :
      (raw u : Bytes) (o : Option Bytes) (q : QueueState)
      → o ≡ some u
      → q.members u ≡ some raw
      → holds_member o raw q.members ≡ true
  holds_member-some raw u none q own maps = cc
  holds_member-some raw u (some v) q own maps = rw (some_inj v u own, maps) (bytes_eq_refl raw)

  drop-QueueOk :
      (raw : Bytes) (q : QueueState)
      → is_mapped e raw q ≡ false
      → QueueOk e q
      → QueueOk e (record q { ordered = zrem raw q.ordered })
  drop-QueueOk raw q free h = record {
    ordered_ok = ZsetOk-zrem q.last_score raw q.ordered h.ordered_ok;
    mapped_ok = λ u r theirs. (
      (h.mapped_ok u r theirs).0,
      queued-zrem r raw q.ordered (not_raw raw q.members u r theirs (λ maps. clash u maps))
          (h.mapped_ok u r theirs).1,
    );
  }
    where
      clash : (u : Bytes) → q.members u ≡ some raw → ⊥
      clash u maps =
          let held = holds_member-some raw u (user_of e raw) q (h.mapped_ok u raw maps).0 maps in cc

  scan_entry-QueueOk :
      (entry : Bytes × ℕ) (state : List (Bytes × ℕ) × QueueState)
      → QueueOk e state.1
      → QueueOk e (scan_entry e entry state).1
  unfolding scan_entry
  scan_entry-QueueOk entry (selected, q) h = elim (Bool-cases (valid_entry e entry.0)) [
    | inr bad ↦ rw bad (remove_member-QueueOk entry.0 q h)
    | inl good ↦ elim (Bool-cases (is_mapped e entry.0 q)) [
      | inr free ↦ rw (good, free) (drop-QueueOk entry.0 q free h)
      | inl held ↦ elim (Bool-cases (is_present e entry.0 q)) [
        | inr gone ↦ rw (good, held, gone) (remove_member-QueueOk entry.0 q h)
        | inl here ↦ rw (good, held, here) h
      ]
    ]
  ]

  scan_entries-QueueOk :
      (entries : List (Bytes × ℕ)) (state : List (Bytes × ℕ) × QueueState)
      → QueueOk e state.1
      → QueueOk e (scan_entries e entries state).1
  unfolding scan_entries
  scan_entries-QueueOk [] state h = h
  scan_entries-QueueOk (entry ∷ entries) state h =
      scan_entries-QueueOk entries (scan_entry e entry state) (scan_entry-QueueOk entry state h)

  remove_selected-QueueOk :
      (entries : List (Bytes × ℕ)) (q : QueueState)
      → QueueOk e q
      → QueueOk e (remove_selected e entries q)
  unfolding remove_selected
  remove_selected-QueueOk [] q h = h
  remove_selected-QueueOk (entry ∷ entries) q h =
      remove_selected-QueueOk entries (remove_member e entry.0 q)
        (remove_member-QueueOk entry.0 q h)

  pop_selected-QueueOk :
      (state : List (Bytes × ℕ) × QueueState)
      → QueueOk e state.1
      → QueueOk e (pop_selected e state).1
  pop_selected-QueueOk (selected, q) h = elim (Bool-cases (ltb (length selected) 2)) [
    | inl few ↦ rw few h
    | inr pair ↦ rw pair (remove_selected-QueueOk selected q h)
  ]

  pub pop_pair-QueueOk :
      (limit : ℕ) (q : QueueState) → QueueOk e q → QueueOk e (pop_pair_script e limit q).1
  unfolding pop_pair_script
  pop_pair-QueueOk limit q h =
      pop_selected-QueueOk (scan_entries e (take limit q.ordered) ([], q))
        (scan_entries-QueueOk (take limit q.ordered) ([], q) h)
