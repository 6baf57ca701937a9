-- ===== src/Redisx/Pairing.antt =====
-- What scripts/pop_pair.lua returns, and what it leaves in the queue.
use code_duel.Base.{
  ℕ, suc, ltb, Bytes, bytes_eq, bytes_eq→eq, true, false, Option, none, some, List, [], ◌∷◌, ◌++◌,
  ◌≡◌, refl, sym, ◌∙◌, ap, inl, inr, arith, Bool-cases, if◌then◌else◌, All, take, length,
  select_rows, All-implies, All-both, All-take, zero,
}
use code_duel.Redisx.{QueueState}
use code_duel.Redisx.Scripts.{
  is_value, user_of, unmap, holds_member, remove_member, select_first, scan_entry, scan_entries,
  pop_selected, pop_pair_script, valid_entry, is_mapped, is_present, is_ready,
}
use code_duel.Redisx.SortedSet.{Distinct, entry_sym}
use code_duel.Redisx.QueueOk.{QueueOk}
use code_duel.World.{Env}

-- A pair, or nothing where there are fewer than two.
abbrev pub pair_or_none : List (Bytes × ℕ) → List (Bytes × ℕ)
pair_or_none xs = if ltb (length xs) 2 then [] else xs

module _ (e : Env) where
  holds_member-unmap :
      (o p : Option Bytes) (raw other : Bytes) (hash : Bytes → Option Bytes)
      → bytes_eq raw other ≡ false
      → holds_member o other (unmap p raw hash) ≡ holds_member o other hash
  holds_member-unmap none p raw other hash differ = refl
  holds_member-unmap (some u) none raw other hash differ = refl
  holds_member-unmap (some u) (some v) raw other hash differ =
      elim (Bool-cases (is_value raw (hash v))) [
        | inr free ↦ rw free refl
        | inl held ↦ elim (Bool-cases (bytes_eq u v)) [
          | inr theirs ↦ rw (held, theirs) refl
          | inl same ↦ rw (held, same, bytes_eq→eq u v same) (sym (taken (hash v) held))
        ]
      ]
    where
      taken : (o : Option Bytes) → is_value raw o ≡ true → is_value other o ≡ false
      taken none h = refl
      taken (some r) h = rw (bytes_eq→eq r raw h) differ

  is_ready-remove :
      (raw : Bytes) (y : Bytes × ℕ) (q : QueueState)
      → bytes_eq raw y.0 ≡ false
      → is_ready e (remove_member e raw q) y ≡ is_ready e q y
  unfolding is_ready remove_member
  is_ready-remove raw y q differ =
      rw (holds_member-unmap (user_of e y.0) (user_of e raw) raw y.0 q.members differ) refl

  -- One round leaves the readiness of the other entries alone.
  pub is_ready-scan_entry :
      (x y : Bytes × ℕ) (selected : List (Bytes × ℕ)) (q : QueueState)
      → bytes_eq x.0 y.0 ≡ false
      → is_ready e (scan_entry e x (selected, q)).1 y ≡ is_ready e q y
  unfolding scan_entry is_ready
  is_ready-scan_entry x y selected q differ = elim (Bool-cases (valid_entry e x.0)) [
    | inr bad ↦ rw bad (is_ready-remove x.0 y q differ)
    | inl good ↦ elim (Bool-cases (is_mapped e x.0 q)) [
      | inr free ↦ rw (good, free) refl
      | inl held ↦ elim (Bool-cases (is_present e x.0 q)) [
        | inr gone ↦ rw (good, held, gone) (is_ready-remove x.0 y q differ)
        | inl here ↦ rw (good, held, here) refl
      ]
    ]
  ]

  scan_entry-selected :
      (x : Bytes × ℕ) (selected : List (Bytes × ℕ)) (q : QueueState)
      → (scan_entry e x (selected, q)).0
        ≡ (if is_ready e q x then select_first x selected else selected)
  unfolding scan_entry is_ready
  scan_entry-selected x selected q = elim (Bool-cases (valid_entry e x.0)) [
    | inr bad ↦ rw bad refl
    | inl good ↦ elim (Bool-cases (is_mapped e x.0 q)) [
      | inr free ↦ rw (good, free) refl
      | inl held ↦ elim (Bool-cases (is_present e x.0 q)) [
        | inr gone ↦ rw (good, held, gone) refl
        | inl here ↦ rw (good, held, here) refl
      ]
    ]
  ]

  many : (c : List (Bytes × ℕ)) → ltb (suc (suc (length c))) 2 ≡ false
  many c = ground arith

  take-select_first :
      (x : Bytes × ℕ) (selected rest : List (Bytes × ℕ))
      → take 2 (select_first x selected ++ rest) ≡ take 2 (selected ++ x ∷ rest)
  take-select_first x [] rest = refl
  take-select_first x (a ∷ []) rest = refl
  take-select_first x (a ∷ b ∷ c) rest = rw (many c) refl

  append_nil : (xs : List (Bytes × ℕ)) → xs ++ [] ≡ xs
  append_nil [] = refl
  append_nil (x ∷ xs) = rw (append_nil xs) refl

  abbrev FirstTwo : List (Bytes × ℕ) → Type 0
  FirstTwo xs = take 2 xs ≡ xs

  select_first-FirstTwo :
      (x : Bytes × ℕ) (selected : List (Bytes × ℕ))
      → FirstTwo selected
      → FirstTwo (select_first x selected)
  select_first-FirstTwo x [] h = refl
  select_first-FirstTwo x (a ∷ []) h = refl
  select_first-FirstTwo x (a ∷ b ∷ c) h = rw (many c) h

  scan_entries-selected :
      (entries selected : List (Bytes × ℕ)) (q start : QueueState)
      → Distinct entries
      → All (λ y. is_ready e q y ≡ is_ready e start y) entries
      → FirstTwo selected
      → (scan_entries e entries (selected, q)).0
        ≡ take 2 (selected ++ select_rows (is_ready e start) entries)
  unfolding scan_entries
  scan_entries-selected [] selected q start d same two =
      sym two ∙ ap (take 2) (sym (append_nil selected))
  scan_entries-selected (x ∷ entries) selected q start d same two =
      scan_entries-selected entries (scan_entry e x (selected, q)).0
        (scan_entry e x (selected, q)).1 start d.1 later next_two
      ∙ round
    where
      later : All (λ y. is_ready e (scan_entry e x (selected, q)).1 y ≡ is_ready e start y) entries
      later =
          All-implies _ _ entries
            (λ y both. is_ready-scan_entry x y selected q (entry_sym y.0 x.0 both.0) ∙ both.1)
            (All-both _ _ entries d.0 same.1)

      next :
          (scan_entry e x (selected, q)).0
          ≡ (if is_ready e start x then select_first x selected else selected)
      next = rw (sym same.0) (scan_entry-selected x selected q)

      next_two : FirstTwo (scan_entry e x (selected, q)).0
      next_two = rw next (elim (Bool-cases (is_ready e start x)) [
        | inl good ↦ rw good (select_first-FirstTwo x selected two)
        | inr bad ↦ rw bad two
      ])

      round :
          take 2 ((scan_entry e x (selected, q)).0 ++ select_rows (is_ready e start) entries)
          ≡ take 2 (selected ++ select_rows (is_ready e start) (x ∷ entries))
      round = rw next (elim (Bool-cases (is_ready e start x)) [
        | inl good ↦ rw good (take-select_first x selected (select_rows (is_ready e start) entries))
        | inr bad ↦ rw bad refl
      ])

  Distinct-take : (n : ℕ) (xs : List (Bytes × ℕ)) → Distinct xs → Distinct (take n xs)
  Distinct-take zero xs h = tt
  Distinct-take (suc n) [] h = tt
  Distinct-take (suc n) (x ∷ xs) h = (All-take _ n xs h.0, Distinct-take n xs h.1)

  pop_selected-reply :
      (state : List (Bytes × ℕ) × QueueState)
      → (pop_selected e state).0 ≡ (if ltb (length state.0) 2 then [] else state.0)
  pop_selected-reply (selected, q) = elim (Bool-cases (ltb (length selected) 2)) [
    | inl few ↦ rw few refl
    | inr pair ↦ rw pair refl
  ]

  -- The reply of pop_pair.lua is the first two of the first `limit` entries that are well-formed,
  -- mapped by their user and present when it starts, and nothing where fewer than two are, whatever it
  -- removes on the way; for a queue that satisfies the invariant QueueOk.
  pub pop_pair_oldest :
      (limit : ℕ) (q : QueueState)
      → QueueOk e q
      → (pop_pair_script e limit q).0
        ≡ pair_or_none (take 2 (select_rows (is_ready e q) (take limit q.ordered)))
  unfolding pop_pair_script
  pop_pair_oldest limit q h =
      pop_selected-reply (scan_entries e (take limit q.ordered) ([], q))
      ∙ ap pair_or_none (
          scan_entries-selected (take limit q.ordered) [] q q
            (Distinct-take limit q.ordered h.ordered_ok.distinct) (All-refl (take limit q.ordered))
            refl)
    where
      All-refl : (xs : List (Bytes × ℕ)) → All (λ y. is_ready e q y ≡ is_ready e q y) xs
      All-refl [] = tt
      All-refl (x ∷ xs) = (refl, All-refl xs)
