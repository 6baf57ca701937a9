-- ===== src/Redisx/QueueOk/Given.antt =====
-- `PopPair` hands out scores that the queue has given, and keeps its invariant.
use code_duel.Base.{
  ℕ, ◌≤◌, ltb, Bytes, Option, none, some, List, [], ◌∷◌, ◌≡◌, refl, ◌∙◌, subst, some_inj, inl, inr,
  Bool-cases, All, take, length, select_rows, All-take, All-select_rows,
}
use code_duel.Redisx.{QueueState, QueueMember}
use code_duel.Redisx.Scripts.{
  is_ready, is_mapped, is_present, valid_entry, remove_member, scan_entry, scan_entries,
  remove_selected, pop_selected, pop_pair_script,
}
use code_duel.Redisx.Queue.{
  Queue, QueueEntry, on_queue, pop_pair, read_pair, checked_pair, decode_entry, decoded_entry,
  decode_member,
}
use code_duel.Redisx.QueueOk.{QueueOk}
use code_duel.Redisx.QueueOk.Popped.{pop_pair-QueueOk}
use code_duel.Redisx.Pairing.{pop_pair_oldest, pair_or_none}
use code_duel.World.{Env, World}
use code_duel.World.Ends.{Ends, then_guard, then_gets, then_call, end_pure, end_raise, weaken}
use code_duel.Redisx.QueueOk.Runs.{Serves}

abbrev pub BothFit : (QueueEntry → Type 0) → Option (QueueEntry × QueueEntry) → Type 0
BothFit Fits none = Unit
BothFit Fits (some (a, b)) = Fits a × Fits b

abbrev pub ScoredPair : ℕ → Option (QueueEntry × QueueEntry) → Type 0
ScoredPair last o = BothFit (λ x. x.score ≤ last) o

module _ (e : Env) where
  -- The scores of a reply of pop_pair.lua have been given out.
  scan_entry-last :
      (x : Bytes × ℕ) (state : List (Bytes × ℕ) × QueueState)
      → (scan_entry e x state).1.last_score ≡ state.1.last_score
  unfolding scan_entry remove_member
  scan_entry-last x (selected, q) = elim (Bool-cases (valid_entry e x.0)) [
    | inr bad ↦ rw bad refl
    | inl good ↦ elim (Bool-cases (is_mapped e x.0 q)) [
      | inr free ↦ rw (good, free) refl
      | inl held ↦ elim (Bool-cases (is_present e x.0 q)) [
        | inr gone ↦ rw (good, held, gone) refl
        | inl here ↦ rw (good, held, here) refl
      ]
    ]
  ]

  scan_entries-last :
      (xs : List (Bytes × ℕ)) (state : List (Bytes × ℕ) × QueueState)
      → (scan_entries e xs state).1.last_score ≡ state.1.last_score
  unfolding scan_entries
  scan_entries-last [] state = refl
  scan_entries-last (x ∷ xs) state =
      scan_entries-last xs (scan_entry e x state) ∙ scan_entry-last x state

  remove_selected-last :
      (xs : List (Bytes × ℕ)) (q : QueueState) → (remove_selected e xs q).last_score ≡ q.last_score
  unfolding remove_selected remove_member
  remove_selected-last [] q = refl
  remove_selected-last (x ∷ xs) q = remove_selected-last xs (remove_member e x.0 q)

  pop_selected-last :
      (state : List (Bytes × ℕ) × QueueState)
      → (pop_selected e state).1.last_score ≡ state.1.last_score
  pop_selected-last (selected, q) = elim (Bool-cases (ltb (length selected) 2)) [
    | inl few ↦ rw few refl
    | inr pair ↦ rw pair (remove_selected-last selected q)
  ]

  pop_pair-last :
      (limit : ℕ) (q : QueueState) → (pop_pair_script e limit q).1.last_score ≡ q.last_score
  unfolding pop_pair_script
  pop_pair-last limit q =
      pop_selected-last (scan_entries e (take limit q.ordered) ([], q))
      ∙ scan_entries-last (take limit q.ordered) ([], q)

  abbrev Given : ℕ → List (Bytes × ℕ) → Type 0
  Given last xs = All (λ x. x.1 ≤ last) xs

  pair_or_none-Given :
      (last : ℕ) (xs : List (Bytes × ℕ)) → Given last xs → Given last (pair_or_none xs)
  pair_or_none-Given last xs h = elim (Bool-cases (ltb (length xs) 2)) [
    | inl few ↦ rw few tt
    | inr pair ↦ rw pair h
  ]

  pop_pair-Given :
      (limit : ℕ) (q : QueueState) → QueueOk e q → Given q.last_score (pop_pair_script e limit q).0
  pop_pair-Given limit q h = rw (pop_pair_oldest e limit q h) (
      pair_or_none-Given q.last_score (take 2 (select_rows (is_ready e q) (take limit q.ordered))) (
        All-take _ 2 (select_rows (is_ready e q) (take limit q.ordered)) (
          All-select_rows _ (is_ready e q) (take limit q.ordered)
            (All-take _ limit q.ordered h.ordered_ok.bounded))))

  decode_entry-Scored :
      (last : ℕ) (x : Bytes × ℕ) (entry : QueueEntry)
      → x.1 ≤ last
      → decode_entry e x ≡ some entry
      → entry.score ≤ last
  decode_entry-Scored last (raw, score) entry small h = go (decode_member e raw) h
    where
      go : (o : Option QueueMember) → decoded_entry raw score o ≡ some entry → entry.score ≤ last
      go none h = cc
      go (some m) h = subst (λ (x : QueueEntry). x.score ≤ last) (some_inj _ _ h) small

  read_pair-Scored :
      (last : ℕ) (reply : List (Bytes × ℕ)) (w : World)
      → Given last reply
      → Ends (read_pair e reply) w (λ o v. (v ≡ w) × ScoredPair last o) (λ _ v. v ≡ w)
  unfolding read_pair
  read_pair-Scored last [] w h = end_pure none w (refl, tt)
  read_pair-Scored last (x ∷ []) w h = end_raise _ w refl
  read_pair-Scored last (x ∷ y ∷ z ∷ rest) w h = end_raise _ w refl
  read_pair-Scored last (x ∷ y ∷ []) w h =
      both (decode_entry e x) (decode_entry e y) (λ a. decode_entry-Scored last x a h.0)
        (λ b. decode_entry-Scored last y b h.1.0)
    where
      both :
          (a b : Option QueueEntry)
          → ((v : QueueEntry) → a ≡ some v → v.score ≤ last)
          → ((v : QueueEntry) → b ≡ some v → v.score ≤ last)
          → Ends (checked_pair a b) w (λ o v. (v ≡ w) × ScoredPair last o) (λ _ v. v ≡ w)
      both none b ha hb = end_raise _ w refl
      both (some a) none ha hb = end_raise _ w refl
      both (some a) (some b) ha hb =
          then_guard _ _ _ w (λ _. end_pure _ w (refl, (ha a refl, hb b refl))) (λ _. refl)

  pub pop_pair-QueueAt :
      (last : ℕ) (queue : Queue) (w : World)
      → Serves e last w
      → Ends
          (pop_pair e queue)
          w
          (λ o v. Serves e last v × ScoredPair last o)
          (λ _ v. Serves e last v)
  unfolding pop_pair
  pop_pair-QueueAt last queue w h =
      then_guard _ _ _ w
        (λ _. then_gets _ _ w (
          then_call e _ _ _ w
            (λ _.
              weaken _ _ (read_pair-Scored last _ _ given) (λ o v k. (rw k.0 popped, k.1))
                (λ x v k. rw k popped))
            (λ _. h) (λ _. popped)))
        (λ _. h)
    where
      popped : Serves e last (on_queue (λ q. (pop_pair_script e queue.scan_limit q).1) w)
      popped = record {
        queue_ok = pop_pair-QueueOk e queue.scan_limit w.queue h.queue_ok;
        last_ok = pop_pair-last queue.scan_limit w.queue ∙ h.last_ok;
      }

      given : Given last (pop_pair_script e queue.scan_limit w.queue).0
      given =
          subst (λ n. Given n (pop_pair_script e queue.scan_limit w.queue).0) h.last_ok
            (pop_pair-Given queue.scan_limit w.queue h.queue_ok)
