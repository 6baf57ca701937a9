-- ===== src/Redisx/Delivery.antt =====
-- What the judge stream keeps: a job survives its encoding, and a finalized entry is gone.
use code_duel.Base.{
  ℕ, ◌==◌, ==→eq, ◌≡◌, refl, ◌≢◌, inl, inr, bytes_eq, Bool, true, false, Bool-cases, none, some,
  List, [], ◌∷◌, if◌then◌else◌, exists_row, delete_rows, arith,
}
use code_duel.World.{Env, World, ok}
use code_duel.World.Ends.{Ends, Ends-ok, then_guard, then_gets, then_call, end_guard}
use code_duel.Redisx.{StreamEntry, PendingEntry, Stream}
use code_duel.Redisx.JudgeQueue.{
  decode_judge_job, job_fields, has_entry, entry_exists, acknowledged, finalize, finalize_effect,
  finalize_reply,
}

-- A submission's identifier survives its way through the stream, where it is not 0 and the uuid
-- library parses what it prints for it: the fields that Enqueue appends decode to a job for the
-- same submission.
pub job_round_trip :
    (e : Env) (entry id : ℕ)
    → e.parse_uuid (e.show_uuid id) ≡ some id
    → id ≢ 0
    → decode_judge_job e (record { entry_id = entry; fields = job_fields e id })
      ≡ record { entry_id = entry; submission_id = id; decode_err = none }
unfolding decode_judge_job bytes_eq
job_round_trip e entry id parses real = rw (parses, not_nil) refl
  where
    not_nil : (id == 0) ≡ false
    not_nil = ground arith

-- After a row is deleted, no row has its key.
gone :
    {A : Type 0} (key : A → ℕ) (id : ℕ) (rows : List A)
    → exists_row (λ r. key r == id) (delete_rows (λ r. key r == id) rows) ≡ false
gone key id [] = refl
gone key id (r ∷ rows) = elim (Bool-cases (key r == id)) [
  | inl hit ↦ rw hit (gone key id rows)
  | inr miss ↦ rw (miss, miss) (gone key id rows)
]

removed :
    (id : ℕ) (s : Stream)
    → finalize_reply id s ≡ 1
    → (acknowledged id (finalize_effect id s) ≡ false)
      × (entry_exists id (finalize_effect id s) ≡ false)
unfolding finalize_reply finalize_effect
removed id s h = elim (Bool-cases (acknowledged id s)) [
  | inl held ↦ rw held (
    gone (λ (p : PendingEntry). p.entry_id) id s.pending,
    gone (λ (entry : StreamEntry). entry.entry_id) id s.entries,
  )
  | inr free ↦ rw free (free, absent (entry_exists id s) (rw free at h))
]
  where
    absent : (b : Bool) → ◌≡◌ {A = ℕ} (if b then 0 else 1) 1 → b ≡ false
    absent true h = ground arith
    absent false h = refl

-- An entry whose finalization succeeds is pending for no consumer and no longer in the stream.
pub finalize_removes :
    (e : Env) (id : ℕ) (w : World)
    → (finalize e id w).0 ≡ ok tt
    → (has_entry (finalize e id w).1.jobs.pending id ≡ false)
      × (entry_exists id (finalize e id w).1.jobs ≡ false)
unfolding finalize
finalize_removes e id w h = Ends-ok (finalize e id) w tt run h
  where
    Gone : World → Type 0
    Gone v = (has_entry v.jobs.pending id ≡ false) × (entry_exists id v.jobs ≡ false)

    run : Ends (finalize e id) w (λ _ v. Gone v) (λ _ _. Unit {0})
    run =
        then_guard _ _ _ w
          (λ _. then_gets _ _ w (
            then_call e _ _ _ w
              (λ _. end_guard _ _ _ (λ one. removed id w.jobs (==→eq _ _ one)) (λ _. tt)) (λ _. tt)
              (λ _. tt)))
          (λ _. tt)

-- Where finalizing an entry answers 1, finalizing it again answers 1 and changes nothing: a consumer
-- that lost an answer may retry.
pub finalize_again :
    (id : ℕ) (s : Stream)
    → finalize_reply id s ≡ 1
    → (finalize_reply id (finalize_effect id s) ≡ 1)
      × (finalize_effect id (finalize_effect id s) ≡ finalize_effect id s)
unfolding finalize_reply finalize_effect
finalize_again id s h = again (finalize_effect id s) (removed id s h)
  where
    again :
        (t : Stream)
        → (acknowledged id t ≡ false) × (entry_exists id t ≡ false)
        → (finalize_reply id t ≡ 1) × (finalize_effect id t ≡ t)
    again t (free, absent) = (rw (free, absent) refl, rw free refl)
