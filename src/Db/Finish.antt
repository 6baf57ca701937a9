-- ===== src/Db/Finish.antt =====
-- What the update that finishes a match leaves of the rows.
use code_duel.Base.{
  ℕ, ◌==◌, ◌≡◌, refl, ◌∙◌, ◌⊎◌, inl, inr, Bool, true, false, Bool-cases, ==→eq, Option, some, List,
  [], ◌∷◌, arith, exists_row, find_row, find_row-update_some, find_row-update_apart, update_rows,
  delete_rows,
}
use code_duel.Db.{Submission, Match, Db}
use code_duel.Db.Triggers.{finish_match, finish, is_open, match_at, claim_ends}

abbrev pub submission_at : ℕ → Db → Option Submission
submission_at id db = find_row (λ s. s.id == id) db.submissions

pub finish_match-others :
    (k id : ℕ) (winner : Option ℕ) (db : Db)
    → (k ≡ id) ⊎ (match_at k (finish_match id winner db).matches ≡ match_at k db.matches)
unfolding finish_match
finish_match-others k id winner db = elim (Bool-cases (k == id)) [
  | inl same ↦ inl (==→eq k id same)
  | inr other ↦ inr (
      find_row-update_apart (λ (m : Match). m.id == k) (is_open id) (finish winner) db.matches
        (λ m. refl) (λ m h. ground arith))
]

pub finish_match-won :
    (id : ℕ) (winner : Option ℕ) (db : Db) (m : Match)
    → match_at id db.matches ≡ some m
    → is_open id m ≡ true
    → match_at id (finish_match id winner db).matches ≡ some (finish winner m)
unfolding finish_match
finish_match-won id winner db m found free =
    find_row-update_some (λ (x : Match). x.id == id) (is_open id) (finish winner) db.matches m
      (λ x. refl) found
    ∙ rw free refl

pub finish_match-submissions :
    (id k : ℕ) (winner : Option ℕ) (db : Db)
    → submission_at k (finish_match id winner db) ≡ submission_at k db
unfolding finish_match
finish_match-submissions id k winner db = refl

-- Nothing changes where no match is open.
update_none :
    {A : Type 0} (test : A → Bool) (change : A → A) (xs : List A)
    → exists_row test xs ≡ false
    → update_rows test change xs ≡ xs
update_none test change [] h = refl
update_none test change (x ∷ xs) h = ground (arith, update_none test change xs)

delete_none :
    {A : Type 0} (test : A → Bool) (xs : List A)
    → ((x : A) → test x ≡ false)
    → delete_rows test xs ≡ xs
delete_none test [] h = refl
delete_none test (x ∷ xs) h = rw (h x, delete_none test xs h) refl

pub finish_match-none :
    (id : ℕ) (winner : Option ℕ) (db : Db)
    → exists_row (is_open id) db.matches ≡ false
    → finish_match id winner db ≡ db
unfolding finish_match
finish_match-none id winner db h =
    rw
      (
        update_none (is_open id) (finish winner) db.matches h,
        delete_none (claim_ends id db.matches) db.active_claims (λ c. ground arith),
      )
      refl
