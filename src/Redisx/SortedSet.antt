-- ===== src/Redisx/SortedSet.antt =====
-- The sorted set of internal/redisx/scripts: its order, its distinct members and its bound are kept
-- by ZREM and ZADD.
use native.Mathlib.Nat.{le_trans}
use code_duel.Base.{
  ℕ, ◌≤◌, ◌<◌, Bytes, bytes_eq, bytes_eq→eq, bytes_eq_refl, Bool, true, false, ◌||◌, List, [], ◌∷◌,
  ◌++◌, ◌≡◌, refl, inl, inr, arith, Bool-cases, All, All-implies, All-delete_rows, All-insert_by,
  exists_row, exists_row-delete_rows, delete_rows, insert_by,
}
use code_duel.Redisx.Scripts.{is_entry, queued, zrem, zadd, entry_before}

abbrev pub Sorted : List (Bytes × ℕ) → Type 0
Sorted [] = Unit
Sorted (x ∷ xs) = All (λ y. x.1 ≤ y.1) xs × Sorted xs

abbrev pub Distinct : List (Bytes × ℕ) → Type 0
Distinct [] = Unit
Distinct (x ∷ xs) = All (λ y. is_entry x.0 y ≡ false) xs × Distinct xs

-- Scores up to a bound, in order, of distinct members.
pub record ZsetOk (bound : ℕ) (xs : List (Bytes × ℕ)) : Type 0 where
  pub sorted : Sorted xs
  pub distinct : Distinct xs
  pub bounded : All (λ x. x.1 ≤ bound) xs

Sorted-delete_rows :
    (del : Bytes × ℕ → Bool) (xs : List (Bytes × ℕ)) → Sorted xs → Sorted (delete_rows del xs)
Sorted-delete_rows del [] h = tt
Sorted-delete_rows del (x ∷ xs) h = elim (Bool-cases (del x)) [
  | inl gone ↦ rw gone (Sorted-delete_rows del xs h.1)
  | inr kept ↦ rw kept (All-delete_rows _ del xs h.0, Sorted-delete_rows del xs h.1)
]

Distinct-delete_rows :
    (del : Bytes × ℕ → Bool) (xs : List (Bytes × ℕ)) → Distinct xs → Distinct (delete_rows del xs)
Distinct-delete_rows del [] h = tt
Distinct-delete_rows del (x ∷ xs) h = elim (Bool-cases (del x)) [
  | inl gone ↦ rw gone (Distinct-delete_rows del xs h.1)
  | inr kept ↦ rw kept (All-delete_rows _ del xs h.0, Distinct-delete_rows del xs h.1)
]

pub ZsetOk-zrem :
    (bound : ℕ) (raw : Bytes) (xs : List (Bytes × ℕ)) → ZsetOk bound xs → ZsetOk bound (zrem raw xs)
ZsetOk-zrem bound raw xs h = record {
  sorted = Sorted-delete_rows (is_entry raw) xs h.sorted;
  distinct = Distinct-delete_rows (is_entry raw) xs h.distinct;
  bounded = All-delete_rows _ (is_entry raw) xs h.bounded;
}

before-le : (x y : Bytes × ℕ) → entry_before y x ≡ true → y.1 ≤ x.1
before-le x y h = ground arith

before-ge : (x y : Bytes × ℕ) → entry_before y x ≡ false → x.1 ≤ y.1
before-ge x y h = ground arith

Sorted-insert_by :
    (x : Bytes × ℕ) (ys : List (Bytes × ℕ)) → Sorted ys → Sorted (insert_by entry_before x ys)
Sorted-insert_by x [] h = (tt, tt)
Sorted-insert_by x (y ∷ ys) h = elim (Bool-cases (entry_before y x)) [
  | inl first ↦
      rw first
        (All-insert_by _ entry_before x ys (before-le x y first) h.0, Sorted-insert_by x ys h.1)
  | inr later ↦
      rw later
        ((before-ge x y later, All-implies _ _ ys (λ z. le_trans (before-ge x y later)) h.0), h)
]

pub entry_sym : (a b : Bytes) → bytes_eq a b ≡ false → bytes_eq b a ≡ false
entry_sym a b h = elim (Bool-cases (bytes_eq b a)) [
  | inl same ↦ clash (bytes_eq→eq b a same) (bytes_eq_refl a)
  | inr other ↦ other
]
  where
    clash : b ≡ a → bytes_eq a a ≡ true → bytes_eq b a ≡ false
    clash eq same = cc

Distinct-insert_by :
    (x : Bytes × ℕ) (ys : List (Bytes × ℕ))
    → All (λ y. is_entry x.0 y ≡ false) ys
    → Distinct ys
    → Distinct (insert_by entry_before x ys)
Distinct-insert_by x [] new h = (tt, tt)
Distinct-insert_by x (y ∷ ys) new h = elim (Bool-cases (entry_before y x)) [
  | inl first ↦ rw first (
    All-insert_by _ entry_before x ys (entry_sym y.0 x.0 new.0) h.0,
    Distinct-insert_by x ys new.1 h.1,
  )
  | inr later ↦ rw later (new, h)
]

pub zrem-gone :
    (raw : Bytes) (xs : List (Bytes × ℕ)) → All (λ y. is_entry raw y ≡ false) (zrem raw xs)
zrem-gone raw [] = tt
zrem-gone raw (x ∷ xs) = elim (Bool-cases (is_entry raw x)) [
  | inl hit ↦ rw hit (zrem-gone raw xs)
  | inr miss ↦ rw miss (miss, zrem-gone raw xs)
]

pub ZsetOk-zadd :
    (bound : ℕ) (raw : Bytes) (score : ℕ) (xs : List (Bytes × ℕ))
    → score ≤ bound
    → ZsetOk bound xs
    → ZsetOk bound (zadd raw score xs)
ZsetOk-zadd bound raw score xs small h =
    let rest = ZsetOk-zrem bound raw xs h in
    record {
      sorted = Sorted-insert_by (raw, score) (zrem raw xs) rest.sorted;
      distinct = Distinct-insert_by (raw, score) (zrem raw xs) (zrem-gone raw xs) rest.distinct;
      bounded = All-insert_by _ entry_before (raw, score) (zrem raw xs) small rest.bounded;
    }

pub ZsetOk-weaken :
    (small large : ℕ) (xs : List (Bytes × ℕ)) → small ≤ large → ZsetOk small xs → ZsetOk large xs
ZsetOk-weaken small large xs le h = record {
  sorted = h.sorted;
  distinct = h.distinct;
  bounded = All-implies _ _ xs (λ x below. le_trans below le) h.bounded;
}

-- Members that stay.
pub queued-zrem :
    (raw other : Bytes) (xs : List (Bytes × ℕ))
    → bytes_eq raw other ≡ false
    → queued raw xs ≡ true
    → queued raw (zrem other xs) ≡ true
queued-zrem raw other xs differ h =
    exists_row-delete_rows (is_entry raw) (is_entry other) xs
      (λ x hit. rw (bytes_eq→eq x.0 raw hit) differ) h

exists_row-insert_by :
    (test : Bytes × ℕ → Bool) (x : Bytes × ℕ) (ys : List (Bytes × ℕ))
    → exists_row test (insert_by entry_before x ys) ≡ (test x || exists_row test ys)
exists_row-insert_by test x [] = refl
exists_row-insert_by test x (y ∷ ys) = elim (Bool-cases (entry_before y x)) [
  | inl first ↦
      rw (first, exists_row-insert_by test x ys) (swap (test x) (test y) (exists_row test ys))
  | inr later ↦ rw later refl
]
  where
    swap : (a b c : Bool) → (b || (a || c)) ≡ (a || (b || c))
    swap a b c = ground arith

pub queued-zadd :
    (raw : Bytes) (score : ℕ) (xs : List (Bytes × ℕ)) → queued raw (zadd raw score xs) ≡ true
queued-zadd raw score xs =
    rw (exists_row-insert_by (is_entry raw) (raw, score) (zrem raw xs), bytes_eq_refl raw) refl

pub queued-zadd_other :
    (raw other : Bytes) (score : ℕ) (xs : List (Bytes × ℕ))
    → queued raw xs ≡ true
    → queued raw (zadd other score xs) ≡ true
queued-zadd_other raw other score xs h = elim (Bool-cases (bytes_eq raw other)) [
  | inl same ↦ rw (bytes_eq→eq raw other same) (queued-zadd other score xs)
  | inr differ ↦
      rw (exists_row-insert_by (is_entry raw) (other, score) (zrem other xs))
        (ground (arith, queued-zrem raw other xs differ h))
]

-- A score above all others is added at the end.
zadd-last :
    (x : Bytes × ℕ) (bound : ℕ) (ys : List (Bytes × ℕ))
    → All (λ y. y.1 ≤ bound) ys
    → bound < x.1
    → insert_by entry_before x ys ≡ ys ++ x ∷ []
zadd-last x bound [] h large = refl
zadd-last x bound (y ∷ ys) h large = rw (first, zadd-last x bound ys h.1 large) refl
  where
    below : y.1 ≤ bound
    below = h.0

    first : entry_before y x ≡ true
    first = ground arith

zrem-absent : (raw : Bytes) (xs : List (Bytes × ℕ)) → queued raw xs ≡ false → zrem raw xs ≡ xs
zrem-absent raw [] h = refl
zrem-absent raw (x ∷ xs) h = ground (arith, zrem-absent raw xs)

pub zadd-append :
    (raw : Bytes) (score bound : ℕ) (xs : List (Bytes × ℕ))
    → ZsetOk bound xs
    → bound < score
    → queued raw xs ≡ false
    → zadd raw score xs ≡ xs ++ (raw, score) ∷ []
zadd-append raw score bound xs h large new =
    rw (zrem-absent raw xs new) (zadd-last (raw, score) bound xs h.bounded large)
