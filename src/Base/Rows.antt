-- ===== src/Base/Rows.antt =====
-- Tables as lists of rows: the row operations that the SQL statements are built from.
use Prim.Native.Nat.{ℕ, zero, suc}
use mathlib.Core.Path.{◌≡◌, refl, subst}
use mathlib.Core.Logic.{inl, inr}
use mathlib.Core.Bool.{Bool, true, false, ◌||◌}
use mathlib.Core.Option
use mathlib.Core.Option.{Option, none, some}
use mathlib.Core.List.{List, [], ◌∷◌, ◌++◌}
use native.Mathlib.Omega.{arith}
use code_duel.Base.Tests.{if◌then◌else◌, Bool-cases}

module _ {ℓ} {A : Type ℓ} where
  abbrev pub length : List A → ℕ
  length [] = 0
  length (x ∷ xs) = suc (length xs)

  abbrev pub take : ℕ → List A → List A
  take zero xs = []
  take (suc n) [] = []
  take (suc n) (x ∷ xs) = x ∷ take n xs

  -- `WHERE test`, the first row only.
  abbrev pub find_row : (A → Bool) → List A → Option A
  find_row test [] = none
  find_row test (x ∷ xs) = if test x then some x else find_row test xs

  -- `WHERE test`, all rows in table order.
  abbrev pub select_rows : (A → Bool) → List A → List A
  select_rows test [] = []
  select_rows test (x ∷ xs) = let rest = select_rows test xs in if test x then x ∷ rest else rest

  abbrev pub exists_row : (A → Bool) → List A → Bool
  exists_row test [] = false
  exists_row test (x ∷ xs) = test x || exists_row test xs

  -- `UPDATE ... SET change WHERE test`.
  abbrev pub update_rows : (A → Bool) → (A → A) → List A → List A
  update_rows test change [] = []
  update_rows test change (x ∷ xs) = (if test x then change x else x) ∷ update_rows test change xs

  -- `DELETE ... WHERE test`.
  abbrev pub delete_rows : (A → Bool) → List A → List A
  delete_rows test [] = []
  delete_rows test (x ∷ xs) = let rest = delete_rows test xs in if test x then rest else x ∷ rest

  -- `ORDER BY`: a stable insertion sort by a test "stands strictly before".
  abbrev pub insert_by : (A → A → Bool) → A → List A → List A
  insert_by before x [] = x ∷ []
  insert_by before x (y ∷ ys) = if before y x then y ∷ insert_by before x ys else x ∷ y ∷ ys

  abbrev pub order_by : (A → A → Bool) → List A → List A
  order_by before [] = []
  order_by before (x ∷ xs) = insert_by before x (order_by before xs)

  abbrev pub All {κ} : (A → Type κ) → List A → Type κ
  All P [] = Unit
  All P (x ∷ xs) = P x × All P xs

  pub some_inj : (a b : A) → some a ≡ some b → a ≡ b
  some_inj a b e = cc

  module _ {κ} (P : A → Type κ) where
    pub All-append : (xs ys : List A) → All P xs → All P ys → All P (xs ++ ys)
    All-append [] ys h k = k
    All-append (x ∷ xs) ys h k = (h.0, All-append xs ys h.1 k)

    pub All-find_row :
        (test : A → Bool) (xs : List A) (x : A) → All P xs → find_row test xs ≡ some x → P x
    All-find_row test [] x h e = cc
    All-find_row test (y ∷ ys) x h e = elim (Bool-cases (test y)) [
      | inl hit ↦ subst P (some_inj y x (rw hit at e)) h.0
      | inr miss ↦ All-find_row test ys x h.1 (rw miss at e)
    ]

    pub All-update_rows :
        (test : A → Bool) (change : A → A) (xs : List A)
        → ((x : A) → test x ≡ true → P x → P (change x))
        → All P xs
        → All P (update_rows test change xs)
    All-update_rows test change [] keep h = tt
    All-update_rows test change (x ∷ xs) keep h = elim (Bool-cases (test x)) [
      | inl hit ↦ rw hit (keep x hit h.0, All-update_rows test change xs keep h.1)
      | inr miss ↦ rw miss (h.0, All-update_rows test change xs keep h.1)
    ]

    pub All-select_rows : (test : A → Bool) (xs : List A) → All P xs → All P (select_rows test xs)
    All-select_rows test [] h = tt
    All-select_rows test (x ∷ xs) h = elim (Bool-cases (test x)) [
      | inl hit ↦ rw hit (h.0, All-select_rows test xs h.1)
      | inr miss ↦ rw miss (All-select_rows test xs h.1)
    ]

    pub All-delete_rows : (test : A → Bool) (xs : List A) → All P xs → All P (delete_rows test xs)
    All-delete_rows test [] h = tt
    All-delete_rows test (x ∷ xs) h = elim (Bool-cases (test x)) [
      | inl hit ↦ rw hit (All-delete_rows test xs h.1)
      | inr miss ↦ rw miss (h.0, All-delete_rows test xs h.1)
    ]

  -- What a query returns meets its `WHERE`.
  pub find_row_test :
      (test : A → Bool) (xs : List A) (x : A) → find_row test xs ≡ some x → test x ≡ true
  find_row_test test [] x e = cc
  find_row_test test (y ∷ ys) x e = ground (arith, find_row_test test ys x)

  -- An update that keeps a query's test commutes with the query.
  pub find_row-update_rows :
      (q test : A → Bool) (change : A → A) (xs : List A)
      → ((x : A) → q (change x) ≡ q x)
      → find_row q (update_rows test change xs)
        ≡ Option.map (λ x. if test x then change x else x) (find_row q xs)
  find_row-update_rows q test change [] same = refl
  find_row-update_rows q test change (x ∷ xs) same =
      ground (arith, same x, find_row-update_rows q test change xs same)

  pub find_row-append :
      (q : A → Bool) (xs ys : List A)
      → find_row q (xs ++ ys) ≡ elim (find_row q xs) [ some x ↦ some x | none ↦ find_row q ys ]
  find_row-append q [] ys = refl
  find_row-append q (x ∷ xs) ys = ground (arith, find_row-append q xs ys)

  -- A row that is added answers a query that had no answer.
  pub find_row-add :
      (q : A → Bool) (xs : List A) (x : A)
      → find_row q xs ≡ none
      → q x ≡ true
      → find_row q (xs ++ x ∷ []) ≡ some x
  find_row-add q xs x new hit = rw (find_row-append q xs (x ∷ []), new, hit) refl

  pub find_row-update_some :
      (q test : A → Bool) (change : A → A) (xs : List A) (x : A)
      → ((y : A) → q (change y) ≡ q y)
      → find_row q xs ≡ some x
      → find_row q (update_rows test change xs) ≡ some (if test x then change x else x)
  find_row-update_some q test change xs x same e =
      rw (find_row-update_rows q test change xs same, e) refl

  -- An update leaves what a query finds alone, where it changes no such row.
  pub find_row-update_apart :
      (q test : A → Bool) (change : A → A) (xs : List A)
      → ((x : A) → q (change x) ≡ q x)
      → ((x : A) → q x ≡ true → test x ≡ false)
      → find_row q (update_rows test change xs) ≡ find_row q xs
  find_row-update_apart q test change [] same apart = refl
  find_row-update_apart q test change (x ∷ xs) same apart =
      ground (arith, same x, apart x, find_row-update_apart q test change xs same apart)

  pub exists_row-append :
      (test : A → Bool) (xs ys : List A)
      → exists_row test (xs ++ ys) ≡ (exists_row test xs || exists_row test ys)
  exists_row-append test [] ys = refl
  exists_row-append test (x ∷ xs) ys = ground (arith, exists_row-append test xs ys)

  pub exists_row_left :
      (test : A → Bool) (xs ys : List A)
      → exists_row test xs ≡ true
      → exists_row test (xs ++ ys) ≡ true
  exists_row_left test xs ys h = ground (arith, exists_row-append test xs ys)

  pub exists_row_last :
      (test : A → Bool) (xs : List A) (x : A)
      → test x ≡ true
      → exists_row test (xs ++ x ∷ []) ≡ true
  exists_row_last test xs x h = ground (arith, exists_row-append test xs (x ∷ []))

  pub find_row-none :
      (test : A → Bool) (xs : List A) → exists_row test xs ≡ false → find_row test xs ≡ none
  find_row-none test [] h = refl
  find_row-none test (x ∷ xs) h = ground (arith, find_row-none test xs)

  pub find_row-exists :
      (q test : A → Bool) (xs : List A) (x : A)
      → find_row q xs ≡ some x
      → test x ≡ true
      → exists_row test xs ≡ true
  find_row-exists q test [] x e h = cc
  find_row-exists q test (y ∷ ys) x e h = ground (arith, find_row-exists q test ys x)

  pub find_row_left :
      (q : A → Bool) (xs ys : List A) (x : A)
      → find_row q xs ≡ some x
      → find_row q (xs ++ ys) ≡ some x
  find_row_left q xs ys x h = rw (find_row-append q xs ys, h) refl

  -- A witness survives a deletion that spares every such row.
  pub exists_row-delete_rows :
      (test del : A → Bool) (xs : List A)
      → ((x : A) → test x ≡ true → del x ≡ false)
      → exists_row test xs ≡ true
      → exists_row test (delete_rows del xs) ≡ true
  exists_row-delete_rows test del [] spare h = h
  exists_row-delete_rows test del (x ∷ xs) spare h =
      ground (arith, spare x, exists_row-delete_rows test del xs spare)

  pub exists_row-delete_rows-false :
      (test del : A → Bool) (xs : List A)
      → exists_row test xs ≡ false
      → exists_row test (delete_rows del xs) ≡ false
  exists_row-delete_rows-false test del [] h = h
  exists_row-delete_rows-false test del (x ∷ xs) h =
      ground (arith, exists_row-delete_rows-false test del xs)

  module _ (P Q : A → Type 0) where
    pub All-implies : (xs : List A) → ((x : A) → P x → Q x) → All P xs → All Q xs
    All-implies [] f h = tt
    All-implies (x ∷ xs) f h = (f x h.0, All-implies xs f h.1)

    pub All-delete_met :
        (del : A → Bool) (xs : List A)
        → ((x : A) → P x → del x ≡ false → Q x)
        → All P xs
        → All Q (delete_rows del xs)
    All-delete_met del [] f h = tt
    All-delete_met del (x ∷ xs) f h = elim (Bool-cases (del x)) [
      | inl gone ↦ rw gone (All-delete_met del xs f h.1)
      | inr kept ↦ rw kept (f x h.0 kept, All-delete_met del xs f h.1)
    ]

    pub All-both : (xs : List A) → All P xs → All Q xs → All (λ x. P x × Q x) xs
    All-both [] h k = tt
    All-both (x ∷ xs) h k = ((h.0, k.0), All-both xs h.1 k.1)

    pub All-update_met :
        (test : A → Bool) (change : A → A) (xs : List A)
        → ((x : A) → test x ≡ true → P x → Q (change x))
        → ((x : A) → test x ≡ false → P x → Q x)
        → All P xs
        → All Q (update_rows test change xs)
    All-update_met test change [] hit miss h = tt
    All-update_met test change (x ∷ xs) hit miss h = elim (Bool-cases (test x)) [
      | inl p ↦ rw p (hit x p h.0, All-update_met test change xs hit miss h.1)
      | inr p ↦ rw p (miss x p h.0, All-update_met test change xs hit miss h.1)
    ]

-- A checked value is there only where the check held.
pub if_some {ℓ} :
    {A : Type ℓ} (b : Bool) (x y : A) → (if b then some x else none) ≡ some y → (b ≡ true) × (x ≡ y)
if_some true x y h = (refl, some_inj x y h)
if_some false x y h = cc
