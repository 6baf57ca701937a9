-- ===== src/Base/Keys.antt =====
-- A primary key: every row of the table is the one that its key finds.
use Prim.Native.Nat.{ℕ, zero, suc}
use mathlib.Core.Path.{◌≡◌, refl, ap, subst, ◌∙◌, sym}
use mathlib.Core.Logic.{inl, inr}
use mathlib.Core.Bool.{Bool, true}
use mathlib.Core.Option.{none, some}
use mathlib.Core.List.{List, [], ◌∷◌, ◌++◌}
use native.Mathlib.Omega.{arith}
use code_duel.Base.Tests.{◌==◌, if◌then◌else◌, Bool-cases, ==→eq}
use code_duel.Base.Rows.{
  find_row, update_rows, exists_row, select_rows, take, insert_by, order_by, All,
  find_row-update_some, find_row-append, find_row-add, All-append, some_inj,
}

module _ {A : Type 0} where
  -- A row that meets the test, where one is said to exist.
  pub exists_row_witness :
      (P : A → Type 0) (test : A → Bool) (xs : List A)
      → All P xs
      → exists_row test xs ≡ true
      → (x : A) × P x × (test x ≡ true)
  exists_row_witness P test [] h e = cc
  exists_row_witness P test (x ∷ xs) h e = elim (Bool-cases (test x)) [
    | inl hit ↦ (x, h.0, hit)
    | inr miss ↦ exists_row_witness P test xs h.1 (rw miss at e)
  ]

  module _ (P : A → Type 0) where
    pub All-select_met :
        (Q : A → Type 0) (test : A → Bool) (xs : List A)
        → ((x : A) → P x → test x ≡ true → Q x)
        → All P xs
        → All Q (select_rows test xs)
    All-select_met Q test [] meet h = tt
    All-select_met Q test (x ∷ xs) meet h = elim (Bool-cases (test x)) [
      | inl hit ↦ rw hit (meet x h.0 hit, All-select_met Q test xs meet h.1)
      | inr miss ↦ rw miss (All-select_met Q test xs meet h.1)
    ]

    pub All-insert_by :
        (before : A → A → Bool) (x : A) (ys : List A)
        → P x
        → All P ys
        → All P (insert_by before x ys)
    All-insert_by before x [] p h = (p, tt)
    All-insert_by before x (y ∷ ys) p h = elim (Bool-cases (before y x)) [
      | inl first ↦ rw first (h.0, All-insert_by before x ys p h.1)
      | inr later ↦ rw later (p, h)
    ]

    pub All-order_by : (before : A → A → Bool) (xs : List A) → All P xs → All P (order_by before xs)
    All-order_by before [] h = tt
    All-order_by before (x ∷ xs) h =
        All-insert_by before x (order_by before xs) h.0 (All-order_by before xs h.1)

    pub All-take : (n : ℕ) (xs : List A) → All P xs → All P (take n xs)
    All-take zero xs h = tt
    All-take (suc n) [] h = tt
    All-take (suc n) (x ∷ xs) h = (h.0, All-take n xs h.1)

module _ {A : Type 0} (key : A → ℕ) where
  abbrev pub by_key : ℕ → A → Bool
  by_key k x = key x == k

  abbrev pub Keyed : List A → Type 0
  Keyed xs = All (λ x. find_row (by_key (key x)) xs ≡ some x) xs

  key-if :
      (test : A → Bool) (change : A → A) (y : A)
      → ((x : A) → key (change x) ≡ key x)
      → key (if test y then change y else y) ≡ key y
  key-if test change y same = elim (Bool-cases (test y)) [
    | inl hit ↦ rw hit (same y)
    | inr miss ↦ rw miss refl
  ]

  Keyed-update_part :
      (test : A → Bool) (change : A → A) (xs ys : List A)
      → ((x : A) → key (change x) ≡ key x)
      → All (λ x. find_row (by_key (key x)) xs ≡ some x) ys
      → All
          (λ x. find_row (by_key (key x)) (update_rows test change xs) ≡ some x)
          (update_rows test change ys)
  Keyed-update_part test change xs [] same h = tt
  Keyed-update_part test change xs (y ∷ ys) same h = (
    rw (key-if test change y same) (
        find_row-update_some (by_key (key y)) test change xs y (λ x. ap (λ k. k == key y) (same x))
          h.0),
    Keyed-update_part test change xs ys same h.1,
  )

  -- Updates keep a primary key that they do not write.
  pub Keyed-update_rows :
      (test : A → Bool) (change : A → A) (xs : List A)
      → ((x : A) → key (change x) ≡ key x)
      → Keyed xs
      → Keyed (update_rows test change xs)
  Keyed-update_rows test change xs same h = Keyed-update_part test change xs xs same h

  Keyed-add_part :
      (xs ys : List A) (x : A)
      → All (λ y. find_row (by_key (key y)) xs ≡ some y) ys
      → All (λ y. find_row (by_key (key y)) (xs ++ x ∷ []) ≡ some y) ys
  Keyed-add_part xs [] x h = tt
  Keyed-add_part xs (y ∷ ys) x h =
      (rw (find_row-append (by_key (key y)) xs (x ∷ []), h.0) refl, Keyed-add_part xs ys x h.1)

  -- A row with a new key may be added.
  pub Keyed-add :
      (xs : List A) (x : A) → find_row (by_key (key x)) xs ≡ none → Keyed xs → Keyed (xs ++ x ∷ [])
  Keyed-add xs x new h =
      All-append _ xs (x ∷ []) (Keyed-add_part xs xs x h)
        (find_row-add _ xs x new (ground arith), tt)

  -- Rows of the table that share a key are one row.
  pub Keyed-selected :
      (P : A → Type 0) (xs rows : List A) (x : A)
      → All (λ y. (find_row (by_key (key y)) xs ≡ some y) × P y) rows
      → find_row (by_key (key x)) xs ≡ some x
      → exists_row (by_key (key x)) rows ≡ true
      → P x
  Keyed-selected P xs rows x sound own hit =
      let (y, (found, p), same) = exists_row_witness _ (by_key (key x)) rows sound hit in
      subst P
        (some_inj y x (
          sym found
          ∙ subst (λ k. find_row (by_key k) xs ≡ some x) (sym (==→eq (key y) (key x) same)) own))
        p
