-- ===== src/Base/Texts.antt =====
-- Cutting texts at a byte (package strings).
use Prim.Native.Nat.{ℕ}
use mathlib.Core.Path.{◌≡◌, refl}
use mathlib.Core.Bool.{Bool, true, false}
use mathlib.Core.Option.{Option, none, some}
use mathlib.Core.List.{List, [], ◌∷◌}
use code_duel.Base.Tests.{Bytes, ◌==◌, eq→==, if◌then◌else◌}

abbrev cut_here : ℕ → ℕ → Bytes → Option (Bytes × Bytes) → Option (Bytes × Bytes)
cut_here mark c rest none = if c == mark then some ([], rest) else none
cut_here mark c rest (some (before, after)) =
    if c == mark then some ([], rest) else some (c ∷ before, after)

-- `strings.Cut`: what stands before the first mark, and what stands after it.
unfoldable pub cut : ℕ → Bytes → Option (Bytes × Bytes)
cut mark [] = none
cut mark (c ∷ text) = cut_here mark c text (cut mark text)

pub cut_mark : (mark : ℕ) (rest : Bytes) → cut mark (mark ∷ rest) ≡ some ([], rest)
unfolding cut
cut_mark mark rest = go (cut mark rest)
  where
    go : (o : Option (Bytes × Bytes)) → cut_here mark mark rest o ≡ some ([], rest)
    go none = rw (eq→== mark mark refl) refl
    go (some (before, after)) = rw (eq→== mark mark refl) refl

pub cut_later :
    (mark c : ℕ) (text before after : Bytes)
    → (c == mark) ≡ false
    → cut mark text ≡ some (before, after)
    → cut mark (c ∷ text) ≡ some (c ∷ before, after)
unfolding cut
cut_later mark c text before after other h = rw (h, other) refl

abbrev split_here : Bool → ℕ → List Bytes → List Bytes
split_here true c parts = [] ∷ parts
split_here false c [] = (c ∷ []) ∷ []
split_here false c (part ∷ parts) = (c ∷ part) ∷ parts

-- `strings.Split`
unfoldable pub split : ℕ → Bytes → List Bytes
split mark [] = [] ∷ []
split mark (c ∷ text) = split_here (c == mark) c (split mark text)
