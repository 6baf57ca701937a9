-- ===== src/Judge/Output/Lines.antt =====
-- Line ends do not matter to the comparison of outputs.
use code_duel.Base.{
  ◌==◌, Bytes, false, [], ◌∷◌, ◌++◌, ◌≡◌, refl, inl, inr, Bool-cases, if◌then◌else◌, All, ==→eq,
}
use code_duel.Judge.Output.{replace_crlf, trim_newline, normalize_output}

-- The text with "\r\n" for every "\n".
abbrev pub with_crlf : Bytes → Bytes
with_crlf [] = []
with_crlf (c ∷ s) = if c == 10 then 13 ∷ 10 ∷ with_crlf s else c ∷ with_crlf s

abbrev pub PlainText : Bytes → Type 0
PlainText s = All (λ c. (c == 13) ≡ false) s

replace_crlf-with_crlf : (s : Bytes) → PlainText s → replace_crlf false (with_crlf s) ≡ s
unfolding replace_crlf
replace_crlf-with_crlf [] h = refl
replace_crlf-with_crlf (c ∷ s) h = elim (Bool-cases (c == 10)) [
  | inl line ↦ rw (line, ==→eq c 10 line, replace_crlf-with_crlf s h.1) refl
  | inr other ↦ rw (other, h.0, replace_crlf-with_crlf s h.1) refl
]

trim_newline-line : (s : Bytes) → trim_newline (s ++ 10 ∷ []) ≡ s
unfolding trim_newline
trim_newline-line [] = refl
trim_newline-line (c ∷ []) = refl
trim_newline-line (c ∷ d ∷ s) = rw (trim_newline-line (d ∷ s)) refl

plain-line : (s : Bytes) → PlainText s → PlainText (s ++ 10 ∷ [])
plain-line [] h = (refl, tt)
plain-line (c ∷ s) h = (h.0, plain-line s h.1)

-- A text without carriage returns, written with "\r\n" line ends and with one line end behind it,
-- normalizes to the text.
pub normalize-with_crlf :
    (s : Bytes) → PlainText s → normalize_output (with_crlf (s ++ 10 ∷ [])) ≡ s
unfolding normalize_output
normalize-with_crlf s h =
    rw (replace_crlf-with_crlf (s ++ 10 ∷ []) (plain-line s h)) (trim_newline-line s)
