-- ===== src/Judge/Output.antt =====
-- internal/judge/output.go: comparing a program's output, and the budget that both of its output
-- streams share. The lock around the budget makes each write one step.
pub mod Lines
pub mod Budget
use code_duel.Base.{
  ℕ, ◌-◌, ◌==◌, leb, Bytes, bytes_eq, Bool, true, false, ◌&&◌, List, [], ◌∷◌, ◌++◌, if◌then◌else◌,
  length, take,
}

-- The byte that stands for a byte after an optional carriage return.
abbrev pub after_cr : ℕ → Bytes → Bytes
after_cr c rest = if c == 10 then 10 ∷ rest else if c == 13 then 13 ∷ rest else 13 ∷ c ∷ rest

-- `bytes.ReplaceAll` of "\r\n" by "\n"; a carriage return waits for the next byte.
unfoldable pub replace_crlf : Bool → Bytes → Bytes
replace_crlf true [] = 13 ∷ []
replace_crlf false [] = []
replace_crlf waiting (c ∷ s) =
    let rest = replace_crlf (c == 13) s in
    if waiting then after_cr c rest else if c == 13 then rest else c ∷ rest

-- `bytes.TrimSuffix` of "\n".
unfoldable pub trim_newline : Bytes → Bytes
trim_newline [] = []
trim_newline (c ∷ []) = if c == 10 then [] else c ∷ []
trim_newline (c ∷ d ∷ s) = c ∷ trim_newline (d ∷ s)

unfoldable pub normalize_output : Bytes → Bytes
unfolding replace_crlf trim_newline
normalize_output output = trim_newline (replace_crlf false output)

unfoldable pub output_matches : Bytes → Bytes → Bool
unfolding normalize_output
output_matches actual expected = bytes_eq (normalize_output actual) (normalize_output expected)

-- What a write leaves: the budget, the buffer, and whether it failed with errOutputLimit.
pub record Written : Type 0 where
  pub remaining : ℕ
  pub buffer : Bytes
  pub limited : Bool

-- `budgetWriter.Write`; the remaining budget never falls below 0.
unfoldable pub write : ℕ → Bytes → Bytes → Written
write remaining buffer p =
    if leb (length p) remaining
    then record { remaining = remaining - length p; buffer = buffer ++ p; limited = false }
    else record { remaining = 0; buffer = buffer ++ take remaining p; limited = true }

-- One frame of the container's output: whether it is of stdout, and its bytes.
abbrev pub Chunk : Type 0
Chunk = Bool × Bytes

pub record Copied : Type 0 where
  pub stdout : Bytes
  pub stderr : Bytes
  pub limited : Bool

-- `stdcopy.StdCopy` into the two writers: it stops at the first write that fails.
unfoldable pub copy_chunks : ℕ → List Chunk → Bytes → Bytes → Copied
unfolding write
copy_chunks remaining [] out errors = record { stdout = out; stderr = errors; limited = false }
copy_chunks remaining ((true, p) ∷ chunks) out errors =
    let w = write remaining out p in
    let rest = copy_chunks w.remaining chunks w.buffer errors in
    if w.limited then record { stdout = w.buffer; stderr = errors; limited = true } else rest
copy_chunks remaining ((false, p) ∷ chunks) out errors =
    let w = write remaining errors p in
    let rest = copy_chunks w.remaining chunks out w.buffer in
    if w.limited then record { stdout = out; stderr = w.buffer; limited = true } else rest
