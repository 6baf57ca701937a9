-- ===== src/Judge/Output/Budget.antt =====
-- The budget of a program's output bounds what is kept of both streams.
use code_duel.Base.{
  ℕ, ◌+◌, ◌-◌, ◌≤◌, leb, Bytes, Bool, true, false, List, [], ◌∷◌, ◌++◌, ◌≡◌, refl, inl, inr, arith,
  Bool-cases, not, length, take, zero, suc,
}
use code_duel.Judge.Output.{Chunk, write, copy_chunks}

length-append : (xs ys : Bytes) → length (xs ++ ys) ≡ length xs + length ys
length-append [] ys = ground arith
length-append (x ∷ xs) ys = ground (arith, length-append xs ys)

length-take_le : (n : ℕ) (xs : Bytes) → length (take n xs) ≤ n
length-take_le zero xs = ground arith
length-take_le (suc n) [] = ground arith
length-take_le (suc n) (x ∷ xs) = ground (arith, length-take_le n xs)

-- What a write keeps comes out of the budget.
write-spends :
    (remaining : ℕ) (buffer p : Bytes)
    → length (write remaining buffer p).buffer + (write remaining buffer p).remaining
      ≤ length buffer + remaining
unfolding write
write-spends remaining buffer p = elim (Bool-cases (leb (length p) remaining)) [
  | inl fits ↦ rw fits (ground (arith, length-append buffer p))
  | inr over ↦
      rw over (ground (arith, length-append buffer (take remaining p), length-take_le remaining p))
]

-- However many frames the program writes and on which stream, the bytes that are kept of stdout and
-- stderr together are no more than those kept before and the remaining budget.
pub copy_bounded :
    (remaining : ℕ) (chunks : List Chunk) (out errors : Bytes)
    → length (copy_chunks remaining chunks out errors).stdout
        + length (copy_chunks remaining chunks out errors).stderr
      ≤ length out + length errors + remaining
unfolding copy_chunks
copy_bounded remaining [] out errors = ground arith
copy_bounded remaining ((true, p) ∷ chunks) out errors = ground (
  arith,
  write-spends remaining out p,
  copy_bounded (write remaining out p).remaining chunks (write remaining out p).buffer errors,
)
copy_bounded remaining ((false, p) ∷ chunks) out errors = ground (
  arith,
  write-spends remaining errors p,
  copy_bounded (write remaining errors p).remaining chunks out (write remaining errors p).buffer,
)

-- The bytes of one stream, and of both.
abbrev pub stream_of : Bool → List Chunk → Bytes
stream_of wanted [] = []
stream_of true ((true, p) ∷ chunks) = p ++ stream_of true chunks
stream_of true ((false, p) ∷ chunks) = stream_of true chunks
stream_of false ((true, p) ∷ chunks) = stream_of false chunks
stream_of false ((false, p) ∷ chunks) = p ++ stream_of false chunks

abbrev pub total_length : List Chunk → ℕ
total_length [] = 0
total_length ((is_out, p) ∷ chunks) = length p + total_length chunks

append_assoc : (xs ys zs : Bytes) → (xs ++ ys) ++ zs ≡ xs ++ (ys ++ zs)
append_assoc [] ys zs = refl
append_assoc (x ∷ xs) ys zs = rw (append_assoc xs ys zs) refl

append_nil : (xs : Bytes) → xs ++ [] ≡ xs
append_nil [] = refl
append_nil (x ∷ xs) = rw (append_nil xs) refl

write-fits :
    (remaining : ℕ) (buffer p : Bytes)
    → leb (length p) remaining ≡ true
    → write remaining buffer p
      ≡ record { remaining = remaining - length p; buffer = buffer ++ p; limited = false }
unfolding write
write-fits remaining buffer p h = rw h refl

write-over :
    (remaining : ℕ) (buffer p : Bytes)
    → leb (length p) remaining ≡ false
    → (write remaining buffer p).limited ≡ true
unfolding write
write-over remaining buffer p h = rw h refl

-- The copy reports the limit exactly if the program writes more than the budget.
pub copy_limited :
    (remaining : ℕ) (chunks : List Chunk) (out errors : Bytes)
    → (copy_chunks remaining chunks out errors).limited ≡ not (leb (total_length chunks) remaining)
unfolding copy_chunks
copy_limited remaining [] out errors = ground arith
copy_limited remaining ((true, p) ∷ chunks) out errors =
    elim (Bool-cases (leb (length p) remaining)) [
      | inl fits ↦
          rw (write-fits remaining out p fits)
            (ground (arith, copy_limited (remaining - length p) chunks (out ++ p) errors))
      | inr over ↦ rw (write-over remaining out p over) (ground arith)
    ]
copy_limited remaining ((false, p) ∷ chunks) out errors =
    elim (Bool-cases (leb (length p) remaining)) [
      | inl fits ↦
          rw (write-fits remaining errors p fits)
            (ground (arith, copy_limited (remaining - length p) chunks out (errors ++ p)))
      | inr over ↦ rw (write-over remaining errors p over) (ground arith)
    ]

-- A program whose output fits into the budget has all of it kept, each stream in its order, behind
-- what was kept before.
pub copy_complete :
    (remaining : ℕ) (chunks : List Chunk) (out errors : Bytes)
    → total_length chunks ≤ remaining
    → ((copy_chunks remaining chunks out errors).limited ≡ false)
      × ((copy_chunks remaining chunks out errors).stdout ≡ out ++ stream_of true chunks)
      × ((copy_chunks remaining chunks out errors).stderr ≡ errors ++ stream_of false chunks)
unfolding copy_chunks
copy_complete remaining [] out errors h =
    (refl, rw (append_nil out) refl, rw (append_nil errors) refl)
copy_complete remaining ((true, p) ∷ chunks) out errors h =
    let rest = copy_complete (remaining - length p) chunks (out ++ p) errors (ground arith) in
    rw (write-fits remaining out p (ground arith))
      (rest.0, rw (append_assoc out p (stream_of true chunks)) at rest.1, rest.2)
copy_complete remaining ((false, p) ∷ chunks) out errors h =
    let rest = copy_complete (remaining - length p) chunks out (errors ++ p) (ground arith) in
    rw (write-fits remaining errors p (ground arith))
      (rest.0, rest.1, rw (append_assoc errors p (stream_of false chunks)) at rest.2)
