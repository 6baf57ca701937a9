-- ===== src/Submission/Replayed.antt =====
-- A request identifier stands for one payload.
use code_duel.Base.{
  ℕ, ◌≡◌, refl, sym, ap, ◌∙◌, bytes_eq→eq, ==→eq, true, some, some_inj, find_row, arith,
}
use code_duel.Db.{Language, python, cpp, java, other_language, Submission}
use code_duel.World.{ok, Env, World}
use code_duel.World.Ends.{Ends, Ends-ok}
use code_duel.Submission.{Request, Service, accept, same_key, same_payload, language_eq}
use code_duel.Submission.Runs.{accept_ends}

language_of : (a b : Language) → language_eq a b ≡ true → a ≡ b
unfolding language_eq
language_of python python h = refl
language_of cpp cpp h = refl
language_of java java h = refl
language_of (other_language s) (other_language t) h = ap other_language (bytes_eq→eq s t h)
language_of python cpp h = cc
language_of python java h = cc
language_of python (other_language t) h = cc
language_of cpp python h = cc
language_of cpp java h = cc
language_of cpp (other_language t) h = cc
language_of java python h = cc
language_of java cpp h = cc
language_of java (other_language t) h = cc
language_of (other_language s) python h = cc
language_of (other_language s) cpp h = cc
language_of (other_language s) java h = cc

-- What an answer from a stored row says of the request.
abbrev pub FromRow : Request → Submission → ℕ → World → World → Type 0
FromRow r s id w v =
    (id ≡ s.id)
    × (s.match_id ≡ r.match_id)
    × (s.language ≡ r.language)
    × (s.code ≡ r.code)
    × (v.durable ≡ w.durable)

payload_parts :
    (r : Request) (s : Submission)
    → same_payload r s ≡ true
    → (s.match_id ≡ r.match_id) × (s.language ≡ r.language) × (s.code ≡ r.code)
payload_parts r s h = (
  ==→eq s.match_id r.match_id (ground arith),
  language_of s.language r.language (ground arith),
  bytes_eq→eq s.code r.code (ground arith),
)

-- Where a submission is stored for the player and the request, an accepted request is answered with
-- that submission, is for its match, in its language and with its code, and stores nothing.
pub accept_known :
    (e : Env) (service : Service) (r : Request) (w : World) (s : Submission) (id : ℕ)
    → find_row (same_key r.player_id r.request_id) w.durable.submissions ≡ some s
    → (accept e service r w).0 ≡ ok id
    → FromRow r s id w (accept e service r w).1
accept_known e service r w s id stored h = Ends-ok (accept e service r) w id run h
  where
    run : Ends (accept e service r) w (λ i v. FromRow r s i w v) (λ _ _. Unit {0})
    run =
        accept_ends e service r w
          (λ t _ found same v p. row t v (some_inj s t (sym stored ∙ found)) same p)
          (λ _ new _ _ _. cc (new, stored)) (λ _ _ _. tt)
      where
        row :
            (t : Submission) (v : World)
            → s ≡ t
            → same_payload r t ≡ true
            → v.durable ≡ w.durable
            → FromRow r s t.id w v
        row t v is_row same p =
            let (m, l, c) = payload_parts r t same in rw is_row (refl, m, l, c, p)
