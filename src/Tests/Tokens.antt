-- ===== src/Tests/Tokens.antt =====
-- A token whose text is its three numbers, moved past the blanks.
use code_duel.Base.{
  ℕ, ◌+◌, ◌-◌, ◌==◌, ltb, Bytes, codes, bytes_eq, true, false, Option, none, some, [], ◌∷◌, ◌≡◌,
  refl, arith,
}
use code_duel.Auth.{User, granted}
use code_duel.Gateway.Tokens.{
  Claims, TokenEnv, allowed, IssuedToken, mint_access_token, authenticate_rest,
  authenticate_web_socket,
}
use code_duel.Gateway.Tokens.Minted.{
  is_token_text, Faithful, bearer_request, principal, minted_authenticates,
}

abbrev written : Option Bytes → Option ℕ → Option ℕ → Option Bytes
written (some (id ∷ [])) (some issued) (some expires) =
    some ((id + 33) ∷ (issued + 33) ∷ (expires + 33) ∷ [])
written _ _ _ = none

abbrev read_back : Bytes → Option Claims
read_back (id ∷ issued ∷ expires ∷ []) = some (record {
  subject = some ((id - 33) ∷ []);
  issued_at = some (issued - 33);
  expires_at = some (expires - 33);
})
read_back _ = none

abbrev parse_id : Bytes → Option ℕ
parse_id (id ∷ []) = some id
parse_id _ = none

abbrev token_env : TokenEnv
token_env = record {
  sign = λ claims secret. written claims.subject claims.issued_at claims.expires_at;
  parse = λ raw secret at. read_back raw;
  numeric_date = λ time. time;
  show_uuid = λ id. id ∷ [];
  parse_uuid = parse_id;
  equal_fold = λ a b. true;
  trim_space = λ text. text;
  now = 100;
}

some_inj : (a b : Bytes) → some a ≡ some b → a ≡ b
some_inj a b h = cc

back : (n : ℕ) → n + 33 - 33 ≡ n
back n = ground arith

written-read :
    (subject : Option Bytes) (issued expires : Option ℕ) (raw : Bytes)
    → written subject issued expires ≡ some raw
    → read_back raw ≡ some (record { subject = subject; issued_at = issued; expires_at = expires })
written-read none issued expires raw h = cc
written-read (some []) issued expires raw h = cc
written-read (some (id ∷ c ∷ more)) issued expires raw h = cc
written-read (some (id ∷ [])) none expires raw h = cc
written-read (some (id ∷ [])) (some issued) none raw h = cc
written-read (some (id ∷ [])) (some issued) (some expires) raw h =
    rw (← some_inj _ _ h, back id, back issued, back expires) refl

written_text :
    (subject : Option Bytes) (issued expires : Option ℕ) (raw : Bytes)
    → written subject issued expires ≡ some raw
    → is_token_text raw ≡ true
unfolding bytes_eq
written_text none issued expires raw h = cc
written_text (some []) issued expires raw h = cc
written_text (some (id ∷ c ∷ more)) issued expires raw h = cc
written_text (some (id ∷ [])) none expires raw h = cc
written_text (some (id ∷ [])) (some issued) none raw h = cc
written_text (some (id ∷ [])) (some issued) (some expires) raw h =
    rw
      (
        ← some_inj _ _ h,
        past id 32 refl,
        past id 9 refl,
        past issued 32 refl,
        past issued 9 refl,
        past expires 32 refl,
        past expires 9 refl,
      )
      refl
  where
    past : (n blank : ℕ) → ltb blank 33 ≡ true → (n + 33 == blank) ≡ false
    past n blank h = ground arith

token_env-Faithful : Faithful token_env (codes "secret")
token_env-Faithful = record {
  reads = λ claims raw expires at signed dated fresh.
      written-read claims.subject claims.issued_at claims.expires_at raw signed;
  writes = λ claims raw signed.
      written_text claims.subject claims.issued_at claims.expires_at raw signed;
  names = λ id. refl;
  folds = refl;
}

abbrev token : IssuedToken
token = record { value = 40 ∷ 133 ∷ 193 ∷ []; expires_at = 160 }

minted : mint_access_token token_env 7 (codes "secret") 60 ≡ allowed token
unfolding mint_access_token
minted = refl

abbrev player : User
player = record { id = 7; email = []; display_name = []; created_at = 0 }

minted_authenticates_example :
    (authenticate_rest token_env 120
        (bearer_request token.value)
        (codes "secret")
        (some (λ id. granted player))
      ≡ principal player 160)
    × (authenticate_web_socket token_env 120
          (bearer_request token.value)
          (codes "secret")
          (some (λ id. granted player))
        ≡ principal player 160)
minted_authenticates_example =
    minted_authenticates token_env (λ id. granted player) 7 player (codes "secret") 60 120 token
      token_env-Faithful minted (ground arith) refl
