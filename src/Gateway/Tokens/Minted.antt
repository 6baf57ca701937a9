-- ===== src/Gateway/Tokens/Minted.antt =====
-- What a token that was issued is good for.
use code_duel.Base.{
  ℕ, ◌+◌, ◌<◌, ◌==◌, Bytes, codes, bytes_eq, Bool, true, false, not, ◌&&◌, Option, none, some, [],
  ◌∷◌, ◌≡◌, refl, ap, arith, if◌then◌else◌, exists_row, cut, cut_mark, cut_later,
}
use code_duel.Auth.{AuthResult, granted, User}
use code_duel.Gateway.Tokens.{
  Claims, TokenEnv, TokenResult, allowed, denied, empty_secret, empty_user_id, no_lifetime,
  IssuedToken, Principal, HttpRequest, new_claims, issued_as, mint_access_token, is_blank,
  authenticate_rest, authenticate_web_socket,
}

abbrev pub is_token_text : Bytes → Bool
is_token_text raw = not (bytes_eq raw []) && not (exists_row is_blank raw)

-- What the library for tokens promises: it reads what it signed, until that expires, and writes tokens
-- without blanks.
pub record Faithful (t : TokenEnv) (secret : Bytes) : Type 0 where
  pub reads :
      (claims : Claims) (raw : Bytes) (expires at : ℕ)
      → t.sign claims secret ≡ some raw
      → claims.expires_at ≡ some expires
      → at < expires
      → t.parse raw secret at ≡ some claims
  pub writes :
      (claims : Claims) (raw : Bytes) → t.sign claims secret ≡ some raw → is_token_text raw ≡ true
  pub names : (id : ℕ) → t.parse_uuid (t.show_uuid id) ≡ some id
  pub folds : t.equal_fold (codes "Bearer") (codes "Bearer") ≡ true

abbrev pub bearer_request : Bytes → HttpRequest
bearer_request token = record {
  authorization = (66 ∷ 101 ∷ 97 ∷ 114 ∷ 101 ∷ 114 ∷ 32 ∷ token) ∷ [];
  query_tokens = [];
}

-- The text before and after the blank of a bearer header.
cut-bearer :
    (token : Bytes)
    → cut 32 (66 ∷ 101 ∷ 97 ∷ 114 ∷ 101 ∷ 114 ∷ 32 ∷ token) ≡ some (codes "Bearer", token)
cut-bearer token = later 66 _ _ refl (
    later 101 _ _ refl (
      later 97 _ _ refl
        (later 114 _ _ refl (later 101 _ _ refl (later 114 _ _ refl (cut_mark 32 token))))))
  where
    later :
        (c : ℕ) (text before : Bytes)
        → (c == 32) ≡ false
        → cut 32 text ≡ some (before, token)
        → cut 32 (c ∷ text) ≡ some (c ∷ before, token)
    later c text before other h = cut_later 32 c text before token other h

allowed_inj : {A : Type 0} {x y : A} → allowed x ≡ allowed y → x ≡ y
allowed_inj h = cc

abbrev Signed : TokenEnv → ℕ → Bytes → ℕ → IssuedToken → Type 0
Signed t user secret ttl issued =
    (bytes_eq secret [] ≡ false)
    × ((user == 0) ≡ false)
    × (t.sign (new_claims t user ttl) secret ≡ some issued.value)

mint_access_token-Signed :
    (t : TokenEnv) (user : ℕ) (secret : Bytes) (ttl : ℕ) (issued : IssuedToken)
    → mint_access_token t user secret ttl ≡ allowed issued
    → Signed t user secret ttl issued
unfolding mint_access_token
mint_access_token-Signed t user secret ttl issued h =
    go (bytes_eq secret []) (user == 0) (ttl == 0) (t.sign (new_claims t user ttl) secret) refl refl
      refl h
  where
    signed : (o : Option Bytes) → issued_as (t.now + ttl) o ≡ allowed issued → o ≡ some issued.value
    signed none h = cc
    signed (some raw) h = ap (λ (i : IssuedToken). some i.value) (allowed_inj h)

    go :
        (no_secret no_user no_ttl : Bool) (o : Option Bytes)
        → bytes_eq secret [] ≡ no_secret
        → (user == 0) ≡ no_user
        → t.sign (new_claims t user ttl) secret ≡ o
        → (if no_secret
            then denied empty_secret
            else if no_user
            then denied empty_user_id
            else if no_ttl
            then denied no_lifetime
            else issued_as (t.now + ttl) o)
          ≡ allowed issued
        → Signed t user secret ttl issued
    go true no_user no_ttl o a b c h = cc
    go false true no_ttl o a b c h = cc
    go false false true o a b c h = cc
    go false false false o a b c h = (a, b, rw (signed o h) at c)

both_false : (a b : Bool) → (not a && not b) ≡ true → (a ≡ false) × (b ≡ false)
both_false a b h = (ground arith, ground arith)

abbrev pub principal : User → ℕ → TokenResult Principal
principal user expires = allowed (record { user = user; expires_at = expires })

-- A token that was issued to a user is accepted, as a bearer token of a request for a page or for a
-- socket, until it expires: the principal is the user whom the lookup finds, if the library for tokens
-- reads what it signed.
pub minted_authenticates :
    (t : TokenEnv) (users : ℕ → AuthResult User) (id : ℕ) (user : User) (secret : Bytes)
    (ttl at : ℕ) (issued : IssuedToken)
    → Faithful t secret
    → mint_access_token t id secret ttl ≡ allowed issued
    → at < t.numeric_date (t.now + ttl)
    → users id ≡ granted user
    → let r = bearer_request issued.value in
      let p = principal user (t.numeric_date (t.now + ttl)) in
      (authenticate_rest t at r secret (some users) ≡ p)
      × (authenticate_web_socket t at r secret (some users) ≡ p)
unfolding authenticate_rest authenticate_web_socket
minted_authenticates t users id user secret ttl at issued good minted fresh found =
    let (has_secret, real, signed) = mint_access_token-Signed t id secret ttl issued minted in
    let read =
      good.reads (new_claims t id ttl) issued.value (t.numeric_date (t.now + ttl)) at signed refl
        fresh in
    let (filled, solid) =
      both_false (bytes_eq issued.value []) (exists_row is_blank issued.value)
        (good.writes (new_claims t id ttl) issued.value signed) in
    rw
      (
        cut-bearer issued.value,
        good.folds,
        filled,
        solid,
        has_secret,
        read,
        good.names id,
        real,
        found,
      )
      (refl, refl)
