-- ===== src/Gateway/Tokens.antt =====
-- internal/gateway/auth.go: access tokens, and the requests that carry them. The library for JSON web
-- tokens, strings.EqualFold and UUIDs are parameters. A lifetime that is not positive is 0.
pub mod Minted
use code_duel.Base.{
  ℕ, ◌+◌, ◌==◌, Bytes, codes, bytes_eq, Bool, true, false, not, ◌||◌, Option, none, some, List, [],
  ◌∷◌, if◌then◌else◌, exists_row, cut,
}
use code_duel.Auth.{AuthError, unknown_user, AuthResult, granted, rejected, User}

pub record Claims : Type 0 where
  pub subject : Option Bytes
  pub issued_at : Option ℕ
  pub expires_at : Option ℕ

-- `parse` reads a token at a time, with the method HS256, and refuses one that has expired.
pub record TokenEnv : Type 0 where
  pub sign : Claims → Bytes → Option Bytes
  pub parse : Bytes → Bytes → ℕ → Option Claims
  pub numeric_date : ℕ → ℕ
  pub show_uuid : ℕ → Bytes
  pub parse_uuid : Bytes → Option ℕ
  pub equal_fold : Bytes → Bytes → Bool
  pub trim_space : Bytes → Bytes
  pub now : ℕ

pub data TokenError : Type 0 where
  empty_secret empty_user_id no_lifetime sign_failed unauthorized missing_lookup : TokenError
  lookup : AuthError → TokenError

pub data TokenResult (A : Type 0) : Type 0 where
  allowed : A → TokenResult A
  denied : TokenError → TokenResult A

pub record IssuedToken : Type 0 where
  pub value : Bytes
  pub expires_at : ℕ

pub record Principal : Type 0 where
  pub user : User
  pub expires_at : ℕ

-- The headers `Authorization` of a request, and the parameters `token` of its query.
pub record HttpRequest : Type 0 where
  pub authorization : List Bytes
  pub query_tokens : List Bytes

abbrev pub new_claims : TokenEnv → ℕ → ℕ → Claims
new_claims t user ttl = record {
  subject = some (t.show_uuid user);
  issued_at = some (t.numeric_date t.now);
  expires_at = some (t.numeric_date (t.now + ttl));
}

abbrev pub issued_as : ℕ → Option Bytes → TokenResult IssuedToken
issued_as expires none = denied sign_failed
issued_as expires (some signed) = allowed (record { value = signed; expires_at = expires })

-- `MintAccessToken`
unfoldable pub mint_access_token : TokenEnv → ℕ → Bytes → ℕ → TokenResult IssuedToken
unfolding bytes_eq
mint_access_token t user secret ttl =
    if bytes_eq secret []
    then denied empty_secret
    else if user == 0
    then denied empty_user_id
    else if ttl == 0
    then denied no_lifetime
    else issued_as (t.now + ttl) (t.sign (new_claims t user ttl) secret)

abbrev pub is_blank : ℕ → Bool
is_blank c = c == 32 || c == 9

abbrev pub bearer : TokenEnv → Option (Bytes × Bytes) → Option Bytes
bearer t none = none
bearer t (some (scheme, token)) =
    if not (t.equal_fold scheme (codes "Bearer")) || bytes_eq token [] || exists_row is_blank token
    then none
    else some token

-- `extractBearerToken`
unfoldable pub extract_bearer_token : TokenEnv → List Bytes → Option Bytes
unfolding cut bytes_eq
extract_bearer_token t [] = none
extract_bearer_token t (header ∷ []) = bearer t (cut 32 header)
extract_bearer_token t (header ∷ second ∷ more) = none

abbrev pub query_token : TokenEnv → List Bytes → Option Bytes
query_token t [] = none
query_token t (token ∷ []) = if bytes_eq (t.trim_space token) [] then none else some token
query_token t (token ∷ second ∷ more) = none

-- `extractWebSocketToken`
unfoldable pub extract_web_socket_token : TokenEnv → List Bytes → List Bytes → Option Bytes
unfolding extract_bearer_token
extract_web_socket_token t [] tokens = query_token t tokens
extract_web_socket_token t (header ∷ more) tokens = extract_bearer_token t (header ∷ more)

abbrev pub dated : Option ℕ → ℕ → Option (ℕ × ℕ)
dated none user = none
dated (some expires) user = some (user, expires)

abbrev pub identified : Option ℕ → Option ℕ → Option (ℕ × ℕ)
identified none expires = none
identified (some user) expires = if user == 0 then none else dated expires user

abbrev pub with_subject : TokenEnv → Option Bytes → Option ℕ → Option (ℕ × ℕ)
with_subject t none expires = none
with_subject t (some subject) expires = identified (t.parse_uuid subject) expires

abbrev pub claimed : TokenEnv → Option Claims → Option (ℕ × ℕ)
claimed t none = none
claimed t (some claims) = with_subject t claims.subject claims.expires_at

-- `parseAccessToken`: the user and the expiration.
unfoldable pub parse_access_token : TokenEnv → Bytes → Bytes → ℕ → Option (ℕ × ℕ)
unfolding bytes_eq
parse_access_token t raw secret at =
    if bytes_eq secret [] then none else claimed t (t.parse raw secret at)

abbrev pub principal_of : AuthResult User → ℕ → TokenResult Principal
principal_of (granted user) expires = allowed (record { user = user; expires_at = expires })
principal_of (rejected unknown_user) expires = denied unauthorized
principal_of (rejected why) expires = denied (lookup why)

abbrev pub looked_up : Option (ℕ → AuthResult User) → ℕ × ℕ → TokenResult Principal
looked_up none (user, expires) = denied missing_lookup
looked_up (some users) (user, expires) = principal_of (users user) expires

abbrev pub with_identity : Option (ℕ → AuthResult User) → Option (ℕ × ℕ) → TokenResult Principal
with_identity users none = denied unauthorized
with_identity users (some identity) = looked_up users identity

-- `authenticateToken`, of the token that a request carries.
abbrev pub authenticate_token :
    TokenEnv → ℕ → Option Bytes → Bytes → Option (ℕ → AuthResult User) → TokenResult Principal
authenticate_token t at none secret users = denied unauthorized
authenticate_token t at (some raw) secret users =
    with_identity users (parse_access_token t raw secret at)

-- `AuthenticateREST`
unfoldable pub authenticate_rest :
    TokenEnv → ℕ → HttpRequest → Bytes → Option (ℕ → AuthResult User) → TokenResult Principal
unfolding extract_bearer_token parse_access_token
authenticate_rest t at r secret users =
    authenticate_token t at (extract_bearer_token t r.authorization) secret users

-- `AuthenticateWebSocket`
unfoldable pub authenticate_web_socket :
    TokenEnv → ℕ → HttpRequest → Bytes → Option (ℕ → AuthResult User) → TokenResult Principal
unfolding extract_web_socket_token parse_access_token
authenticate_web_socket t at r secret users =
    authenticate_token t at (extract_web_socket_token t r.authorization r.query_tokens) secret users
