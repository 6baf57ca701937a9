-- ===== src/Auth.antt =====
-- internal/auth/service.go: accounts, registration and login. bcrypt, net/mail, unicode/utf8, the
-- case mapping and trimming of strings, and how the statements end are parameters.
pub mod Accounts
use code_duel.Base.{
  ℕ, suc, ◌==◌, ltb, leb, Bytes, codes, bytes_eq, Bool, true, false, not, ◌&&◌, ◌||◌, Option, none,
  some, List, [], ◌∷◌, ◌++◌, if◌then◌else◌, length, find_row, exists_row, cut,
}
use code_duel.World.{Fault, done, refused, unacknowledged}

pub data AuthError : Type 0 where
  invalid_email invalid_password email_taken invalid_credentials unknown_user : AuthError
  missing_database hash_failed insert_failed lookup_failed compare_failed : AuthError

pub data AuthResult (A : Type 0) : Type 0 where
  granted : A → AuthResult A
  rejected : AuthError → AuthResult A

pub record User : Type 0 where
  pub id : ℕ
  pub email : Bytes
  pub display_name : Bytes
  pub created_at : ℕ

-- A row of the table users; a user without a password has no hash.
pub record Account : Type 0 where
  pub user : User
  pub password_hash : Option Bytes

-- How bcrypt compares: equal, not equal, or an error.
pub data Comparison : Type 0 where
  equal mismatched compare_error : Comparison

pub record AuthEnv : Type 0 where
  pub to_lower : Bytes → Bytes
  pub trim_space : Bytes → Bytes
  pub utf8_valid : Bytes → Bool
  pub rune_count : Bytes → ℕ
  pub parse_address : Bytes → Option Bytes
  pub hash : Bytes → Option Bytes
  pub compare_hash : Bytes → Bytes → Comparison
  pub has_database : Bool
  pub inserting : Fault
  pub lookup_works : Bool
  pub fresh_id : ℕ
  pub now : ℕ

abbrev pub dummy_password_hash : Bytes
dummy_password_hash = codes "$2a$10$7EqJtq98hPqEX7fNZaFWoO5tO6M3jI1Q11khFhRvpZB2M7fS5QwNm"

abbrev pub at_sign : ℕ
at_sign = 64

unfoldable pub count_of : ℕ → Bytes → ℕ
count_of mark [] = 0
count_of mark (c ∷ text) = let rest = count_of mark text in if c == mark then suc rest else rest

abbrev pub is_address : Option Bytes → Bytes → Bool
is_address none email = false
is_address (some address) email = bytes_eq address email

abbrev pub valid_parts : AuthEnv → Option (Bytes × Bytes) → Bool
valid_parts a none = false
valid_parts a (some (local, domain)) =
    not (bytes_eq local [])
    && not (bytes_eq domain [])
    && bytes_eq (a.trim_space local) local
    && leb (a.rune_count local) 64

abbrev pub valid_email : AuthEnv → Bytes → Bool
valid_email a email =
    a.utf8_valid email
    && leb 3 (length email)
    && leb (length email) 254
    && is_address (a.parse_address email) email
    && count_of at_sign email == 1
    && valid_parts a (cut at_sign email)

-- `NormalizeEmail`
unfoldable pub normalize_email : AuthEnv → Bytes → Option Bytes
unfolding count_of cut bytes_eq
normalize_email a raw =
    let email = a.to_lower (a.trim_space raw) in if valid_email a email then some email else none

-- `ValidatePassword`
unfoldable pub valid_password : AuthEnv → Bytes → Bool
valid_password a password =
    a.utf8_valid password && leb 8 (length password) && leb (length password) 72

abbrev pub has_email : Bytes → Account → Bool
has_email email account = bytes_eq account.user.email email

abbrev pub name_of : Option (Bytes × Bytes) → Bytes → Bytes
name_of none email = email
name_of (some (local, domain)) email = local

abbrev pub new_account : AuthEnv → Bytes → Bytes → Account
new_account a email hash = record {
  user = record {
    id = a.fresh_id;
    email = email;
    display_name = name_of (cut at_sign email) email;
    created_at = a.now;
  };
  password_hash = some hash;
}

abbrev pub inserted_as : Fault → Account → List Account → AuthResult User × List Account
inserted_as done account accounts = (granted account.user, accounts ++ account ∷ [])
inserted_as refused account accounts = (rejected insert_failed, accounts)
inserted_as unacknowledged account accounts = (rejected insert_failed, accounts ++ account ∷ [])

-- INSERT INTO users, whose column email is unique.
unfoldable pub insert_account : AuthEnv → Account → List Account → AuthResult User × List Account
unfolding bytes_eq
insert_account a account accounts =
    if exists_row (has_email account.user.email) accounts
    then (rejected email_taken, accounts)
    else inserted_as a.inserting account accounts

abbrev pub store_hashed :
    AuthEnv → Bytes → Option Bytes → List Account → AuthResult User × List Account
store_hashed a email none accounts = (rejected hash_failed, accounts)
store_hashed a email (some hash) accounts = insert_account a (new_account a email hash) accounts

abbrev pub register_as :
    AuthEnv → Option Bytes → Bytes → List Account → AuthResult User × List Account
register_as a none password accounts = (rejected invalid_email, accounts)
register_as a (some email) password accounts =
    if not (valid_password a password)
    then (rejected invalid_password, accounts)
    else if not a.has_database
    then (rejected missing_database, accounts)
    else store_hashed a email (a.hash password) accounts

-- `Register`
unfoldable pub register : AuthEnv → Bytes → Bytes → List Account → AuthResult User × List Account
unfolding normalize_email valid_password insert_account
register a raw password accounts = register_as a (normalize_email a raw) password accounts

-- The comparison for an account that does not exist or has no password.
abbrev pub dummy_result : Comparison → AuthResult User
dummy_result compare_error = rejected compare_failed
dummy_result equal = rejected invalid_credentials
dummy_result mismatched = rejected invalid_credentials

abbrev pub compared : Comparison → User → AuthResult User
compared equal user = granted user
compared mismatched user = rejected invalid_credentials
compared compare_error user = rejected compare_failed

abbrev pub login_with_hash : AuthEnv → User → Option Bytes → Bytes → AuthResult User
login_with_hash a user none password = dummy_result (a.compare_hash dummy_password_hash password)
login_with_hash a user (some hash) password = compared (a.compare_hash hash password) user

abbrev pub login_found : AuthEnv → Option Account → Bytes → AuthResult User
login_found a none password = dummy_result (a.compare_hash dummy_password_hash password)
login_found a (some account) password =
    login_with_hash a account.user account.password_hash password

abbrev pub login_as : AuthEnv → Option Bytes → Bytes → List Account → AuthResult User
login_as a none password accounts = rejected invalid_credentials
login_as a (some email) password accounts =
    if not (valid_password a password)
    then rejected invalid_credentials
    else if not a.has_database
    then rejected missing_database
    else if not a.lookup_works
    then rejected lookup_failed
    else login_found a (find_row (has_email email) accounts) password

-- `Login`
unfoldable pub login : AuthEnv → Bytes → Bytes → List Account → AuthResult User
unfolding normalize_email valid_password bytes_eq
login a raw password accounts = login_as a (normalize_email a raw) password accounts

abbrev pub found_user : Option Account → AuthResult User
found_user none = rejected unknown_user
found_user (some account) = granted account.user

-- `UserByID`
unfoldable pub user_by_id : AuthEnv → ℕ → List Account → AuthResult User
user_by_id a id accounts =
    if not a.has_database
    then rejected missing_database
    else if not a.lookup_works
    then rejected lookup_failed
    else found_user (find_row (λ account. account.user.id == id) accounts)
