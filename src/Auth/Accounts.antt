-- ===== src/Auth/Accounts.antt =====
-- What registration promises to login, and to the accounts that exist.
use code_duel.Base.{
  Bytes, bytes_eq_refl, Bool, true, false, not, Option, none, some, List, [], ◌∷◌, ◌++◌, ◌≡◌, refl,
  inl, inr, Bool-cases, if◌then◌else◌, exists_row, find_row-none, find_row-add,
}
use code_duel.World.{Fault, done, refused, unacknowledged}
use code_duel.Auth.{
  AuthEnv, granted, rejected, email_taken, invalid_password, missing_database, User, Account, equal,
  has_email, normalize_email, valid_password, new_account, inserted_as, insert_account,
  store_hashed, register_as, register, login_as, login,
}

granted_inj : {u v : User} → granted u ≡ granted v → u ≡ v
granted_inj h = cc

-- What a registration that succeeds has stored.
abbrev Stored : AuthEnv → Bytes → Bytes → List Account → User → List Account → Type 0
Stored a email password accounts user later =
    (valid_password a password ≡ true)
    × (a.has_database ≡ true)
    × ((hash : Bytes) × (a.hash password ≡ some hash)
        × (exists_row (has_email email) accounts ≡ false)
        × ((new_account a email hash).user ≡ user)
        × (later ≡ accounts ++ new_account a email hash ∷ []))

inserted_as-granted :
    (f : Fault) (account : Account) (accounts : List Account) (user : User)
    → (inserted_as f account accounts).0 ≡ granted user
    → (account.user ≡ user) × ((inserted_as f account accounts).1 ≡ accounts ++ account ∷ [])
inserted_as-granted done account accounts user h = (granted_inj h, refl)
inserted_as-granted refused account accounts user h = cc
inserted_as-granted unacknowledged account accounts user h = cc

insert_account-granted :
    (a : AuthEnv) (account : Account) (accounts : List Account) (user : User)
    → (insert_account a account accounts).0 ≡ granted user
    → (exists_row (has_email account.user.email) accounts ≡ false)
      × (account.user ≡ user)
      × ((insert_account a account accounts).1 ≡ accounts ++ account ∷ [])
unfolding insert_account
insert_account-granted a account accounts user h =
    elim (Bool-cases (exists_row (has_email account.user.email) accounts)) [
      | inl taken ↦ never (rw taken at h)
      | inr new ↦
          let (same, stored) =
            inserted_as-granted a.inserting account accounts user (rw new at h) in
          rw new (refl, same, stored)
    ]
  where
    never :
        rejected email_taken ≡ granted user
        → (exists_row (has_email account.user.email) accounts ≡ false)
          × (account.user ≡ user)
          × ((insert_account a account accounts).1 ≡ accounts ++ account ∷ [])
    never e = cc

register_as-Stored :
    (a : AuthEnv) (email password : Bytes) (accounts : List Account) (user : User)
    → (register_as a (some email) password accounts).0 ≡ granted user
    → Stored a email password accounts user (register_as a (some email) password accounts).1
register_as-Stored a email password accounts user h =
    go (valid_password a password) a.has_database (a.hash password) refl refl refl h
  where
    go :
        (valid has_db : Bool) (o : Option Bytes)
        → valid_password a password ≡ valid
        → a.has_database ≡ has_db
        → a.hash password ≡ o
        → (if not valid
            then (rejected invalid_password, accounts)
            else if not has_db
            then (rejected missing_database, accounts)
            else store_hashed a email o accounts).0
          ≡ granted user
        → Stored a email password accounts user
            (if not valid
              then (rejected invalid_password, accounts)
              else if not has_db
              then (rejected missing_database, accounts)
              else store_hashed a email o accounts).1
    go false has_db o v d k h = cc
    go true false o v d k h = cc
    go true true none v d k h = cc
    go true true (some hash) v d k h =
        let (new, same, stored) =
          insert_account-granted a (new_account a email hash) accounts user h in
        (v, d, (hash, k, new, same, stored))

-- A user who registered can log in: where a registration returns a user, a login with the same address
-- and password against the accounts that it left returns that user, if bcrypt accepts a password
-- against the hash that it made of it, and the lookup in the database works.
pub login_registered :
    (a : AuthEnv) (raw password : Bytes) (accounts : List Account) (user : User)
    → ((hash : Bytes) → a.hash password ≡ some hash → a.compare_hash hash password ≡ equal)
    → a.lookup_works ≡ true
    → (register a raw password accounts).0 ≡ granted user
    → login a raw password (register a raw password accounts).1 ≡ granted user
unfolding register login
login_registered a raw password accounts user accepts works h = go (normalize_email a raw) h
  where
    found :
        (email : Bytes) (later : List Account)
        → Stored a email password accounts user later
        → login_as a (some email) password later ≡ granted user
    found email later (valid, has_db, (hash, made, new, same, stored)) =
        rw
          (
            valid,
            has_db,
            works,
            stored,
            find_row-add (has_email email) accounts (new_account a email hash)
                (find_row-none (has_email email) accounts new) (bytes_eq_refl email),
            accepts hash made,
            same,
          )
          refl

    go :
        (o : Option Bytes)
        → (register_as a o password accounts).0 ≡ granted user
        → login_as a o password (register_as a o password accounts).1 ≡ granted user
    go none h = cc
    go (some email) h =
        found email (register_as a (some email) password accounts).1
          (register_as-Stored a email password accounts user h)
