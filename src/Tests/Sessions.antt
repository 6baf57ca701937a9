-- ===== src/Tests/Sessions.antt =====
-- A user who registers and logs in, and whose connection registers, submits, and is closed when the
-- instance shuts down.
use code_duel.Base.{Bytes, codes, true, none, some, [], ◌∷◌, ◌≡◌, refl, length, bytes_eq}
use code_duel.World.{done}
use code_duel.Proto.Inbound.{SubmitCodeData, Json}
use code_duel.Gateway.Inbound.{Conn, submit_code, decode_inbound, handle_inbound}
use code_duel.Gateway.Inbound.Valid.{checked, handle_inbound_valid}
use code_duel.Submission.{Service, accept}
use code_duel.Tests.{env, world}
use code_duel.Auth.{AuthEnv, User, equal, granted, register, login}
use code_duel.Auth.Accounts.{login_registered}
use code_duel.Gateway.Registry.{Connection, new_registry, add, close_all}
use code_duel.Gateway.Registry.Reach.{RegistryOk, reaches-RegistryOk, here, then_step, adds, closes}

abbrev address : Bytes
address = codes "ann@duel.io"

abbrev secret : Bytes
secret = codes "longenough"

abbrev accounts_env : AuthEnv
accounts_env = record {
  to_lower = λ text. text;
  trim_space = λ text. text;
  utf8_valid = λ text. true;
  rune_count = λ text. length text;
  parse_address = λ text. some text;
  hash = λ password. some password;
  compare_hash = λ hash password. equal;
  has_database = true;
  inserting = done;
  lookup_works = true;
  fresh_id = 7;
  now = 100;
}

abbrev ann : User
ann = record { id = 7; email = address; display_name = codes "ann"; created_at = 100 }

ann_registers : (register accounts_env address secret []).0 ≡ granted ann
unfolding register
ann_registers = refl

login_registered_example :
    login accounts_env address secret (register accounts_env address secret []).1 ≡ granted ann
login_registered_example =
    login_registered accounts_env address secret [] ann (λ hash made. refl) refl ann_registers

abbrev connection : Connection
connection = record { id = 1; user_id = 7 }

reaches-RegistryOk_example : RegistryOk (close_all (add connection new_registry).1)
reaches-RegistryOk_example = reaches-RegistryOk (close_all (add connection new_registry).1) (
    then_step (then_step (here new_registry) (adds connection new_registry))
      (closes (add connection new_registry).1))

-- Frames of one type, whose decoder reads everything.
abbrev submitted : SubmitCodeData
submitted = record {
  match_id = 5 ∷ [];
  request_id = 77 ∷ [];
  language = codes "python";
  code = 3 ∷ [];
}

abbrev json : Json
json = record {
  decode_frame = λ raw. some (record { kind = codes "submit_code"; body = raw }, []);
  decode_submit = λ raw. some (submitted, []);
  decode_empty = λ raw. none;
  at_eof = λ rest. bytes_eq rest [];
}

decodes_to : decode_inbound env json (1 ∷ []) ≡ submit_code submitted
unfolding decode_inbound
decodes_to = refl

abbrev service : Service
service = record { has_db = true; dispatcher = none }

abbrev conn : Conn
conn = record {
  user_id = 1;
  presence_key = [];
  route = [];
  enqueue = none;
  dequeue = none;
  accept_submission = none;
}

handle_inbound_valid_example :
    handle_inbound env json
      (record conn { accept_submission = some (checked (accept env service)) })
      (1 ∷ [])
      world
    ≡ handle_inbound env json
        (record conn { accept_submission = some (accept env service) })
        (1 ∷ [])
        world
handle_inbound_valid_example =
    handle_inbound_valid env json conn (accept env service) (1 ∷ []) world refl refl
