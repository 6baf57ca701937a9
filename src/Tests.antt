-- ===== src/Tests.antt =====
-- A small system at work: two players in one active match, one of them with a running submission.
-- The calls of the environment `env` succeed.
mod Promises
mod Handlers
mod Rules
mod Queue
mod Sandbox
mod Sessions
mod Tokens
use code_duel.Base.{
  ℕ, ◌==◌, ◌<◌, ◌≡◌, refl, sym, Bytes, codes, Bool, true, false, Option, none, some, List, [], ◌∷◌,
  arith, ◌++◌,
}
use code_duel.Db.{
  python, pending, running, Submission, Match, active, MatchPlayer, ActiveClaim, Problem, Db,
}
use code_duel.Db.Invariant.{DbOk}
use code_duel.Redisx.{Stream, QueueState, QueueMember, LuaMember}
use code_duel.Redisx.Keys.{presence_key, user_channel, user_prefix}
use code_duel.World.{Site, Env, World, done, StoredTest}

abbrev pub print_id : ℕ → Bytes
print_id id = id ∷ []

abbrev pub parse_id : Bytes → Option ℕ
parse_id (id ∷ []) = some id
parse_id _ = none

-- The members of the tests: the identifier of the user, then the presence key.
abbrev pub member_of : Bytes → Option QueueMember
member_of [] = none
member_of (user ∷ key) =
    some (record {
      user_id = user;
      presence = key;
      route = user_prefix ++ print_id user;
      rating = 1000;
    })

abbrev pub lua_member_of : Bytes → Option LuaMember
lua_member_of [] = none
lua_member_of (user ∷ key) = some (record {
  user_id = some (print_id user);
  presence = some key;
  route = some (user_prefix ++ print_id user);
  has_rating = true;
})

abbrev pub one_test : List StoredTest
one_test = record { input = some []; expected = some [] } ∷ []

abbrev pub env : Env
env = record {
  fault = λ _. done;
  clock = λ _. 100;
  fresh = λ _. 50;
  decode_tests = λ _. some one_test;
  array_length = λ _. some 1;
  utf8_valid = λ _. true;
  parse_uuid = parse_id;
  show_uuid = print_id;
  sha1_id = λ s. 1;
  trim_space = λ s. s;
  encode_json = λ m. m.user_id ∷ m.presence;
  decode_json = member_of;
  lua_decode = lua_member_of;
}

abbrev pub running_submission : Submission
running_submission = record {
  id = 20;
  match_id = 5;
  player_id = 1;
  request_id = 60;
  language = python;
  code = 1 ∷ [];
  status = running;
  result = none;
  failure_kind = none;
  tests_passed = 0;
  attempts = 1;
  attempt_token = some 33;
  lease_until = some 90;
  last_enqueued_at = some 10;
  created_at = 5;
  finished_at = none;
}

abbrev pub pending_submission : Submission
pending_submission = record running_submission {
  id = 21;
  player_id = 2;
  request_id = 61;
  status = pending;
  attempts = 0;
  attempt_token = none;
  lease_until = none;
}

abbrev pub duel : Match
duel = record {
  id = 5;
  problem_id = 9;
  status = active;
  winner_id = none;
  deadline = 1000;
  created_at = 1;
}

abbrev pub db : Db
db = record {
  users = 1 ∷ 2 ∷ 3 ∷ 4 ∷ [];
  problems = record { id = 9; test_cases = []; created_at = 0 } ∷ [];
  matches = duel ∷ [];
  match_players =
      record { match_id = 5; user_id = 1; slot = 1 }
      ∷ record { match_id = 5; user_id = 2; slot = 2 }
      ∷ [];
  active_claims = record { user_id = 1; match_id = 5 } ∷ record { user_id = 2; match_id = 5 } ∷ [];
  submissions = running_submission ∷ pending_submission ∷ [];
}

abbrev pub world : World
world = record {
  durable = db;
  working = db;
  jobs = record { entries = []; pending = []; last_id = 0; last_delivered = 0 };
  queue = record { ordered = []; members = λ _. none; last_score = 0; presence = [] };
  sent = [];
}

abbrev pub member : ℕ → QueueMember
member user = record {
  user_id = user;
  presence = presence_key env user 70;
  route = user_channel env user;
  rating = 1000;
}

pub db-DbOk : DbOk 3 db
db-DbOk = record {
  submissions_ok = record {
    key = (refl, (refl, tt));
    sound = (
      record {
        open_unsettled = λ _. refl;
        completed_settled = λ h. cc;
        idle_untaken = λ h. cc;
        running_taken = λ _. refl;
        pending_may_run = λ h. cc;
        attempts_capped = ground arith;
      },
      (
        record {
          open_unsettled = λ _. refl;
          completed_settled = λ h. cc;
          idle_untaken = λ _. refl;
          running_taken = λ h. cc;
          pending_may_run = λ _. ground arith;
          attempts_capped = ground arith;
        },
        tt,
      ),
    );
    submitted = (refl, (refl, tt));
  };
  matches_ok = record {
    key = (refl, tt);
    settled = (record { active_open = λ _. refl; winner_played = λ u h. cc }, tt);
    stored = (refl, (refl, tt));
    live = (refl, (refl, tt));
    held = (λ _. refl, (λ _. refl, tt));
    one_each = (refl, (refl, tt));
  };
}
