-- ===== src/Gateway/Registry.antt =====
-- internal/gateway/registry.go: the one socket that an instance keeps for each user. Each method is
-- one step, with the connections that it closes after it has released the lock; closing is
-- idempotent.
pub mod Reach
use code_duel.Base.{
  ℕ, suc, ◌-◌, ◌==◌, Bool, true, false, not, Option, none, some, List, [], ◌∷◌, ◌++◌, if◌then◌else◌,
  exists_row, find_row, delete_rows, map,
}

-- A connection has an identity and a user.
pub record Connection : Type 0 where
  pub id : ℕ
  pub user_id : ℕ

-- The registry, whose map has one connection for each user in it, the connections whose flag `registered` is
-- set, and those that are closed.
pub record Registry : Type 0 where
  pub conns : List Connection
  pub serve : ℕ
  pub closed : Bool
  pub registered : List ℕ
  pub closed_conns : List ℕ

abbrev pub new_registry : Registry
new_registry = record { conns = []; serve = 0; closed = false; registered = []; closed_conns = [] }

abbrev pub holds : ℕ → List ℕ → Bool
holds id ids = exists_row (λ k. k == id) ids

abbrev pub close : Connection → Registry → Registry
close c r = record r { closed_conns = c.id ∷ r.closed_conns }

-- The map: `Get`, and what an assignment and a deletion leave.
abbrev pub of_user : ℕ → Connection → Bool
of_user user c = c.user_id == user

abbrev pub get : ℕ → Registry → Option Connection
get user r = find_row (of_user user) r.conns

abbrev pub others : ℕ → List Connection → List Connection
others user conns = delete_rows (of_user user) conns

abbrev pub register_conn : Connection → Registry → Registry
register_conn c r =
    if holds c.id r.registered
    then r
    else record r { registered = c.id ∷ r.registered; serve = suc r.serve }

abbrev pub close_previous : Option Connection → Connection → Registry → Registry
close_previous none c r = r
close_previous (some prev) c r = if prev.id == c.id then r else close prev r

-- `Add`
unfoldable pub add : Connection → Registry → Bool × Registry
add c r = if r.closed then (false, close c r) else (
  true,
  close_previous (get c.user_id r) c
      (record (register_conn c r) { conns = c ∷ others c.user_id r.conns }),
)

abbrev pub is_conn : Connection → Option Connection → Bool
is_conn c none = false
is_conn c (some d) = d.id == c.id

-- `Remove`
unfoldable pub remove : Connection → Registry → Registry
remove c r =
    if is_conn c (get c.user_id r) then record r { conns = others c.user_id r.conns } else r

-- `CloseAll`
unfoldable pub close_all : Registry → Registry
close_all r = record r {
  closed = true;
  closed_conns = map (λ (c : Connection). c.id) r.conns ++ r.closed_conns;
}

-- `Done`; a WaitGroup panics below 0.
unfoldable pub done : Connection → Registry → Registry
done c r =
    if holds c.id r.registered
    then record r { registered = delete_rows (λ k. k == c.id) r.registered; serve = r.serve - 1 }
    else r
