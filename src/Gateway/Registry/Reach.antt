-- ===== src/Gateway/Registry/Reach.antt =====
-- What holds of the registry whatever methods the connections call, in any order.
use code_duel.Base.{
  ℕ, suc, ◌-◌, ◌==◌, eq→==, ==→eq, Bool, true, false, Option, none, some, List, [], ◌∷◌, ◌++◌, map,
  ◌≡◌, refl, ◌∙◌, ap, inl, inr, arith, Bool-cases, if◌then◌else◌, length, All, All-implies,
  All-delete_rows, delete_rows,
}
use code_duel.Gateway.Registry.{
  Connection, Registry, new_registry, holds, close, of_user, get, others, register_conn,
  close_previous, add, is_conn, remove, close_all, done,
}

-- Different keys.
abbrev pub Unique : {A : Type 0} → (A → ℕ) → List A → Type 0
Unique key [] = Unit
Unique key (x ∷ xs) = All (λ y. (key y == key x) ≡ false) xs × Unique key xs

-- The WaitGroup counts the registered connections, each user has one connection in the map, and a
-- closed registry has only closed connections.
pub record RegistryOk (r : Registry) : Type 0 where
  pub counted : r.serve ≡ length r.registered
  pub registered_once : Unique (λ id. id) r.registered
  pub one_each : Unique (λ (c : Connection). c.user_id) r.conns
  pub shut : r.closed ≡ true → All (λ (c : Connection). holds c.id r.closed_conns ≡ true) r.conns

Unique-delete_rows :
    {A : Type 0} (key : A → ℕ) (del : A → Bool) (xs : List A)
    → Unique key xs
    → Unique key (delete_rows del xs)
Unique-delete_rows key del [] h = tt
Unique-delete_rows key del (x ∷ xs) h = elim (Bool-cases (del x)) [
  | inl gone ↦ rw gone (Unique-delete_rows key del xs h.1)
  | inr kept ↦ rw kept (All-delete_rows _ del xs h.0, Unique-delete_rows key del xs h.1)
]

others_differ :
    (user : ℕ) (conns : List Connection)
    → All (λ (c : Connection). (c.user_id == user) ≡ false) (others user conns)
others_differ user [] = tt
others_differ user (c ∷ conns) = elim (Bool-cases (c.user_id == user)) [
  | inl gone ↦ rw gone (others_differ user conns)
  | inr kept ↦ rw kept (kept, others_differ user conns)
]

absent_differs : (id : ℕ) (ids : List ℕ) → holds id ids ≡ false → All (λ k. (k == id) ≡ false) ids
absent_differs id [] h = tt
absent_differs id (k ∷ ids) h = (ground arith, absent_differs id ids (ground arith))

-- One of distinct identifiers goes.
length-delete_one :
    (id : ℕ) (ids : List ℕ)
    → Unique (λ k. k) ids
    → holds id ids ≡ true
    → suc (length (delete_rows (λ k. k == id) ids)) ≡ length ids
length-delete_one id [] u h = cc
length-delete_one id (k ∷ ids) u h = elim (Bool-cases (k == id)) [
  | inl hit ↦ rw hit (ap suc (ap length (unchanged ids (rw (==→eq k id hit) at u.0))))
  | inr miss ↦ rw miss (ap suc (length-delete_one id ids u.1 (rw miss at h)))
]
  where
    unchanged : (xs : List ℕ) → All (λ y. (y == id) ≡ false) xs → delete_rows (λ k. k == id) xs ≡ xs
    unchanged [] h = refl
    unchanged (x ∷ xs) h = rw (h.0, unchanged xs h.1) refl

register_conn-RegistryOk :
    (c : Connection) (r : Registry) → RegistryOk r → RegistryOk (register_conn c r)
register_conn-RegistryOk c r h = elim (Bool-cases (holds c.id r.registered)) [
  | inl known ↦ rw known h
  | inr new ↦ rw new (record {
    counted = ap suc h.counted;
    registered_once = (absent_differs c.id r.registered new, h.registered_once);
    one_each = h.one_each;
    shut = h.shut;
  })
]

-- The registry of an open instance with a new current connection of a user.
inserted :
    (c : Connection) (r q : Registry)
    → q.closed ≡ false
    → RegistryOk r
    → RegistryOk q
    → RegistryOk (record q { conns = c ∷ others c.user_id r.conns })
inserted c r q is_open h k = record {
  counted = k.counted;
  registered_once = k.registered_once;
  one_each = (
    others_differ c.user_id r.conns,
    Unique-delete_rows _ (of_user c.user_id) r.conns h.one_each,
  );
  shut = λ is_shut. cc;
}

close-RegistryOk : (c : Connection) (r : Registry) → RegistryOk r → RegistryOk (close c r)
close-RegistryOk c r h = record {
  counted = h.counted;
  registered_once = h.registered_once;
  one_each = h.one_each;
  shut = λ is_shut. All-implies _ _ r.conns (λ d there. ground arith) (h.shut is_shut);
}

close_previous-RegistryOk :
    (o : Option Connection) (c : Connection) (r : Registry)
    → RegistryOk r
    → RegistryOk (close_previous o c r)
close_previous-RegistryOk none c r h = h
close_previous-RegistryOk (some prev) c r h = elim (Bool-cases (prev.id == c.id)) [
  | inl same ↦ rw same h
  | inr other ↦ rw other (close-RegistryOk prev r h)
]

register_conn-closed : (c : Connection) (r : Registry) → (register_conn c r).closed ≡ r.closed
register_conn-closed c r = elim (Bool-cases (holds c.id r.registered)) [
  | inl known ↦ rw known refl
  | inr new ↦ rw new refl
]

add-RegistryOk : (c : Connection) (r : Registry) → RegistryOk r → RegistryOk (add c r).1
unfolding add
add-RegistryOk c r h = go r.closed refl
  where
    opened : Registry
    opened = record (register_conn c r) { conns = c ∷ others c.user_id r.conns }

    go :
        (b : Bool)
        → r.closed ≡ b
        → RegistryOk
            (if◌then◌else◌ {A = Bool × Registry} b
              (false, close c r)
              (true, close_previous (get c.user_id r) c opened)).1
    go true is_shut = close-RegistryOk c r h
    go false is_open = close_previous-RegistryOk (get c.user_id r) c opened (
        inserted c r (register_conn c r) (register_conn-closed c r ∙ is_open) h
          (register_conn-RegistryOk c r h))

remove-RegistryOk : (c : Connection) (r : Registry) → RegistryOk r → RegistryOk (remove c r)
unfolding remove
remove-RegistryOk c r h = elim (Bool-cases (is_conn c (get c.user_id r))) [
  | inr other ↦ rw other h
  | inl current ↦ rw current (record {
    counted = h.counted;
    registered_once = h.registered_once;
    one_each = Unique-delete_rows _ (of_user c.user_id) r.conns h.one_each;
    shut = λ is_shut. All-delete_rows _ (of_user c.user_id) r.conns (h.shut is_shut);
  })
]

map_holds :
    (conns : List Connection) (rest : List ℕ)
    → All
        (λ (c : Connection). holds c.id (map (λ (d : Connection). d.id) conns ++ rest) ≡ true)
        conns
map_holds [] rest = tt
map_holds (c ∷ conns) rest = (
  rw (eq→== c.id c.id refl) refl,
  All-implies _ _ conns (λ d there. ground arith) (map_holds conns rest),
)

close_all-RegistryOk : (r : Registry) → RegistryOk r → RegistryOk (close_all r)
unfolding close_all
close_all-RegistryOk r h = record {
  counted = h.counted;
  registered_once = h.registered_once;
  one_each = h.one_each;
  shut = λ _. map_holds r.conns r.closed_conns;
}

done-RegistryOk : (c : Connection) (r : Registry) → RegistryOk r → RegistryOk (done c r)
unfolding done
done-RegistryOk c r h = elim (Bool-cases (holds c.id r.registered)) [
  | inr unknown ↦ rw unknown h
  | inl known ↦ rw known (record {
    counted = one_less (length-delete_one c.id r.registered h.registered_once known) h.counted;
    registered_once = Unique-delete_rows _ (λ k. k == c.id) r.registered h.registered_once;
    one_each = h.one_each;
    shut = h.shut;
  })
]
  where
    one_less : {m n k : ℕ} → suc m ≡ n → k ≡ n → k - 1 ≡ m
    one_less a b = ground arith

-- The methods that connections call.
pub data Step : Registry → Registry → Type 0 where
  adds : (c : Connection) (r : Registry) → Step r (add c r).1
  removes : (c : Connection) (r : Registry) → Step r (remove c r)
  finishes : (c : Connection) (r : Registry) → Step r (done c r)
  closes : (r : Registry) → Step r (close_all r)

pub data Reaches : Registry → Registry → Type 0 where
  here : (r : Registry) → Reaches r r
  then_step : {q r s : Registry} → Reaches q r → Step r s → Reaches q s

Step-RegistryOk : (r s : Registry) → Step r s → RegistryOk r → RegistryOk s
Step-RegistryOk r s (adds c _) h = add-RegistryOk c r h
Step-RegistryOk r s (removes c _) h = remove-RegistryOk c r h
Step-RegistryOk r s (finishes c _) h = done-RegistryOk c r h
Step-RegistryOk r s (closes _) h = close_all-RegistryOk r h

-- Whatever methods are called on a new registry, in any order: its WaitGroup counts the registered
-- connections, so it never falls below 0, no user has two connections in it, and after CloseAll every
-- connection in it is closed.
pub reaches-RegistryOk : (r : Registry) → Reaches new_registry r → RegistryOk r
reaches-RegistryOk r run =
    go new_registry r run
      (record { counted = refl; registered_once = tt; one_each = tt; shut = λ _. tt })
  where
    go : (q r : Registry) → Reaches q r → RegistryOk q → RegistryOk r
    go q r (here _) h = h
    go q r (then_step {r = mid} run step) h = Step-RegistryOk mid r step (go q mid run h)
