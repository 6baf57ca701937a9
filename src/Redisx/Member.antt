-- ===== src/Redisx/Member.antt =====
-- internal/redisx/member.go: what a member of the queue has to say about itself.
use code_duel.Base.{
  ℕ, ◌==◌, Bytes, bytes_eq, codes, Bool, false, not, ◌&&◌, Option, none, some, [], ◌∷◌, ◌++◌,
  if◌then◌else◌,
}
use code_duel.Redisx.{QueueMember}
use code_duel.Redisx.Keys.{presence_prefix, user_channel}
use code_duel.World.{Env}

-- `strings.HasPrefix` and `strings.TrimPrefix` at once: the rest of a text after a prefix.
unfoldable pub after_prefix : Bytes → Bytes → Option Bytes
after_prefix [] text = some text
after_prefix (c ∷ prefix) [] = none
after_prefix (c ∷ prefix) (d ∷ text) =
    let rest = after_prefix prefix text in if c == d then rest else none

abbrev pub member_prefix : Env → ℕ → Bytes
member_prefix e user = presence_prefix ++ (e.show_uuid user ++ codes ":")

abbrev pub valid_connection : Env → Option Bytes → Bool
valid_connection e none = false
valid_connection e (some raw) = elim (e.parse_uuid raw) [ none ↦ false | some id ↦ not (id == 0) ]

-- `QueueMember.Validate`
unfoldable pub valid_member : Env → QueueMember → Bool
unfolding after_prefix
valid_member e m =
    not (m.user_id == 0)
    && not (bytes_eq (e.trim_space m.presence) [])
    && not (bytes_eq (e.trim_space m.route) [])
    && bytes_eq m.route (user_channel e m.user_id)
    && valid_connection e (after_prefix (member_prefix e m.user_id) m.presence)
