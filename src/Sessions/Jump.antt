-- ===== src/Sessions/Jump.antt =====
-- internal/sessions/jump.go: the hosts that a connection is reached through. The queries of the
-- store are a parameter, for one owner; the set of visited hosts is a function, handed on as the
-- code's map is.
pub mod Route
pub mod Arrival
pub mod Stored
use secure_crt.Base.{
  ℕ, zero, suc, ◌+◌, ◌≡◌, Bool, true, false, not, ◌||◌, List, [], ◌∷◌, ◌++◌, ltb, if◌then◌else◌,
  Bytes, bytes_eq, length,
}
use secure_crt.Base.Outcome.{Outcome, failed, returned, ◌>>=◌}

abbrev pub max_jump_chain : ℕ
max_jump_chain = 8

pub data Protocol : Type 0 where
  protocol_ssh protocol_telnet protocol_serial : Protocol

abbrev pub is_ssh : Protocol → Bool
is_ssh protocol_ssh = true
is_ssh _ = false

-- A saved connection, as far as the walk reads it.
pub record Hop : Type 0 where
  pub id : Bytes
  pub protocol : Protocol
  pub jump_chain : List Bytes

pub data StoreError : Type 0 where
  not_found database_failure : StoreError

pub data JumpError : Type 0 where
  jump_not_found jump_self jump_cycle jump_too_long jump_protocol : JumpError
  lookup_failed : StoreError → JumpError

-- `GetSession` and `Resolve`, which look a connection up by its id.
pub record Store : Type 0 where
  pub get_session : Bytes → Outcome StoreError Hop
  pub resolve : Bytes → Outcome StoreError Hop
  pub id-resolve : (hop : Bytes) {r : Hop} → resolve hop ≡ returned r → r.id ≡ hop

abbrev pub Visited : Type 0
Visited = Bytes → Bool

abbrev pub visit : Visited → Bytes → Visited
visit visited hop j = bytes_eq j hop || visited j

abbrev pub is_none : {A : Type 0} → List A → Bool
is_none [] = true
is_none (x ∷ xs) = false

abbrev pub or_jump_error : Outcome StoreError Hop → Outcome JumpError Hop
or_jump_error (returned r) = returned r
or_jump_error (failed not_found) = failed jump_not_found
or_jump_error (failed e) = failed (lookup_failed e)

abbrev pub only_ssh : Hop → Outcome JumpError Hop
only_ssh r = if is_ssh r.protocol then returned r else failed jump_protocol

abbrev pub bounded : List Hop → Outcome JumpError (List Hop)
bounded route = if ltb max_jump_chain (length route) then failed jump_too_long else returned route

abbrev pub Walk : Type 0
Walk = Outcome JumpError (List Hop × Visited)

-- The levels of `walkChain`, from depth 0 on.
abbrev pub levels : ℕ
levels = suc max_jump_chain

abbrev pub nothing_visited : Visited
nothing_visited j = false

abbrev pub from_session : Bytes → Visited
from_session session_id =
    if is_none session_id then nothing_visited else visit nothing_visited session_id

abbrev found : Outcome StoreError Hop → Outcome JumpError Hop
found (returned r) = returned r
found (failed e) = failed (lookup_failed e)

module _ (store : Store) where
  -- A hop that has not been visited, looked up.
  unfoldable pub arrive : Visited → Bytes → Outcome JumpError Hop
  arrive visited hop =
      if visited hop then failed jump_cycle else (or_jump_error (store.resolve hop) >>= only_ssh)

  module _ (inner : List Bytes → Visited → Walk) where
    abbrev pub own_chain : Hop → Visited → Walk
    own_chain r visited =
        if is_none r.jump_chain then returned ([], visited) else inner r.jump_chain visited

    -- The loop of `walkChain` over one chain; `inner` is the call for a hop's own chain.
    unfoldable pub walk_hops : List Bytes → Visited → List Hop → Walk
    walk_hops [] visited route = returned (route, visited)
    walk_hops (hop ∷ hops) visited route = arrive visited hop >>= λ r.
        own_chain r (visit visited hop) >>= λ walked.
        bounded (route ++ walked.0 ++ r ∷ []) >>= λ longer. walk_hops hops walked.1 longer

  -- `walkChain`. The first argument is how many levels are left: 9 at depth 0.
  unfoldable pub walk_chain : ℕ → List Bytes → Visited → Walk
  walk_chain zero chain visited = failed jump_too_long
  walk_chain (suc left) chain visited = walk_hops (walk_chain left) chain visited []

  -- The checks of `ValidateJumpChain` on the hops themselves.
  unfoldable pub check_hops : Bytes → Visited → List Bytes → Outcome JumpError (Unit {0})
  check_hops session_id seen [] = returned tt
  check_hops session_id seen (hop ∷ hops) =
      (if is_none hop
        then failed jump_not_found
        else if bytes_eq hop session_id
        then failed jump_self
        else if seen hop
        then failed jump_cycle
        else (or_jump_error (store.get_session hop) >>= only_ssh))
      >>= λ r. check_hops session_id (visit seen hop) hops

  unfoldable pub validate_jump_chain : Bytes → List Bytes → Outcome JumpError (Unit {0})
  validate_jump_chain session_id chain =
      if is_none chain
      then returned tt
      else if ltb max_jump_chain (length chain)
      then failed jump_too_long
      else (check_hops session_id nothing_visited chain >>= λ _.
          walk_chain levels chain (from_session session_id) >>= λ _. returned tt)

  unfoldable pub expand_jump_chain : Bytes → Outcome JumpError (List Hop)
  expand_jump_chain session_id = found (store.get_session session_id) >>= λ session.
      if is_none session.jump_chain
      then returned []
      else (walk_chain levels session.jump_chain (visit nothing_visited session_id) >>= λ walked.
          returned walked.0)
