-- ===== src/Remote/Tests.antt =====
-- Runs of the pool at concrete inputs.
use secure_crt.Base.{
  ◌<◌, ◌≡◌, ◌≢◌, ◌⊎◌, refl, true, none, some, if◌then◌else◌, Bytes, [], ◌∷◌, arith, codes, bytes_eq,
}
use secure_crt.Remote.Pool.{
  Key, path_key, join_hops, key_eq, lookup, acquire, connected, finish_dial, release, evict,
}
use secure_crt.Remote.Pool.System.{
  System, start, acquires, dial_ends, lease_released, acquiring, dialled, releasing, Reach, empty,
  then_, join_users,
}
use secure_crt.Remote.Pool.Counts.{one_if, closes, gives}
use secure_crt.Remote.Chain.{
  Answers, other_error, Event, credential_built, credential_zeroed, leased, release_held, dial_hops,
  dial_through,
}
use secure_crt.Remote.Chain.Borrowed.{Orderly, held_after, dial_through-Orderly}
use secure_crt.Remote.Pool.Leases.{leased-open, idle-closed, waiting-progress}

abbrev key : Key
key = record { user_id = codes "u"; session_id = codes "s"; via = codes "b" }

key_of_path : path_key (codes "u") (codes "b" ∷ []) (codes "s") ≡ key
unfolding path_key join_hops
key_of_path = refl

-- One caller dials, another waits.
abbrev both : System
both = acquires (acquires (start key) key) key

-- The dial succeeds, and the first caller releases.
abbrev connected_then : System
connected_then = dial_ends (acquires (start key) key) 0 (connected true)

both-Reach : Reach both
both-Reach = then_ (then_ (empty key) (acquiring key)) (acquiring key)

waiting-progress_example : ((both.pool.entries 0).ready ≡ true) ⊎ (0 < (both.users 0).dialling)
unfolding acquires acquire join_users lookup key_eq bytes_eq
waiting-progress_example = waiting-progress both 0 both-Reach refl (omega arith)

connected-Reach : Reach connected_then
unfolding acquires acquire join_users lookup
connected-Reach =
    then_ (then_ (empty key) (acquiring key)) (dialled 0 (connected true) (omega arith))

leased-open_example :
    ((connected_then.pool.entries 0).ready ≡ true)
    × ((connected_then.pool.entries 0).has_client ≡ true)
    × (closes 0 connected_then.pool.effects ≡ 0)
    × (gives 0 connected_then.pool.effects ≡ 0)
unfolding acquires acquire join_users lookup dial_ends finish_dial
leased-open_example = leased-open connected_then 0 connected-Reach refl (omega arith)

abbrev let_go_of : System
let_go_of = lease_released connected_then 0

let_go-Reach : Reach let_go_of
unfolding acquires acquire join_users lookup dial_ends finish_dial
let_go-Reach = then_ connected-Reach (releasing 0 (omega arith))

idle-closed_example :
    (closes 0 let_go_of.pool.effects ≡ one_if (let_go_of.pool.entries 0).has_client)
    × (gives 0 let_go_of.pool.effects ≡ one_if (let_go_of.pool.entries 0).has_release)
    × ((k : Key) → lookup k let_go_of.pool.conns ≢ some 0)
unfolding acquires acquire join_users lookup dial_ends finish_dial lease_released release evict
idle-closed_example = idle-closed let_go_of 0 let_go-Reach refl (omega arith) refl refl refl

-- The first hop is leased and the second one's login fails.
abbrev second_refused : Bytes → Answers
second_refused hop = record {
  credential = none;
  agent = none;
  lease = if bytes_eq hop (codes "b2") then some (other_error (codes "e")) else none;
}

dial_through-Orderly_example :
    Orderly none []
      (dial_through (codes "u") second_refused none (codes "b1" ∷ codes "b2" ∷ [])).0
      (held_after (dial_through (codes "u") second_refused none (codes "b1" ∷ codes "b2" ∷ [])).1)
dial_through-Orderly_example =
    dial_through-Orderly (codes "u") second_refused none (codes "b1" ∷ codes "b2" ∷ [])

first_given_back :
    (dial_through (codes "u") second_refused none (codes "b1" ∷ codes "b2" ∷ [])).0
    ≡ credential_built (codes "b1")
      ∷ leased (path_key (codes "u") [] (codes "b1")) none
      ∷ credential_zeroed (codes "b1")
      ∷ credential_built (codes "b2")
      ∷ credential_zeroed (codes "b2")
      ∷ Event.lease_released (path_key (codes "u") [] (codes "b1"))
      ∷ []
unfolding dial_through dial_hops release_held bytes_eq
first_given_back = refl
