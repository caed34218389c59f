-- ===== src/Remote/Chain.antt =====
-- internal/remote/chain.go: reaching a host through jump hosts, each of which is leased from the pool. What
-- the credentials, the agent, the pool and the host answer for each hop are parameters; what is done
-- to them is the list of events. The leases that are held are listed with the last one first; the texts of
-- messages are left out.
pub mod Borrowed
use secure_crt.Base.{ℕ, suc, Option, none, some, List, [], ◌∷◌, ◌++◌, length, Bytes, codes}
use secure_crt.Base.Outcome.{Outcome, failed, returned}
use secure_crt.Remote.Pool.{Key, path_key}

pub record HopInfo : Type 0 where
  pub session_id : Bytes
  pub index : ℕ
  pub total : ℕ

-- An error of this package with its code, or any other.
pub data ChainError : Type 0 where
  remote_error : Bytes → Option HopInfo → ChainError
  other_error : Bytes → ChainError

-- The code of an inner error is kept.
unfoldable pub via_error : HopInfo → ChainError → ChainError
via_error info (other_error e) = remote_error (codes "internal") (some info)
via_error info (remote_error code hop) = remote_error code (some info)

-- What the parts answer for one hop, an error or none.
pub record Answers : Type 0 where
  pub credential : Option ChainError
  pub agent : Option ChainError
  pub lease : Option ChainError

pub data Event : Type 0 where
  credential_built credential_zeroed : Bytes → Event
  leased : Key → Option Key → Event
  lease_released : Key → Event
  dialled : Option Key → Event

unfoldable pub release_held : List Key → List Event
release_held [] = []
release_held (key ∷ borrowed) = lease_released key ∷ release_held borrowed

-- The last lease's client, or this host.
abbrev pub through : List Key → Option Key
through [] = none
through (key ∷ borrowed) = some key

-- What one hop gives: an error, with the events up to it, or the events before the next hop.
abbrev pub attempt : Bytes → Key → Option Key → Answers → List Event × Option ChainError
attempt id key parent answers = elim answers.credential [
  | some e ↦ ([], some e)
  | none ↦ elim answers.agent [
    | some e ↦ (credential_built id ∷ credential_zeroed id ∷ [], some e)
    | none ↦ elim answers.lease [
      | some e ↦ (credential_built id ∷ credential_zeroed id ∷ [], some e)
      | none ↦ (credential_built id ∷ leased key parent ∷ credential_zeroed id ∷ [], none)
    ]
  ]
]

module _ (user_id : Bytes) (answers : Bytes → Answers) (target : Option ChainError) where
  -- The target, through the last hop.
  abbrev pub dial_target : List Key → List Event × Outcome ChainError (List Key)
  dial_target borrowed = elim target [
    | some e ↦ (dialled (through borrowed) ∷ release_held borrowed, failed e)
    | none ↦ (dialled (through borrowed) ∷ [], returned borrowed)
  ]

  abbrev pub after_attempt :
      HopInfo
      → List Key
      → List Event × Option ChainError
      → List Event × Outcome ChainError (List Key)
      → List Event × Outcome ChainError (List Key)
  after_attempt info borrowed (events, some e) rest =
      (events ++ release_held borrowed, failed (via_error info e))
  after_attempt info borrowed (events, none) rest = (events ++ rest.0, rest.1)

  unfoldable pub dial_hops :
      ℕ → ℕ → List Key → List Bytes → List Bytes → List Event × Outcome ChainError (List Key)
  dial_hops i total borrowed route [] = dial_target borrowed
  dial_hops i total borrowed route (hop ∷ hops) =
      let key = path_key user_id route hop in
      let rest = dial_hops (suc i) total (key ∷ borrowed) (route ++ hop ∷ []) hops in
      after_attempt (record { session_id = hop; index = i; total = total }) borrowed
        (attempt hop key (through borrowed) (answers hop)) rest

  -- The leases that the connection holds, which its release gives back in this order, or an error.
  unfoldable pub dial_through : List Bytes → List Event × Outcome ChainError (List Key)
  dial_through hops = dial_hops 1 (length hops) [] [] hops
