-- ===== src/Remote/Chain/Borrowed.antt =====
-- internal/remote/chain.go: what a chain borrows it holds or gives back, the last first.
use secure_crt.Base.{ℕ, suc, ◌≡◌, refl, Option, none, some, List, [], ◌∷◌, ◌++◌, length, Bytes}
use secure_crt.Base.Outcome.{Outcome, failed, returned}
use secure_crt.Remote.Pool.{Key, path_key}
use secure_crt.Remote.Chain.{
  HopInfo, ChainError, Answers, Event, credential_built, credential_zeroed, leased, lease_released,
  dialled, release_held, through, attempt, dial_target, after_attempt, dial_hops, dial_through,
}

-- Events as moves of a stack of leases, and of the credential that is decrypted: each lease and each dial
-- goes through the top of the stack, a release takes the top, and a credential is zeroed before the next
-- is built and at the end.
abbrev pub Orderly : Option Bytes → List Key → List Event → List Key → Type 0
Orderly open_ stack [] last = (open_ ≡ none) × (stack ≡ last)
Orderly open_ stack (credential_built id ∷ events) last =
    (open_ ≡ none) × Orderly (some id) stack events last
Orderly open_ stack (credential_zeroed id ∷ events) last =
    (open_ ≡ some id) × Orderly none stack events last
Orderly open_ stack (leased key parent ∷ events) last =
    (parent ≡ through stack) × Orderly open_ (key ∷ stack) events last
Orderly open_ stack (lease_released key ∷ events) last =
    (rest : List Key) × (stack ≡ key ∷ rest) × Orderly open_ rest events last
Orderly open_ stack (dialled parent ∷ events) last =
    (parent ≡ through stack) × Orderly open_ stack events last

abbrev pub held_after : Outcome ChainError (List Key) → List Key
held_after (failed e) = []
held_after (returned borrowed) = borrowed

release_held-Orderly : (borrowed : List Key) → Orderly none borrowed (release_held borrowed) []
unfolding release_held
release_held-Orderly [] = (refl, refl)
release_held-Orderly (key ∷ borrowed) = (borrowed, refl, release_held-Orderly borrowed)

module _ (user_id : Bytes) (answers : Bytes → Answers) (target : Option ChainError) where
  abbrev OrderlyRun : List Key → List Event × Outcome ChainError (List Key) → Type 0
  OrderlyRun borrowed run = Orderly none borrowed run.0 (held_after run.1)

  dial_target-Orderly :
      (borrowed : List Key) → OrderlyRun borrowed (dial_target user_id answers target borrowed)
  dial_target-Orderly borrowed = ended target
    where
      ended : (t : Option ChainError) → OrderlyRun borrowed (dial_target user_id answers t borrowed)
      ended (some e) = (refl, release_held-Orderly borrowed)
      ended none = (refl, (refl, refl))

  attempt-Orderly :
      (info : HopInfo) (borrowed : List Key) (id : Bytes) (key : Key) (a : Answers)
      (rest : List Event × Outcome ChainError (List Key))
      → OrderlyRun (key ∷ borrowed) rest
      → OrderlyRun borrowed (
          after_attempt user_id answers target info borrowed
            (attempt id key (through borrowed) a)
            rest)
  attempt-Orderly info borrowed id key a rest h = by_cases a.credential a.agent a.lease
    where
      by_cases :
          (c g l : Option ChainError)
          → OrderlyRun borrowed (
              after_attempt user_id answers target info borrowed
                (attempt id key
                  (through borrowed)
                  (record { credential = c; agent = g; lease = l }))
                rest)
      by_cases (some e) g l = release_held-Orderly borrowed
      by_cases none (some e) l = (refl, (refl, release_held-Orderly borrowed))
      by_cases none none (some e) = (refl, (refl, release_held-Orderly borrowed))
      by_cases none none none = (refl, (refl, (refl, h)))

  hops-Orderly :
      (i total : ℕ) (borrowed : List Key) (route hops : List Bytes)
      → OrderlyRun borrowed (dial_hops user_id answers target i total borrowed route hops)
  unfolding dial_hops
  hops-Orderly i total borrowed route [] = dial_target-Orderly borrowed
  hops-Orderly i total borrowed route (hop ∷ hops) =
      let key = path_key user_id route hop in
      attempt-Orderly (record { session_id = hop; index = i; total = total }) borrowed hop key
        (answers hop)
        (dial_hops user_id answers target (suc i) total (key ∷ borrowed) (route ++ hop ∷ []) hops)
        (hops-Orderly (suc i) total (key ∷ borrowed) (route ++ hop ∷ []) hops)

  -- Whatever fails, on whichever hop, the leases that a chain takes nest: each is taken and dialled through the
  -- one before it, and after a failure each has been given back once, the last first, with every decrypted
  -- credential zeroed before the next is built. A chain that succeeds holds what it took, the last first.
  pub dial_through-Orderly :
      (hops : List Bytes)
      → Orderly none []
          (dial_through user_id answers target hops).0
          (held_after (dial_through user_id answers target hops).1)
  unfolding dial_through
  dial_through-Orderly hops = hops-Orderly 1 (length hops) [] [] hops
