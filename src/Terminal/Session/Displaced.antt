-- ===== src/Terminal/Session/Displaced.antt =====
-- session.go and bridge.go: `Run` defers a `Detach` that does not name the channel it was given.
use secure_crt.Base.{arith, ℕ, suc, ◌≡◌, refl, false, none, some}
use secure_crt.Terminal.Session.{Terminal, attach, detach}
use secure_crt.Terminal.Session.Lifecycle.{attach-IsSound}
use secure_crt.Terminal.Session.Sound.{IsSound, detach_shuts, attach_live}

-- A live terminal is attached to, a second browser attaches, and the first one's bridge returns: nobody is
-- attached, the second browser's channel is closed, and the terminal counts as detached from then.
pub displaced_detaches :
    (t : Terminal) (now : ℕ)
    → IsSound t
    → t.closed ≡ false
    → let u = detach (attach (attach t).0).0 now in
      (u.attached ≡ none)
      × ((u.channels (suc t.next_channel)).open_ ≡ false)
      × (u.detached_at ≡ some now)
unfolding detach
displaced_detaches t now s c =
    let first = attach_live t c s in
    let kept = attach-IsSound t s in
    let second = attach_live (attach t).0 first.0 kept in
    (
      refl,
      detach_shuts (attach (attach t).0).0 now (suc t.next_channel)
          (omega (arith, first.1, second.1)) (attach-IsSound (attach t).0 kept),
      refl,
    )
