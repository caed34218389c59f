-- ===== src/Tunnel/Tests.antt =====
-- Runs of the SOCKS handshake at concrete inputs.
use secure_crt.Base.{◌≡◌, refl, false, [], ◌∷◌, ◌++◌, arith, codes}
use secure_crt.Base.Outcome.{returned, failed}
use secure_crt.Tunnel.Socks.{
  socks_handshake, socks_reply, methods_of, request_of, read_full, offers_no_auth, bad_command,
}
use secure_crt.Tunnel.Socks.Request.{host_name, greeting_of, connect_to, socks_handshake-connect_to}

socks_handshake-connect_to_example :
    socks_handshake
      (λ ip. ip)
      false
      (greeting_of (2 ∷ 0 ∷ []) ++ (connect_to (host_name 114 (codes "outer")) 22 ++ codes "SSH"))
    ≡ record { written = 5 ∷ 0 ∷ []; outcome = returned (codes "router", 22); unread = codes "SSH" }
unfolding offers_no_auth
socks_handshake-connect_to_example =
    socks_handshake-connect_to (λ ip. ip) (2 ∷ 0 ∷ []) (host_name 114 (codes "outer")) 22
      (codes "SSH") refl tt (omega arith)

-- BIND is refused with the reply for a command that is not there.
bind_refused :
    socks_handshake (λ ip. ip) false (5 ∷ 1 ∷ 0 ∷ 5 ∷ 2 ∷ 0 ∷ 1 ∷ [])
    ≡ record { written = 5 ∷ 0 ∷ socks_reply 7; outcome = failed (bad_command 2); unread = [] }
unfolding socks_handshake methods_of request_of read_full offers_no_auth socks_reply
bind_refused = refl
