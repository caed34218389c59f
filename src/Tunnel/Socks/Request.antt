-- ===== src/Tunnel/Socks/Request.antt =====
-- socks5.go: what a client asks for is what the handshake returns.
use mathlib.Core.Path.{subst}
use secure_crt.Base.{
  ℕ, suc, ◌+◌, ◌*◌, ◌/◌, ◌%◌, ◌<◌, ◌≡◌, refl, ap, ◌∙◌, true, false, some, [], ◌∷◌, ◌++◌,
  append_assoc, ◌==◌, Bytes, length, arith,
}
use secure_crt.Base.Outcome.{returned}
use secure_crt.Tunnel.Socks.{
  socks_addr_ipv4, socks_addr_ipv6, socks_addr_domain, Part, onto, read_full, offers_no_auth,
  port_of, host_read, domain, destination, request_of, methods_of, socks_handshake, after_writing,
}

pub data Destination : Type 0 where
  ipv4 : ℕ → ℕ → ℕ → ℕ → Destination
  ipv6 : Bytes → Destination
  host_name : ℕ → Bytes → Destination

-- Sixteen bytes, and a name whose length fits in a byte.
abbrev pub IsDestination : Destination → Type 0
IsDestination (ipv4 a b c d) = Unit
IsDestination (ipv6 bytes) = length bytes ≡ 16
IsDestination (host_name b bytes) = Unit

-- A greeting with some methods, and a request to connect.
abbrev pub greeting_of : Bytes → Bytes
greeting_of offered = 5 ∷ length offered ∷ offered

abbrev pub address_of : Destination → Bytes
address_of (ipv4 a b c d) = socks_addr_ipv4 ∷ a ∷ b ∷ c ∷ d ∷ []
address_of (ipv6 bytes) = socks_addr_ipv6 ∷ bytes
address_of (host_name b bytes) = socks_addr_domain ∷ suc (length bytes) ∷ b ∷ bytes

abbrev pub connect_to : Destination → ℕ → Bytes
connect_to d p = (5 ∷ 1 ∷ 0 ∷ []) ++ (address_of d ++ (p / 256 ∷ p % 256 ∷ []))

abbrev pub text_of : (Bytes → Bytes) → Destination → Bytes
text_of ip_text (ipv4 a b c d) = ip_text (a ∷ b ∷ c ∷ d ∷ [])
text_of ip_text (ipv6 bytes) = ip_text bytes
text_of ip_text (host_name b bytes) = b ∷ bytes

read_full-append : (xs ys : Bytes) → read_full (length xs) (xs ++ ys) ≡ some (xs, ys)
unfolding read_full
read_full-append [] ys = refl
read_full-append (x ∷ xs) ys = ap (onto x) (read_full-append xs ys)

port_read :
    (host : Bytes) (p : ℕ) (rest : Bytes)
    → 0 < p
    → port_of host (p / 256 ∷ p % 256 ∷ rest)
      ≡ record { written = []; outcome = returned (host, p); unread = rest }
unfolding port_of
port_read host p rest l =
    let whole : p / 256 * 256 + p % 256 ≡ p = omega arith in
    let given : (p == 0) ≡ false = ground arith in rw (whole, given) refl

-- A host of the length that is read, and the port behind it.
host_read-append :
    (part : Part) (to_text : Bytes → Bytes) (n : ℕ) (xs : Bytes) (p : ℕ) (rest : Bytes)
    → length xs ≡ n
    → 0 < p
    → host_read part to_text (read_full n ((xs ++ (p / 256 ∷ p % 256 ∷ [])) ++ rest))
      ≡ record { written = []; outcome = returned (to_text xs, p); unread = rest }
host_read-append part to_text n xs p rest e l =
    let apart = append_assoc xs (p / 256 ∷ p % 256 ∷ []) rest in
    let read : read_full n ((xs ++ (p / 256 ∷ p % 256 ∷ [])) ++ rest)
        ≡ some (xs, p / 256 ∷ p % 256 ∷ rest) =
      rw (apart) (
        subst
          (λ (m : ℕ).
            read_full m (xs ++ p / 256 ∷ p % 256 ∷ rest) ≡ some (xs, p / 256 ∷ p % 256 ∷ rest))
          e (read_full-append xs (p / 256 ∷ p % 256 ∷ rest))) in
    ap (host_read part to_text) read ∙ port_read (to_text xs) p rest l

request_of-connect_to :
    (ip_text : Bytes → Bytes) (d : Destination) (p : ℕ) (rest : Bytes)
    → IsDestination d
    → 0 < p
    → request_of ip_text false (connect_to d p ++ rest)
      ≡ record { written = []; outcome = returned (text_of ip_text d, p); unread = rest }
unfolding request_of destination domain
request_of-connect_to ip_text (ipv4 a b c d) p rest v l =
    host_read-append _ ip_text 4 (a ∷ b ∷ c ∷ d ∷ []) p rest refl l
request_of-connect_to ip_text (ipv6 bytes) p rest v l =
    host_read-append _ ip_text 16 bytes p rest v l
request_of-connect_to ip_text (host_name b bytes) p rest v l =
    host_read-append _ (λ read. read) (suc (length bytes)) (b ∷ bytes) p rest refl l

-- A client that offers no authentication among its methods, and then asks for a destination, by an address
-- or a name, and a port that is not 0, is told that its method is taken; the handshake returns the name, or
-- the text of the address, and the port, and leaves whatever the client sent after that unread.
pub socks_handshake-connect_to :
    (ip_text : Bytes → Bytes) (offered : Bytes) (d : Destination) (p : ℕ) (rest : Bytes)
    → offers_no_auth offered ≡ true
    → IsDestination d
    → 0 < p
    → socks_handshake ip_text false (greeting_of offered ++ (connect_to d p ++ rest))
      ≡ record { written = 5 ∷ 0 ∷ []; outcome = returned (text_of ip_text d, p); unread = rest }
unfolding socks_handshake methods_of
socks_handshake-connect_to ip_text offered d p rest o v l =
    let asked = request_of-connect_to ip_text d p rest v l in
    rw (read_full-append offered (connect_to d p ++ rest), o)
      (ap (after_writing (5 ∷ 0 ∷ [])) asked)
