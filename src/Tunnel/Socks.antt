-- ===== src/Tunnel/Socks.antt =====
-- internal/proto/tunnel/socks5.go: the SOCKS5 handshake, over the bytes that the client sends before it ends
-- its side. The text of an IP address is a parameter, as is whether the answer to the greeting can be written.
pub mod Request
use secure_crt.Base.{
  ℕ, zero, suc, ◌+◌, ◌*◌, Bool, true, false, not, ◌||◌, Option, none, some, List, [], ◌∷◌, ◌++◌,
  ◌==◌, if◌then◌else◌, Bytes,
}
use secure_crt.Base.Outcome.{Outcome, failed, returned}

abbrev pub socks_version5 : ℕ
socks_version5 = 5

abbrev pub socks_no_auth : ℕ
socks_no_auth = 0

abbrev pub socks_connect : ℕ
socks_connect = 1

abbrev pub socks_addr_ipv4 : ℕ
socks_addr_ipv4 = 1

abbrev pub socks_addr_domain : ℕ
socks_addr_domain = 3

abbrev pub socks_addr_ipv6 : ℕ
socks_addr_ipv6 = 4

abbrev pub socks_reply_ok : ℕ
socks_reply_ok = 0

abbrev pub socks_reply_general_failure : ℕ
socks_reply_general_failure = 1

abbrev pub socks_reply_command_not_built : ℕ
socks_reply_command_not_built = 7

-- What is being read when the client ends its side.
pub data Part : Type 0 where
  greeting_part methods_part request_part address_part name_length_part name_part port_part : Part

pub data SocksError : Type 0 where
  cannot_read : Part → SocksError
  bad_version bad_command bad_address_type : ℕ → SocksError
  no_method cannot_write empty_name zero_port : SocksError

-- What has been written, the destination or an error, and what has not been read.
pub record Handshake : Type 0 where
  pub written : Bytes
  pub outcome : Outcome SocksError (Bytes × ℕ)
  pub unread : Bytes

abbrev pub refused : SocksError → Bytes → Handshake
refused e input = record { written = []; outcome = failed e; unread = input }

abbrev pub after_writing : Bytes → Handshake → Handshake
after_writing bytes h = record h { written = bytes ++ h.written }

-- io.ReadFull
abbrev pub onto : ℕ → Option (Bytes × Bytes) → Option (Bytes × Bytes)
onto b none = none
onto b (some (read, unread)) = some (b ∷ read, unread)

unfoldable pub read_full : ℕ → Bytes → Option (Bytes × Bytes)
read_full zero input = some ([], input)
read_full (suc n) [] = none
read_full (suc n) (b ∷ input) = onto b (read_full n input)

-- `socksReply`
unfoldable pub socks_reply : ℕ → Bytes
socks_reply code = socks_version5 ∷ code ∷ 0 ∷ socks_addr_ipv4 ∷ 0 ∷ 0 ∷ 0 ∷ 0 ∷ 0 ∷ 0 ∷ []

unfoldable pub offers_no_auth : Bytes → Bool
offers_no_auth [] = false
offers_no_auth (m ∷ offered) = m == socks_no_auth || offers_no_auth offered

unfoldable pub port_of : Bytes → Bytes → Handshake
port_of host (high ∷ low ∷ input) =
    let p = high * 256 + low in
    if p == 0
    then refused zero_port input
    else record { written = []; outcome = returned (host, p); unread = input }
port_of host input = refused (cannot_read port_part) []

abbrev pub host_read : Part → (Bytes → Bytes) → Option (Bytes × Bytes) → Handshake
host_read part to_text none = refused (cannot_read part) []
host_read part to_text (some (read, input)) = port_of (to_text read) input

unfoldable pub domain : Bytes → Handshake
domain [] = refused (cannot_read name_length_part) []
domain (zero ∷ input) = refused empty_name input
domain (suc n ∷ input) = host_read name_part (λ read. read) (read_full (suc n) input)

module _ (ip_text : Bytes → Bytes) (cannot_answer : Bool) where
  unfoldable pub destination : ℕ → Bytes → Handshake
  destination kind input =
      if kind == socks_addr_ipv4
      then host_read address_part ip_text (read_full 4 input)
      else if kind == socks_addr_ipv6
      then host_read address_part ip_text (read_full 16 input)
      else if kind == socks_addr_domain
      then domain input
      else after_writing (socks_reply socks_reply_general_failure)
          (refused (bad_address_type kind) input)

  unfoldable pub request_of : Bytes → Handshake
  request_of (version ∷ command ∷ reserved ∷ kind ∷ input) =
      if not (version == socks_version5)
      then refused (bad_version version) input
      else if not (command == socks_connect)
      then after_writing (socks_reply socks_reply_command_not_built)
          (refused (bad_command command) input)
      else destination kind input
  request_of input = refused (cannot_read request_part) []

  unfoldable pub methods_of : Option (Bytes × Bytes) → Handshake
  methods_of none = refused (cannot_read methods_part) []
  methods_of (some (offered, input)) =
      if not (offers_no_auth offered)
      then after_writing (socks_version5 ∷ 0xFF ∷ []) (refused no_method input)
      else if cannot_answer
      then refused cannot_write input
      else after_writing (socks_version5 ∷ socks_no_auth ∷ []) (request_of input)

  unfoldable pub socks_handshake : Bytes → Handshake
  socks_handshake (version ∷ count ∷ input) =
      if not (version == socks_version5)
      then refused (bad_version version) input
      else methods_of (read_full count input)
  socks_handshake input = refused (cannot_read greeting_part) []
