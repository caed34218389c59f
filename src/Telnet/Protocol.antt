-- ===== src/Telnet/Protocol.antt =====
-- internal/proto/telnetx/telnet.go: the bytes of the protocol and the names of the options.
use secure_crt.Base.{ℕ, zero, suc, ◌+◌, ◌/◌, ◌%◌, Bytes, codes, [], ◌∷◌, ◌++◌, ◌==◌, if◌then◌else◌}

abbrev pub iac : ℕ
iac = 255

abbrev pub dont : ℕ
dont = 254

-- `DO`
abbrev pub do_ : ℕ
do_ = 253

abbrev pub wont : ℕ
wont = 252

abbrev pub will : ℕ
will = 251

abbrev pub sb : ℕ
sb = 250

abbrev pub se : ℕ
se = 240

abbrev pub opt_binary : ℕ
opt_binary = 0

abbrev pub opt_echo : ℕ
opt_echo = 1

abbrev pub opt_suppress_ga : ℕ
opt_suppress_ga = 3

abbrev pub opt_terminal_type : ℕ
opt_terminal_type = 24

abbrev pub opt_end_of_record : ℕ
opt_end_of_record = 25

abbrev pub opt_naws : ℕ
opt_naws = 31

abbrev pub terminal_type_is : ℕ
terminal_type_is = 0

abbrev pub terminal_type_send : ℕ
terminal_type_send = 1

-- The loop of `itoa`: digits are written in front, on a buffer of four bytes. `none` is the panic
-- of an index out of range.
unfoldable pub itoa_digits : ℕ → ℕ → Bytes → Bytes
itoa_digits zero n out = out
itoa_digits (suc room) n out =
    let rest = itoa_digits room (n / 10) ((b'0' + n % 10) ∷ out) in if n == 0 then out else rest

unfoldable pub itoa : ℕ → Bytes
unfolding itoa_digits
itoa n = if n == 0 then codes "0" else itoa_digits 4 n []

unfoldable pub option_name : ℕ → Bytes
unfolding itoa
option_name opt =
    if opt == opt_binary
    then codes "binary"
    else if opt == opt_echo
    then codes "echo"
    else if opt == opt_suppress_ga
    then codes "suppress-go-ahead"
    else if opt == 5
    then codes "status"
    else if opt == 6
    then codes "timing-mark"
    else if opt == opt_terminal_type
    then codes "terminal-type"
    else if opt == opt_end_of_record
    then codes "end-of-record"
    else if opt == opt_naws
    then codes "naws"
    else if opt == 32
    then codes "terminal-speed"
    else if opt == 33
    then codes "remote-flow-control"
    else if opt == 34
    then codes "linemode"
    else if opt == 36
    then codes "environment"
    else if opt == 39
    then codes "environment"
    else codes "option " ++ itoa opt
