-- ===== src/Lib.antt =====
-- The core of the terminal server, modelled from its Go source, with the theorems that say what it
-- does. Paths are from the repository's root.
--
-- The program keeps saved connections, opens them as live terminals over SSH, telnet or a serial
-- port, and shows them to browsers. A terminal reads the far end through a stack of wrappers; the
-- telnet client is one bottom of that stack, the trigger rules are a wrapper in it, and the ring
-- buffer holds what came out of it for a browser that attaches again. The rules and the templates
-- that they type are stored with the saved connection. Everything is behind a sign-in, whose
-- attempts are throttled, whose second factor is a one-time code and which lasts as a row of a table;
-- the keys that it unlocks are held in a cache, and what is stored under them is sealed and bound to
-- its owner. The keys of hosts that an account has accepted are on record. Files are copied between
-- hosts by jobs of the server. Connections to one host are shared by its terminals
-- through a pool, and may carry tunnels.
--
-- The files:
--   Base: names of the libraries, Boolean tests on native numbers, lists measured by native numbers,
--     bytes of texts, Go's signed `int`, and what is used of Go's `strings`.
--   Telnet: internal/proto/telnetx. Telnet/Protocol is the numbers and names of telnet.go;
--     Telnet/Options is negotiate.go, its two tables as functions from an option to a state;
--     Telnet/Conn and Telnet/Session are conn.go, where the two critical sections of `fail` are two
--     steps. A connection is a record that the operations
--     return changed; the socket's writes are a parameter, and what is written is kept in the record.
--   Sessions: internal/sessions. Sessions/Rules is triggers.go, Sessions/Template is `Expand` and
--     `ExpandSend` of logon.go and Sessions/Logon the rest of it, Sessions/Jump is jump.go over a
--     store of connections that is a parameter; Sessions/Settings and Sessions/Folders are sessions.go,
--     the table of folders as a list of rows, where the queries of an update and its UPDATE are two
--     steps, and the other calls one each; Sessions/Resolve is `resolveWith` of connections.go.
--   Terminal: internal/terminal. Terminal/Triggers is triggers.go; what the wrapper does outside
--     itself (events, writes, closing) is a list in its state. Terminal/Logon is logon.go, the login
--     sequence. Terminal/RingBuffer is the ring buffer of session.go, with the array as a function of
--     the index; Terminal/Session is one terminal of it and Terminal/Manager the map that holds
--     them; an identifier is fresh where a theorem says so. Each call is one step: what
--     `CloseTerminal` does between its two locks is not split.
--   Remote: internal/remote. Remote/Pool is pool.go: the critical sections as functions of the pool,
--     and their interleavings as the step relation of Remote/Pool/System. Remote/Chain is chain.go, a
--     connection through jump hosts as the list of what is leased, dialled and given back.
--   Auth: internal/auth. Auth/Throttle is ratelimit.go, with the cache as a function of the key and
--     the table as a list of rows; Auth/Totp is totp.go; Auth/Session is session.go,
--     its table a list of rows.
--   Tunnel: internal/proto/tunnel. Tunnel/Socks is socks5.go, a parser of what the client sends that
--     also says what is written to it.
--   Vault: internal/vault. Vault/Cache is cache.go; a key is a number that stands for its memory,
--     and the keys that have been zeroed are a list in the state. Vault/Key is key.go and
--     Vault/Envelope is envelope.go, over an interface of the cipher with its two laws.
--   Users: internal/users. Users/VaultService is vaultsvc.go, with the accounts as a list, the cache of
--     Vault/Cache and the keys that it was given, by their number.
--   Hostkeys: internal/hostkeys, the table of trusted keys as a list of rows; what the query of an
--     insertion saw is an argument, apart from the table that its INSERT finds.
--   Credentials: internal/credentials, the table of secrets as a list of rows, sealed by Vault/Envelope.
--   Files: internal/files/transfer.go. Files/Copy is the copy of a tree, over what the hosts answer
--     and how they spell paths;
--     Files/Transfer is the jobs, in which a look at the quota and the entry of a job are two steps.
--
-- Code that is not in the repository is a parameter wherever it is used: regular expressions, keyed
-- hashes, base32, AES-GCM, the derivation of keys, random bytes, the text of an instant, lower case, the
-- cleaning, joining and spelling of paths, fresh identifiers, the texts of IP addresses, sockets,
-- what remote hosts answer, and whether a
-- statement of the database succeeds.
-- Instants are natural numbers, of nanoseconds unless a file says otherwise; Go's `int` is a signed number of any size, since the
-- values here are far below its bound, and the 32-bit and 64-bit arithmetic of the one-time codes
-- keeps its wrap-around.
--
-- All loops are structural on their input. The exchange of two telnet endpoints has fuel, five
-- commands, which is proved to be enough. The walk over a jump chain has no fuel: its depth is
-- bounded in the code, and the rounds that the code has left are its structural argument; so are those
-- of the walks over folders.
--
-- Not modelled: the HTTP handlers, the server's start and end, configuration and logging, the
-- clients of SSH, SFTP and serial ports (third-party libraries and devices), the web client, which
-- is not Go, and, so far, the rows of saved connections and the recursive deletion of folders, the
-- importers, the forwarding of tunnels and the sessions of the file browser. The zeroing of local
-- copies of a key is not modelled; that of the keys in the cache is.
pub mod Base
pub mod Telnet
pub mod Sessions
pub mod Terminal
pub mod Auth
pub mod Tunnel
pub mod Vault
pub mod Users
pub mod Hostkeys
pub mod Files
pub mod Credentials
pub mod Remote
