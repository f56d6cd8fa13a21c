-- ===== src/Transport/Validation.antt =====
-- What a validated transport configuration is (crates/core/src/transport/mod.rs).
use vscfreedev.Base.{◌<◌, ◌≡◌, ◌≢◌, ◌↔◌, ◌⊎◌, true, Option, none, some, arith, nat_eq, string_eq}
use text.Mathlib.TextEquality.{eq_iff}
use vscfreedev.Errors.{ok}
use vscfreedev.Transport.{
  TransportType, ssh, local, tcp, wsl, SshConfig, LocalConfig, TcpConfig, TransportConfig, Platform,
  validate, validate_as, validate_ssh, validate_local, validate_tcp,
}

abbrev HasCredentials : SshConfig → Type 0
HasCredentials c = (c.password ≢ none) ⊎ (c.key_path ≢ none)

abbrev SshFits : Option SshConfig → Type 0
SshFits none = ⊥
SshFits (some c) = (c.host ≢ "") × (c.username ≢ "") × HasCredentials c

abbrev LocalFits : Platform → Option LocalConfig → Type 0
LocalFits p none = ⊥
LocalFits p (some c) = p.file_exists c.binary_path ≡ true

abbrev TcpFits : Option TcpConfig → Type 0
TcpFits none = ⊥
TcpFits (some c) = (c.host ≢ "") × (0 < c.port)

-- What each kind of transport needs, apart from the code's order of tests.
abbrev pub Fits : Platform → TransportConfig → TransportType → Type 0
Fits p c ssh = SshFits c.ssh_config
Fits p c local = LocalFits p c.local_config
Fits p c tcp = TcpFits c.tcp_config
Fits p c wsl = p.windows ≡ true

validate_ssh-fits : (o : Option SshConfig) → (validate_ssh o ≡ ok tt) ↔ SshFits o
unfolding validate_ssh
validate_ssh-fits none = ground arith
validate_ssh-fits (some c) = ground (arith, eq_iff c.host "", eq_iff c.username "")

validate_local-fits :
    (p : Platform) (o : Option LocalConfig) → (validate_local p o ≡ ok tt) ↔ LocalFits p o
unfolding validate_local
validate_local-fits p none = ground arith
validate_local-fits p (some c) = ground arith

validate_tcp-fits : (o : Option TcpConfig) → (validate_tcp o ≡ ok tt) ↔ TcpFits o
unfolding validate_tcp
validate_tcp-fits none = ground arith
validate_tcp-fits (some c) = ground (arith, eq_iff c.host "")

validate_as-Fits :
    (p : Platform) (c : TransportConfig) (t : TransportType)
    → (validate_as p c t ≡ ok tt) ↔ Fits p c t
unfolding validate_as
validate_as-Fits p c ssh = validate_ssh-fits c.ssh_config
validate_as-Fits p c local = validate_local-fits p c.local_config
validate_as-Fits p c tcp = validate_tcp-fits c.tcp_config
validate_as-Fits p c wsl = ground arith

-- A configuration is accepted exactly when it has the part that its transport type asks for,
-- with a host, a user and a credential for SSH, a host and a port above zero for TCP, a binary
-- that exists for a local process, and Windows for WSL.
pub validate-Fits :
    (p : Platform) (c : TransportConfig) → (validate p c ≡ ok tt) ↔ Fits p c c.transport_type
unfolding validate
validate-Fits p c = validate_as-Fits p c c.transport_type
