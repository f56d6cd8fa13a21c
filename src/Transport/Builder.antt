-- ===== src/Transport/Builder.antt =====
-- crates/core/src/transport/builder.rs: the builders of transport configurations. A builder that a
-- setter takes is given back changed.
pub mod Ssh
pub mod Local
pub mod Tcp
pub mod Wsl
pub mod Built
mod Tests
use vscfreedev.Base.{
  ℕ, zero, suc, ◌+◌, ◌-◌, ◌*◌, ◌/◌, ◌%◌, ◌^◌, ◌≤◌, ◌<◌, min, max, String, ◌≡◌, refl, sym, ap, subst,
  ◌∙◌, ◌≢◌, ◌↔◌, ◌⊎◌, inl, inr, Bool, true, false, not, ◌&&◌, ◌||◌, Option, none, some, List, [],
  ◌∷◌, ◌++◌, map, arith, ltb, leb, if◌then◌else◌, Eq, ◌==◌, nat_beq, nat_beq_iff, nat_eq, string_eq,
  beq_refl, Bool-cases, Option-cases, length, is_empty, retain, All, every, exists, contains, count,
  without, length-append, length-retain-le, count-append, count-without, length-without-le,
}
use vscfreedev.Base.Table.{insert}
use vscfreedev.Errors.{Result, ok, err}
use vscfreedev.Transport.{TransportConfig, GeneralConfig, Platform, validate, default_config}

pub record TransportBuilder : Type 0 where
  pub config : TransportConfig

abbrev pub new : TransportBuilder
new = record { config = default_config }

abbrev pub with_general : TransportBuilder → GeneralConfig → TransportBuilder
with_general b general = record b { config = record b.config { general = general } }

-- An environment variable in the general part of a configuration.
abbrev pub add_env_var : GeneralConfig → String → String → GeneralConfig
add_env_var g key value = record g { env_vars = insert key value g.env_vars }

abbrev pub with_env_var : TransportBuilder → String → String → TransportBuilder
with_env_var b key value = with_general b (add_env_var b.config.general key value)

abbrev pub with_retries : TransportBuilder → ℕ → ℕ → TransportBuilder
with_retries b max_retries retry_delay =
    with_general b
      (record b.config.general { max_retries = max_retries; retry_delay = retry_delay })

accepted : TransportConfig → Result (Unit {0}) → Result TransportConfig
accepted c (ok _) = ok c
accepted c (err e) = err e

-- The end of every `build`: the configuration, if it validates.
unfoldable pub validated : Platform → TransportConfig → Result TransportConfig
unfolding accepted
validated p c = accepted c (validate p c)

abbrev pub build : Platform → TransportBuilder → Result TransportConfig
build p b = validated p b.config
