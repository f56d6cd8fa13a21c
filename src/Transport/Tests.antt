-- ===== src/Transport/Tests.antt =====
-- Tests of the transport configuration, and an instance of its theorem
-- (crates/core/src/transport/mod.rs).
use vscfreedev.Base.{◌≡◌, ◌↔◌, true, false, nat_eq, string_eq}
use vscfreedev.Errors.{ok}
use vscfreedev.Transport.{Platform, default_config, validate}
use vscfreedev.Transport.Validation.{Fits, validate-Fits}

-- No Windows, and every file is there.
abbrev platform : Platform
platform = record { windows = false; file_exists = λ path. true }

validate-Fits_example :
    (validate platform default_config ≡ ok tt)
    ↔ Fits platform default_config default_config.transport_type
validate-Fits_example = validate-Fits platform default_config
