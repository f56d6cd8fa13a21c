-- ===== src/Session/Lifecycle/Tests.antt =====
-- Tests of the lifecycle rules, and instances of their theorems
-- (crates/core/src/session/lifecycle.rs).
use vscfreedev.Base.{none, [], nat_eq, string_eq}
use vscfreedev.Transport
use vscfreedev.Session.{SessionMetadata, failed, normal, secs}
use vscfreedev.Session.Lifecycle.{Lifecycle, default_config, new, start_cleanup_task}

-- A failed session, last used at second 5.
abbrev session : SessionMetadata
session = record {
  id = 1;
  name = "alpha";
  transport_config = Transport.default_config;
  status = failed;
  priority = normal;
  created_at = secs 5;
  last_used = secs 5;
  use_count = 2;
  tags = [];
  description = none;
}

abbrev started : Lifecycle
started = start_cleanup_task (new default_config)
