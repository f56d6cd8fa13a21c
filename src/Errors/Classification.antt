-- ===== src/Errors/Classification.antt =====
-- crates/core/src/error/categories.rs: severity and category of an error, and `ErrorMetrics`.
use vscfreedev.Base.{
  ℕ, String, ◌≡◌, refl, sym, ◌∙◌, ◌↔◌, ◌⊎◌, inl, inr, Bool, true, false, Option, none, arith,
  if◌then◌else◌, ◌==◌, nat_eq, string_eq,
}
use vscfreedev.Errors.{
  YuhaError, TransportError, ProtocolError, SessionError, DaemonError, transport, protocol, session,
  config, io, clipboard, browser, auth, daemon, internal, is_retriable, category,
}

pub data ErrorSeverity : Type 0 where
  info warning error critical fatal : ErrorSeverity

pub data ErrorCategory : Type 0 where
  network authentication configuration resource user_input system logic external : ErrorCategory

transport_severity : TransportError → ErrorSeverity
transport_severity (TransportError.connection_failed _) = error
transport_severity (TransportError.authentication_failed _) = error
transport_severity (TransportError.not_available _ _) = critical
transport_severity (TransportError.configuration_error _) = error
transport_severity _ = error

protocol_severity : ProtocolError → ErrorSeverity
protocol_severity (ProtocolError.timeout _) = warning
protocol_severity ProtocolError.channel_closed = error
protocol_severity (ProtocolError.buffer_overflow _) = critical
protocol_severity _ = error

session_severity : SessionError → ErrorSeverity
session_severity (SessionError.not_found _) = warning
session_severity (SessionError.max_sessions_reached _) = critical
session_severity (SessionError.expired _) = warning
session_severity _ = error

daemon_severity : DaemonError → ErrorSeverity
daemon_severity DaemonError.not_running = error
daemon_severity (DaemonError.already_running _) = warning
daemon_severity (DaemonError.client_limit_reached _) = critical
daemon_severity DaemonError.shutting_down = info
daemon_severity _ = error

unfoldable pub severity : YuhaError → ErrorSeverity
unfolding transport_severity protocol_severity session_severity daemon_severity
severity (transport e) = transport_severity e
severity (protocol e) = protocol_severity e
severity (session e) = session_severity e
severity (config _) = error
severity (io _) = error
severity (clipboard _) = warning
severity (browser _) = warning
severity (auth _) = error
severity (daemon e) = daemon_severity e
severity (internal _) = fatal

-- `ErrorClassification::category`, the method of the trait.
unfoldable pub classify : YuhaError → ErrorCategory
classify (transport _) = network
classify (protocol _) = network
classify (session _) = logic
classify (config _) = configuration
classify (io _) = system
classify (clipboard _) = system
classify (browser _) = external
classify (auth _) = authentication
classify (daemon _) = logic
classify (internal _) = logic

user_facing : ErrorSeverity → Bool
user_facing info = false
user_facing warning = false
user_facing _ = true

unfoldable pub is_user_facing : YuhaError → Bool
unfolding user_facing
is_user_facing e = user_facing (severity e)

not_info : ErrorSeverity → Bool
not_info info = false
not_info _ = true

unfoldable pub should_log : YuhaError → Bool
unfolding not_info
should_log e = not_info (severity e)

is_alarming : ErrorSeverity → Bool
is_alarming critical = true
is_alarming fatal = true
is_alarming _ = false

unfoldable pub should_alert : YuhaError → Bool
unfolding is_alarming
should_alert e = is_alarming (severity e)

pub record ErrorMetrics : Type 0 where
  pub error_type : String
  pub error_category : ErrorCategory
  pub error_severity : ErrorSeverity
  pub timestamp : ℕ
  pub operation : Option String
  pub component : Option String

-- The `match` on the name of a category.
category_named : String → ErrorCategory
category_named s =
    if s == "network"
    then network
    else if s == "authentication"
    then authentication
    else if s == "configuration"
    then configuration
    else if s == "resource"
    then resource
    else if s == "user_input"
    then user_input
    else if s == "system"
    then system
    else if s == "logic"
    then logic
    else if s == "external"
    then external
    else logic

unfoldable pub from_error : ℕ → YuhaError → ErrorMetrics
unfolding category_named
from_error now e = record {
  error_type = category e;
  error_category = category_named (category e);
  error_severity = severity e;
  timestamp = now;
  operation = none;
  component = none;
}

alarming-severity :
    (s : ErrorSeverity) → is_alarming s ≡ true → (not_info s ≡ true) × (user_facing s ≡ true)
unfolding is_alarming not_info user_facing
alarming-severity info h = cc
alarming-severity warning h = cc
alarming-severity error h = cc
alarming-severity critical h = (refl, refl)
alarming-severity fatal h = (refl, refl)

retriable-severity :
    (e : YuhaError) → is_retriable e ≡ true → (severity e ≡ error) ⊎ (severity e ≡ warning)
unfolding is_retriable severity
retriable-severity (transport (TransportError.connection_failed _)) h = inl refl
retriable-severity (protocol (ProtocolError.timeout _)) h = inr refl
retriable-severity (protocol ProtocolError.channel_closed) h = inl refl
retriable-severity (io _) h = inl refl
retriable-severity (daemon (DaemonError.socket_error _)) h = inl refl
retriable-severity _ h = cc

-- An error that raises an alert is also logged and shown to the user.
pub should_alert-severity :
    (e : YuhaError) → should_alert e ≡ true → (should_log e ≡ true) × (is_user_facing e ≡ true)
unfolding should_alert should_log is_user_facing
should_alert-severity e = alarming-severity (severity e)

-- An error that the retry logic repeats is logged and raises no alert.
pub is_retriable-severity :
    (e : YuhaError) → is_retriable e ≡ true → (should_alert e ≡ false) × (should_log e ≡ true)
unfolding should_alert should_log
is_retriable-severity e h = ground (arith, retriable-severity e h)

from_error-logic : (now : ℕ) (e : YuhaError) → (from_error now e).error_category ≡ logic
unfolding from_error category
from_error-logic now (transport _) = refl
from_error-logic now _ = refl

-- The category in the metrics of an error is the error's own category exactly when that is `logic`.
pub from_error-classify :
    (now : ℕ) (e : YuhaError)
    → ((from_error now e).error_category ≡ classify e) ↔ (classify e ≡ logic)
from_error-classify now e =
    (λ h. sym h ∙ from_error-logic now e, λ h. from_error-logic now e ∙ sym h)
