-- ===== src/Errors/Context.antt =====
-- crates/core/src/error/context.rs: errors with the operation in which they occurred. What
-- `Display` prints of an error and `{:?}` of the metadata are arguments.
mod Tests
use Prim.Native.String.{◌++◌ as ◌<>◌}
use vscfreedev.Base.{
  ℕ, zero, suc, ◌+◌, ◌-◌, ◌*◌, ◌/◌, ◌%◌, ◌^◌, ◌≤◌, ◌<◌, min, max, String, ◌≡◌, refl, sym, ap, subst,
  ◌∙◌, ◌≢◌, ◌↔◌, ◌⊎◌, inl, inr, Bool, true, false, not, ◌&&◌, ◌||◌, Option, none, some, List, [],
  ◌∷◌, ◌++◌, map, arith, ltb, leb, if◌then◌else◌, Eq, ◌==◌, nat_beq, nat_beq_iff, nat_eq, string_eq,
  beq_refl, Bool-cases, Option-cases, length, is_empty, retain, All, every, exists, contains, count,
  without, length-append, length-retain-le, count-append, count-without, length-without-le,
}
use vscfreedev.Base.Table.{Table, insert}
use vscfreedev.Errors.{Result, ok, err, YuhaError, category}

-- `timestamp` is the clock when the context was made.
pub record ErrorContext : Type 0 where
  pub operation : String
  pub component : String
  pub metadata : Table String String
  pub timestamp : ℕ

unfoldable pub new : ℕ → String → String → ErrorContext
new now operation component = record {
  operation = operation;
  component = component;
  metadata = [];
  timestamp = now;
}

unfoldable pub with_metadata : ErrorContext → String → String → ErrorContext
with_metadata c key value = record c { metadata = insert key value c.metadata }

unfoldable pub with_session_id : ErrorContext → String → ErrorContext
unfolding with_metadata
with_session_id c session_id = with_metadata c "session_id" session_id

unfoldable pub with_transport : ErrorContext → String → ErrorContext
unfolding with_metadata
with_transport c transport_type = with_metadata c "transport_type" transport_type

unfoldable pub with_host : ErrorContext → String → ErrorContext
unfolding with_metadata
with_host c host = with_metadata c "host" host

pub record ContextualError : Type 0 where
  pub error : YuhaError
  pub context : ErrorContext

-- `with_context` of the error, and `Display`.
unfoldable pub text :
    (YuhaError → String) → (Table String String → String) → ContextualError → String
text error_text metadata_text e =
    "["
    <> (e.context.component
        <> (":"
            <> (e.context.operation
                <> ("] "
                    <> (category e.error
                        <> (": "
                            <> (error_text e.error
                                <> (" (metadata: "
                                    <> (metadata_text e.context.metadata <> ")")))))))))

unfoldable pub with_operation : YuhaError → ℕ → String → String → ContextualError
with_operation error now operation component = record {
  error = error;
  context = new now operation component;
}

-- The `Result<T, ContextualError>` of the extension trait.
pub data Contextual {ℓ} (A : Type ℓ) : Type ℓ where
  succeeds : A → Contextual A
  fails : ContextualError → Contextual A

unfoldable pub result_with_context : {A : Type 0} → Result A → ErrorContext → Contextual A
result_with_context (ok a) c = succeeds a
result_with_context (err e) c = fails (record { error = e; context = c })

unfoldable pub result_with_operation : {A : Type 0} → Result A → ℕ → String → String → Contextual A
unfolding with_operation
result_with_operation (ok a) now operation component = succeeds a
result_with_operation (err e) now operation component =
    fails (with_operation e now operation component)
