-- ===== src/Base/Anyhow.antt =====
-- `anyhow::Result`: the result of code that gives an error as a text.
use Prim.Native.String.{String}

pub data Fallible {ℓ} (A : Type ℓ) : Type ℓ where
  returns : A → Fallible A
  fails : String → Fallible A
