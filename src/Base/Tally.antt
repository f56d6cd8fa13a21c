-- ===== src/Base/Tally.antt =====
-- How many values of a map pass a test, and how that changes with the map.
use Prim.Native.Nat.{ℕ, ◌+◌, ◌≤◌}
use mathlib.Core.Path.{◌≡◌}
use mathlib.Core.Bool.{Bool}
use mathlib.Core.List.{[], ◌∷◌}
use mathlib.Core.Option.{none, some}
use native.Mathlib.Omega.{arith}
use vscfreedev.Base.Tests.{nat_beq_iff, nat_eq}
use vscfreedev.Base.Lists.{length, retain}
use vscfreedev.Base.Table.{Table, lookup, insert, remove, values, IsMap}
use vscfreedev.Base.Indexed.{passing}

module _ {V : Type 0} (p : V → Bool) where
  abbrev pub tally : Table ℕ V → ℕ
  tally t = length (retain p (values t))

  pub tally-le-length : (t : Table ℕ V) → tally t ≤ length t
  tally-le-length [] = omega arith
  tally-le-length ((k, v) ∷ t) = ground (arith, tally-le-length t)

  pub tally-insert :
      (k : ℕ) (v : V) (t : Table ℕ V)
      → tally (insert k v t) + passing p (lookup k t) ≡ tally t + passing p (some v)
  unfolding insert lookup
  tally-insert k v [] = ground arith
  tally-insert k v ((j, w) ∷ t) = ground (arith, tally-insert k v t)

  tally-absent : (k : ℕ) (t : Table ℕ V) → lookup k t ≡ none → tally (remove k t) ≡ tally t
  unfolding remove lookup
  tally-absent k [] h = ground arith
  tally-absent k ((j, w) ∷ t) h = ground (arith, tally-absent k t)

  pub tally-remove :
      (k : ℕ) (t : Table ℕ V) → IsMap t → tally (remove k t) + passing p (lookup k t) ≡ tally t
  unfolding remove lookup
  tally-remove k [] d = ground arith
  tally-remove k ((j, w) ∷ t) d =
      ground (arith, tally-remove k t d.1, tally-absent k t, nat_beq_iff j k)

  pub passing-le-tally :
      (k : ℕ) (v : V) (t : Table ℕ V) → lookup k t ≡ some v → passing p (some v) ≤ tally t
  unfolding lookup
  passing-le-tally k v [] h = cc
  passing-le-tally k v ((j, w) ∷ t) h = ground (arith, passing-le-tally k v t)
