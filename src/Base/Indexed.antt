-- ===== src/Base/Indexed.antt =====
-- What it means that an index lists exactly the ids of a map's values with a key, and how the
-- changes of an index keep it so.
use Prim.Native.Nat.{ℕ}
use Prim.Native.String.{String}
use mathlib.Core.Path.{◌≡◌}
use mathlib.Core.Bool.{Bool, false}
use mathlib.Core.Option.{Option, none, some}
use mathlib.Core.Logic.{inl, inr}
use native.Mathlib.Omega.{arith}
use vscfreedev.Base.Tests.{◌==◌, if◌then◌else◌, nat_beq_iff, nat_eq, string_eq, Bool-cases}
use vscfreedev.Base.Lists.{count}
use vscfreedev.Base.Table.{Table, lookup, insert, remove, lookup-insert, lookup-remove}
use vscfreedev.Base.Index.{Index, bucket, index_push, index_drop, reindex, count-push, count-drop}

-- Whether a stored value passes a test, as a number.
abbrev pub passing : {M : Type 0} → (M → Bool) → Option M → ℕ
passing p none = 0
passing p (some m) = if p m then 1 else 0

-- How often a value that is stored as `o` has to stand under the key `k`.
abbrev pub owns : {M : Type 0} → (M → String) → String → Option M → ℕ
owns key k o = passing (λ m. key m == k) o

-- Under each key stand the ids of the values that have it, each once, and no other id.
abbrev pub IsIndexOf : {M : Type 0} → (M → String) → Table ℕ M → Index String → Type 0
IsIndexOf key sessions idx =
    (k : String) (i : ℕ) → count i (bucket k idx) ≡ owns key k (lookup i sessions)

module _ {M : Type 0} (key : M → String) (s : Table ℕ M) (idx : Index String) (id : ℕ)
    (h : IsIndexOf key s idx) where
  pub push-IsIndexOf :
      (m : M) → lookup id s ≡ none → IsIndexOf key (insert id m s) (index_push (key m) id idx)
  push-IsIndexOf m fresh k i =
      ground (arith, count-push (key m) k id i idx, lookup-insert id i m s, h k i, nat_beq_iff id i)

  pub drop-IsIndexOf :
      (m : M) → lookup id s ≡ some m → IsIndexOf key (remove id s) (index_drop (key m) id idx)
  drop-IsIndexOf m found k i =
      ground (arith, count-drop (key m) k id i idx, lookup-remove id i s, h k i, nat_beq_iff id i)

  pub keep-IsIndexOf :
      (old m : M) → lookup id s ≡ some old → key old ≡ key m → IsIndexOf key (insert id m s) idx
  keep-IsIndexOf old m found same k i =
      ground (arith, lookup-insert id i m s, h k i, nat_beq_iff id i)

  moved-IsIndexOf :
      (old m : M)
      → lookup id s ≡ some old
      → (key old == key m) ≡ false
      → IsIndexOf key (insert id m s) (index_push (key m) id (index_drop (key old) id idx))
  moved-IsIndexOf old m found differ k i = ground (
    arith,
    count-push (key m) k id i (index_drop (key old) id idx),
    count-drop (key old) k id i idx,
    lookup-insert id i m s,
    h k i,
    nat_beq_iff id i,
    string_eq.beq_iff (key m) k,
    string_eq.beq_iff (key old) k,
    string_eq.beq_iff (key old) (key m),
  )

  pub reindex-IsIndexOf :
      (old m : M)
      → lookup id s ≡ some old
      → IsIndexOf key (insert id m s) (reindex (key old) (key m) id idx)
  unfolding reindex
  reindex-IsIndexOf old m found = elim (Bool-cases (key old == key m)) [
    | inl same ↦ rw same (keep-IsIndexOf old m found ((string_eq.beq_iff _ _).0 same))
    | inr differ ↦ rw differ (moved-IsIndexOf old m found differ)
  ]
