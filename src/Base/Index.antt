-- ===== src/Base/Index.antt =====
-- The indices from a key to the ids that carry it, which the registry and the pool share:
-- `entry(k).or_default().push(id)`, and `retain` with the removal of an emptied entry.
use vscfreedev.Base.Tests.{Eq, ◌==◌, nat_beq, if◌then◌else◌, Option-cases}
use Prim.Native.Nat.{ℕ, ◌+◌}
use mathlib.Core.Path.{◌≡◌}
use mathlib.Core.Bool.{◌&&◌}
use mathlib.Core.List.{List, [], ◌∷◌, ◌++◌}
use mathlib.Core.Option.{Option, none, some}
use mathlib.Core.Logic.{inl, inr}
use native.Mathlib.Omega.{arith}
use vscfreedev.Base.Lists.{is_empty, count, without, count-append, count-without}
use vscfreedev.Base.Table.{Table, lookup, insert, remove, lookup-insert, lookup-remove}

abbrev pub or_empty {ℓ} : {A : Type ℓ} → Option (List A) → List A
or_empty none = []
or_empty (some ids) = ids

abbrev pub Index {ℓ} : Type ℓ → Type ℓ
Index K = Table K (List ℕ)

module _ {ℓ} {K : Type ℓ} ⦃e : Eq K⦄ where
  abbrev pub bucket : K → Index K → List ℕ
  bucket k idx = or_empty (lookup k idx)

  unfoldable pub index_push : K → ℕ → Index K → Index K
  index_push k id idx = insert k (bucket k idx ++ id ∷ []) idx

  store_or_drop : K → List ℕ → Index K → Index K
  store_or_drop k ids idx = if is_empty ids then remove k idx else insert k ids idx

  retain_others : K → ℕ → Option (List ℕ) → Index K → Index K
  retain_others k id none idx = idx
  retain_others k id (some ids) idx = store_or_drop k (without id ids) idx

  unfoldable pub index_drop : K → ℕ → Index K → Index K
  unfolding retain_others store_or_drop
  index_drop k id idx = retain_others k id (lookup k idx) idx

  pub bucket-push :
      (k j : K) (id : ℕ) (idx : Index K)
      → bucket j (index_push k id idx) ≡ (if k == j then bucket j idx ++ id ∷ [] else bucket j idx)
  unfolding index_push
  bucket-push k j id idx =
      ground (arith, e.beq_iff k j, lookup-insert k j (bucket k idx ++ id ∷ []) idx)

  bucket-store_or_drop :
      (k j : K) (ids : List ℕ) (idx : Index K)
      → bucket j (store_or_drop k ids idx) ≡ (if k == j then ids else bucket j idx)
  unfolding store_or_drop
  bucket-store_or_drop k j [] idx = ground (arith, lookup-remove k j idx)
  bucket-store_or_drop k j (x ∷ ids) idx = ground (arith, lookup-insert k j (x ∷ ids) idx)

  pub bucket-drop :
      (k j : K) (id : ℕ) (idx : Index K)
      → bucket j (index_drop k id idx)
        ≡ (if k == j then without id (bucket j idx) else bucket j idx)
  unfolding index_drop
  bucket-drop k j id idx = elim (Option-cases (lookup k idx)) [
    | inl miss ↦ ground (arith, e.beq_iff k j, miss)
    | inr (ids, hit) ↦
        rw (hit, retain_others)
          (ground (arith, e.beq_iff k j, bucket-store_or_drop k j (without id ids) idx, hit))
  ]

  pub count-push :
      (k j : K) (id i : ℕ) (idx : Index K)
      → count i (bucket j (index_push k id idx))
        ≡ count i (bucket j idx) + (if k == j && nat_beq id i then 1 else 0)
  count-push k j id i idx =
      rw (bucket-push k j id idx) (ground (arith, count-append i (bucket j idx) (id ∷ [])))

  pub count-drop :
      (k j : K) (id i : ℕ) (idx : Index K)
      → count i (bucket j (index_drop k id idx))
        ≡ (if k == j && nat_beq id i then 0 else count i (bucket j idx))
  count-drop k j id i idx =
      rw (bucket-drop k j id idx) (ground (arith, count-without i id (bucket j idx)))

  -- Move an id from one key to another, where the keys differ.
  unfoldable pub reindex : K → K → ℕ → Index K → Index K
  reindex old new id idx = if old == new then idx else index_push new id (index_drop old id idx)
