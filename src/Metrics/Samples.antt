-- ===== src/Metrics/Samples.antt =====
-- Which samples a metric keeps (crates/core/src/metrics.rs).
use vscfreedev.Base.{
  ℕ, zero, suc, ◌-◌, ◌≤◌, ◌<◌, String, ◌≡◌, refl, sym, ap, ◌∙◌, inl, inr, List, [], ◌∷◌, ◌++◌, map,
  arith, ltb, if◌then◌else◌, nat_eq, string_eq, Bool-cases, length, length-append,
}
use vscfreedev.Protocol.Bytes.{drop, drop-append, length-drop, drop-nil, append_assoc, append_nil}
use vscfreedev.Metrics.{
  Arithmetic, MetricType, counter, gauge, histogram, Labels, MetricSample, Metric, new, limited,
  updated, add_sample,
}

-- The newest of the samples.
abbrev pub newest {ℓ} : {A : Type ℓ} → ℕ → List A → List A
newest n xs = drop (length xs - n) xs

module _ {ℓ} {A : Type ℓ} where
  drop-drop : (n : ℕ) (xs : List A) → drop 1 (drop n xs) ≡ drop (suc n) xs
  unfolding drop
  drop-drop zero xs = refl
  drop-drop (suc n) [] = refl
  drop-drop (suc n) (x ∷ xs) = drop-drop n xs

  drop_all : (n : ℕ) (xs : List A) → n ≡ 0 → drop n xs ≡ xs
  unfolding drop
  drop_all n xs e = rw e refl

  -- Adding one to the newest that are kept, and dropping the oldest where there are too many.
  newest-push :
      (n : ℕ) (h : List A) (x : A)
      → (if ltb n (length (newest n h ++ (x ∷ [])))
          then drop 1 (newest n h ++ (x ∷ []))
          else newest n h ++ (x ∷ []))
        ≡ newest n (h ++ (x ∷ []))
  newest-push n h x = elim (Bool-cases (ltb n (length (newest n h ++ (x ∷ []))))) [
    | inl full ↦
        let fits : n ≤ length h =
          ground (arith, length-append (newest n h) (x ∷ []), length-drop (length h - n) h) in
        rw full (
          ap (λ t. drop 1 t) (sym (drop-append (length h - n) h (x ∷ []) (omega arith)))
          ∙ drop-drop (length h - n) (h ++ (x ∷ []))
          ∙ ap (λ k. drop k (h ++ (x ∷ []))) (omega (arith, fits, length-append h (x ∷ []))))
    | inr room ↦
        let short : length h < n =
          ground (arith, length-append (newest n h) (x ∷ []), length-drop (length h - n) h) in
        rw room (
          ap (λ t. t ++ (x ∷ [])) (drop_all (length h - n) h (omega (arith, short)))
          ∙ sym (
              drop_all (length (h ++ (x ∷ [])) - n) (h ++ (x ∷ []))
                (omega (arith, short, length-append h (x ∷ [])))))
  ]

module _ (ar : Arithmetic) where
  -- A value, the time at which it is recorded and its labels.
  abbrev pub Recording : Type 0
  Recording = ℕ × ar.Float × Labels

  abbrev pub sample_of : Recording → MetricSample ar
  sample_of (now, value, labels) = record { timestamp = now; value = value; labels = labels }

  unfoldable pub add_samples : Metric ar → ℕ → List Recording → Metric ar
  add_samples m max_samples [] = m
  add_samples m max_samples ((now, value, labels) ∷ rs) =
      add_samples (add_sample ar m now value labels max_samples) max_samples rs

  add_samples-newest :
      (rs : List Recording) (m : Metric ar) (n : ℕ) (h : List (MetricSample ar))
      → m.samples ≡ newest n h
      → (add_samples m n rs).samples ≡ newest n (h ++ map sample_of rs)
  unfolding add_samples add_sample limited
  add_samples-newest [] m n h e = rw (append_nil h) e
  add_samples-newest ((now, value, labels) ∷ rs) m n h e =
      let s = sample_of (now, value, labels) in
      let pushed = newest-push n h s in
      add_samples-newest rs (add_sample ar m now value labels n) n (h ++ (s ∷ [])) (rw e pushed)
      ∙ ap (λ t. newest n t) (append_assoc h (s ∷ []) (map sample_of rs))

  -- The value that a metric shows after some recordings: of a counter the sum, of another metric
  -- the last of them.
  abbrev pub value_after : MetricType → ar.Float → List Recording → ar.Float
  value_after type v [] = v
  value_after counter v ((now, value, labels) ∷ rs) = value_after counter (ar.add v value) rs
  value_after gauge v ((now, value, labels) ∷ rs) = value_after gauge value rs
  value_after histogram v ((now, value, labels) ∷ rs) = value_after histogram value rs

  add_samples-value :
      (rs : List Recording) (m : Metric ar) (n : ℕ) (type : MetricType)
      → m.metric_type ≡ type
      → (add_samples m n rs).current_value ≡ value_after type m.current_value rs
  unfolding add_samples add_sample updated
  add_samples-value [] m n type e = refl
  add_samples-value ((now, value, labels) ∷ rs) m n counter e =
      add_samples-value rs (add_sample ar m now value labels n) n counter e ∙ rw e refl
  add_samples-value ((now, value, labels) ∷ rs) m n gauge e =
      add_samples-value rs (add_sample ar m now value labels n) n gauge e ∙ rw e refl
  add_samples-value ((now, value, labels) ∷ rs) m n histogram e =
      add_samples-value rs (add_sample ar m now value labels n) n histogram e ∙ rw e refl

  -- A new metric, after any recordings under one limit, holds the newest of their samples in
  -- order, as many as the limit allows; a counter shows their sum, and another metric the last.
  pub add_samples-new :
      (name : String) (type : MetricType) (help : String) (n : ℕ) (rs : List Recording)
      → ((add_samples (new ar name type help) n rs).samples ≡ newest n (map sample_of rs))
        × ((add_samples (new ar name type help) n rs).current_value
            ≡ value_after type ar.zero_float rs)
        × (length (add_samples (new ar name type help) n rs).samples ≤ n)
  unfolding new
  add_samples-new name type help n rs =
      let kept = add_samples-newest rs (new ar name type help) n [] (sym (drop-nil (0 - n))) in
      (
        kept,
        add_samples-value rs (new ar name type help) n type refl,
        rw kept (omega (arith, length-drop (length (map sample_of rs) - n) (map sample_of rs))),
      )
