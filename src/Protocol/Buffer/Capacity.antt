-- ===== src/Protocol/Buffer/Capacity.antt =====
-- What a bounded message buffer holds (crates/core/src/protocol/buffer.rs).
use vscfreedev.Base.{
  ℕ, zero, suc, ◌-◌, ◌<◌, ◌≡◌, refl, sym, ap, subst, ◌∙◌, ◌↔◌, inl, inr, true, false, Option, none,
  some, List, [], ◌∷◌, ◌++◌, arith, leb, nat_eq, string_eq, Bool-cases, length, length-append,
}
use vscfreedev.Protocol.Bytes.{drop, length-drop, drop-append, drop-nil, append_assoc, append_nil}
use vscfreedev.Protocol.Buffer.{
  MessageBuffer, with_capacity, remove_first, make_room, push, add_item,
}

module _ {ℓ} {T : Type ℓ} where
  -- Adding several items, the first one first; it stops at a panic.
  unfoldable pub add_all : MessageBuffer T → List T → Option (MessageBuffer T)
  add_all b [] = some b
  add_all b (x ∷ xs) = elim (add_item b x) [ none ↦ none | some b' ↦ add_all b' xs ]

  -- The buffer that holds the latest items, at most as many as its capacity.
  abbrev pub latest : ℕ → List T → MessageBuffer T
  latest capacity xs = record {
    items = drop (length xs - capacity) xs;
    max_capacity = some capacity;
  }

  remove_first-drop :
      (n : ℕ) (xs : List T) → n < length xs → remove_first (drop n xs) ≡ some (drop (suc n) xs)
  unfolding remove_first drop
  remove_first-drop n [] h = absurd (omega (arith, h))
  remove_first-drop zero (x ∷ xs) h = refl
  remove_first-drop (suc n) (x ∷ xs) h = remove_first-drop n xs (omega (arith, h))

  room-latest :
      (capacity : ℕ) (xs : List T)
      → 0 < capacity
      → make_room (drop (length xs - capacity) xs) (some capacity)
        ≡ some (drop (suc (length xs) - capacity) xs)
  unfolding make_room
  room-latest capacity xs h = elim (Bool-cases (leb capacity (length xs))) [
    | inl full ↦
        rw (length-drop (length xs - capacity) xs, held full)
          (remove_first-drop (length xs - capacity) xs (rest full)
            ∙ ap (λ n. some (drop n xs)) (ground (arith, full)))
    | inr room ↦
        rw (length-drop (length xs - capacity) xs, space room)
          (ap (λ n. some (drop n xs)) (ground (arith, room)))
  ]
    where
      held :
          leb capacity (length xs) ≡ true → leb capacity (length xs - (length xs - capacity)) ≡ true
      held full = ground (arith, full)

      space :
          leb capacity (length xs) ≡ false
          → leb capacity (length xs - (length xs - capacity)) ≡ false
      space room = ground (arith, room)

      rest : leb capacity (length xs) ≡ true → length xs - capacity < length xs
      rest full = ground (arith, full)

  shifted :
      (capacity : ℕ) (xs : List T) (x : T)
      → 0 < capacity
      → drop (suc (length xs) - capacity) xs ++ (x ∷ [])
        ≡ drop (length (xs ++ (x ∷ [])) - capacity) (xs ++ (x ∷ []))
  shifted capacity xs x h = rw (length-append xs (x ∷ [])) (
      sym (
        ap (λ n. drop n (xs ++ (x ∷ []))) (omega arith)
        ∙ drop-append (suc (length xs) - capacity) xs (x ∷ []) (omega (arith, h))))

  add_item-latest :
      (capacity : ℕ) (xs : List T) (x : T)
      → 0 < capacity
      → add_item (latest capacity xs) x ≡ some (latest capacity (xs ++ (x ∷ [])))
  unfolding add_item push
  add_item-latest capacity xs x h = rw (room-latest capacity xs h) (
      ap (λ l. some (record { items = l; max_capacity = some capacity })) (shifted capacity xs x h))

  add_all-add_item :
      (b b' : MessageBuffer T) (x : T) (xs : List T)
      → add_item b x ≡ some b'
      → add_all b (x ∷ xs) ≡ add_all b' xs
  unfolding add_all
  add_all-add_item b b' x xs e =
      ap {B = Option (MessageBuffer T)} (λ o. elim o [ none ↦ none | some c ↦ add_all c xs ]) e

  add_all-latest :
      (capacity : ℕ) (before xs : List T)
      → 0 < capacity
      → add_all (latest capacity before) xs ≡ some (latest capacity (before ++ xs))
  unfolding add_all
  add_all-latest capacity before [] h = rw (append_nil before) refl
  add_all-latest capacity before (x ∷ xs) h =
      add_all-add_item (latest capacity before) _ x xs (add_item-latest capacity before x h)
      ∙ (add_all-latest capacity (before ++ (x ∷ [])) xs h
          ∙ rw (append_assoc before (x ∷ []) xs) refl)

  -- A buffer with a capacity above zero takes any items without a panic, and holds the latest of
  -- them in order, as many as its capacity.
  pub add_all-with_capacity :
      (capacity : ℕ) (xs : List T)
      → 0 < capacity
      → add_all (with_capacity capacity) xs ≡ some (latest capacity xs)
  unfolding with_capacity
  add_all-with_capacity capacity xs h =
      subst
        (λ l.
          add_all (record { items = l; max_capacity = some capacity }) xs
          ≡ some (latest capacity xs))
        (drop-nil (0 - capacity)) (add_all-latest capacity [] xs h)

  made_room : (xs : List T) (o : Option ℕ) → (make_room xs o ≡ none) ↔ ((xs ≡ []) × (o ≡ some 0))
  unfolding make_room remove_first
  made_room [] none = ground arith
  made_room (x ∷ xs) none = ground arith
  made_room [] (some capacity) = ground arith
  made_room (x ∷ xs) (some capacity) = ground arith

  pushed : (b : MessageBuffer T) (x : T) (o : Option (List T)) → (push b x o ≡ none) ↔ (o ≡ none)
  unfolding push
  pushed b x none = ground arith
  pushed b x (some xs) = ground arith

  -- Adding an item panics exactly when the buffer is empty and its capacity is zero.
  pub add_item-panics :
      (b : MessageBuffer T) (x : T)
      → (add_item b x ≡ none) ↔ ((b.items ≡ []) × (b.max_capacity ≡ some 0))
  unfolding add_item
  add_item-panics b x = (
    λ h. (made_room b.items b.max_capacity).0 ((pushed b x _).0 h),
    λ h. (pushed b x _).1 ((made_room b.items b.max_capacity).1 h),
  )
