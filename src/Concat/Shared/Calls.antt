-- ===== src/Concat/Shared/Calls.antt =====
-- The accesses of the consumer, one by one.
use iu.Prelude.{
  ℕ, ◌≡◌, refl, sym, ap, subst, ◌∙◌, Bool, true, false, some, List, [], ◌∷◌, ◌++◌, if◌then◌else◌,
  Bool-cases, inl, inr,
}
use iu.Concat.Shared.{
  Load, holds, gives, Producer, ConsumerCall, get, peek, skip, depleted, ready, empty, waits_for,
  exits_at_end, found_data, looks_again, Consumer, exited, tests, retries, finds, asks, takes,
  Shared, home, consume,
}
use iu.Concat.Shared.Row.{Entry, front, Linked, Linked-item}
use iu.Concat.Shared.Invariant.{Consuming, Inv}
use iu.Concat.Shared.Consuming.{passed, Consumed, turns-Consumed, advance-Consumed, look_lem}

module _ {T : Type 0} (s : Shared T) (p : Producer) (old new : List (Entry T)) where
  front_entry :
      (n : ℕ) (es : List (Entry T))
      → front es ≡ some n
      → (e : Entry T) × (rest : List (Entry T)) × (es ≡ e ∷ rest) × (e.addr ≡ n)
  front_entry n [] h = absurd (cc)
  front_entry n (e ∷ es) h = (e, es, refl, cc)

  -- What the first of the new nodes holds.
  front_item :
      (c : Consumer T) (n : ℕ) (e : Entry T) (es : List (Entry T))
      → Inv s p c old new
      → new ≡ e ∷ es
      → e.addr ≡ n
      → s.item n ≡ some e.load
  front_item c n e es inv d a =
      ap s.item (sym a)
      ∙ Linked-item s.cell s.item home old e es
          (subst (λ l. Linked s.cell s.item home (old ++ l)) d inv.linked)

  looks_lem :
      (b : Bool) (c : ConsumerCall)
      → let k = Consumer.looks c in Inv s p k old new → Consumed s p old new [] (consume b k s)
  unfolding consume
  looks_lem b c inv =
      look_lem s p (Consumer.looks c) old new (if waits_for c then tests c else Consumer.idle)
        (finds c) inv (λ d. missing c) (λ n h. h)
    where
      missing :
          (c : ConsumerCall) → Consuming s.off (if waits_for c then tests c else Consumer.idle) new
      missing get = tt
      missing peek = tt
      missing skip = tt
      missing depleted = tt
      missing ready = tt
      missing empty = tt

  retries_lem :
      (b : Bool) (c : ConsumerCall)
      → Inv s p (retries c) old new
      → Consumed s p old new [] (consume b (retries c) s)
  unfolding consume
  retries_lem b c inv =
      look_lem s p (retries c) old new (if exits_at_end c then exited else Consumer.idle)
        (looks_again c) inv (missing c) (found c)
    where
      missing :
          (c : ConsumerCall)
          → new ≡ []
          → Consuming s.off (if exits_at_end c then exited else Consumer.idle) new
      missing get d = (d, inv.consuming)
      missing peek d = (d, inv.consuming)
      missing skip d = (d, inv.consuming)
      missing depleted d = tt
      missing ready d = (d, inv.consuming)
      missing empty d = (d, inv.consuming)

      found :
          (c : ConsumerCall) (n : ℕ) → front new ≡ some n → Consuming s.off (looks_again c n) new
      found get n h = h
      found peek n h = h
      found skip n h = h
      found depleted n h = tt
      found ready n h = h
      found empty n h = h

  tests_lem :
      (b : Bool) (c : ConsumerCall)
      → Inv s p (tests c) old new
      → Consumed s p old new [] (consume b (tests c) s)
  unfolding consume
  tests_lem b c inv = elim (Bool-cases s.off) [
    | inl e ↦
        turns-Consumed s p (tests c) old new (retries c) (consume b (tests c) s) inv e
          (rw (e, consume) refl)
    | inr e ↦
        turns-Consumed s p (tests c) old new (Consumer.looks c) (consume b (tests c) s) inv tt
          (rw (e, consume) refl)
  ]

  finds_data :
      (b : Bool) (c : ConsumerCall) (n : ℕ) (x : T) (e : Entry T) (es : List (Entry T))
      → Inv s p (finds c n) old new
      → new ≡ e ∷ es
      → e.addr ≡ n
      → e.load ≡ holds x
      → Consumed s p old new [] (consume b (finds c n) s)
  unfolding consume
  finds_data b c n x e es inv d a h =
      turns-Consumed s p (finds c n) old new (found_data c n x) (consume b (finds c n) s) inv
        (taking c) (rw (front_item (finds c n) n e es inv d a ∙ ap (λ l. some l) h, consume) refl)
    where
      taking : (c : ConsumerCall) → Consuming s.off (found_data c n x) new
      taking get = (e, es, d, a, h)
      taking peek = tt
      taking skip = (e, es, d, a, h)
      taking depleted = tt
      taking ready = tt
      taking empty = tt

  finds_lem :
      (b : Bool) (c : ConsumerCall) (n : ℕ)
      → Inv s p (finds c n) old new
      → Consumed s p old new [] (consume b (finds c n) s)
  unfolding consume
  finds_lem b c n inv =
      let (e, es, d, a) = front_entry n new inv.consuming in holding e es d a e.load refl
    where
      holding :
          (e : Entry T) (es : List (Entry T))
          → new ≡ e ∷ es
          → e.addr ≡ n
          → (x : Load T) → e.load ≡ x
          → Consumed s p old new [] (consume b (finds c n) s)
      holding e es d a (holds x) h = finds_data b c n x e es inv d a h
      holding e es d a (gives g) h =
          turns-Consumed s p (finds c n) old new (asks c n) (consume b (finds c n) s) inv
            inv.consuming
            (rw (front_item (finds c n) n e es inv d a ∙ ap (λ l. some l) h, consume) refl)

  asks_lem :
      (b : Bool) (c : ConsumerCall) (n : ℕ)
      → let k = asks c n in Inv s p k old new → Consumed s p old new (passed b k s) (consume b k s)
  unfolding consume
  asks_lem true c n inv =
      let (e, es, d, a) = front_entry n new inv.consuming in
      let i = front_item (asks c n) n e es inv d a in
      let q : e.load ∷ [] ≡ passed true (asks c n) s = rw (i, passed) refl in
      subst (λ l. Consumed s p old new l (consume true (asks c n) s)) q
        (advance-Consumed s p (asks c n) old new n (Consumer.looks c) e es
          (consume true (asks c n) s) inv d a tt (rw (i, consume) refl))
  asks_lem false c n inv =
      let (e, es, d, a) = front_entry n new inv.consuming in
      turns-Consumed s p (asks c n) old new Consumer.idle (consume false (asks c n) s) inv tt
        (rw (front_item (asks c n) n e es inv d a, consume) refl)

  takes_lem :
      (b : Bool) (n : ℕ) (x : T)
      → let k = takes n x in Inv s p k old new → Consumed s p old new (passed b k s) (consume b k s)
  unfolding consume
  takes_lem b n x inv =
      let (e, es, d, a, h) = inv.consuming in
      subst (λ l. Consumed s p old new (l ∷ []) (consume b (takes n x) s)) h
        (advance-Consumed s p (takes n x) old new n Consumer.idle e es (consume b (takes n x) s) inv
          d a tt refl)

  stays : (c : Consumer T) → Inv s p c old new → c ≡ s.consumer → Consumed s p old new [] (some s)
  stays c inv e = (s, old, new, refl, subst (λ c. Inv s p c old new) e inv, refl, refl, refl)

  pub consume-Consumed :
      (b : Bool) (c : Consumer T)
      → Inv s p c old new
      → c ≡ s.consumer
      → Consumed s p old new (passed b c s) (consume b c s)
  unfolding consume
  consume-Consumed b Consumer.idle inv e = stays Consumer.idle inv e
  consume-Consumed b exited inv e = stays exited inv e
  consume-Consumed b (Consumer.looks c) inv e = looks_lem b c inv
  consume-Consumed b (tests c) inv e = tests_lem b c inv
  consume-Consumed b (retries c) inv e = retries_lem b c inv
  consume-Consumed b (finds c n) inv e = finds_lem b c n inv
  consume-Consumed b (asks c n) inv e = asks_lem b c n inv
  consume-Consumed b (takes n x) inv e = takes_lem b n x inv
