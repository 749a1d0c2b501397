-- ===== src/Net/Service.antt =====
-- What the maintenance does with one queue: the test, and the first message.
use iu.Prelude.{
  ℕ, ◌≡◌, refl, sym, ap, subst, ==_iff, ==_refl, ◌∙◌, ◌≢◌, Bool, true, false, none, some, List, [],
  ◌∷◌, ◌++◌, arith, ◌==◌, if◌then◌else◌, Bool-cases, inl, inr,
}
use iu.Prelude.Map.{find, assign, find-assign}
use iu.Msg.{Msg}
use iu.Concat.{Stream, Result, returns, waits, exits, no_fuel, ready, get}
use iu.Concat.View.{view, size, before}
use iu.Concat.Reading.{Got, get-Got}
use iu.Concat.Ready.{IsProper, Readied, ready-Readied}
use iu.Concat.Proper.{Kept, ready-Kept, get-Kept}
use iu.Net.{Net, Run, returns, ◌>>=◌, Event, sends, closes}
use iu.Net.Send.{taken, on_queue, send_msg_now, is_ready, send_first}
use iu.Net.Connections.{IsConnected}

-- What can be read of the queue of a node.
abbrev pub items : ℕ → Net → List Msg
items n s = elim (find n s.send_qs) [ none ↦ [] | some q ↦ (view q).items ]

abbrev pub has_queue : ℕ → Net → Bool
has_queue n s = elim (find n s.send_qs) [ none ↦ false | some q ↦ true ]

abbrev pub sent_on : ℕ → List Event → List Msg
sent_on fd [] = []
sent_on fd (closes n ∷ es) = sent_on fd es
sent_on fd (sends n m ∷ es) = let rest = sent_on fd es in if n == fd then m ∷ rest else rest

-- Every node that has a queue has a connection, and the queue is proper.
pub record IsServed (s : Net) : Type 0 where
  pub connected : IsConnected s
  pub reached :
      (n : ℕ) (q : Stream Msg)
      → find n s.send_qs ≡ some q
      → (fd : ℕ) × (find n s.connections ≡ some fd)
  pub proper : (n : ℕ) (q : Stream Msg) → find n s.send_qs ≡ some q → IsProper q

-- A state with another queue for the node, and perhaps more events.
abbrev pub with_queue : ℕ → Stream Msg → List Event → Net → Net
with_queue n q es s = record s { send_qs = assign n q s.send_qs; events = es }

module _ (n : ℕ) (q : Stream Msg) (es : List Event) (s : Net) where
  items-with_queue :
      (m : ℕ) → items m (with_queue n q es s) ≡ (if n == m then (view q).items else items m s)
  items-with_queue m = ground (arith, find-assign n m q s.send_qs)

  has_queue-with_queue :
      (m : ℕ) → has_queue m (with_queue n q es s) ≡ (if n == m then true else has_queue m s)
  has_queue-with_queue m = ground (arith, find-assign n m q s.send_qs)

  with_queue-IsServed :
      {p : Stream Msg}
      → find n s.send_qs ≡ some p
      → IsProper q
      → IsServed s
      → IsServed (with_queue n q es s)
  with_queue-IsServed {p} h k v = record {
    connected = record {
      linked = v.connected.linked;
      queued = λ m d e x. ground (arith, find-assign n m q s.send_qs, v.connected.queued m d);
    };
    reached = λ m r e. elim (Bool-cases (n == m)) [
      | inl x ↦
          subst (λ m. (fd : ℕ) × (find m s.connections ≡ some fd)) ((==_iff n m).0 x)
            (v.reached n p h)
      | inr x ↦ v.reached m r (other m r x e)
    ];
    proper = λ m r e. elim (Bool-cases (n == m)) [
      | inl x ↦ subst IsProper (same m r x e) k
      | inr x ↦ v.proper m r (other m r x e)
    ];
  }
    where
      other :
          (m : ℕ) (r : Stream Msg)
          → (n == m) ≡ false
          → find m (assign n q s.send_qs) ≡ some r
          → find m s.send_qs ≡ some r
      other m r x e = ground (arith, find-assign n m q s.send_qs)

      same :
          (m : ℕ) (r : Stream Msg)
          → (n == m) ≡ true
          → find m (assign n q s.send_qs) ≡ some r
          → q ≡ r
      same m r x e = ground (arith, find-assign n m q s.send_qs)

abbrev pub nonempty {ℓ} : {A : Type ℓ} → List A → Bool
nonempty [] = false
nonempty (x ∷ xs) = true

nonempty-ne {ℓ} : {A : Type ℓ} (xs : List A) → xs ≢ [] → nonempty xs ≡ true
nonempty-ne [] h = absurd (h refl)
nonempty-ne (x ∷ xs) h = refl

-- Without an event, and with the same contents for each node.
pub record Quiet (s s' : Net) : Type 0 where
  pub served : IsServed s'
  pub connections : s'.connections ≡ s.connections
  pub events : s'.events ≡ s.events
  pub items_same : (m : ℕ) → items m s' ≡ items m s
  pub queues : (m : ℕ) → has_queue m s' ≡ has_queue m s

module _ (n : ℕ) (q : Stream Msg) (s : Net) (v : IsServed s) (h : find n s.send_qs ≡ some q) where
  swap_queue :
      (q' : Stream Msg) → view q' ≡ view q → IsProper q' → Quiet s (with_queue n q' s.events s)
  swap_queue q' e p = record {
    served = with_queue-IsServed n q' s.events s h p v;
    connections = refl;
    events = refl;
    items_same = λ m. ground (arith, items-with_queue n q' s.events s m);
    queues = λ m. ground (arith, has_queue-with_queue n q' s.events s m);
  }

  abbrev pub Answers : Run Bool → Type 0
  Answers r = (s' : Net) × (r ≡ Run.returns (nonempty (items n s)) s') × Quiet s s'

  items_queue : items n s ≡ (view q).items
  items_queue = ground (arith, h)

  yes_items : (view q).items ≢ [] → nonempty (items n s) ≡ true
  yes_items d = ap nonempty items_queue ∙ nonempty-ne (view q).items d

  no_items : (view q).items ≡ [] → nonempty (items n s) ≡ false
  no_items d = ap nonempty (items_queue ∙ d)

  is_ready-Readied : (r : Result Msg Bool) → Readied q r → Kept q r → Answers (on_queue n r s)
  unfolding on_queue
  is_ready-Readied (returns true q') d k = (
    with_queue n q' s.events s,
    ap (λ b. Run.returns b (with_queue n q' s.events s)) (sym (yes_items d.0)),
    swap_queue q' d.1.0 (k.0 (v.proper n q h)),
  )
  is_ready-Readied (returns false q') d k = (
    with_queue n q' s.events s,
    ap (λ b. Run.returns b (with_queue n q' s.events s)) (sym (no_items d.0)),
    swap_queue q' d.1.0 (k.0 (v.proper n q h)),
  )
  is_ready-Readied waits d k = absurd d
  is_ready-Readied exits d k = absurd d
  is_ready-Readied no_fuel d k = absurd d

  pub is_ready_lem : Answers (is_ready n s)
  unfolding is_ready
  is_ready_lem =
      rw (h, is_ready)
        (is_ready-Readied (ready (size q) q)
          (ready-Readied (size q) q (omega arith) (v.proper n q h))
          (ready-Kept (size q) q (omega arith) (v.proper n q h)))

-- With the first message of the node sent, and the others left.
pub record Moved (n : ℕ) (s s' : Net) : Type 0 where
  pub fd : ℕ
  pub first : Msg
  pub served : IsServed s'
  pub connection : find n s.connections ≡ some fd
  pub connections : s'.connections ≡ s.connections
  pub events : s'.events ≡ s.events ++ sends fd first ∷ []
  pub items_first : items n s ≡ first ∷ items n s'
  pub items_same : (m : ℕ) → (n == m) ≡ false → items m s' ≡ items m s
  pub queues : (m : ℕ) → has_queue m s' ≡ has_queue m s

module _ (n fd : ℕ) (q : Stream Msg) (s : Net) (v : IsServed s) (h : find n s.send_qs ≡ some q)
    (k : find n s.connections ≡ some fd) (y : nonempty (items n s) ≡ true) where
  abbrev pub Moves : Run Bool → Type 0
  Moves r = (s' : Net) × (r ≡ Run.returns (nonempty (items n s')) s') × Moved n s s'

  module _ (a : Msg) (q' : Stream Msg) (e : view q ≡ before a (view q')) (p : IsProper q') where
    abbrev after : Net
    after = with_queue n q' (s.events ++ sends fd a ∷ []) s

    after-IsServed : IsServed after
    after-IsServed = with_queue-IsServed n q' (s.events ++ sends fd a ∷ []) s h p v

    found : find n (assign n q' s.send_qs) ≡ some q'
    found = ground (arith, find-assign n n q' s.send_qs)

    here : items n s ≡ a ∷ (view q').items
    here = let f : items n s ≡ (view q).items = ground (arith, h) in f ∙ ap (λ c. c.items) e

    there : (m : ℕ) → (n == m) ≡ true → items m after ≡ (view q').items
    there m x = ground (arith, items-with_queue n q' (s.events ++ sends fd a ∷ []) s m)

    elsewhere : (m : ℕ) → (n == m) ≡ false → items m after ≡ items m s
    elsewhere m x = ground (arith, items-with_queue n q' (s.events ++ sends fd a ∷ []) s m)

    same_queues : (m : ℕ) → has_queue m after ≡ has_queue m s
    same_queues m = ground (arith, has_queue-with_queue n q' (s.events ++ sends fd a ∷ []) s m)

    after-Moves : Moves (is_ready n after)
    after-Moves =
        let (s', r, t) = is_ready_lem n q' after after-IsServed found in
        (
          s',
          r ∙ ap (λ l. Run.returns (nonempty l) s') (sym (t.items_same n)),
          record {
            fd = fd;
            first = a;
            served = t.served;
            connection = k;
            connections = t.connections;
            events = t.events;
            items_first = here ∙ ap (λ l. a ∷ l) (sym (t.items_same n ∙ there n (==_refl n)));
            items_same = λ m x. t.items_same m ∙ elsewhere m x;
            queues = λ m. t.queues m ∙ same_queues m;
          },
        )

  stuck : (view q).items ≡ [] → ⊥
  stuck e =
      let f : items n s ≡ (view q).items = ground (arith, h) in
      let g : nonempty (items n s) ≡ false = ap nonempty (f ∙ e) in cc

  Moves-Got :
      (r : Result Msg Msg)
      → Got (λ a x. a ≡ x) q r
      → Kept q r
      → Moves
          (on_queue n r s >>= (λ m. send_msg_now taken m.0 n m.1 >>= (λ sent. is_ready n sent.1)))
  unfolding on_queue send_msg_now
  Moves-Got (returns a q') (x, p, e) t =
      rw (k, send_msg_now)
        (after-Moves a q' (e ∙ ap (λ m. before m (view q')) (sym p)) (t.0 (v.proper n q h)))
  Moves-Got waits e t = absurd (stuck (ap (λ c. c.items) e))
  Moves-Got exits e t = absurd (stuck (ap (λ c. c.items) e))
  Moves-Got no_fuel e t = absurd e

  pub send_first_lem : Moves (send_first taken n s)
  unfolding send_first
  send_first_lem =
      rw (h, send_first)
        (Moves-Got (get (size q) q) (get-Got (size q) q (omega arith))
          (get-Kept (size q) q (omega arith)))
