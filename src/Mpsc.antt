-- ===== src/Mpsc.antt =====
-- include/mpsc.h: a queue of many producers and one consumer. Memory is explicit: a null pointer is
-- `none`, and so is a cell that is not allocated. A producer is in two halves, since other threads
-- can run between its exchange of `last` and its store to the node before; what it does up to the
-- exchange touches no shared memory. Atomic operations are sequentially consistent. `none` as the
-- result of an operation is a fault: an access to memory that is not allocated, or not initialised.
pub mod Chain
pub mod Producers
pub mod Linking
pub mod Consumer
pub mod Covering
pub mod Safety
pub mod Freeing
mod Tests
use iu.Prelude.{ℕ, zero, suc, ◌≡◌, Option, none, some, List, [], ◌∷◌, ◌++◌, update}

pub record Node (T : Type 0) : Type 0 where
  pub next : Option ℕ
  pub item : Option T

-- `put` of a thread that has exchanged `last` holds the node before and its own.
pub record Mpsc (T : Type 0) : Type 0 where
  pub first : ℕ
  pub last : ℕ
  pub cell : ℕ → Option (Node T)
  pub thread : ℕ → Option (ℕ × ℕ)

module _ {T : Type 0} where
  -- The constructor; `p` is what `Malloc` returns, here and below.
  unfoldable pub init : ℕ → Mpsc T
  init p = record {
    first = p;
    last = p;
    cell = update (λ _. none) p (some (record { next = none; item = none }));
    thread = λ _. none;
  }

  -- `put`, up to the exchange.
  unfoldable pub exchange : (t p : ℕ) → T → Mpsc T → Mpsc T
  exchange t p x q = record q {
    last = p;
    cell = update q.cell p (some (record { next = none; item = some x }));
    thread = update q.thread t (some (q.last, p));
  }

  -- `prev->next.store(proposal)`.
  unfoldable pub store_next : ℕ → ℕ → Mpsc T → Option (Mpsc T)
  store_next prev proposal q = elim (q.cell prev) [
    | none ↦ none
    | some node ↦
        some (record q { cell = update q.cell prev (some (record node { next = some proposal })) })
  ]

  -- The rest of `put`.
  unfoldable pub link : ℕ → Mpsc T → Option (Mpsc T)
  unfolding store_next
  link t q = elim (q.thread t) [
    | none ↦ none
    | some (prev, proposal) ↦
        store_next prev proposal (record q { thread = update q.thread t none })
  ]

  -- A `put` that no other thread interrupts.
  unfoldable pub put : (t p : ℕ) → T → Mpsc T → Option (Mpsc T)
  unfolding exchange link
  put t p x q = link t (exchange t p x q)

  -- The read of the new first node, once the old one is freed.
  unfoldable pub take_first : ℕ → Mpsc T → Option (Option T × Mpsc T)
  take_first n q = elim (q.cell n) [
    | none ↦ none
    | some node ↦ elim node.item [ none ↦ none | some x ↦ some (some x, q) ]
  ]

  unfoldable pub get : Mpsc T → Option (Option T × Mpsc T)
  unfolding take_first
  get q = elim (q.cell q.first) [
    | none ↦ none
    | some node ↦ elim node.next [
      | none ↦ some (none, q)
      | some n ↦ take_first n (record q { first = n; cell = update q.cell q.first none })
    ]
  ]

  -- The destructor, with fuel for its rounds: the memory that is left.
  unfoldable pub destroy : ℕ → Option ℕ → (ℕ → Option (Node T)) → Option (ℕ → Option (Node T))
  destroy zero p cell = none
  destroy (suc fuel) none cell = some cell
  destroy (suc fuel) (some p) cell = elim (cell p) [
    | none ↦ none
    | some node ↦ destroy fuel node.next (update cell p none)
  ]
