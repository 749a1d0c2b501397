-- ===== src/Concat/Shared.antt =====
-- include/concat.h between two threads, one access of shared memory at a time: the producer in a
-- `put` or a `give` with its `sweep`, and the consumer in one of its calls. The pointer `first` and
-- the `next` of a node are cells at an address, that of a node for its `next`, so that `last` and
-- `listener`, pointers to such cells, are addresses; a null pointer is `none`. Accesses are
-- sequentially consistent. What does not change once a node is published, its data and its `given`,
-- is read at once; `depleted` reads `*listener` once where the code does twice in a row. What a
-- stream that was given does is not followed: its answers are arguments. `none` for a cell is memory
-- that is not allocated, and `none` as the result of a step is a fault: an access to such memory.
pub mod Row
pub mod Invariant
pub mod Producing
pub mod Comparing
pub mod Sweeping
pub mod Putting
pub mod Consuming
pub mod Calls
pub mod Worlds
pub mod Safety
pub mod Ending
pub mod Freeing
pub mod Alone
pub mod Uninterrupted
pub mod Refining
mod Tests
use mathlib.Core.Option
use iu.Prelude.{
  update, ℕ, zero, suc, ◌≡◌, Bool, true, false, Option, none, some, List, [], ◌==◌, if◌then◌else◌,
}

-- What a node was made for: `put` sets its data, and `give` the stream in it.
pub data Load (T : Type 0) : Type 0 where
  holds : T → Load T
  gives : ℕ → Load T

-- The next access of the producer. `head` is the test of `sweep` before its loop, and `iter` the
-- variable of that name.
pub data Producer : Type 0 where
  idle begins : Producer
  links advances : (put : ℕ) → Producer
  looks : (head : Bool) (iter : Option ℕ) → Producer
  compares : (head : Bool) (iter : Option ℕ) (listener : ℕ) → Producer
  unlinks : (iter : Option ℕ) → Producer
  frees : (prev : ℕ) (iter : Option ℕ) → Producer
  moves : (iter : Option ℕ) → Producer

-- The consumer's calls, and whether they wait for a node, end the process if there is none at the
-- end, and take the data.
pub data ConsumerCall : Type 0 where
  get peek skip depleted ready empty : ConsumerCall

abbrev pub waits_for : ConsumerCall → Bool
waits_for ready = false
waits_for empty = false
waits_for _ = true

abbrev pub exits_at_end : ConsumerCall → Bool
exits_at_end depleted = false
exits_at_end _ = true

abbrev pub takes_data : ConsumerCall → Bool
takes_data get = true
takes_data skip = true
takes_data _ = false

-- The next access of the consumer; `next` is the variable of that name.
pub data Consumer (T : Type 0) : Type 0 where
  idle exited : Consumer T
  looks tests retries : ConsumerCall → Consumer T
  finds asks : ConsumerCall → (next : ℕ) → Consumer T
  takes : (next : ℕ) → T → Consumer T

-- The address of `first`.
abbrev pub home : ℕ
home = 0

pub record Shared (T : Type 0) : Type 0 where
  pub cell : ℕ → Option (Option ℕ)
  pub item : ℕ → Option (Load T)
  pub last : ℕ
  pub listener : ℕ
  pub off : Bool
  pub producer : Producer
  pub consumer : Consumer T

abbrev pub same : Option ℕ → Option ℕ → Bool
same none none = true
same none (some b) = false
same (some a) none = false
same (some a) (some b) = a == b

-- After `*listener == iter` has compared.
abbrev pub compared : (head equal : Bool) → Option ℕ → Producer
compared head true iter = Producer.idle
compared true false iter = moves iter
compared false false iter = unlinks iter

module _ {T : Type 0} where
  -- The constructor.
  abbrev pub new_stream : Shared T
  new_stream = record {
    cell = update (λ _. none) home (some none);
    item = λ _. none;
    last = home;
    listener = home;
    off = false;
    producer = Producer.idle;
    consumer = Consumer.idle;
  }

  -- `put` and `give` up to the store to `*last`: `p` is what `malloc` returns.
  unfoldable pub allocate : (p : ℕ) → Load T → Shared T → Shared T
  allocate p x s = record s {
    cell = update s.cell p (some none);
    item = update s.item p (some x);
    producer = links p;
  }

  -- `delete prev->given; free(prev)`.
  unfoldable pub free : ℕ → Shared T → Option (Shared T)
  free p s = elim (s.cell p) [
    | none ↦ none
    | some old ↦ some (record s { cell = update s.cell p none; item = update s.item p none })
  ]

  -- The destructor, from `current` on, with fuel for its rounds.
  unfoldable pub delete_nodes : ℕ → (current : Option ℕ) → Shared T → Option (Shared T)
  unfolding free
  delete_nodes zero current s = none
  delete_nodes (suc fuel) none s = some s
  delete_nodes (suc fuel) (some p) s = elim (s.cell p) [
    | none ↦ none
    | some n ↦ elim (s.item p) [
      | none ↦ none
      | some x ↦ elim (free p s) [ none ↦ none | some s' ↦ delete_nodes fuel n s' ]
    ]
  ]

  unfoldable pub turn_off : Shared T → Shared T
  turn_off s = record s { off = true }

  -- `*address = pointer`.
  unfoldable pub store : ℕ → Option ℕ → Shared T → Option (Shared T)
  store a v s = elim (s.cell a) [
    | none ↦ none
    | some old ↦ some (record s { cell = update s.cell a (some v) })
  ]

  abbrev pub goes : Producer → Shared T → Shared T
  goes p s = record s { producer = p }

  -- `prev = first; first = first->next`.
  unfoldable pub unlink : Option ℕ → Shared T → Option (Shared T)
  unfolding store
  unlink iter s = elim (s.cell home) [
    | none ↦ none
    | some none ↦ none
    | some (some prev) ↦ elim (s.cell prev) [
      | none ↦ none
      | some n ↦ Option.map (goes (frees prev iter)) (store home n s)
    ]
  ]

  -- `iter = iter->next`, and the test of the loop.
  unfoldable pub move : Option ℕ → Shared T → Option (Shared T)
  move none s = none
  move (some i) s = elim (s.cell i) [
    | none ↦ none
    | some none ↦ some (goes Producer.idle s)
    | some (some n) ↦ some (goes (Producer.looks false (some n)) s)
  ]

  unfoldable pub produce : Producer → Shared T → Option (Shared T)
  unfolding store free unlink move
  produce Producer.idle s = some s
  produce (links p) s = Option.map (goes (advances p)) (store s.last (some p) s)
  produce (advances p) s = some (record s { last = p; producer = begins })
  produce begins s = elim (s.cell home) [
    | none ↦ none
    | some v ↦ some (goes (Producer.looks true v) s)
  ]
  produce (Producer.looks head iter) s = some (goes (compares head iter s.listener) s)
  produce (compares head iter a) s = elim (s.cell a) [
    | none ↦ none
    | some v ↦ some (goes (compared head (same v iter) iter) s)
  ]
  produce (unlinks iter) s = unlink iter s
  produce (frees p iter) s = Option.map (goes (moves iter)) (free p s)
  produce (moves iter) s = move iter s

  abbrev pub turns : Consumer T → Shared T → Shared T
  turns c s = record s { consumer = c }

  -- `listener = &next->next`, and then as given.
  abbrev pub advance : (next : ℕ) → Consumer T → Shared T → Shared T
  advance n c s = record s { listener = n; consumer = c }

  -- `*listener`, and what follows a null pointer or a node.
  unfoldable pub look : Consumer T → (ℕ → Consumer T) → Shared T → Option (Shared T)
  look missing found s = elim (s.cell s.listener) [
    | none ↦ none
    | some none ↦ some (turns missing s)
    | some (some n) ↦ some (turns (found n) s)
  ]

  -- A node without a given stream.
  abbrev pub found_data : ConsumerCall → ℕ → T → Consumer T
  found_data c n x = if takes_data c then takes n x else Consumer.idle

  -- A second look at the end, once `off` was read.
  abbrev pub looks_again : ConsumerCall → ℕ → Consumer T
  looks_again depleted n = looks depleted
  looks_again c n = finds c n

  -- `passes` is the answer of a given stream: it is left behind, or it is what the call goes on with.
  unfoldable pub consume : (passes : Bool) → Consumer T → Shared T → Option (Shared T)
  unfolding look
  consume passes Consumer.idle s = some s
  consume passes exited s = some s
  consume passes (Consumer.looks c) s =
      look (if waits_for c then tests c else Consumer.idle) (finds c) s
  consume passes (tests c) s = some (turns (if s.off then retries c else Consumer.looks c) s)
  consume passes (retries c) s =
      look (if exits_at_end c then exited else Consumer.idle) (looks_again c) s
  consume passes (finds c n) s = elim (s.item n) [
    | none ↦ none
    | some (holds x) ↦ some (turns (found_data c n x) s)
    | some (gives g) ↦ some (turns (asks c n) s)
  ]
  consume passes (asks c n) s = elim (s.item n) [
    | none ↦ none
    | some x ↦ some (if passes then advance n (Consumer.looks c) s else turns Consumer.idle s)
  ]
  consume passes (takes n x) s = some (advance n Consumer.idle s)
