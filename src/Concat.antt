-- ===== src/Concat.antt =====
-- include/concat.h: a stream with one producer and one consumer, of data and of other streams that
-- were given to it. A stream is given to one node, which deletes it, so that streams form a tree;
-- `kept` are the nodes that were read and are not freed, and `pending` those from the consumer's
-- pointer on. A loop that spins until another thread acts is the result `waits`.
pub mod View
pub mod Depleted
pub mod Reading
pub mod Peeking
pub mod Ready
pub mod Empty
pub mod Writing
pub mod Proper
pub mod Filling
pub mod Interleaved
pub mod Threads
pub mod Shared
mod Tests
use iu.Prelude.{ℕ, zero, suc, ◌+◌, Bool, true, false, if◌then◌else◌}

mutual
  pub data Stream (T : Type 0) : Type 0 where
    stream : (kept pending : Nodes T) (off : Bool) → Stream T

  pub data Nodes (T : Type 0) : Type 0 where
    nil : Nodes T
    node : T → Nodes T → Nodes T
    given : Stream T → Nodes T → Nodes T

-- What a call of the consumer comes to, with the stream after it.
pub data Result (T A : Type 0) : Type 0 where
  returns : A → Stream T → Result T A
  waits : Result T A
  -- `exit(ENODATA)`.
  exits : Result T A
  no_fuel : Result T A

module _ {T : Type 0} where
  unfoldable pub snoc_node : Nodes T → T → Nodes T
  snoc_node nil x = node x nil
  snoc_node (node y ns) x = node y (snoc_node ns x)
  snoc_node (given g ns) x = given g (snoc_node ns x)

  unfoldable pub snoc_given : Nodes T → Stream T → Nodes T
  snoc_given nil g = given g nil
  snoc_given (node y ns) g = node y (snoc_given ns g)
  snoc_given (given h ns) g = given h (snoc_given ns g)

  abbrev pub empty_stream : Stream T
  empty_stream = stream nil nil false

  -- A result of the stream of a given node, as one of the stream that has the node.
  abbrev pub inside : {A : Type 0} → Nodes T → Nodes T → Bool → Result T A → Result T A
  inside kept ns off (returns a g) = returns a (stream kept (given g ns) off)
  inside kept ns off waits = waits
  inside kept ns off exits = exits
  inside kept ns off no_fuel = no_fuel

  -- A blocking test of a given stream, and what is done if it is depleted or not.
  abbrev pub branch :
      {A : Type 0} → Result T Bool → (Stream T → Result T A) → (Stream T → Result T A) → Result T A
  branch (returns true g) done more = done g
  branch (returns false g) done more = more g
  branch waits done more = waits
  branch exits done more = exits
  branch no_fuel done more = no_fuel

  -- At the end of the nodes.
  abbrev pub at_end : {A : Type 0} → Bool → Result T A
  at_end true = exits
  at_end false = waits

  pub closed : Stream T → Bool
  closed (stream kept pending off) = off

  pub depleted : ℕ → Stream T → Result T Bool
  depleted zero s = no_fuel
  depleted (suc fuel) (stream kept nil off) =
      if off then returns true (stream kept nil off) else waits
  depleted (suc fuel) (stream kept (node x ns) off) = returns false (stream kept (node x ns) off)
  depleted (suc fuel) (stream kept (given g ns) off) =
      branch (depleted fuel g) (λ g'. depleted fuel (stream (snoc_given kept g') ns off))
        (λ g'. returns false (stream kept (given g' ns) off))

  pub get : ℕ → Stream T → Result T T
  get zero s = no_fuel
  get (suc fuel) (stream kept nil off) = at_end off
  get (suc fuel) (stream kept (node x ns) off) = returns x (stream (snoc_node kept x) ns off)
  get (suc fuel) (stream kept (given g ns) off) =
      branch (depleted fuel g) (λ g'. get fuel (stream (snoc_given kept g') ns off))
        (λ g'. inside kept ns off (get fuel g'))

  pub peek : ℕ → Stream T → Result T T
  peek zero s = no_fuel
  peek (suc fuel) (stream kept nil off) = at_end off
  peek (suc fuel) (stream kept (node x ns) off) = returns x (stream kept (node x ns) off)
  peek (suc fuel) (stream kept (given g ns) off) =
      branch (depleted fuel g) (λ g'. peek fuel (stream (snoc_given kept g') ns off))
        (λ g'. inside kept ns off (peek fuel g'))

  pub skip : ℕ → Stream T → Result T (Unit {0})
  skip zero s = no_fuel
  skip (suc fuel) (stream kept nil off) = at_end off
  skip (suc fuel) (stream kept (node x ns) off) = returns tt (stream (snoc_node kept x) ns off)
  skip (suc fuel) (stream kept (given g ns) off) =
      branch (depleted fuel g) (λ g'. skip fuel (stream (snoc_given kept g') ns off))
        (λ g'. inside kept ns off (skip fuel g'))

  unfoldable pub empty : ℕ → Stream T → Result T Bool
  unfolding closed
  empty zero s = no_fuel
  empty (suc fuel) (stream kept nil off) = returns true (stream kept nil off)
  empty (suc fuel) (stream kept (node x ns) off) = returns false (stream kept (node x ns) off)
  empty (suc fuel) (stream kept (given g ns) off) = elim (closed g) [
    | false ↦ returns false (stream kept (given g ns) off)
    | true ↦
        branch (empty fuel g) (λ g'. empty fuel (stream (snoc_given kept g') ns off))
          (λ g'. returns false (stream kept (given g' ns) off))
  ]

  pub ready : ℕ → Stream T → Result T Bool
  unfolding closed
  ready zero s = no_fuel
  ready (suc fuel) (stream kept nil off) = returns false (stream kept nil off)
  ready (suc fuel) (stream kept (node x ns) off) = returns true (stream kept (node x ns) off)
  ready (suc fuel) (stream kept (given g ns) off) =
      branch (ready fuel g) (λ g'. returns true (stream kept (given g' ns) off))
        (λ g'. elim (closed g) [
          | false ↦ returns false (stream kept (given g' ns) off)
          | true ↦ ready fuel (stream (snoc_given kept g') ns off)
        ])

  -- `sweep` frees all nodes that were read but the last, which holds the consumer's pointer.
  unfoldable pub sweep : Nodes T → Nodes T
  sweep nil = nil
  sweep (node x nil) = node x nil
  sweep (given g nil) = given g nil
  sweep (node x (node y ns)) = sweep (node y ns)
  sweep (node x (given h ns)) = sweep (given h ns)
  sweep (given g (node y ns)) = sweep (node y ns)
  sweep (given g (given h ns)) = sweep (given h ns)

  pub put : T → Stream T → Stream T
  unfolding snoc_node sweep
  put x (stream kept pending off) = stream (sweep kept) (snoc_node pending x) off

  pub give : Stream T → Stream T → Stream T
  unfolding snoc_given sweep
  give g (stream kept pending off) = stream (sweep kept) (snoc_given pending g) off

  pub close : Stream T → Stream T
  close (stream kept pending off) = stream kept pending true
