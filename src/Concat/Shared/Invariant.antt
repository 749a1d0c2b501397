-- ===== src/Concat/Shared/Invariant.antt =====
-- What holds between any two accesses: `old` are the nodes that the consumer has left behind and that
-- are not freed, and `new` are those before it.
use iu.Prelude.{
  ℕ, ◌+◌, ◌*◌, ◌<◌, ◌≤◌, ◌≡◌, ◌≢◌, Bool, true, false, Option, none, some, List, [], ◌∷◌, ◌++◌,
}
use iu.Concat.Shared.{
  Load, holds, Producer, links, advances, begins, compares, unlinks, frees, moves, Consumer, exited,
  retries, finds, asks, takes, Shared, home,
}
use iu.Concat.Shared.Row.{Entry, front, end_of, Linked, Fresh, Distinct}

abbrev pub is_idle : Producer → Bool
is_idle Producer.idle = true
is_idle _ = false

-- The node that only the producer has: not in the row yet, or not any more.
abbrev pub own : Producer → Option ℕ
own (links p) = some p
own (frees p iter) = some p
own _ = none

-- A bound for the accesses that a call has left, where there are `n` nodes in the row.
abbrev pub weight : Producer → ℕ → ℕ
weight Producer.idle n = 0
weight (links p) n = 5 * n + 16
weight (advances p) n = 5 * n + 10
weight begins n = 5 * n + 9
weight (Producer.looks true iter) n = 5 * n + 8
weight (Producer.looks false iter) n = 5 * n + 5
weight (compares true iter a) n = 5 * n + 7
weight (compares false iter a) n = 5 * n + 4
weight (unlinks iter) n = 5 * n + 3
weight (frees p iter) n = 5 * n + 7
weight (moves iter) n = 5 * n + 6

-- A call has fewer accesses left, and the row has grown by no more than `k` nodes.
abbrev pub Falls : (p p' : Producer) (n n' k : ℕ) → Type 0
Falls p p' n n' k = (is_idle p ≡ false → weight p' n' < weight p n) × (n' ≤ n + k)

module _ {T : Type 0} where
  abbrev pub tail : List (Entry T) → List (Entry T)
  tail [] = []
  tail (e ∷ es) = es

  -- The nodes left behind after an access of the producer.
  abbrev pub left_of : Producer → List (Entry T) → List (Entry T)
  left_of (unlinks iter) old = tail old
  left_of _ old = old

  -- `listener` pointed here when it was read.
  abbrev pub Snapshot : ℕ → List (Entry T) → Type 0
  Snapshot a old =
      (seen : List (Entry T)) × (more : List (Entry T)) × (old ≡ seen ++ more)
      × (a ≡ end_of home seen)

  -- And it pointed behind a node.
  abbrev pub Behind : ℕ → List (Entry T) → Type 0
  Behind a old =
      (e : Entry T) × (seen : List (Entry T)) × (more : List (Entry T)) × (old ≡ e ∷ (seen ++ more))
      × (a ≡ end_of e.addr seen)

  abbrev pub Two : List (Entry T) → Type 0
  Two old = (e : Entry T) × (f : Entry T) × (es : List (Entry T)) × (old ≡ e ∷ f ∷ es)

  abbrev pub Compares : Bool → ℕ → List (Entry T) → Type 0
  Compares true a old = Snapshot a old
  Compares false a old = Behind a old

  -- What `iter` is at the test of `sweep`, before the loop and in it.
  abbrev pub Iterates : Bool → Option ℕ → (old row : List (Entry T)) → Type 0
  Iterates true iter old row = iter ≡ front row
  Iterates false iter old row = (iter ≡ front (tail row)) × (iter ≢ none) × (old ≢ [])

  abbrev pub Unlinked : Shared T → ℕ → List (Entry T) → Type 0
  Unlinked s p row =
      (p ≢ home)
      × Fresh p row
      × ((v : Option ℕ) × (s.cell p ≡ some v))
      × ((x : Load T) × (s.item p ≡ some x))

  abbrev pub Producing : Shared T → Producer → (old row : List (Entry T)) → Type 0
  Producing s Producer.idle old row = s.last ≡ end_of home row
  Producing s (links p) old row =
      (s.last ≡ end_of home row) × Unlinked s p row × (s.cell p ≡ some none)
  Producing s (advances p) old row = end_of home row ≡ p
  Producing s begins old row = s.last ≡ end_of home row
  Producing s (Producer.looks head iter) old row =
      (s.last ≡ end_of home row) × Iterates head iter old row
  Producing s (compares head iter a) old row =
      (s.last ≡ end_of home row) × Iterates head iter old row × Compares head a old
  Producing s (unlinks iter) old row =
      (s.last ≡ end_of home row) × (iter ≡ front (tail row)) × Two old
  Producing s (frees p iter) old row =
      (s.last ≡ end_of home row) × (iter ≡ front row) × (old ≢ []) × Unlinked s p row
  Producing s (moves iter) old row = (s.last ≡ end_of home row) × (iter ≡ front row) × (old ≢ [])

  abbrev pub Consuming : Bool → Consumer T → List (Entry T) → Type 0
  Consuming off exited new = (new ≡ []) × (off ≡ true)
  Consuming off (retries c) new = off ≡ true
  Consuming off (finds c n) new = front new ≡ some n
  Consuming off (asks c n) new = front new ≡ some n
  Consuming off (takes n x) new =
      (e : Entry T) × (es : List (Entry T)) × (new ≡ e ∷ es) × (e.addr ≡ n) × (e.load ≡ holds x)
  Consuming off _ new = Unit {0}

  pub record Inv (s : Shared T) (p : Producer) (c : Consumer T) (old new : List (Entry T))
      : Type 0 where
    pub linked : Linked s.cell s.item home (old ++ new)
    pub distinct : Distinct home (old ++ new)
    pub behind : s.listener ≡ end_of home old
    pub producing : Producing s p old (old ++ new)
    pub consuming : Consuming s.off c new
    pub closed : s.off ≡ true → is_idle p ≡ true
    pub covers : (a : ℕ) → a ≢ home → Fresh a (old ++ new) → own p ≢ some a → s.cell a ≡ none
