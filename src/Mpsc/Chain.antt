-- ===== src/Mpsc/Chain.antt =====
-- The nodes from `first` to `last`, as the producers have put them in a row.
use iu.Prelude.{ℕ, ◌≡◌, ◌≢◌, ◌⊎◌, Option, none, some, List, [], ◌∷◌}
use iu.Mpsc.{Node, Mpsc}

-- A node behind the first one. `by` is the producer that has not linked it yet.
pub record Entry (T : Type 0) : Type 0 where
  pub addr : ℕ
  pub item : T
  pub by : Option ℕ

abbrev pub Owned : Option ℕ → (ℕ → Option (ℕ × ℕ)) → ℕ → ℕ → Type 0
Owned none thread a b = Unit {0}
Owned (some t) thread a b = thread t ≡ some (a, b)

module _ {T : Type 0} where
  abbrev pub next_of : Option (Node T) → Option (Option ℕ)
  next_of none = none
  next_of (some node) = some node.next

  abbrev pub item_of : Option (Node T) → Option (Option T)
  item_of none = none
  item_of (some node) = some node.item

  -- What the node before has as its next one.
  abbrev pub link_of : Entry T → Option ℕ
  link_of e = elim e.by [ none ↦ some e.addr | some t ↦ none ]

  abbrev pub Chain : Mpsc T → ℕ → List (Entry T) → Type 0
  Chain q a [] = (q.last ≡ a) × (next_of (q.cell a) ≡ some none)
  Chain q a (e ∷ es) =
      (next_of (q.cell a) ≡ some (link_of e))
      × Owned e.by q.thread a e.addr
      × (item_of (q.cell e.addr) ≡ some (some e.item))
      × Chain q e.addr es

  abbrev pub Fresh : ℕ → List (Entry T) → Type 0
  Fresh a [] = Unit {0}
  Fresh a (e ∷ es) = (a ≢ e.addr) × Fresh a es

  abbrev pub Distinct : ℕ → List (Entry T) → Type 0
  Distinct a [] = Unit {0}
  Distinct a (e ∷ es) = Fresh a (e ∷ es) × Distinct e.addr es

  -- Thread `t` is about to link `b` behind `a`.
  abbrev pub Pending : ℕ → ℕ → ℕ → ℕ → List (Entry T) → Type 0
  Pending t a b c [] = ⊥
  Pending t a b c (e ∷ es) = ((c ≡ a) × (e.addr ≡ b) × (e.by ≡ some t)) ⊎ Pending t a b e.addr es

  abbrev pub items : List (Entry T) → List T
  items [] = []
  items (e ∷ es) = e.item ∷ items es

  pub record Inv (q : Mpsc T) (es : List (Entry T)) : Type 0 where
    pub chain : Chain q q.first es
    pub distinct : Distinct q.first es
    pub pending : (t a b : ℕ) → q.thread t ≡ some (a, b) → Pending t a b q.first es
