-- ===== src/Concat/View.antt =====
-- What a stream holds for its consumer: the items that can be read before the first stream that is
-- still open, and whether the end comes behind them.
use iu.Prelude.{ℕ, suc, ◌+◌, Bool, List, [], ◌∷◌, ◌++◌, if◌then◌else◌}
use iu.Concat.{Stream, Nodes, stream, nil, node, given}

pub record Contents (T : Type 0) : Type 0 where
  pub items : List T
  pub ended : Bool

module _ {T : Type 0} where
  abbrev pub before : T → Contents T → Contents T
  before x c = record { items = x ∷ c.items; ended = c.ended }

  abbrev pub then_if_ended : Contents T → Contents T → Contents T
  then_if_ended c d = if c.ended then record { items = c.items ++ d.items; ended = d.ended } else c

unfoldable mutual
  pub view : {T : Type 0} → Stream T → Contents T
  view (stream kept pending off) = view_nodes pending off

  pub view_nodes : {T : Type 0} → Nodes T → Bool → Contents T
  view_nodes nil off = record { items = []; ended = off }
  view_nodes (node x ns) off = before x (view_nodes ns off)
  view_nodes (given g ns) off = then_if_ended (view g) (view_nodes ns off)

-- The pending nodes, those of given streams included: a bound for the fuel.
unfoldable mutual
  pub size : {T : Type 0} → Stream T → ℕ
  size (stream kept pending off) = suc (size_nodes pending)

  pub size_nodes : {T : Type 0} → Nodes T → ℕ
  size_nodes nil = 0
  size_nodes (node x ns) = suc (size_nodes ns)
  size_nodes (given g ns) = suc (size g + size_nodes ns)
