-- ===== src/Net/Draining.antt =====
-- The maintenance sends all that can be read.
use iu.Prelude.{
  ℕ, ◌+◌, ◌≤◌, ◌≡◌, refl, ap, ◌∙◌, Bool, true, false, ◌&&◌, ◌||◌, some, List, [], ◌∷◌, arith, ◌==◌,
  ==_iff, ==_refl, Option-cases, Bool-cases, inl, inr, length,
}
use iu.Prelude.Map.{Map, find, contains}
use iu.Msg.{Msg}
use iu.Concat.{Stream}
use iu.Net.{Net, Run, returns, ◌>>=◌}
use iu.Net.Send.{is_ready, ready_nids}
use iu.Net.Service.{items, has_queue, IsServed, nonempty, Quiet, is_ready_lem}

abbrev pub keys : Map (Stream Msg) → List ℕ
keys [] = []
keys ((n, q) ∷ qs) = n ∷ keys qs

-- No node is there twice.
abbrev pub IsDistinct : List ℕ → Type 0
IsDistinct [] = Unit {0}
IsDistinct (n ∷ ns) = (contains n ns ≡ false) × IsDistinct ns

queue_of : (n : ℕ) (s : Net) → has_queue n s ≡ true → (q : Stream Msg) × (find n s.send_qs ≡ some q)
queue_of n s h = elim (Option-cases (find n s.send_qs)) [
  | inl e ↦ absurd (ground (arith, e))
  | inr r ↦ r
]

Quiet-refl : (s : Net) → IsServed s → Quiet s s
Quiet-refl s v = record {
  served = v;
  connections = refl;
  events = refl;
  items_same = λ m. refl;
  queues = λ m. refl;
}

Quiet-trans : {s t u : Net} → Quiet s t → Quiet t u → Quiet s u
Quiet-trans a b = record {
  served = b.served;
  connections = b.connections ∙ a.connections;
  events = b.events ∙ a.events;
  items_same = λ m. b.items_same m ∙ a.items_same m;
  queues = λ m. b.queues m ∙ a.queues m;
}

-- How many items the queues of some nodes hold.
abbrev pub total : List ℕ → Net → ℕ
total [] s = 0
total (n ∷ ns) s = length (items n s) + total ns s

-- The first loop finds the nodes of which something can be read.
abbrev pub Found : List ℕ → Net → Run (List ℕ) → Type 0
Found ks s r =
    (ns : List ℕ) × (s' : Net) × (r ≡ returns ns s')
    × Quiet s s'
    × IsDistinct ns
    × ((n : ℕ) → contains n ns ≡ (contains n ks && nonempty (items n s)))
    × ((t : Net) → total ns t ≤ total ks t)

abbrev cons_if : Bool → ℕ → List ℕ → List ℕ
cons_if b k ns = elim b [ true ↦ k ∷ ns | false ↦ ns ]

ready_nids_cons :
    (k : ℕ) (q : Stream Msg) (qs : Map (Stream Msg)) (b : Bool) (ns : List ℕ) (s t u : Net)
    → is_ready k s ≡ returns b t
    → ready_nids qs t ≡ returns ns u
    → ready_nids ((k, q) ∷ qs) s ≡ returns (cons_if b k ns) u
unfolding ready_nids
ready_nids_cons k q qs b ns s t u e e' =
    ap (λ o. o >>= (λ x. ready_nids qs x.1 >>= (λ y. returns (cons_if x.0 k y.0) y.1))) e
    ∙ ap (λ o. o >>= (λ y. returns (cons_if b k y.0) y.1)) e'

IsDistinct-cons_if :
    (b : Bool) (k : ℕ) (ns : List ℕ)
    → contains k ns ≡ false
    → IsDistinct ns
    → IsDistinct (cons_if b k ns)
IsDistinct-cons_if true k ns h d = (h, d)
IsDistinct-cons_if false k ns h d = d

contains-cons_if :
    (b : Bool) (k n : ℕ) (ns : List ℕ)
    → contains n (cons_if b k ns) ≡ ((k == n && b) || contains n ns)
unfolding contains
contains-cons_if true k n ns = ground arith
contains-cons_if false k n ns = ground arith

total-cons_if :
    (b : Bool) (k : ℕ) (ns ks : List ℕ)
    → ((t : Net) → total ns t ≤ total ks t)
    → (t : Net) → total (cons_if b k ns) t ≤ total (k ∷ ks) t
total-cons_if true k ns ks h t = omega (arith, h t)
total-cons_if false k ns ks h t = omega (arith, h t)

contains-keys :
    (k n : ℕ) (q : Stream Msg) (qs : Map (Stream Msg))
    → contains n (keys ((k, q) ∷ qs)) ≡ (k == n || contains n (keys qs))
unfolding contains
contains-keys k n q qs = refl

found_cons :
    (k n : ℕ) (s t : Net) (c d : Bool)
    → nonempty (items n t) ≡ nonempty (items n s)
    → d ≡ (c && nonempty (items n t))
    → ((k == n && nonempty (items k s)) || d) ≡ ((k == n || c) && nonempty (items n s))
found_cons k n s t c d e h = elim (Bool-cases (k == n)) [
  | inl x ↦
      let y : nonempty (items k s) ≡ nonempty (items n s) =
        ap (λ m. nonempty (items m s)) ((==_iff k n).0 x) in
      rw (x, h, e, y) (go c (nonempty (items n s)))
  | inr x ↦ rw (x, h, e) refl
]
  where
    go : (c b : Bool) → (b || (c && b)) ≡ b
    go true true = refl
    go true false = refl
    go false true = refl
    go false false = refl

pub ready_nids_lem :
    (qs : Map (Stream Msg)) (s : Net)
    → IsServed s
    → IsDistinct (keys qs)
    → ((n : ℕ) → contains n (keys qs) ≡ true → has_queue n s ≡ true)
    → Found (keys qs) s (ready_nids qs s)
unfolding contains
ready_nids_lem [] s v d h = (
  [],
  s,
  unfold ready_nids in refl,
  Quiet-refl s v,
  tt,
  λ n. unfold contains in refl,
  λ t. omega arith,
)
ready_nids_lem ((k, q) ∷ qs) s v (d, ds) h =
    let (p, e) = queue_of k s (h k (rw (contains-keys k k q qs, ==_refl k) refl)) in
    let (t, r, qt) = is_ready_lem k p s v e in
    let (ns, u, r', qu, dn, c, le) =
      ready_nids_lem qs t qt.served ds
        (λ n x. qt.queues n ∙ h n (rw (contains-keys k n q qs, x) (or_true (k == n)))) in
    (
      cons_if (nonempty (items k s)) k ns,
      u,
      ready_nids_cons k q qs (nonempty (items k s)) ns s t u r r',
      Quiet-trans qt qu,
      IsDistinct-cons_if (nonempty (items k s)) k ns (rw (c k, d) refl) dn,
      λ n.
          contains-cons_if (nonempty (items k s)) k n ns
          ∙ found_cons k n s t (contains n (keys qs)) (contains n ns)
              (ap nonempty (qt.items_same n)) (c n),
      total-cons_if (nonempty (items k s)) k ns (keys qs) le,
    )
  where
    or_true : (b : Bool) → (b || true) ≡ true
    or_true true = refl
    or_true false = refl
