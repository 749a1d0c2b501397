-- ===== src/Net/Rounds.antt =====
-- The rounds of the maintenance: what is left to send grows less until nothing is.
use iu.Prelude.{
  ℕ, suc, ◌+◌, ◌≤◌, ◌≡◌, refl, sym, ap, subst, ◌∙◌, true, false, ◌||◌, some, List, [], ◌∷◌, ◌++◌,
  arith, ◌==◌, ==_iff, if◌then◌else◌, Bool-cases, inl, inr, length, append_assoc, append-nil,
}
use iu.Prelude.Map.{find, contains}
use iu.Net.{Net, Event, sends, closes}
use iu.Net.Service.{items, sent_on, IsServed, nonempty, Moved}
use iu.Net.Draining.{IsDistinct, total}

contains-append :
    (n : ℕ) (xs ys : List ℕ) → contains n (xs ++ ys) ≡ (contains n xs || contains n ys)
unfolding contains
contains-append n [] ys = refl
contains-append n (x ∷ xs) ys = ground (arith, contains-append n xs ys)

total-append : (xs ys : List ℕ) (s : Net) → total (xs ++ ys) s ≡ total xs s + total ys s
total-append [] ys s = omega arith
total-append (x ∷ xs) ys s = omega (arith, total-append xs ys s)

total-Moved :
    (n : ℕ) (xs : List ℕ) (s t : Net)
    → Moved n s t
    → contains n xs ≡ false
    → total xs t ≡ total xs s
unfolding contains
total-Moved n [] s t m h = refl
total-Moved n (x ∷ xs) s t m h =
    let e : items x t ≡ items x s = m.items_same x (ground arith) in
    rw (e, total-Moved n xs s t m (ground arith)) refl

IsDistinct-append :
    (n : ℕ) (xs ys : List ℕ)
    → IsDistinct (xs ++ n ∷ ys)
    → (contains n xs ≡ false) × (contains n ys ≡ false) × IsDistinct (xs ++ ys)
unfolding contains
IsDistinct-append n [] ys (h, d) = (refl, h, d)
IsDistinct-append n (x ∷ xs) ys (h, d) =
    let (a, b, c) = IsDistinct-append n xs ys d in
    (
      ground (arith, contains-append x xs (n ∷ ys), a),
      b,
      (ground (arith, contains-append x xs (n ∷ ys), contains-append x xs ys), c),
    )

-- What a message changes of the queues, and what it does not.
pub record Progress (s t : Net) : Type 0 where
  pub served : IsServed t
  pub connections : t.connections ≡ s.connections
  pub kept :
      (nid fd : ℕ)
      → find nid s.connections ≡ some fd
      → sent_on fd t.events ++ items nid t ≡ sent_on fd s.events ++ items nid s

pub Progress-trans : {s t u : Net} → Progress s t → Progress t u → Progress s u
Progress-trans a b = record {
  served = b.served;
  connections = b.connections ∙ a.connections;
  kept = λ nid fd e. b.kept nid fd (ap (find nid) a.connections ∙ e) ∙ a.kept nid fd e;
}

sent_on-append :
    (fd : ℕ) (es fs : List Event) → sent_on fd (es ++ fs) ≡ sent_on fd es ++ sent_on fd fs
sent_on-append fd [] fs = refl
sent_on-append fd (closes n ∷ es) fs = sent_on-append fd es fs
sent_on-append fd (sends n m ∷ es) fs = elim (Bool-cases (n == fd)) [
  | inl e ↦ rw e (ap (λ l. m ∷ l) (sent_on-append fd es fs))
  | inr e ↦ rw e (sent_on-append fd es fs)
]

-- Two nodes have two descriptors.
one_node :
    (s : Net) (m n fd : ℕ)
    → IsServed s
    → find m s.connections ≡ some fd
    → find n s.connections ≡ some fd
    → m ≡ n
one_node s m n fd v e f =
    let a : find fd s.nids ≡ some m = v.connected.linked m fd e in
    let b : find fd s.nids ≡ some n = v.connected.linked n fd f in cc

module _ (n : ℕ) (s t : Net) (v : IsServed s) (m : Moved n s t) where
  sent_on-Moved :
      (fd : ℕ)
      → sent_on fd t.events ≡ sent_on fd s.events ++ (if m.fd == fd then m.first ∷ [] else [])
  sent_on-Moved fd = ap (sent_on fd) m.events ∙ sent_on-append fd s.events (sends m.fd m.first ∷ [])

  kept_same :
      (fd : ℕ)
      → find n s.connections ≡ some fd
      → sent_on fd t.events ++ items n t ≡ sent_on fd s.events ++ items n s
  kept_same fd e =
      let f : some m.fd ≡ some fd = sym m.connection ∙ e in
      let g : (m.fd == fd) ≡ true = ground arith in
      ap (λ l. l ++ items n t) (sent_on-Moved fd ∙ rw g refl)
      ∙ append_assoc (sent_on fd s.events) (m.first ∷ []) (items n t)
      ∙ ap (λ l. sent_on fd s.events ++ l) (sym m.items_first)

  kept_other :
      (nid fd : ℕ)
      → (n == nid) ≡ false
      → find nid s.connections ≡ some fd
      → sent_on fd t.events ++ items nid t ≡ sent_on fd s.events ++ items nid s
  kept_other nid fd x e = elim (Bool-cases (m.fd == fd)) [
    | inl y ↦
        let f : m.fd ≡ fd = (==_iff m.fd fd).0 y in
        let g : find n s.connections ≡ some fd = m.connection ∙ ap some f in
        let h : n ≡ nid = one_node s n nid fd v g e in absurd (ground arith)
    | inr y ↦
        ap (λ l. l ++ items nid t) (sent_on-Moved fd ∙ rw y (append-nil (sent_on fd s.events)))
        ∙ ap (λ l. sent_on fd s.events ++ l) (m.items_same nid x)
  ]

  pub Moved-Progress : Progress s t
  Moved-Progress = record {
    served = m.served;
    connections = m.connections;
    kept = λ nid fd e. elim (Bool-cases (n == nid)) [
      | inl x ↦
          let f : n ≡ nid = (==_iff n nid).0 x in
          subst (λ k. sent_on fd t.events ++ items k t ≡ sent_on fd s.events ++ items k s) f
            (kept_same fd (ap (λ k. find k s.connections) f ∙ e))
      | inr x ↦ kept_other nid fd x e
    ];
  }

-- Exactly these nodes, once each, have something to send, and no more than the bound.
pub record Left (bound : ℕ) (ns : List ℕ) (s : Net) : Type 0 where
  pub distinct : IsDistinct ns
  pub full : (n : ℕ) → contains n ns ≡ true → nonempty (items n s) ≡ true
  pub done : (n : ℕ) → contains n ns ≡ false → items n s ≡ []
  pub few : total ns s ≤ bound

pub nonempty-nil {ℓ} : {A : Type ℓ} (xs : List A) → nonempty xs ≡ false → xs ≡ []
nonempty-nil [] h = refl
nonempty-nil (x ∷ xs) h = absurd (cc)

module _ (n k : ℕ) (xs ys : List ℕ) (s t : Net) (m : Moved n s t)
    (l : Left (suc k) (xs ++ n ∷ ys) s) where
  contains-middle : (i : ℕ) → contains i (xs ++ n ∷ ys) ≡ (n == i || contains i (xs ++ ys))
  unfolding contains
  contains-middle i = ground (arith, contains-append i xs (n ∷ ys), contains-append i xs ys)

  apart : contains n (xs ++ ys) ≡ true → ⊥
  apart e =
      let (a, b, c) = IsDistinct-append n xs ys l.distinct in
      ground (arith, contains-append n xs ys)

  total-middle : suc (total (xs ++ n ∷ ys) t) ≡ total (xs ++ n ∷ ys) s
  total-middle =
      let (a, b, c) = IsDistinct-append n xs ys l.distinct in
      omega (
        arith,
        total-append xs (n ∷ ys) t,
        total-append xs (n ∷ ys) s,
        total-Moved n xs s t m a,
        total-Moved n ys s t m b,
        ap length m.items_first,
      )

  pub Left-more : nonempty (items n t) ≡ true → Left k (xs ++ n ∷ ys) t
  Left-more h = record {
    distinct = l.distinct;
    full = λ i e. elim (Bool-cases (n == i)) [
      | inl x ↦ subst (λ j. nonempty (items j t) ≡ true) ((==_iff n i).0 x) h
      | inr x ↦ ap nonempty (m.items_same i x) ∙ l.full i e
    ];
    done = λ i e. m.items_same i (ground (arith, contains-middle i)) ∙ l.done i e;
    few = omega (arith, total-middle, l.few);
  }

  pub Left-done : nonempty (items n t) ≡ false → Left k (xs ++ ys) t
  Left-done h = record {
    distinct = (IsDistinct-append n xs ys l.distinct).2;
    full = λ i e. elim (Bool-cases (n == i)) [
      | inl x ↦
          absurd (let f : n ≡ i = (==_iff n i).0 x in apart (ap (λ j. contains j (xs ++ ys)) f ∙ e))
      | inr x ↦ ap nonempty (m.items_same i x) ∙ l.full i (ground (arith, contains-middle i))
    ];
    done = λ i e. elim (Bool-cases (n == i)) [
      | inl x ↦ subst (λ j. items j t ≡ []) ((==_iff n i).0 x) (nonempty-nil (items n t) h)
      | inr x ↦ m.items_same i x ∙ l.done i (ground (arith, contains-middle i))
    ];
    few = omega (arith, total-append xs ys t, total-append xs (n ∷ ys) t, total-middle, l.few);
  }
