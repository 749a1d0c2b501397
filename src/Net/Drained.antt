-- ===== src/Net/Drained.antt =====
-- The maintenance as a whole: it empties the queues, and keeps the order for each receiver.
mod Tests
use iu.Prelude.{
  ℕ, zero, suc, ◌+◌, ◌≤◌, ◌≡◌, refl, sym, ap, subst, ◌∙◌, Bool, true, false, ◌&&◌, none, some, List,
  [], ◌∷◌, ◌++◌, arith, ◌==◌, ==_refl, ==_iff, Option-cases, Bool-cases, inl, inr, length,
  append_assoc, append-nil,
}
use iu.Prelude.Map.{Map, find, contains}
use iu.Msg.{Msg}
use iu.Concat.{Stream}
use iu.Net.{Net, Run, returns, ◌>>=◌}
use iu.Net.Send.{Sent, taken, send_first, ready_nids, send_rounds, send_readies}
use iu.Net.Service.{items, has_queue, sent_on, IsServed, nonempty, Quiet, Moved, send_first_lem}
use iu.Net.Draining.{keys, IsDistinct, Found, total, ready_nids_lem}
use iu.Net.Rounds.{
  nonempty-nil, Progress, Progress-trans, Moved-Progress, Left, Left-more, Left-done,
}

-- The system takes this many messages.
abbrev pub takes : ℕ → List Sent
takes zero = []
takes (suc k) = taken ∷ takes k

abbrev pub Drains : Net → Run (Unit {0}) → Type 0
Drains s r = (s' : Net) × (r ≡ returns tt s') × Progress s s' × ((n : ℕ) → items n s' ≡ [])

-- The first message of a node that has something to send.
send_first-Moved :
    (n : ℕ) (s : Net)
    → IsServed s
    → nonempty (items n s) ≡ true
    → (t : Net) × (send_first taken n s ≡ returns (nonempty (items n t)) t) × Moved n s t
send_first-Moved n s v h = elim (Option-cases (find n s.send_qs)) [
  | inl e ↦ absurd (
      let f : items n s ≡ [] = rw (e, items) refl in
      let g : nonempty (items n s) ≡ false = ap nonempty f in cc)
  | inr (q, e) ↦ let (fd, c) = v.reached n q e in send_first_lem n fd q s v e c h
]

contains-middle-true : (n : ℕ) (xs ys : List ℕ) → contains n (xs ++ n ∷ ys) ≡ true
unfolding contains
contains-middle-true n [] ys = ground (arith, ==_refl n)
contains-middle-true n (x ∷ xs) ys = ground (arith, contains-middle-true n xs ys)

Drains-after : {s t : Net} {r : Run (Unit {0})} → Progress s t → Drains t r → Drains s r
Drains-after p (s', e, p', d) = (s', e, Progress-trans p p', d)

Progress-refl : (s : Net) → IsServed s → Progress s s
Progress-refl s v = record { served = v; connections = refl; kept = λ nid fd e. refl }

length-nonempty {ℓ} : {A : Type ℓ} (xs : List A) → nonempty xs ≡ true → 1 ≤ length xs
length-nonempty [] h = absurd (cc)
length-nonempty (x ∷ xs) h = omega arith

total_pos :
    (n : ℕ) (ns : List ℕ) (s : Net)
    → contains n ns ≡ true
    → nonempty (items n s) ≡ true
    → 1 ≤ total ns s
unfolding contains
total_pos n [] s h k = absurd (cc)
total_pos n (x ∷ ns) s h k = elim (Bool-cases (x == n)) [
  | inl e ↦
      let f : nonempty (items x s) ≡ true = ap (λ i. nonempty (items i s)) ((==_iff x n).0 e) ∙ k in
      omega (arith, length-nonempty (items x s) f)
  | inr e ↦ omega (arith, total_pos n ns s (ground arith) k)
]

-- Both ends of a round.
abbrev next_round : (k : ℕ) (again behind ahead : List ℕ) → Bool → Net → Run (Unit {0})
next_round k again behind ahead more t = elim more [
  | true ↦ send_rounds (takes k) again ahead t
  | false ↦ send_rounds (takes k) behind ahead t
]

send_rounds_ahead :
    (k : ℕ) (behind : List ℕ) (n : ℕ) (ahead : List ℕ) (s t : Net) (more : Bool)
    → send_first taken n s ≡ returns more t
    → send_rounds (takes (suc k)) behind (n ∷ ahead) s
      ≡ next_round k (behind ++ n ∷ []) behind ahead more t
unfolding send_rounds
send_rounds_ahead k [] n ahead s t more e =
    ap (λ r. r >>= (λ x. next_round k (n ∷ []) [] ahead x.0 x.1)) e
send_rounds_ahead k (b ∷ bs) n ahead s t more e =
    ap (λ r. r >>= (λ x. next_round k (b ∷ bs ++ n ∷ []) (b ∷ bs) ahead x.0 x.1)) e

send_rounds_wrap :
    (k b : ℕ) (bs : List ℕ) (s t : Net) (more : Bool)
    → send_first taken b s ≡ returns more t
    → send_rounds (takes (suc k)) (b ∷ bs) [] s ≡ next_round k (b ∷ []) [] bs more t
unfolding send_rounds
send_rounds_wrap k b bs s t more e = ap (λ r. r >>= (λ x. next_round k (b ∷ []) [] bs x.0 x.1)) e

over : (n : ℕ) (ns : List ℕ) (s : Net) → Left 0 ns s → contains n ns ≡ true → ⊥
over n ns s l h = omega (arith, l.few, total_pos n ns s h (l.full n h))

send_rounds-Drains :
    (k : ℕ) (behind ahead : List ℕ) (s : Net)
    → IsServed s
    → Left k (behind ++ ahead) s
    → Drains s (send_rounds (takes k) behind ahead s)
send_rounds-Drains k [] [] s v l =
    (s, unfold send_rounds in refl, Progress-refl s v, λ n. l.done n (unfold contains in refl))
send_rounds-Drains zero (b ∷ bs) [] s v l =
    absurd (over b (b ∷ bs ++ []) s l (contains-middle-true b [] (bs ++ [])))
send_rounds-Drains zero behind (n ∷ ahead) s v l =
    absurd (over n (behind ++ n ∷ ahead) s l (contains-middle-true n behind ahead))
send_rounds-Drains (suc k) (b ∷ bs) [] s v l =
    let l' : Left (suc k) (b ∷ bs) s = subst (λ ns. Left (suc k) ns s) (append-nil (b ∷ bs)) l in
    let (t, e, m) = send_first-Moved b s v (l'.full b (contains-middle-true b [] bs)) in
    let p : Progress s t = Moved-Progress b s t v m in
    Drains-after p (elim (Bool-cases (nonempty (items b t))) [
      | inl h ↦
          rw (send_rounds_wrap k b bs s t _ e, h)
            (send_rounds-Drains k (b ∷ []) bs t m.served (Left-more b k [] bs s t m l' h))
      | inr h ↦
          rw (send_rounds_wrap k b bs s t _ e, h)
            (send_rounds-Drains k [] bs t m.served (Left-done b k [] bs s t m l' h))
    ])
send_rounds-Drains (suc k) behind (n ∷ ahead) s v l =
    let (t, e, m) = send_first-Moved n s v (l.full n (contains-middle-true n behind ahead)) in
    let p : Progress s t = Moved-Progress n s t v m in
    Drains-after p (elim (Bool-cases (nonempty (items n t))) [
      | inl h ↦
          rw (send_rounds_ahead k behind n ahead s t _ e, h)
            (send_rounds-Drains k (behind ++ n ∷ []) ahead t m.served (
              subst (λ ns. Left k ns t) (sym (append_assoc behind (n ∷ []) ahead))
                (Left-more n k behind ahead s t m l h)))
      | inr h ↦
          rw (send_rounds_ahead k behind n ahead s t _ e, h)
            (send_rounds-Drains k behind ahead t m.served (Left-done n k behind ahead s t m l h))
    ])

has_queue-contains : (n : ℕ) (s : Net) → contains n (keys s.send_qs) ≡ has_queue n s
unfolding contains find
has_queue-contains n s = go s.send_qs
  where
    go :
        (qs : Map (Stream Msg))
        → contains n (keys qs) ≡ elim (find n qs) [ none ↦ false | some q ↦ true ]
    go [] = refl
    go ((k, q) ∷ qs) = ground (arith, go qs)

no_items : (n : ℕ) (s : Net) → has_queue n s ≡ false → items n s ≡ []
no_items n s h = ground arith

and_right : (a b : Bool) → (a && b) ≡ true → b ≡ true
and_right true b h = h
and_right false b h = absurd (cc)

and_left : (a b : Bool) → b ≡ true → (a && b) ≡ false → a ≡ false
and_left true b k h = absurd (let e : true ≡ false = sym k ∙ h in cc)
and_left false b k h = refl

total-Quiet : (ns : List ℕ) (s t : Net) → Quiet s t → total ns t ≡ total ns s
total-Quiet [] s t q = refl
total-Quiet (n ∷ ns) s t q = rw (q.items_same n, total-Quiet ns s t q) refl

Left-Found :
    (k : ℕ) (s t : Net) (ns : List ℕ)
    → Quiet s t
    → IsDistinct ns
    → ((n : ℕ) → contains n ns ≡ (contains n (keys s.send_qs) && nonempty (items n s)))
    → total ns t ≤ total (keys s.send_qs) t
    → total (keys s.send_qs) s ≤ k
    → Left k ns t
Left-Found k s t ns q d c le h = record {
  distinct = d;
  full = λ n e.
      ap nonempty (q.items_same n) ∙ and_right (contains n (keys s.send_qs)) _ (sym (c n) ∙ e);
  done = λ n e. q.items_same n ∙ elim (Bool-cases (nonempty (items n s))) [
    | inl x ↦
        no_items n s (
          sym (has_queue-contains n s) ∙ and_left (contains n (keys s.send_qs)) _ x (sym (c n) ∙ e))
    | inr x ↦ nonempty-nil (items n s) x
  ];
  few = omega (arith, le, total-Quiet (keys s.send_qs) s t q);
}

-- If every node with a queue has a connection and proper streams in it, no node has two queues, and
-- the system takes as many messages as the queues hold, then the maintenance ends. It has sent each
-- node exactly what its queue held, in order, behind what was sent on its descriptor before, and
-- nothing is left that can be read.
pub send_readies-Drained :
    (k : ℕ) (s : Net)
    → IsServed s
    → IsDistinct (keys s.send_qs)
    → total (keys s.send_qs) s ≤ k
    → (s' : Net) × (send_readies (takes k) s ≡ returns tt s')
      × ((n : ℕ) → items n s' ≡ [])
      × ((nid fd : ℕ)
          → find nid s.connections ≡ some fd
          → sent_on fd s'.events ≡ sent_on fd s.events ++ items nid s)
unfolding send_readies
send_readies-Drained k s v d h =
    let (ns, t, r, q, dn, c, le) =
      ready_nids_lem s.send_qs s v d (λ n e. sym (has_queue-contains n s) ∙ e) in
    let (s', e, p, z) =
      send_rounds-Drains k [] ns t q.served (Left-Found k s t ns q dn c (le t) h) in
    (
      s',
      rw (r, e) refl,
      z,
      λ nid fd f.
          sym (append-nil (sent_on fd s'.events))
          ∙ ap (λ l. sent_on fd s'.events ++ l) (sym (z nid))
          ∙ p.kept nid fd (ap (find nid) q.connections ∙ f)
          ∙ rw (q.events, q.items_same nid) refl,
    )
