-- ===== src/Mpsc/Safety.antt =====
-- All interleavings of the producers and the consumer, from the constructor on.
use iu.Prelude.{
  ℕ, ◌≡◌, refl, subst, ap, sym, ◌∙◌, ◌⊎◌, inl, inr, Option, none, some, List, [], ◌∷◌, ◌++◌,
  append_assoc, append-nil, arith, Option-cases,
}
use iu.Mpsc.{Mpsc, init, exchange, link, get}
use iu.Mpsc.Chain.{Entry, items, Inv}
use iu.Mpsc.Producers.{new_entry, exchange-Inv}
use iu.Mpsc.Linking.{clear, items-clear, link-Inv, link-thread}
use iu.Mpsc.Consumer.{Gets, get-Gets}
use iu.Mpsc.Covering.{Covers, init-Covers, exchange-Covers, link-Covers, get-Covers}

-- The queue, with the items that were put, in the order of the exchanges, and those that were got.
pub record World (T : Type 0) : Type 0 where
  pub queue : Mpsc T
  pub put : List T
  pub got : List T

module _ {T : Type 0} where
  abbrev pub to_list : Option T → List T
  to_list none = []
  to_list (some x) = x ∷ []

  abbrev pub head? : List T → Option T
  head? [] = none
  head? (x ∷ xs) = some x

  abbrev pub start : ℕ → World T
  start p = record { queue = init p; put = []; got = [] }

  -- A thread that is in no `put` begins one, and gets any cell that is free; a thread in a `put`
  -- ends it; the consumer calls `get`.
  pub data Step (w w' : World T) : Type 0 where
    exchanges :
        (t p : ℕ) (x : T)
        → w.queue.thread t ≡ none
        → w.queue.cell p ≡ none
        → w' ≡ record w { queue = exchange t p x w.queue; put = w.put ++ x ∷ [] }
        → Step w w'
    links : (t : ℕ) (q : Mpsc T) → link t w.queue ≡ some q → w' ≡ record w { queue = q } → Step w w'
    gets :
        (o : Option T) (q : Mpsc T)
        → get w.queue ≡ some (o, q)
        → w' ≡ record w { queue = q; got = w.got ++ to_list o }
        → Step w w'

  pub data Reach (w : World T) : World T → Type 0 where
    here : Reach w w
    next : {v u : World T} → Reach w v → Step v u → Reach w u

  -- What is between the items that were got and the end of those that were put is in the row, and so
  -- is all that is allocated.
  pub record Coherent (w : World T) (es : List (Entry T)) : Type 0 where
    pub inv : Inv w.queue es
    pub order : w.put ≡ w.got ++ items es
    pub covers : Covers w.queue es

  pub items-append : (es fs : List (Entry T)) → items (es ++ fs) ≡ items es ++ items fs
  items-append [] fs = refl
  items-append (e ∷ es) fs = ap (◌∷◌ e.item) (items-append es fs)

  pub init-Inv : (p : ℕ) → Inv {T = T} (init p) []
  unfolding init
  init-Inv p = record { chain = ground arith; distinct = tt; pending = λ t a b h. absurd (cc) }

  pub start-Coherent : (p : ℕ) → Coherent (start p) []
  unfolding start
  start-Coherent p = record { inv = init-Inv p; order = refl; covers = init-Covers p }

  Gets-total :
      (q : Mpsc T) (es : List (Entry T)) → Gets q es → (r : Option T × Mpsc T) × (get q ≡ some r)
  Gets-total q es (inl (_, e)) = ((none, q), e)
  Gets-total q es (inr (f, rest, q', _, e, _, _)) = ((some f.item, q'), e)

  link_total :
      (q : Mpsc T) (es : List (Entry T)) (t : ℕ)
      → Inv q es
      → (q.thread t ≡ none) ⊎ ((q' : Mpsc T) × (link t q ≡ some q'))
  link_total q es t inv = elim (Option-cases (q.thread t)) [
    | inl e ↦ inl e
    | inr ((prev, p), e) ↦ let (q', e', _, _) = link-Inv q es t prev p inv e in inr (q', e')
  ]

  Gets-idle :
      (q : Mpsc T) (es : List (Entry T))
      → Inv q es
      → ((t : ℕ) → q.thread t ≡ none)
      → Gets q es
      → (q' : Mpsc T) × (get q ≡ some (head? (items es), q'))
  Gets-idle q [] inv idle (inl (_, e)) = (q, e)
  Gets-idle q (f ∷ es) inv idle (inl ((t, k), e)) = absurd (ground (arith, inv.chain.1, idle t))
  Gets-idle q es inv idle (inr (f, rest, q', row, e, _, _)) =
      (q', e ∙ ap (λ l. some (head? (items l), q')) (sym row))

  links-Coherent :
      (w : World T) (es : List (Entry T)) (t : ℕ) (q : Mpsc T)
      → link t w.queue ≡ some q
      → Coherent w es
      → Coherent (record w { queue = q }) (clear t es)
  links-Coherent w es t q e c =
      let (prev, p, held) = link-thread w.queue q t e in
      let (q', e', inv', _) = link-Inv w.queue es t prev p c.inv held in
      let same : q' ≡ q = ground arith in
      record {
        inv = subst (λ r. Inv r (clear t es)) same inv';
        order = rw (items-clear t es) c.order;
        covers = link-Covers t w.queue q es e c.covers;
      }

  gets-Coherent :
      (w : World T) (es : List (Entry T)) (o : Option T) (q : Mpsc T)
      → get w.queue ≡ some (o, q)
      → Coherent w es
      → (fs : List (Entry T)) × Coherent (record w { queue = q; got = w.got ++ to_list o }) fs
  gets-Coherent w es o q e c = elim (get-Gets w.queue es c.inv) [
    | inl (_, e') ↦
        let same : w.queue ≡ q = ground arith in
        let none_got : none ≡ o = ground arith in
        (
          es,
          record {
            inv = subst (λ r. Inv r es) same c.inv;
            order = rw (← none_got) (c.order ∙ ap (λ l. l ++ items es) (sym (append-nil w.got)));
            covers = subst (λ r. Covers r es) same c.covers;
          },
        )
    | inr (f, rest, q', row, e', inv', _) ↦
        let same : q' ≡ q = ground arith in
        let one_got : some f.item ≡ o = ground arith in
        (
          rest,
          record {
            inv = subst (λ r. Inv r rest) same inv';
            order = rw (← one_got) (
                c.order
                ∙ ap (λ l. w.got ++ items l) row
                ∙ sym (append_assoc w.got (f.item ∷ []) (items rest)));
            covers =
                subst (λ r. Covers r rest) same
                  (get-Covers w.queue q' f rest f.item (subst (Inv w.queue) row c.inv) e'
                    (subst (Covers w.queue) row c.covers));
          },
        )
  ]

  Step-Coherent :
      {w w' : World T} (es : List (Entry T))
      → Step w w'
      → Coherent w es
      → (fs : List (Entry T)) × Coherent w' fs
  Step-Coherent {w} es (exchanges t p x idle free e) c = (
    es ++ new_entry t p x ∷ [],
    rw e (record {
      inv = exchange-Inv w.queue t p x idle free es c.inv;
      order =
          ap (λ l. l ++ x ∷ []) c.order
          ∙ append_assoc w.got (items es) (x ∷ [])
          ∙ ap (◌++◌ w.got) (sym (items-append es (new_entry t p x ∷ [])));
      covers = exchange-Covers t p x w.queue es c.covers;
    }),
  )
  Step-Coherent {w} es (links t q e e') c = (clear t es, rw e' (links-Coherent w es t q e c))
  Step-Coherent {w} es (gets o q e e') c = rw e' (gets-Coherent w es o q e c)

  pub Reach-Coherent :
      {w w' : World T} (es : List (Entry T))
      → Coherent w es
      → Reach w w'
      → (fs : List (Entry T)) × Coherent w' fs
  Reach-Coherent es c here = (es, c)
  Reach-Coherent es c (next r st) = let (fs, d) = Reach-Coherent es c r in Step-Coherent fs st d

  -- In every interleaving the consumer has got a first part of the items, in the order in which
  -- the producers have exchanged the last node: none is lost, doubled, or overtaken.
  pub got_is_prefix :
      (p : ℕ) {w : World T} → Reach (start p) w → (rest : List T) × (w.put ≡ w.got ++ rest)
  got_is_prefix p r = let (es, c) = Reach-Coherent [] (start-Coherent p) r in (items es, c.order)

  -- In every interleaving `get` accesses only memory that is allocated and initialised, and so does
  -- a producer that ends its `put`.
  pub no_dangling :
      (p : ℕ) {w : World T}
      → Reach (start p) w
      → ((r : Option T × Mpsc T) × (get w.queue ≡ some r))
        × ((t : ℕ) → (w.queue.thread t ≡ none) ⊎ ((q : Mpsc T) × (link t w.queue ≡ some q)))
  no_dangling p {w} r =
      let (es, c) = Reach-Coherent [] (start-Coherent p) r in
      (Gets-total w.queue es (get-Gets w.queue es c.inv), λ t. link_total w.queue es t c.inv)

  -- When no producer is between the two halves of `put`, `get` returns the oldest item that was not
  -- got yet, and a null pointer if there is none.
  pub get_oldest :
      (p : ℕ) {w : World T}
      → Reach (start p) w
      → ((t : ℕ) → w.queue.thread t ≡ none)
      → (rest : List T) × (q : Mpsc T) × (w.put ≡ w.got ++ rest)
        × (get w.queue ≡ some (head? rest, q))
  get_oldest p {w} r idle =
      let (es, c) = Reach-Coherent [] (start-Coherent p) r in
      let (q, e) = Gets-idle w.queue es c.inv idle (get-Gets w.queue es c.inv) in
      (items es, q, c.order, e)
