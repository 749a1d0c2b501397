-- ===== src/Todo/Queue.antt =====
-- include/mpsc.h as the queue of the todos, while no producer is between the halves of its `put`.
use iu.Prelude.{
  update, ℕ, suc, ◌≤◌, ◌≡◌, refl, sym, ap, ◌∙◌, inl, inr, Option, none, some, List, [], ◌∷◌, ◌++◌,
  drop, arith,
}
use iu.Mpsc
use iu.Mpsc.{Node, Mpsc, init, exchange, link}
use iu.Mpsc.Chain.{Entry, items, Inv}
use iu.Mpsc.Producers.{new_entry, exchange-Inv}
use iu.Mpsc.Linking.{clear, items-clear, link-Inv}
use iu.Mpsc.Consumer.{Gets, Waits, get-Gets}
use iu.Mpsc.Safety.{head?, items-append, init-Inv}
use iu.Todo.{Fifo}

-- Addresses from `fresh` on are free, so that it stands for `Malloc`.
pub record Queue (T : Type 0) : Type 0 where
  pub mpsc : Mpsc T
  pub entries : List (Entry T)
  pub fresh : ℕ
  pub inv : Inv mpsc entries
  pub idle : (t : ℕ) → mpsc.thread t ≡ none
  pub free : (p : ℕ) → fresh ≤ p → mpsc.cell p ≡ none

module _ {T : Type 0} where
  exchange-free :
      (t p x' : ℕ) (x : T) (q : Mpsc T)
      → q.cell x' ≡ none
      → suc p ≤ x'
      → (exchange t p x q).cell x' ≡ none
  unfolding exchange
  exchange-free t p x' x q h k = ground arith

  link-free : (t p : ℕ) (q q' : Mpsc T) → link t q ≡ some q' → q.cell p ≡ none → q'.cell p ≡ none
  unfolding link
  link-free t p q q' e h = ground arith

  get-free :
      (p : ℕ) (o : Option T) (q q' : Mpsc T)
      → iu.Mpsc.get q ≡ some (o, q')
      → q.cell p ≡ none
      → q'.cell p ≡ none
  unfolding iu.Mpsc.get
  get-free p o q q' e h = ground arith

  -- A `put` that comes to its end before any other call.
  module _ (x : T) (q : Queue T) where
    abbrev behind : List (Entry T)
    behind = q.entries ++ new_entry 0 q.fresh x ∷ []

    held : (exchange 0 q.fresh x q.mpsc).thread 0 ≡ some (q.mpsc.last, q.fresh)
    unfolding exchange
    held = refl

    linked :
        (r : Mpsc T) × (link 0 (exchange 0 q.fresh x q.mpsc) ≡ some r)
        × Inv r (clear 0 behind)
        × (r.thread ≡ update (exchange 0 q.fresh x q.mpsc).thread 0 none)
    linked =
        link-Inv (exchange 0 q.fresh x q.mpsc) behind 0 q.mpsc.last q.fresh
          (exchange-Inv q.mpsc 0 q.fresh x (q.idle 0) (q.free q.fresh (omega arith)) q.entries
            q.inv)
          held

    idle-update : (t : ℕ) → update (exchange 0 q.fresh x q.mpsc).thread 0 none t ≡ none
    unfolding exchange
    idle-update t = ground (arith, q.idle t)

    put : Queue T
    put = record {
      mpsc = linked.0;
      entries = clear 0 behind;
      fresh = suc q.fresh;
      inv = linked.2;
      idle = λ t. ap (λ f. f t) linked.3 ∙ idle-update t;
      free = λ p h.
          link-free 0 p (exchange 0 q.fresh x q.mpsc) linked.0 linked.1
            (exchange-free 0 q.fresh p x q.mpsc (q.free p (omega arith)) h);
    }

    -- It is the code's, and puts the item behind the others.
    mpsc-put : iu.Mpsc.put 0 q.fresh x q.mpsc ≡ some put.mpsc
    unfolding iu.Mpsc.put put
    mpsc-put = linked.1

    items-put : items put.entries ≡ items q.entries ++ x ∷ []
    unfolding put
    items-put = items-clear 0 behind ∙ items-append q.entries (new_entry 0 q.fresh x ∷ [])

  -- `get`, from what it comes to.
  module _ (q : Queue T) where
    next_queue :
        (r : Mpsc T) (rest : List (Entry T)) (o : Option T)
        → iu.Mpsc.get q.mpsc ≡ some (o, r)
        → Inv r rest
        → r.thread ≡ q.mpsc.thread
        → Queue T
    next_queue r rest o e inv th = record {
      mpsc = r;
      entries = rest;
      fresh = q.fresh;
      inv = inv;
      idle = λ t. ap (λ f. f t) th ∙ q.idle t;
      free = λ p h. get-free p o q.mpsc r e (q.free p h);
    }

    get_by : Gets q.mpsc q.entries → Option T × Queue T
    get_by (inl h) = (none, q)
    get_by (inr (e, rest, r, row, got, inv, th)) =
        (some e.item, next_queue r rest (some e.item) got inv th)

    get : Option T × Queue T
    unfolding get_by
    get = get_by (get-Gets q.mpsc q.entries q.inv)

    get_by-mpsc :
        (g : Gets q.mpsc q.entries) → iu.Mpsc.get q.mpsc ≡ some ((get_by g).0, (get_by g).1.mpsc)
    unfolding get_by next_queue
    get_by-mpsc (inl h) = h.1
    get_by-mpsc (inr (e, rest, r, row, got, inv, th)) = got

    -- It is the code's.
    mpsc-get : iu.Mpsc.get q.mpsc ≡ some (get.0, get.1.mpsc)
    unfolding get
    mpsc-get = get_by-mpsc (get-Gets q.mpsc q.entries q.inv)

    Waits-nil : (es : List (Entry T)) → Inv q.mpsc es → Waits es → items es ≡ []
    Waits-nil [] inv w = refl
    Waits-nil (e ∷ es) inv (t, k) = absurd (ground (arith, inv.chain.1, q.idle t))

    get_by-nil :
        (g : Gets q.mpsc q.entries)
        → items q.entries ≡ []
        → ((get_by g).0 ≡ none) × (items (get_by g).1.entries ≡ [])
    unfolding get_by next_queue
    get_by-nil (inl h) e = (refl, e)
    get_by-nil (inr (f, rest, r, row, got, inv, th)) e =
        absurd (let k : f.item ∷ items rest ≡ [] = sym (ap items row) ∙ e in cc)

    get_by-cons :
        (g : Gets q.mpsc q.entries) (x : T) (xs : List T)
        → items q.entries ≡ x ∷ xs
        → ((get_by g).0 ≡ some x) × (items (get_by g).1.entries ≡ xs)
    unfolding get_by next_queue
    get_by-cons (inl (w, _)) x xs e =
        absurd (let k : [] ≡ x ∷ xs = sym (Waits-nil q.entries q.inv w) ∙ e in cc)
    get_by-cons (inr (f, rest, r, row, got, inv, th)) x xs e =
        let k : f.item ∷ items rest ≡ x ∷ xs = sym (ap items row) ∙ e in
        let a : f.item ≡ x = cc in let b : items rest ≡ xs = cc in (ap some a, b)

  -- The queue of the todos.
  pub mpsc_fifo : Fifo T (Queue T)
  mpsc_fifo = record {
    put = put;
    get = get;
    view = λ q. items q.entries;
    view-put = items-put;
    get_none = λ q e. unfold get in get_by-nil q (get-Gets q.mpsc q.entries q.inv) e;
    get_some = λ q x xs e. unfold get in get_by-cons q (get-Gets q.mpsc q.entries q.inv) x xs e;
  }

  -- After the constructor.
  pub start_queue : ℕ → Queue T
  unfolding init
  start_queue p = record {
    mpsc = init p;
    entries = [];
    fresh = suc p;
    inv = init-Inv p;
    idle = λ t. refl;
    free = λ p' h. ground arith;
  }

  -- In any state between whole calls, the code's `put` and `get` meet no fault and are those of the
  -- queue of the todos: `put` adds the item behind the others, and `get` takes the first one, or
  -- returns a null pointer if there is none.
  pub mpsc_fifo-Mpsc :
      (x : T) (q : Queue T)
      → (iu.Mpsc.put 0 q.fresh x q.mpsc ≡ some (mpsc_fifo.put x q).mpsc)
        × (mpsc_fifo.view (mpsc_fifo.put x q) ≡ mpsc_fifo.view q ++ x ∷ [])
        × (iu.Mpsc.get q.mpsc ≡ some ((mpsc_fifo.get q).0, (mpsc_fifo.get q).1.mpsc))
        × ((mpsc_fifo.get q).0 ≡ head? (mpsc_fifo.view q))
        × (mpsc_fifo.view (mpsc_fifo.get q).1 ≡ drop 1 (mpsc_fifo.view q))
  unfolding mpsc_fifo
  mpsc_fifo-Mpsc x q = (
    mpsc-put x q,
    items-put x q,
    mpsc-get q,
    (got q (items q.entries) refl).0,
    (got q (items q.entries) refl).1,
  )
    where
      got :
          (q : Queue T) (l : List T)
          → items q.entries ≡ l
          → ((mpsc_fifo.get q).0 ≡ head? l) × (items (mpsc_fifo.get q).1.entries ≡ drop 1 l)
      got q [] e = mpsc_fifo.get_none q e
      got q (y ∷ l) e = mpsc_fifo.get_some q y l e
