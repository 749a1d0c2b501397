-- ===== src/Concat/Threads.antt =====
-- The thread of a file fills the stream that was given last, while the main loop reads the queue.
use iu.Prelude.{ℕ, ◌≡◌, sym, ap, ◌∙◌, some, List, [], ◌∷◌, ◌++◌, append_assoc, append-nil}
use iu.Concat.{Stream, returns, get, put, give, close, empty_stream}
use iu.Concat.Filling.{fill_last, flat, get-FlatGot}
use iu.Concat.Interleaved.{
  HoldsLast, get-LastKept, flat-put, flat-close, fill_last-Adds, give-empty_stream,
}

-- The queue, what the loop has got, and what the thread has put.
pub record World (T : Type 0) : Type 0 where
  pub queue : Stream T
  pub got : List T
  pub put : List T

module _ {T : Type 0} where
  -- The thread puts, or closes its stream; the loop gets.
  pub data Step (w w' : World T) : Type 0 where
    puts :
        (x : T) (q : Stream T)
        → fill_last (put x) w.queue ≡ some q
        → w' ≡ record w { queue = q; put = w.put ++ x ∷ [] }
        → Step w w'
    closes :
        (q : Stream T) → fill_last close w.queue ≡ some q → w' ≡ record w { queue = q } → Step w w'
    gets :
        (fuel : ℕ) (x : T) (q : Stream T)
        → get fuel w.queue ≡ returns x q
        → w' ≡ record w { queue = q; got = w.got ++ x ∷ [] }
        → Step w w'

  pub data Reach (w : World T) : World T → Type 0 where
    here : Reach w w
    next : {v u : World T} → Reach w v → Step v u → Reach w u

  abbrev pub start : Stream T → World T
  start q = record { queue = q; got = []; put = [] }

  record InOrder (q : Stream T) (w : World T) : Type 0 where
    last : HoldsLast w.queue
    order : w.got ++ flat w.queue ≡ flat q ++ w.put

  gets-InOrder :
      (q : Stream T) (w : World T) (fuel : ℕ) (x : T) (q' : Stream T)
      → get fuel w.queue ≡ returns x q'
      → InOrder q w
      → InOrder q (record w { queue = q'; got = w.got ++ x ∷ [] })
  gets-InOrder q w fuel x q' e i =
      let f : flat w.queue ≡ x ∷ flat q' = rw e at (get-FlatGot fuel w.queue) in
      record {
        last = rw e at (get-LastKept fuel w.queue i.last);
        order = append_assoc w.got (x ∷ []) (flat q') ∙ ap (λ l. w.got ++ l) (sym f) ∙ i.order;
      }

  Step-InOrder : (q : Stream T) {w w' : World T} → InOrder q w → Step w w' → InOrder q w'
  Step-InOrder q {w} i (puts x q' e k) =
      let (l, h) = fill_last-Adds (put x) (x ∷ []) (flat-put x) w.queue q' i.last e in
      rw k (record {
        last = h;
        order =
            ap (λ l. w.got ++ l) l
            ∙ sym (append_assoc w.got (flat w.queue) (x ∷ []))
            ∙ ap (λ l. l ++ x ∷ []) i.order
            ∙ append_assoc (flat q) w.put (x ∷ []);
      })
  Step-InOrder q {w} i (closes q' e k) =
      let (l, h) = fill_last-Adds close [] flat-close w.queue q' i.last e in
      rw k (record {
        last = h;
        order = ap (λ l. w.got ++ l) (l ∙ append-nil (flat w.queue)) ∙ i.order;
      })
  Step-InOrder q {w} i (gets fuel x q' e k) = rw k (gets-InOrder q w fuel x q' e i)

  Reach-InOrder : (q : Stream T) {w : World T} → HoldsLast q → Reach (start q) w → InOrder q w
  Reach-InOrder q h here = record { last = h; order = sym (append-nil (flat q)) }
  Reach-InOrder q h (next r s) = Step-InOrder q (Reach-InOrder q h r) s

  -- A stream without an item is given to any queue; a thread puts into it and may close it, in every
  -- interleaving with a loop that gets from the queue. What the loop has got, and then what the queue
  -- still holds, is what the queue held before and then what the thread has put, in order: nothing is
  -- lost, doubled or overtaken.
  pub Reach-flat :
      (q : Stream T) {w : World T}
      → Reach (start (give empty_stream q)) w
      → w.got ++ flat w.queue ≡ flat q ++ w.put
  Reach-flat q {w} r =
      let (f, h) = give-empty_stream q in
      (Reach-InOrder (give empty_stream q) h r).order ∙ ap (λ l. l ++ w.put) f
