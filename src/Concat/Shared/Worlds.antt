-- ===== src/Concat/Shared/Worlds.antt =====
-- All interleavings of a producer and a consumer, from the constructor on.
use iu.Prelude.{
  ℕ, ◌≡◌, refl, sym, ap, subst, ◌∙◌, Bool, false, none, some, List, [], ◌++◌, append_assoc, arith,
  length, length-append, ◌≤◌, ◌<◌,
}
use iu.Concat.Shared.{
  Load, Producer, ConsumerCall, Consumer, Shared, new_stream, allocate, turn_off, turns, produce,
  consume,
}
use iu.Concat.Shared.Row.{Entry, loads}
use iu.Concat.Shared.Invariant.{is_idle, weight, Inv}
use iu.Concat.Shared.Producing.{published}
use iu.Concat.Shared.Putting.{allocate-Inv, turn_off-Inv, produce-Produced}
use iu.Concat.Shared.Consuming.{passed, turns-Inv}
use iu.Concat.Shared.Calls.{consume-Consumed}

-- The stream, with what was put and given, in order, and what the consumer has left behind.
pub record World (T : Type 0) : Type 0 where
  pub shared : Shared T
  pub put : List (Load T)
  pub got : List (Load T)

module _ {T : Type 0} where
  abbrev pub start : World T
  start = record { shared = new_stream; put = []; got = [] }

  -- A producer that is in no call and has not closed the stream begins a `put` or a `give`, with any
  -- memory that is free, or closes the stream; a consumer that is in no call begins one; and each
  -- goes on by one access.
  pub data Step (w w' : World T) : Type 0 where
    allocates :
        (p : ℕ) (x : Load T)
        → w.shared.producer ≡ Producer.idle
        → w.shared.off ≡ false
        → w.shared.cell p ≡ none
        → w' ≡ record w { shared = allocate p x w.shared }
        → Step w w'
    closes :
        w.shared.producer ≡ Producer.idle → w' ≡ record w { shared = turn_off w.shared } → Step w w'
    calls :
        (c : ConsumerCall)
        → w.shared.consumer ≡ Consumer.idle
        → w' ≡ record w { shared = turns (Consumer.looks c) w.shared }
        → Step w w'
    produces :
        (s : Shared T)
        → produce w.shared.producer w.shared ≡ some s
        → w' ≡ record w { shared = s; put = w.put ++ published w.shared.producer w.shared }
        → Step w w'
    consumes :
        (passes : Bool) (s : Shared T)
        → consume passes w.shared.consumer w.shared ≡ some s
        → w' ≡ record w { shared = s; got = w.got ++ passed passes w.shared.consumer w.shared }
        → Step w w'

  pub data Reach (w : World T) : World T → Type 0 where
    here : Reach w w
    next : {v u : World T} → Reach w v → Step v u → Reach w u

  pub record Coherent (w : World T) (old new : List (Entry T)) : Type 0 where
    pub inv : Inv w.shared w.shared.producer w.shared.consumer old new
    pub order : w.put ≡ w.got ++ loads new
    pub small : length (old ++ new) ≤ length w.put

  abbrev pub IsCoherent : World T → Type 0
  IsCoherent w = (old : List (Entry T)) × (new : List (Entry T)) × Coherent w old new

  start-IsCoherent : IsCoherent start
  start-IsCoherent = (
    [],
    [],
    record {
      inv = record {
        linked = ground arith;
        distinct = tt;
        behind = refl;
        producing = refl;
        consuming = tt;
        closed = λ k. refl;
        covers = λ a d f n. ground arith;
      };
      order = refl;
      small = omega arith;
    },
  )

  -- An access of the producer brings its call nearer to the end.
  pub produces-Coherent :
      (w : World T) (s : Shared T) (old new : List (Entry T))
      → produce w.shared.producer w.shared ≡ some s
      → Coherent w old new
      → (old' : List (Entry T)) × (new' : List (Entry T)) × Coherent
          (record w { shared = s; put = w.put ++ published w.shared.producer w.shared })
          old'
          new'
        × (is_idle w.shared.producer ≡ false
            → weight s.producer (length (old' ++ new'))
              < weight w.shared.producer (length (old ++ new)))
  produces-Coherent w s old new e c =
      let (s', old', new', r, inv, l, k, falls, _) =
        produce-Produced w.shared w.shared.consumer old new w.shared.producer c.inv refl in
      let same : s' ≡ s = cc in
      (
        old',
        new',
        record {
          inv =
              subst (λ s. Inv s s.producer s.consumer old' new') same
                (subst (λ c. Inv s' s'.producer c old' new') (sym k) inv);
          order =
              ap (λ l. l ++ published w.shared.producer w.shared) c.order
              ∙ append_assoc w.got (loads new) (published w.shared.producer w.shared)
              ∙ ap (λ l. w.got ++ l) (sym l);
          small = omega (
            arith,
            c.small,
            falls.1,
            length-append {0} w.put (published w.shared.producer w.shared),
          );
        },
        λ i.
            subst
              (λ s.
                weight s.producer (length (old' ++ new'))
                < weight w.shared.producer (length (old ++ new)))
              same (falls.0 i),
      )

  -- One of the consumer leaves the producer where it is.
  pub consumes-Coherent :
      (w : World T) (b : Bool) (s : Shared T) (old new : List (Entry T))
      → consume b w.shared.consumer w.shared ≡ some s
      → Coherent w old new
      → (old' : List (Entry T)) × (new' : List (Entry T)) × Coherent
          (record w { shared = s; got = w.got ++ passed b w.shared.consumer w.shared })
          old'
          new'
        × (s.producer ≡ w.shared.producer)
        × (length (old' ++ new') ≡ length (old ++ new))
  consumes-Coherent w b s old new e c =
      let (s', old', new', r, inv, l, k, kept) =
        consume-Consumed w.shared w.shared.producer old new b w.shared.consumer c.inv refl in
      let same : s' ≡ s = cc in
      (
        old',
        new',
        record {
          inv =
              subst (λ s. Inv s s.producer s.consumer old' new') same
                (subst (λ p. Inv s' p s'.consumer old' new') (sym k) inv);
          order =
              c.order
              ∙ ap (λ l. w.got ++ l) l
              ∙ sym (append_assoc w.got (passed b w.shared.consumer w.shared) (loads new'));
          small = omega (arith, c.small, kept);
        },
        subst (λ s. s.producer ≡ w.shared.producer) same k,
        kept,
      )

  pub calls-Coherent :
      (w : World T) (c : ConsumerCall) (old new : List (Entry T))
      → Coherent w old new
      → Coherent (record w { shared = turns (Consumer.looks c) w.shared }) old new
  calls-Coherent w c old new h = record {
    inv =
        turns-Inv w.shared w.shared.producer w.shared.consumer old new (Consumer.looks c) h.inv tt;
    order = h.order;
    small = h.small;
  }

  idling :
      (w : World T) (old new : List (Entry T))
      → w.shared.producer ≡ Producer.idle
      → Coherent w old new
      → Inv w.shared Producer.idle w.shared.consumer old new
  idling w old new i c = subst (λ p. Inv w.shared p w.shared.consumer old new) i c.inv

  Step-IsCoherent : {w w' : World T} → Step w w' → IsCoherent w → IsCoherent w'
  unfolding allocate turn_off
  Step-IsCoherent {w} (allocates p x i o h e) (old, new, c) = rw e (
    old,
    new,
    record {
      inv = allocate-Inv w.shared w.shared.consumer old new p x h o (idling w old new i c);
      order = c.order;
      small = c.small;
    },
  )
  Step-IsCoherent {w} (closes i e) (old, new, c) = rw e (
    old,
    new,
    record {
      inv =
          subst (λ p. Inv (turn_off w.shared) p w.shared.consumer old new) (sym i)
            (turn_off-Inv w.shared w.shared.consumer old new (idling w old new i c));
      order = c.order;
      small = c.small;
    },
  )
  Step-IsCoherent {w} (calls c i e) (old, new, h) = rw e (old, new, calls-Coherent w c old new h)
  Step-IsCoherent {w} (produces s r e) (old, new, h) =
      let (old', new', c, _) = produces-Coherent w s old new r h in rw e (old', new', c)
  Step-IsCoherent {w} (consumes b s r e) (old, new, h) =
      let (old', new', c, _, _) = consumes-Coherent w b s old new r h in rw e (old', new', c)

  pub Reach-IsCoherent : {w : World T} → Reach start w → IsCoherent w
  Reach-IsCoherent here = start-IsCoherent
  Reach-IsCoherent (next r st) = Step-IsCoherent st (Reach-IsCoherent r)
