-- ===== src/Concat/Shared/Producing.antt =====
-- Every access of the producer finds memory that is allocated, and keeps the invariant.
use iu.Prelude.{
  ℕ, ◌<◌, length, ◌≡◌, refl, sym, ap, ◌∙◌, ◌≢◌, Bool, true, false, Option, none, some, List, [],
  ◌∷◌, ◌++◌, arith, append-nil,
}
use iu.Concat.Shared.{
  Load, Producer, links, advances, begins, compares, unlinks, frees, moves, Consumer, Shared, home,
  same, goes, produce,
}
use iu.Concat.Shared.Row.{Entry, loads, front, end_of, Linked-end_of}
use iu.Concat.Shared.Invariant.{is_idle, own, left_of, weight, Falls, Behind, Producing, Inv}

pub same_refl : (a : Option ℕ) → same a a ≡ true
same_refl none = refl
same_refl (some a) = ground arith

module _ {T : Type 0} where
  -- What other threads can see from now on.
  abbrev pub published : Producer → Shared T → List (Load T)
  published (links p) s = elim (s.item p) [ none ↦ [] | some x ↦ x ∷ [] ]
  published _ s = []

  abbrev pub Produced :
      Shared T → Producer → Consumer T → (old new : List (Entry T)) → Option (Shared T) → Type 0
  Produced s p c old new r =
      (s' : Shared T) × (old' : List (Entry T)) × (new' : List (Entry T)) × (r ≡ some s')
      × Inv s' s'.producer c old' new'
      × (loads new' ≡ loads new ++ published p s)
      × (s'.consumer ≡ s.consumer)
      × Falls p s'.producer (length (old ++ new)) (length (old' ++ new')) (length (published p s))
      × (old' ≡ left_of p old)

  -- A step that stores nothing.
  goes-Inv :
      (s : Shared T) (p p' : Producer) (c : Consumer T) (old new : List (Entry T))
      → Inv s p c old new
      → own p ≡ own p'
      → is_idle p ≡ false
      → Producing s p' old (old ++ new)
      → Inv (goes p' s) p' c old new
  goes-Inv s p p' c old new inv o i h = record {
    linked = inv.linked;
    distinct = inv.distinct;
    behind = inv.behind;
    producing = going p' h;
    consuming = inv.consuming;
    closed = λ k. absurd (let e : is_idle p ≡ true = inv.closed k in cc);
    covers = λ a d f n. inv.covers a d f (λ e. n (sym o ∙ e));
  }
    where
      going :
          (q : Producer) → Producing s q old (old ++ new) → Producing (goes p' s) q old (old ++ new)
      going Producer.idle k = k
      going (links q) k = k
      going (advances q) k = k
      going begins k = k
      going (Producer.looks head iter) k = k
      going (compares head iter a) k = k
      going (unlinks iter) k = k
      going (frees q iter) k = k
      going (moves iter) k = k

  module _ (s : Shared T) (c : Consumer T) (old new : List (Entry T)) where
    pub goes-Produced :
        (p p' : Producer) (r : Option (Shared T))
        → Inv s p c old new
        → own p ≡ own p'
        → is_idle p ≡ false
        → (published p s ≡ []) × (left_of p old ≡ old)
        → Producing s p' old (old ++ new)
        → weight p' (length (old ++ new)) < weight p (length (old ++ new))
        → r ≡ some (goes p' s)
        → Produced s p c old new r
    goes-Produced p p' r inv o i n h less e = (
      goes p' s,
      old,
      new,
      e,
      goes-Inv s p p' c old new inv o i h,
      sym (append-nil (loads new)) ∙ ap (λ l. loads new ++ l) (sym n.0),
      refl,
      (λ k. less, omega arith),
      sym n.1,
    )

    pub first_cell : (p : Producer) → Inv s p c old new → s.cell home ≡ some (front (old ++ new))
    first_cell p inv = Linked-end_of s.cell s.item home [] (old ++ new) inv.linked

    pub begins_lem : Inv s begins c old new → Produced s begins c old new (produce begins s)
    unfolding produce
    begins_lem inv =
        goes-Produced begins (Producer.looks true (front (old ++ new))) (produce begins s) inv refl
          refl (refl, refl) (inv.producing, refl) (omega arith)
          (rw (first_cell begins inv, produce) refl)

    pub looks_lem :
        (head : Bool) (iter : Option ℕ)
        → let p = Producer.looks head iter in
          Inv s p c old new → Produced s p c old new (produce p s)
    unfolding produce
    looks_lem true iter inv =
        goes-Produced (Producer.looks true iter) (compares true iter s.listener)
          (produce (Producer.looks true iter) s) inv refl refl (refl, refl)
          (inv.producing.0, inv.producing.1, (old, [], sym (append-nil old), inv.behind))
          (omega arith) refl
    looks_lem false iter inv =
        goes-Produced (Producer.looks false iter) (compares false iter s.listener)
          (produce (Producer.looks false iter) s) inv refl refl (refl, refl)
          (inv.producing.0, inv.producing.1, after old inv.producing.1.2 inv.behind) (omega arith)
          refl
      where
        after : (es : List (Entry T)) → es ≢ [] → s.listener ≡ end_of home es → Behind s.listener es
        after [] h e = absurd (h refl)
        after (f ∷ fs) h e = (f, fs, [], ap (λ l. f ∷ l) (sym (append-nil fs)), e)
