-- ===== src/Concat/Shared/Row.antt =====
-- The nodes from `first` to the last one, in a row.
use iu.Prelude.{update, ℕ, ◌≡◌, refl, sym, ap, ◌≢◌, Option, none, some, List, [], ◌∷◌, ◌++◌, arith}
use iu.Concat.Shared.{Load}

pub record Entry (T : Type 0) : Type 0 where
  pub addr : ℕ
  pub load : Load T

module _ {T : Type 0} where
  abbrev pub loads : List (Entry T) → List (Load T)
  loads [] = []
  loads (e ∷ es) = e.load ∷ loads es

  abbrev pub front : List (Entry T) → Option ℕ
  front [] = none
  front (e ∷ es) = some e.addr

  -- The address whose cell ends a row that begins behind the address `a`.
  abbrev pub end_of : ℕ → List (Entry T) → ℕ
  end_of a [] = a
  end_of a (e ∷ es) = end_of e.addr es

  abbrev pub Linked : (ℕ → Option (Option ℕ)) → (ℕ → Option (Load T)) → ℕ → List (Entry T) → Type 0
  Linked cell item a [] = cell a ≡ some none
  Linked cell item a (e ∷ es) =
      (cell a ≡ some (some e.addr)) × (item e.addr ≡ some e.load) × Linked cell item e.addr es

  abbrev pub Fresh : ℕ → List (Entry T) → Type 0
  Fresh a [] = Unit {0}
  Fresh a (e ∷ es) = (a ≢ e.addr) × Fresh a es

  abbrev pub Distinct : ℕ → List (Entry T) → Type 0
  Distinct a [] = Unit {0}
  Distinct a (e ∷ es) = Fresh a (e ∷ es) × Distinct e.addr es

  pub end_of-append :
      (a : ℕ) (xs ys : List (Entry T)) → end_of a (xs ++ ys) ≡ end_of (end_of a xs) ys
  end_of-append a [] ys = refl
  end_of-append a (x ∷ xs) ys = end_of-append x.addr xs ys

  pub loads-append : (xs ys : List (Entry T)) → loads (xs ++ ys) ≡ loads xs ++ loads ys
  loads-append [] ys = refl
  loads-append (x ∷ xs) ys = ap (λ l. x.load ∷ l) (loads-append xs ys)

  pub Fresh-append :
      (a : ℕ) (xs : List (Entry T)) (e : Entry T) → Fresh a xs → a ≢ e.addr → Fresh a (xs ++ e ∷ [])
  Fresh-append a [] e f h = (h, tt)
  Fresh-append a (x ∷ xs) e f h = (f.0, Fresh-append a xs e f.1 h)

  pub Fresh-front :
      (a : ℕ) (xs : List (Entry T)) (e : Entry T)
      → Fresh a (xs ++ e ∷ [])
      → Fresh a xs × (a ≢ e.addr)
  Fresh-front a [] e f = (tt, f.0)
  Fresh-front a (x ∷ xs) e f = let (g, h) = Fresh-front a xs e f.1 in ((f.0, g), h)

  -- A new entry at the end.
  pub Distinct-append :
      (a : ℕ) (xs : List (Entry T)) (e : Entry T)
      → e.addr ≢ a
      → Fresh e.addr xs
      → Distinct a xs
      → Distinct a (xs ++ e ∷ [])
  Distinct-append a [] e h f d = ((λ k. h (sym k), tt), tt)
  Distinct-append a (x ∷ xs) e h f d =
      ((d.0.0, Fresh-append a xs e d.0.1 (λ k. h (sym k))), Distinct-append x.addr xs e f.0 f.1 d.1)

  -- The end of a row that begins behind `a` is not at another address before it.
  pub end_of-ne : (a b : ℕ) (xs : List (Entry T)) → a ≢ b → Fresh a xs → a ≢ end_of b xs
  end_of-ne a b [] h f = h
  end_of-ne a b (x ∷ xs) h f = end_of-ne a x.addr xs f.0 f.1

  module _ (cell : ℕ → Option (Option ℕ)) (item : ℕ → Option (Load T)) where
    -- What a pointer to the cell behind some nodes reads: the next one.
    pub Linked-end_of :
        (a : ℕ) (xs ys : List (Entry T))
        → Linked cell item a (xs ++ ys)
        → cell (end_of a xs) ≡ some (front ys)
    Linked-end_of a [] [] l = l
    Linked-end_of a [] (y ∷ ys) l = l.0
    Linked-end_of a (x ∷ xs) ys l = Linked-end_of x.addr xs ys l.2

    -- What a node behind some others holds.
    pub Linked-item :
        (a : ℕ) (xs : List (Entry T)) (e : Entry T) (ys : List (Entry T))
        → Linked cell item a (xs ++ e ∷ ys)
        → item e.addr ≡ some e.load
    Linked-item a [] e ys l = l.1
    Linked-item a (x ∷ xs) e ys l = Linked-item x.addr xs e ys l.2

    -- Stores outside of the row.
    pub Linked-store :
        (a b : ℕ) (v : Option (Option ℕ)) (xs : List (Entry T))
        → b ≢ a
        → Fresh b xs
        → Linked cell item a xs
        → Linked (update cell b v) item a xs
    Linked-store a b v [] h f l = ground arith
    Linked-store a b v (x ∷ xs) h f l = (ground arith, l.1, Linked-store x.addr b v xs f.0 f.1 l.2)

    pub Linked-update :
        (a b : ℕ) (v : Option (Option ℕ)) (w : Option (Load T)) (xs : List (Entry T))
        → b ≢ a
        → Fresh b xs
        → Linked cell item a xs
        → Linked (update cell b v) (update item b w) a xs
    Linked-update a b v w [] h f l = ground arith
    Linked-update a b v w (x ∷ xs) h f l =
        (ground arith, ground arith, Linked-update x.addr b v w xs f.0 f.1 l.2)

    -- The store that puts a node at the end.
    pub Linked-append :
        (a : ℕ) (xs : List (Entry T)) (e : Entry T)
        → e.addr ≢ a
        → Fresh e.addr xs
        → Distinct a xs
        → cell e.addr ≡ some none
        → item e.addr ≡ some e.load
        → Linked cell item a xs
        → Linked (update cell (end_of a xs) (some (some e.addr))) item a (xs ++ e ∷ [])
    Linked-append a [] e h f d c i l = (ground arith, i, ground arith)
    Linked-append a (x ∷ xs) e h f d c i l = (
      ground (arith, end_of-ne a x.addr xs d.0.0 d.0.1),
      l.1,
      Linked-append x.addr xs e f.0 f.1 d.1 c i l.2,
    )
