-- ===== src/Prelude/Map.antt =====
-- `std::map` and `std::set` with number keys, as the lists that their iterators go through, in
-- ascending order of the keys.
use Prim.Native.Nat.{ℕ, ◌≤◌, ◌<◌}
use mathlib.Core.Path.{◌≡◌, refl, ap₂}
use mathlib.Core.Logic.{inl, inr}
use mathlib.Core.Bool.{Bool, true, false, not, ◌&&◌, ◌||◌}
use mathlib.Core.Option.{Option, none, some}
use mathlib.Core.List.{List, [], ◌∷◌}
use native.Mathlib.Omega.{arith}
use iu.Prelude.Tests.{ltb, ◌==◌, if◌then◌else◌, Bool-cases}

abbrev pub Map {ℓ} : Type ℓ → Type ℓ
Map V = List (ℕ × V)

abbrev pub Set : Type 0
Set = List ℕ

module _ {ℓ} {V : Type ℓ} where
  unfoldable pub find : ℕ → Map V → Option V
  find k [] = none
  find k ((j, v) ∷ m) = if j == k then some v else find k m

  -- `m[k] = v`.
  unfoldable pub assign : ℕ → V → Map V → Map V
  assign k v [] = (k, v) ∷ []
  assign k v ((j, w) ∷ m) =
      let rest = assign k v m in
      if ltb k j then (k, v) ∷ (j, w) ∷ m else if j == k then (k, v) ∷ m else (j, w) ∷ rest

  -- `m.erase(k)`.
  unfoldable pub erase : ℕ → Map V → Map V
  erase k [] = []
  erase k ((j, w) ∷ m) = if j == k then erase k m else (j, w) ∷ erase k m

  abbrev pub or_else : V → Option V → V
  or_else d none = d
  or_else d (some v) = v

  -- The value that `m[k]` refers to, where a missing key is given the value `d`.
  unfoldable pub at_or : V → ℕ → Map V → V
  at_or d k m = or_else d (find k m)

  -- `m.emplace(k, v)`: a key that is there keeps its value.
  unfoldable pub emplace : ℕ → V → Map V → Map V
  emplace k v m = elim (find k m) [ none ↦ assign k v m | some w ↦ m ]

  pub find-assign :
      (k j : ℕ) (v : V) (m : Map V) → find j (assign k v m) ≡ (if k == j then some v else find j m)
  unfolding find assign
  find-assign k j v [] = refl
  find-assign k j v ((i, w) ∷ m) = ground (arith, find-assign k j v m)

  pub find-erase : (k j : ℕ) (m : Map V) → find j (erase k m) ≡ (if k == j then none else find j m)
  unfolding find erase
  find-erase k j [] = ground arith
  find-erase k j ((i, w) ∷ m) = ground (arith, find-erase k j m)

  -- Keys ascend, each above the bound.
  abbrev pub Above : ℕ → Map V → Type 0
  Above b [] = Unit {0}
  Above b ((j, w) ∷ m) = (b < j) × Above j m

  abbrev pub IsOrdered : Map V → Type 0
  IsOrdered [] = Unit {0}
  IsOrdered ((j, w) ∷ m) = Above j m

  pub Above-IsOrdered : (b : ℕ) (m : Map V) → Above b m → IsOrdered m
  Above-IsOrdered b [] o = tt
  Above-IsOrdered b ((j, w) ∷ m) o = o.1

  Above-assign : (b k : ℕ) (v : V) (m : Map V) → b < k → Above b m → Above b (assign k v m)
  unfolding assign
  Above-assign b k v [] h o = (h, tt)
  Above-assign b k v ((j, w) ∷ m) h o = ground (arith, Above-assign j k v m)

  pub IsOrdered-assign : (k : ℕ) (v : V) (m : Map V) → IsOrdered m → IsOrdered (assign k v m)
  unfolding assign
  IsOrdered-assign k v [] o = tt
  IsOrdered-assign k v ((j, w) ∷ m) o = ground (arith, Above-assign j k v m)

  pub find_below : (b k : ℕ) (m : Map V) → Above b m → k ≤ b → find k m ≡ none
  unfolding find
  find_below b k [] o h = refl
  find_below b k ((j, w) ∷ m) o h = ground (arith, find_below j k m)

-- `s.count(a)`.
unfoldable pub contains : ℕ → Set → Bool
contains a [] = false
contains a (b ∷ s) = b == a || contains a s

-- `s.insert(a)`.
unfoldable pub insert : ℕ → Set → Set
insert a [] = a ∷ []
insert a (b ∷ s) =
    let rest = insert a s in if ltb a b then a ∷ b ∷ s else if b == a then b ∷ s else b ∷ rest

-- `s.erase(a)`.
unfoldable pub remove : ℕ → Set → Set
remove a [] = []
remove a (b ∷ s) = if b == a then remove a s else b ∷ remove a s

pub contains-insert : (a b : ℕ) (s : Set) → contains b (insert a s) ≡ (a == b || contains b s)
unfolding contains insert
contains-insert a b [] = refl
contains-insert a b (c ∷ s) = ground (arith, contains-insert a b s)

pub contains-remove : (a b : ℕ) (s : Set) → contains b (remove a s) ≡ (not (a == b) && contains b s)
unfolding contains remove
contains-remove a b [] = ground arith
contains-remove a b (c ∷ s) = ground (arith, contains-remove a b s)

-- Members ascend, each above the bound.
abbrev pub AboveSet : ℕ → Set → Type 0
AboveSet b [] = Unit {0}
AboveSet b (a ∷ s) = (b < a) × AboveSet a s

abbrev pub IsAscending : Set → Type 0
IsAscending [] = Unit {0}
IsAscending (a ∷ s) = AboveSet a s

AboveSet-IsAscending : (b : ℕ) (t : Set) → AboveSet b t → IsAscending t
AboveSet-IsAscending b [] h = tt
AboveSet-IsAscending b (x ∷ t) h = h.1

AboveSet-mono : (a b : ℕ) (s : Set) → a ≤ b → AboveSet b s → AboveSet a s
AboveSet-mono a b [] h o = tt
AboveSet-mono a b (c ∷ s) h o = (omega arith, o.1)

AboveSet-insert : (b a : ℕ) (s : Set) → b < a → AboveSet b s → AboveSet b (insert a s)
unfolding insert
AboveSet-insert b a [] h o = (h, tt)
AboveSet-insert b a (c ∷ s) h o = ground (arith, AboveSet-insert c a s)

pub IsAscending-insert : (a : ℕ) (s : Set) → IsAscending s → IsAscending (insert a s)
unfolding insert
IsAscending-insert a [] o = tt
IsAscending-insert a (c ∷ s) o = ground (arith, AboveSet-insert c a s)

AboveSet-remove : (b a : ℕ) (s : Set) → AboveSet b s → AboveSet b (remove a s)
unfolding remove
AboveSet-remove b a [] o = tt
AboveSet-remove b a (c ∷ s) o =
    ground (arith, AboveSet-remove c a s o.1, AboveSet-mono b c (remove a s))

pub IsAscending-remove : (a : ℕ) (s : Set) → IsAscending s → IsAscending (remove a s)
unfolding remove
IsAscending-remove a [] o = tt
IsAscending-remove a (c ∷ s) o = elim (Bool-cases (c == a)) [
  | inl e ↦ rw e (AboveSet-IsAscending c (remove a s) (AboveSet-remove c a s o))
  | inr e ↦ rw e (AboveSet-remove c a s o)
]

pub AboveSet-contains : (b a : ℕ) (s : Set) → AboveSet b s → contains a s ≡ true → b < a
unfolding contains
AboveSet-contains b a [] o h = absurd (cc)
AboveSet-contains b a (c ∷ s) o h = ground (arith, AboveSet-contains c a s o.1)

-- An ascending set is determined by its members.
pub IsAscending-ext :
    (s t : Set) → IsAscending s → IsAscending t → ((a : ℕ) → contains a s ≡ contains a t) → s ≡ t
unfolding contains
IsAscending-ext [] [] p q e = refl
IsAscending-ext [] (b ∷ t) p q e = absurd (ground (arith, e b))
IsAscending-ext (a ∷ s) [] p q e = absurd (ground (arith, e a))
IsAscending-ext (a ∷ s) (b ∷ t) p q e =
    let head : a ≡ b =
      ground (arith, e a, e b, AboveSet-contains b a t q, AboveSet-contains a b s p) in
    ap₂ ◌∷◌ head (
      IsAscending-ext s t (AboveSet-IsAscending a s p) (AboveSet-IsAscending b t q)
        (λ c. ground (arith, e c, head, AboveSet-contains a c s p, AboveSet-contains b c t q)))
