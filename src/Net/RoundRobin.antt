-- ===== src/Net/RoundRobin.antt =====
-- The round-robin choice of the descriptor to serve.
use native.Mathlib.Nat.{mod-eq_of_lt, mod-eq-sub-mod}
use iu.Prelude.{
  ◌%◌, ap, sym, ◌∙◌, ℕ, zero, suc, ◌+◌, ◌-◌, ◌≤◌, ◌<◌, ◌≡◌, refl, Bool, true, false, some, List, [],
  ◌∷◌, length, All, ltb, if◌then◌else◌, arith, Bool-cases, inl, inr, ◌⊎◌,
}
use iu.Prelude.Map.{contains}
use iu.Net.{Pollfd}
use iu.Net.Receive.{wrap_start, index_of, choose, next_start, is_ready_at}

-- How many entries stand between two indexes, going up and round.
abbrev pub gap : (size start i : ℕ) → ℕ
gap size start i = if ltb start i then i - start - 1 else i + size - start - 1

-- If any descriptor is polled, the loop that brings `start` into the range comes to an end after at
-- most `start` rounds, with the remainder of `start` by the number of descriptors.
pub wrap_start_remainder :
    (start size : ℕ) → 0 < size → wrap_start (suc start) start size ≡ some (start % size)
unfolding wrap_start
wrap_start_remainder start size h = go (suc start) start (omega arith)
  where
    go : (fuel start : ℕ) → start < fuel → wrap_start fuel start size ≡ some (start % size)
    go zero start k = absurd (omega arith)
    go (suc fuel) start k = elim (Bool-cases (ltb start size)) [
      | inl e ↦ let l : start < size = ground arith in rw e (ap some (sym (mod-eq_of_lt l)))
      | inr e ↦
          let l : size ≤ start = ground arith in
          rw e (go fuel (start - size) (ground arith) ∙ ap some (sym (mod-eq-sub-mod l)))
    ]

gap-index_of :
    (offset start size : ℕ)
    → start < size
    → offset < size
    → (index_of offset start size < size) × (gap size start (index_of offset start size) ≡ offset)
gap-index_of offset start size h k = (ground arith, ground arith)

index_of-gap :
    (start size i : ℕ) → start < size → i < size → index_of (gap size start i) start size ≡ i
index_of-gap start size i h k = ground arith

-- What the loop over the offsets from `offset` on comes to.
abbrev pub Chosen : ℕ → ℕ → List Pollfd → ℕ → Type 0
Chosen offset start ps c =
    ((c ≡ start)
      × ((j : ℕ) → j < length ps → offset ≤ gap (length ps) start j → is_ready_at j ps ≡ false))
    ⊎ ((is_ready_at c ps ≡ true)
        × (c < length ps)
        × (offset ≤ gap (length ps) start c)
        × ((j : ℕ)
            → j < length ps
            → offset ≤ gap (length ps) start j
            → is_ready_at j ps ≡ true
            → gap (length ps) start c ≤ gap (length ps) start j))

gap_lt : (size start j : ℕ) → start < size → j < size → gap size start j < size
gap_lt size start j h k = ground arith

-- At the offset itself stands the entry of `index_of`.
at_offset :
    (offset start : ℕ) (ps : List Pollfd) (j : ℕ)
    → start < length ps
    → j < length ps
    → is_ready_at (index_of offset start (length ps)) ps ≡ false
    → is_ready_at j ps ≡ true
    → offset ≤ gap (length ps) start j
    → suc offset ≤ gap (length ps) start j
at_offset offset start ps j h k e r o = elim (eq_or_gt offset (gap (length ps) start j) o) [
  | inr p ↦ p
  | inl p ↦
      let q : index_of offset start (length ps) ≡ j = rw p (index_of-gap start (length ps) j h k) in
      absurd (false_ne_true (rw q at e) r)
]
  where
    eq_or_gt : (a b : ℕ) → a ≤ b → (a ≡ b) ⊎ (a < b)
    eq_or_gt a b h = omega arith

    false_ne_true : {b : Bool} → b ≡ false → b ≡ true → ⊥
    false_ne_true p q = cc

Chosen-suc :
    (offset start c : ℕ) (ps : List Pollfd)
    → start < length ps
    → is_ready_at (index_of offset start (length ps)) ps ≡ false
    → Chosen (suc offset) start ps c
    → Chosen offset start ps c
Chosen-suc offset start c ps h e (inl (p, n)) = inl (
  p,
  λ j k o. elim (Bool-cases (is_ready_at j ps)) [
    | inr q ↦ q
    | inl q ↦ n j k (at_offset offset start ps j h k e q o)
  ],
)
Chosen-suc offset start c ps h e (inr (r, l, o, m)) =
    inr (r, l, omega arith, λ j k a q. m j k (at_offset offset start ps j h k e q a) q)

choose-Chosen :
    (left offset start : ℕ) (ps : List Pollfd)
    → start < length ps
    → offset + left ≡ length ps
    → Chosen offset start ps (choose left offset start ps)
unfolding choose
choose-Chosen zero offset start ps h e =
    inl (refl, λ j k o. absurd (omega (arith, gap_lt (length ps) start j h k)))
choose-Chosen (suc left) offset start ps h e =
    let i = index_of offset start (length ps) in
    let (l, g) = gap-index_of offset start (length ps) h (omega arith) in
    elim (Bool-cases (is_ready_at i ps)) [
      | inl r ↦ rw r (inr (r, l, omega (arith, g), λ j k o q. omega (arith, g)))
      | inr r ↦ rw r (
          Chosen-suc offset start (choose left (suc offset) start ps) ps h r
            (choose-Chosen left (suc offset) start ps h (omega arith)))
    ]

-- For a start in the range, the choice is an entry with input or a hangup, and no other such entry
-- comes before it, going up and round from behind the start; without such an entry the start stays.
pub next_start-Chosen :
    (start : ℕ) (ps : List Pollfd) → start < length ps → Chosen 0 start ps (next_start start ps)
next_start-Chosen start ps h = choose-Chosen (length ps) 0 start ps h (omega arith)

-- The choices of one call after the other, each with what `poll` left in the entries.
abbrev pub choices : ℕ → List (List Pollfd) → List ℕ
choices start [] = []
choices start (ps ∷ polls) = next_start start ps ∷ choices (next_start start ps) polls

-- The polls all have the same number of entries, and the entry at `j` is ready in each.
abbrev pub Waiting : ℕ → ℕ → List (List Pollfd) → Type 0
Waiting size j polls = All (λ ps. (length ps ≡ size) × (is_ready_at j ps ≡ true)) polls

gap_closer :
    (n size start c j : ℕ)
    → n ≡ size
    → start < size
    → c < size
    → j < size
    → gap n start c ≤ gap n start j
    → (c ≡ j) ⊎ (gap size c j < gap size start j)
gap_closer n size start c j e h k l m = ground arith

choices_reach :
    (size start j : ℕ) (polls : List (List Pollfd))
    → start < size
    → j < size
    → Waiting size j polls
    → gap size start j < length polls
    → contains j (choices start polls) ≡ true
unfolding contains
choices_reach size start j [] h k w g = absurd (omega arith)
choices_reach size start j (ps ∷ polls) h k ((e, r), w) g =
    elim (next_start-Chosen start ps (omega arith)) [
      | inl (p, n) ↦
          absurd (let q : is_ready_at j ps ≡ false = n j (omega arith) (omega arith) in cc)
      | inr (q, l, o, m) ↦
          elim (gap_closer (length ps) size start (next_start start ps) j e h (omega arith) k
            (m j (omega arith) (omega arith) r)) [
              | inl p ↦ ground (arith, p)
              | inr p ↦ ground (
                arith,
                choices_reach size (next_start start ps) j polls (omega arith) k w (omega arith),
              )
            ]
    ]

-- No descriptor starves: an entry that is ready in each call is chosen within as many calls as
-- there are entries, if their number and the entry's place stay the same and the start is in the
-- range.
pub choices_fair :
    (size start j : ℕ) (polls : List (List Pollfd))
    → start < size
    → j < size
    → Waiting size j polls
    → size ≤ length polls
    → contains j (choices start polls) ≡ true
choices_fair size start j polls h k w l =
    choices_reach size start j polls h k w (omega (arith, gap_lt size start j h k))
