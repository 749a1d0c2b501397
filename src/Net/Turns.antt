-- ===== src/Net/Turns.antt =====
-- A call of `next_msg_now` serves an entry of its list.
use iu.Prelude.{
  none, false, ◌∷◌, ℕ, zero, suc, ◌<◌, ◌%◌, ◌≡◌, refl, true, some, List, [], ◌∷◌, length, arith,
  inl, inr,
}
use native.Mathlib.Nat.{mod-lt}
use iu.Net.{returns, Pollfd, Revents, Net, get_pollfds}
use iu.Net.Receive.{Round, poll_fds, any_set, nth, next_start, serve, poll_turn, next_msg_now}
use iu.Net.RoundRobin.{Chosen, next_start-Chosen, wrap_start_remainder}

nth_total {ℓ} : {A : Type ℓ} (i : ℕ) (xs : List A) → i < length xs → (x : A) × (nth i xs ≡ some x)
nth_total i [] h = absurd (omega arith)
nth_total zero (x ∷ xs) h = (x, refl)
nth_total (suc i) (x ∷ xs) h = nth_total i xs (omega arith)

any_set_length : (ps : List Pollfd) → any_set ps ≡ true → 0 < length ps
any_set_length [] h = absurd (cc)
any_set_length (p ∷ ps) h = omega arith

next_start_lt : (start : ℕ) (ps : List Pollfd) → start < length ps → next_start start ps < length ps
next_start_lt start ps h = elim (next_start-Chosen start ps h) [
  | inl (e, n) ↦ rw e h
  | inr (r, l, o, m) ↦ l
]

-- A call of `next_msg_now` that finds nothing.
pub next_msg_now-nothing :
    (round : Round) (rounds : List Round) (events : ℕ → Revents) (s : Net)
    → round.polled ≡ some events
    → any_set (poll_fds events (get_pollfds s).pollfds) ≡ false
    → next_msg_now (round ∷ rounds) s
      ≡ returns none (record s { pollfds = poll_fds events (get_pollfds s).pollfds })
unfolding next_msg_now poll_turn get_pollfds
next_msg_now-nothing round rounds events s e h = rw (e, h) refl

-- If `poll` counts any entry, then whatever `start` was, the call takes its remainder by the number of
-- entries, and serves the first entry with input or a hangup, going up and round from behind it,
-- which is the new start; without such an entry it serves that of the remainder itself. It neither
-- spins in the loop that brings the start into range nor reads behind the entries.
pub poll_turn-Chosen :
    (round : Round) (events : ℕ → Revents) (s : Net)
    → round.polled ≡ some events
    → any_set (poll_fds events (get_pollfds s).pollfds) ≡ true
    → (c : ℕ) × (p : Pollfd) × Chosen 0
        (s.start % length (poll_fds events (get_pollfds s).pollfds))
        (poll_fds events (get_pollfds s).pollfds)
        c
      × (nth c (poll_fds events (get_pollfds s).pollfds) ≡ some p)
      × (poll_turn round s
          ≡ serve round p (record (get_pollfds s) {
            pollfds = poll_fds events (get_pollfds s).pollfds;
            start = c;
          }))
unfolding poll_turn
poll_turn-Chosen round events s e h =
    let ps : List Pollfd = poll_fds events (get_pollfds s).pollfds in
    let start = s.start % length ps in
    let l : start < length ps = mod-lt s.start (any_set_length ps h) in
    let w = wrap_start_remainder s.start (length ps) (any_set_length ps h) in
    let (p, n) = nth_total (next_start start ps) ps (next_start_lt start ps l) in
    (next_start start ps, p, next_start-Chosen start ps l, n, rw (e, h, w, n, poll_turn) refl)
