-- ===== src/Program/Idling.antt =====
-- The main loop of a client while nothing arrives.
use iu.Prelude.{◌≡◌, refl, ap, ◌∙◌, false, some, List, [], ◌∷◌}
use iu.Msg.{Sizeof}
use iu.Net.{ℤ, pos, negsuc, Pollfd, no_events, Net, returns, ◌>>=◌, get_pollfds}
use iu.Net.Turns.{next_msg_now-nothing}
use iu.Net.Receive.{Round, poll_fds, any_set}
use iu.Program.{Client, ClientTurn, client_turn, client_loop}

-- `poll` sees no event at all.
abbrev pub IsQuiet : ClientTurn → Type 0
IsQuiet turn =
    (round : Round) × (rounds : List Round) × (turn.rounds ≡ round ∷ rounds)
    × (round.polled ≡ some (λ fd. no_events))

abbrev pub AllQuiet : List ClientTurn → Type 0
AllQuiet [] = Unit {0}
AllQuiet (turn ∷ turns) = IsQuiet turn × AllQuiet turns

any_set-no_events : (ps : List Pollfd) → any_set (poll_fds (λ fd. no_events) ps) ≡ false
any_set-no_events [] = refl
any_set-no_events (p ∷ ps) = go p.fd (any_set-no_events ps)
  where
    go :
        (fd : ℤ)
        → any_set (poll_fds (λ fd. no_events) ps) ≡ false
        → any_set (poll_fds (λ fd. no_events) (record p { fd = fd } ∷ ps)) ≡ false
    go (pos n) e = e
    go (negsuc n) e = e

abbrev pub polled_all : Net → Net
polled_all s = record s { pollfds = poll_fds (λ fd. no_events) (get_pollfds s).pollfds }

client_turn-IsQuiet :
    (sizes : Sizeof) (turn : ClientTurn) (client : Client) (s : Net)
    → IsQuiet turn
    → client_turn sizes turn client s ≡ returns client (polled_all s)
unfolding client_turn
client_turn-IsQuiet sizes turn client s (round, rounds, r, e) =
    rw
      (
        r,
        next_msg_now-nothing round rounds (λ fd. no_events) s e
            (any_set-no_events (get_pollfds s).pollfds),
      )
      refl

client_loop_cons :
    (sizes : Sizeof) (turn : ClientTurn) (turns : List ClientTurn) (client : Client) (s t : Net)
    → client_turn sizes turn client s ≡ returns client t
    → client_loop sizes (turn ∷ turns) client s ≡ client_loop sizes turns client t
unfolding client_loop
client_loop_cons sizes turn turns client s t e =
    ap (λ r. r >>= (λ x. client_loop sizes turns x.0 x.1)) e

-- While nothing arrives, the main loop of a client sends nothing of what its queues hold, in however
-- many turns: the queues and what has been sent are as they were.
pub client_loop-AllQuiet :
    (sizes : Sizeof) (turns : List ClientTurn) (client : Client) (s : Net)
    → AllQuiet turns
    → (s' : Net) × (client_loop sizes turns client s ≡ returns client s')
      × (s'.send_qs ≡ s.send_qs)
      × (s'.events ≡ s.events)
client_loop-AllQuiet sizes [] client s q = (s, unfold client_loop in refl, refl, refl)
client_loop-AllQuiet sizes (turn ∷ turns) client s (q, qs) =
    let (s', e, a, b) = client_loop-AllQuiet sizes turns client (polled_all s) qs in
    (
      s',
      client_loop_cons sizes turn turns client s (polled_all s)
            (client_turn-IsQuiet sizes turn client s q)
          ∙ e,
      a,
      b,
    )
