-- ===== src/Net/Suspending.antt =====
-- `net_suspend` and `net_resume`, and what is polled in between.
use iu.Prelude.{
  ℕ, suc, ◌≡◌, refl, ap, ◌∙◌, some, List, [], ◌∷◌, ◌++◌, ◌==◌, if◌then◌else◌, Option-cases,
  Bool-cases, inl, inr, ◌⊎◌,
}
use iu.Prelude.Map.{find}
use iu.Net.{
  ℤ, pos, negsuc, Pollfd, Net, add_poll_fd, keep_polled, prune_poll_fds, suspend_fd, net_suspend,
  net_resume, no_events,
}

-- The descriptors that `poll` looks at.
abbrev pub polled : List Pollfd → List ℕ
polled [] = []
polled (p ∷ ps) = elim p.fd [ pos n ↦ n ∷ polled ps | negsuc n ↦ polled ps ]

abbrev pub without_first : ℕ → List ℕ → List ℕ
without_first fd [] = []
without_first fd (n ∷ ns) = let rest = without_first fd ns in if n == fd then ns else n ∷ rest

fd-cases : (z : ℤ) → ((n : ℕ) × (z ≡ pos n)) ⊎ ((n : ℕ) × (z ≡ negsuc n))
fd-cases (pos n) = inl (n, refl)
fd-cases (negsuc n) = inr (n, refl)

polled-append :
    (ps : List Pollfd) (p : Pollfd) (fd : ℕ)
    → p.fd ≡ pos fd
    → polled (ps ++ p ∷ []) ≡ polled ps ++ fd ∷ []
polled-append [] p fd e = rw e refl
polled-append (q ∷ ps) p fd e = elim (fd-cases q.fd) [
  | inl (n, z) ↦ rw z (ap (λ xs. n ∷ xs) (polled-append ps p fd e))
  | inr (n, z) ↦ rw z (polled-append ps p fd e)
]

polled-keep_polled : (ps : List Pollfd) → polled (keep_polled ps) ≡ polled ps
polled-keep_polled [] = refl
polled-keep_polled (p ∷ ps) = elim (fd-cases p.fd) [
  | inl (n, z) ↦ rw (z, z) (ap (λ xs. n ∷ xs) (polled-keep_polled ps))
  | inr (n, z) ↦ rw z (polled-keep_polled ps)
]

polled-suspend_fd :
    (fd : ℕ) (ps : List Pollfd)
    → polled (suspend_fd (suc fd) ps) ≡ without_first (suc fd) (polled ps)
polled-suspend_fd fd [] = refl
polled-suspend_fd fd (p ∷ ps) = elim (fd-cases p.fd) [
  | inl (n, z) ↦ elim (Bool-cases (n == suc fd)) [
    | inl e ↦ rw (z, e) refl
    | inr e ↦ rw (z, e) (ap (λ xs. n ∷ xs) (polled-suspend_fd fd ps))
  ]
  | inr (n, z) ↦ rw z (polled-suspend_fd fd ps)
]

pollfds-net_suspend :
    (nid fd : ℕ) (s : Net)
    → find nid s.connections ≡ some fd
    → (net_suspend nid s).pollfds ≡ suspend_fd fd s.pollfds
unfolding net_suspend
pollfds-net_suspend nid fd s e = rw (e, net_suspend) refl

connections-net_suspend : (nid : ℕ) (s : Net) → (net_suspend nid s).connections ≡ s.connections
unfolding net_suspend
connections-net_suspend nid s = elim (Option-cases (find nid s.connections)) [
  | inl e ↦ rw (e, net_suspend) refl
  | inr (fd, e) ↦ rw (e, net_suspend) refl
]

pub polled-net_resume :
    (nid fd : ℕ) (s : Net)
    → find nid s.connections ≡ some fd
    → polled (net_resume nid s).pollfds ≡ polled s.pollfds ++ fd ∷ []
unfolding net_resume add_poll_fd
polled-net_resume nid fd s e =
    rw (e, net_resume)
      (polled-append s.pollfds (record { fd = pos fd; revents = no_events }) fd refl)

-- For a node whose connection has a descriptor above 0: suspending it takes the first entry of the
-- descriptor, if there is one, and no other, out of what is polled, once the entries are pruned;
-- and resuming puts the descriptor behind all that is left.
pub net_resume-prune_poll_fds-net_suspend :
    (nid fd : ℕ) (s : Net)
    → find nid s.connections ≡ some (suc fd)
    → (polled (prune_poll_fds (net_suspend nid s)).pollfds
        ≡ without_first (suc fd) (polled s.pollfds))
      × (polled (net_resume nid (prune_poll_fds (net_suspend nid s))).pollfds
          ≡ without_first (suc fd) (polled s.pollfds) ++ suc fd ∷ [])
unfolding prune_poll_fds
net_resume-prune_poll_fds-net_suspend nid fd s e =
    let k : polled (keep_polled (net_suspend nid s).pollfds)
        ≡ without_first (suc fd) (polled s.pollfds) =
      rw (pollfds-net_suspend nid (suc fd) s e)
        (polled-keep_polled (suspend_fd (suc fd) s.pollfds) ∙ polled-suspend_fd fd s.pollfds) in
    (
      k,
      polled-net_resume nid (suc fd) (prune_poll_fds (net_suspend nid s))
            (rw (connections-net_suspend nid s) e)
          ∙ ap (λ xs. xs ++ suc fd ∷ []) k,
    )
