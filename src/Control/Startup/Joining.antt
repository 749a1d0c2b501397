-- ===== src/Control/Startup/Joining.antt =====
-- iuctl reads the pid that the server wrote.
use iu.Prelude.{
  ℕ, ◌^◌, ◌≤◌, ◌<◌, ◌≡◌, refl, ap, sym, ◌∙◌, true, false, none, some, List, [], ◌∷◌, ◌++◌, length,
  take, drop, ltb, ◌==◌, if◌then◌else◌, arith,
}
use iu.Prelude.Text.{
  is_digit, decimal, read_digits, is_number, decimal_first, read_digits-decimal, length-decimal,
}
use iu.Net.{ℤ, pos, negsuc}
use iu.Control.{System}
use iu.Control.Startup.{
  is_space, read_sign, atoi, init_iuctl, Joins, Joined, joins, fails, dies, read_pid, join_server,
  join_iuctl,
}

digit_first :
    (c : ℕ) (cs : List ℕ) → is_digit c ≡ true → atoi (c ∷ cs) ≡ pos (read_digits 0 (c ∷ cs))
unfolding atoi read_sign
digit_first c cs h =
    let a : is_space c ≡ false = ground arith in
    let b : (c == 45) ≡ false = ground arith in
    let d : (c == 43) ≡ false = ground arith in rw (a, b, d) refl

-- The number is read back, whatever follows it but a digit.
atoi-decimal : (n : ℕ) (rest : List ℕ) → is_number rest ≡ false → atoi (decimal n ++ rest) ≡ pos n
atoi-decimal n rest h =
    let (c, cs, e, d) = decimal_first n in
    rw e (digit_first c (cs ++ rest) d)
    ∙ ap pos (ap (λ l. read_digits 0 (l ++ rest)) (sym e) ∙ read_digits-decimal n rest h)

take-all {ℓ} : {A : Type ℓ} (xs : List A) → take (length xs) xs ≡ xs
take-all [] = refl
take-all (x ∷ xs) = ap (λ l. x ∷ l) (take-all xs)

read_pid-short :
    (got : Joins) (text : List ℕ)
    → length text ≤ 32
    → read_pid got text ≡ text ++ drop (length text) got.junk
unfolding read_pid
read_pid-short got text h =
    let a : ltb 32 (length text) ≡ false = ground arith in rw (a, take-all text) refl

abbrev join_text : Joins → ℤ → Joined
join_text got (pos server_pid) = if ltb 0 server_pid then join_server got server_pid else dies
join_text got (negsuc n) = dies

join_opened :
    (got : Joins) (text : List ℕ)
    → got.open_fails ≡ none
    → join_iuctl got (record { path = some text; queue = true })
      ≡ join_text got (atoi (read_pid got text))
unfolding join_iuctl
join_opened got text o =
    ap (λ f. elim f [ some errno ↦ fails errno | none ↦ join_text got (atoi (read_pid got text)) ])
      o

after_read :
    (got : Joins) (pid : ℕ) (text : List ℕ)
    → 0 < pid
    → got.kill pid ≡ 0
    → 0 < got.getpid
    → atoi (read_pid got text) ≡ pos pid
    → join_text got (atoi (read_pid got text))
      ≡ joins (record { self_pid = got.getpid; server_pid = pid })
unfolding join_server
after_read got pid text p k g e =
    let c : ltb 0 pid ≡ true = ground arith in
    let d : ltb 0 got.getpid ≡ true = ground arith in
    let z : (got.kill pid == 0) ≡ true = ground arith in ap (join_text got) e ∙ rw (c, z, d) refl

-- If the pid is above 0 and below the bound of `int`, the buffer holds no digit behind it, the
-- server runs and the calls of the system succeed, then iuctl joins that server.
pub join_iuctl-init_iuctl :
    (pid : ℕ) (sys : System) (got : Joins)
    → 0 < pid
    → pid < 2 ^ 31
    → got.open_fails ≡ none
    → is_number (drop (length (decimal pid)) got.junk) ≡ false
    → got.kill pid ≡ 0
    → 0 < got.getpid
    → (sys' : System) × (init_iuctl true pid sys ≡ some sys')
      × (join_iuctl got sys' ≡ joins (record { self_pid = got.getpid; server_pid = pid }))
unfolding init_iuctl
join_iuctl-init_iuctl pid sys got p b o j k g =
    let c : ltb 0 pid ≡ true = ground arith in
    let l : length (decimal pid) ≤ 10 = length-decimal pid 9 (omega arith) in
    (
      record { path = some (decimal pid); queue = true },
      rw c refl,
      join_opened got (decimal pid) o
          ∙ after_read got pid (decimal pid) p k g
              (ap atoi (read_pid-short got (decimal pid) (omega arith)) ∙ atoi-decimal pid _ j),
    )
