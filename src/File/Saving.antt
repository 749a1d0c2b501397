-- ===== src/File/Saving.antt =====
-- `save_file` of src/file.cpp: the name under which a temporary file is kept.
use iu.Prelude.{
  ℕ, ◌≡◌, ◌≢◌, refl, sym, ap, ◌∙◌, Bool, true, false, ◌||◌, Option, none, some, List, [], ◌∷◌, ◌++◌,
  if◌then◌else◌, Bool-cases, inl, inr, arith,
}
use iu.Prelude.Text.{
  same_text, same_text_refl, same_text_iff, decimal, read_digits, read_digits-decimal,
  decimal-injective,
}

-- "/proc/self/fd/"
abbrev pub proc_fd : List ℕ
proc_fd = 47 ∷ 112 ∷ 114 ∷ 111 ∷ 99 ∷ 47 ∷ 115 ∷ 101 ∷ 108 ∷ 102 ∷ 47 ∷ 102 ∷ 100 ∷ 47 ∷ []

-- "/tmp/iu-"
abbrev pub saved_prefix : List ℕ
saved_prefix = 47 ∷ 116 ∷ 109 ∷ 112 ∷ 47 ∷ 105 ∷ 117 ∷ 45 ∷ []

-- `struct timeval`; `numeric` is over its first 8 bytes.
pub record Timeval : Type 0 where
  pub tv_sec : ℕ
  pub tv_usec : ℕ

abbrev pub numeric : Timeval → ℕ
numeric tv = tv.tv_sec

unfoldable pub old_path : ℕ → List ℕ
old_path fd = proc_fd ++ decimal fd

unfoldable pub new_path : Timeval → ℕ → List ℕ
new_path tv fd = saved_prefix ++ decimal (numeric tv) ++ 45 ∷ decimal fd

-- The names of the saved files, each with the one that it links to.
abbrev pub Links : Type 0
Links = List (List ℕ × List ℕ)

abbrev pub is_taken : List ℕ → Links → Bool
is_taken path [] = false
is_taken path ((name, old) ∷ links) = same_text name path || is_taken path links

-- `Linkat` ends the process if the name is taken.
unfoldable pub save_file : Timeval → ℕ → Links → Option (List ℕ × Links)
unfolding old_path new_path
save_file tv fd links =
    if is_taken (new_path tv fd) links
    then none
    else some (new_path tv fd, (new_path tv fd, old_path fd) ∷ links)

append-cancel : (xs ys zs : List ℕ) → xs ++ ys ≡ xs ++ zs → ys ≡ zs
append-cancel [] ys zs e = e
append-cancel (x ∷ xs) ys zs e = append-cancel xs ys zs (cc)

new_path-injective :
    (tv tv' : Timeval) (fd fd' : ℕ)
    → new_path tv fd ≡ new_path tv' fd'
    → (tv.tv_sec ≡ tv'.tv_sec) × (fd ≡ fd')
unfolding new_path
new_path-injective tv tv' fd fd' e =
    let f : decimal tv.tv_sec ++ 45 ∷ decimal fd ≡ decimal tv'.tv_sec ++ 45 ∷ decimal fd' =
      append-cancel saved_prefix _ _ e in
    let g : tv.tv_sec ≡ tv'.tv_sec =
      sym (read_digits-decimal tv.tv_sec (45 ∷ decimal fd) refl)
      ∙ ap (read_digits 0) f
      ∙ read_digits-decimal tv'.tv_sec (45 ∷ decimal fd') refl in
    let h : 45 ∷ decimal fd ≡ 45 ∷ decimal fd' =
      append-cancel (decimal tv'.tv_sec) _ _ (ap (λ n. decimal n ++ 45 ∷ decimal fd) (sym g) ∙ f) in
    let i : decimal fd ≡ decimal fd' = cc in (g, decimal-injective fd fd' i)

is_taken_cons : (path old : List ℕ) (links : Links) → is_taken path ((path, old) ∷ links) ≡ true
is_taken_cons path old links = rw (same_text_refl path) refl

is_taken-apart :
    (name old path : List ℕ) (links : Links)
    → name ≢ path
    → is_taken path ((name, old) ∷ links) ≡ is_taken path links
is_taken-apart name old path links n = elim (Bool-cases (same_text name path)) [
  | inl e ↦ absurd (n (same_text_iff name path e))
  | inr e ↦ rw e refl
]

abbrev linked : (name old : List ℕ) → Links → Option (List ℕ × Links)
linked name old links = if is_taken name links then none else some (name, (name, old) ∷ links)

saved :
    (name old path : List ℕ) (links links' : Links)
    → linked name old links ≡ some (path, links')
    → links' ≡ (name, old) ∷ links
saved name old path links links' e = elim (Bool-cases (is_taken name links)) [
  | inl t ↦ absurd (ground arith)
  | inr t ↦ ground arith
]

-- Once a file is saved, a file with the same descriptor number cannot be saved in the same second,
-- whatever the microseconds: the process ends. With another descriptor number or in another second
-- the name is free if it was before.
pub save_file-save_file :
    (tv : Timeval) (fd : ℕ) (links links' : Links) (path : List ℕ)
    → save_file tv fd links ≡ some (path, links')
    → ((usec : ℕ) → save_file (record { tv_sec = tv.tv_sec; tv_usec = usec }) fd links' ≡ none)
      × ((tv' : Timeval) (fd' : ℕ)
          → ¬ ((tv.tv_sec ≡ tv'.tv_sec) × (fd ≡ fd'))
          → is_taken (new_path tv' fd') links' ≡ is_taken (new_path tv' fd') links)
unfolding save_file
save_file-save_file tv fd links links' path e =
    let f : links' ≡ (new_path tv fd, old_path fd) ∷ links =
      saved (new_path tv fd) (old_path fd) path links links' e in
    (
      λ usec.
          rw (ap (is_taken (new_path tv fd)) f ∙ is_taken_cons (new_path tv fd) (old_path fd) links)
            refl,
      λ tv' fd' n.
          ap (is_taken (new_path tv' fd')) f
          ∙ is_taken-apart (new_path tv fd) (old_path fd) (new_path tv' fd') links
              (λ g. n (new_path-injective tv tv' fd fd' g)),
    )
