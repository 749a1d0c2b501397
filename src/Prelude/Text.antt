-- ===== src/Prelude/Text.antt =====
-- Texts, as lists of codes without the null byte: equality, and decimal digits as `%lu` prints them and
-- `atoi` reads them.
use native.Mathlib.Omega.{arith}
use mathlib.Core.Path.{◌≡◌, refl, sym, ap, ◌∙◌}
use mathlib.Core.Logic.{inl, inr}
use mathlib.Core.Bool.{Bool, true, false, ◌&&◌}
use mathlib.Core.List.{List, [], ◌∷◌, ◌++◌, append_assoc}
use Prim.Native.Nat.{ℕ, zero, suc, ◌+◌, ◌-◌, ◌*◌, ◌/◌, ◌%◌, ◌≤◌, ◌<◌}
use iu.Prelude.Tests.{ltb, leb, ◌==◌, ==_refl, ==_iff, if◌then◌else◌, Bool-cases}
use iu.Prelude.Lists.{length, length-append}

-- `strcmp`, for equality.
abbrev pub same_text : List ℕ → List ℕ → Bool
same_text [] [] = true
same_text [] (d ∷ ds) = false
same_text (c ∷ cs) [] = false
same_text (c ∷ cs) (d ∷ ds) = let rest = same_text cs ds in c == d && rest

pub same_text_refl : (cs : List ℕ) → same_text cs cs ≡ true
same_text_refl [] = refl
same_text_refl (c ∷ cs) = rw (==_refl c, same_text_refl cs) refl

pub same_text_iff : (cs ds : List ℕ) → same_text cs ds ≡ true → cs ≡ ds
same_text_iff [] [] h = refl
same_text_iff [] (d ∷ ds) h = absurd (cc)
same_text_iff (c ∷ cs) [] h = absurd (cc)
same_text_iff (c ∷ cs) (d ∷ ds) h = elim (Bool-cases (c == d)) [
  | inl e ↦
      let f : c ≡ d = (==_iff c d).0 e in let g : cs ≡ ds = same_text_iff cs ds (rw e at h) in cc
  | inr e ↦ absurd (let g : false ≡ true = rw e at h in cc)
]

abbrev pub is_digit : ℕ → Bool
is_digit c = leb 48 c && leb c 57

-- `%lu`, with fuel for the digits.
unfoldable pub digits : (fuel n : ℕ) → List ℕ
digits zero n = []
digits (suc fuel) n =
    let front = digits fuel (n / 10) in (if ltb n 10 then [] else front) ++ (48 + n % 10) ∷ []

abbrev pub decimal : ℕ → List ℕ
decimal n = digits (suc n) n

-- The number of the digits, also beyond `int`.
unfoldable pub read_digits : ℕ → List ℕ → ℕ
read_digits n [] = n
read_digits n (c ∷ cs) =
    let rest = read_digits (n * 10 + (c - 48)) cs in if is_digit c then rest else n

-- Whether a text starts with a digit.
abbrev pub is_number : List ℕ → Bool
is_number [] = false
is_number (c ∷ cs) = is_digit c

read_digits-stop : (n : ℕ) (cs : List ℕ) → is_number cs ≡ false → read_digits n cs ≡ n
unfolding read_digits
read_digits-stop n [] h = refl
read_digits-stop n (c ∷ cs) h = rw h refl

read_digits-digit :
    (n d : ℕ) (cs : List ℕ) → d < 10 → read_digits n ((48 + d) ∷ cs) ≡ read_digits (n * 10 + d) cs
unfolding read_digits
read_digits-digit n d cs h =
    let e : is_digit (48 + d) ≡ true = ground arith in
    let f : 48 + d - 48 ≡ d = omega arith in rw (e, f) refl

digits-read :
    (fuel n : ℕ) (rest : List ℕ)
    → n < fuel
    → read_digits 0 (digits fuel n ++ rest) ≡ read_digits n rest
unfolding digits read_digits
digits-read zero n rest h = absurd (omega arith)
digits-read (suc fuel) n rest h = elim (Bool-cases (ltb n 10)) [
  | inl e ↦ rw e (
      read_digits-digit 0 (n % 10) rest (omega arith) ∙ ap (λ m. read_digits m rest) (ground arith))
  | inr e ↦ rw e (
      ap (read_digits 0) (append_assoc (digits fuel (n / 10)) ((48 + n % 10) ∷ []) rest)
      ∙ digits-read fuel (n / 10) ((48 + n % 10) ∷ rest) (ground arith)
      ∙ read_digits-digit (n / 10) (n % 10) rest (omega arith)
      ∙ ap (λ m. read_digits m rest) (omega arith))
]

digits_nonempty :
    (fuel n : ℕ)
    → n < fuel
    → (c : ℕ) × (cs : List ℕ) × (digits fuel n ≡ c ∷ cs) × (is_digit c ≡ true)
unfolding digits
digits_nonempty zero n h = absurd (omega arith)
digits_nonempty (suc fuel) n h = elim (Bool-cases (ltb n 10)) [
  | inl e ↦ rw e (48 + n % 10, [], refl, ground arith)
  | inr e ↦
      let (c, cs, d, k) = digits_nonempty fuel (n / 10) (ground arith) in
      rw (e, d) (c, cs ++ (48 + n % 10) ∷ [], refl, k)
]

abbrev pub tens : ℕ → ℕ
tens zero = 1
tens (suc k) = 10 * tens k

length-digits : (fuel n k : ℕ) → n < tens (suc k) → length (digits fuel n) ≤ suc k
unfolding digits
length-digits zero n k l = omega arith
length-digits (suc fuel) n zero l = let e : ltb n 10 ≡ true = ground arith in rw e (omega arith)
length-digits (suc fuel) n (suc k) l = elim (Bool-cases (ltb n 10)) [
  | inl e ↦ rw e (omega arith)
  | inr e ↦ rw e (
      omega (
        arith,
        length-append (digits fuel (n / 10)) ((48 + n % 10) ∷ []),
        length-digits fuel (n / 10) k (omega arith),
      ))
]

pub decimal_first : (n : ℕ) → (c : ℕ) × (cs : List ℕ) × (decimal n ≡ c ∷ cs) × (is_digit c ≡ true)
decimal_first n = digits_nonempty (suc n) n (omega arith)

pub length-decimal : (n k : ℕ) → n < tens (suc k) → length (decimal n) ≤ suc k
length-decimal n k h = length-digits (suc n) n k h

-- A number is read back, whatever follows it but a digit.
pub read_digits-decimal :
    (n : ℕ) (rest : List ℕ) → is_number rest ≡ false → read_digits 0 (decimal n ++ rest) ≡ n
read_digits-decimal n rest h = digits-read (suc n) n rest (omega arith) ∙ read_digits-stop n rest h

-- Numbers with different digits are different.
pub decimal-injective : (m n : ℕ) → decimal m ≡ decimal n → m ≡ n
decimal-injective m n e =
    sym (read_digits-decimal m [] refl)
    ∙ ap (λ l. read_digits 0 (l ++ [])) e
    ∙ read_digits-decimal n [] refl
