-- ===== src/Msg/Sizes.antt =====
-- The sizes that the messages of variable length carry.
use iu.Prelude.{ℕ, ◌<◌, ◌≡◌, refl, ◌↔◌, true, false, List, [], ◌∷◌, length, arith}
use iu.Msg.{
  word, Addr, addr_eq, addr_ne, Sizeof, file_chunk_of, get_chunk_size, new_string_msg, text_size,
}

-- The receiver of a chunk computes the size that it was made with, for every size of a word, also
-- where the length of the message wraps around.
pub get_chunk_size-file_chunk_of :
    (size : Sizeof) (n : ℕ) (bytes : List ℕ)
    → size.file_chunk < word
    → n < word
    → get_chunk_size size (file_chunk_of size n bytes) ≡ n
unfolding get_chunk_size file_chunk_of
get_chunk_size-file_chunk_of size n bytes h k = omega arith

-- The receiver of a text computes the number of its bytes.
pub text_size-new_string_msg :
    (size : Sizeof) (text : List ℕ)
    → size.string_msg < word
    → length text < word
    → text_size size (new_string_msg size text) ≡ length text
unfolding text_size new_string_msg
text_size-new_string_msg size text h k = omega arith

-- `==` on addresses of one length is equality, and `!=` its negation.
pub addr_eq_iff :
    (a b : Addr) → ((addr_eq a b ≡ true) ↔ (a ≡ b)) × ((addr_ne a b ≡ false) ↔ (a ≡ b))
unfolding addr_ne
addr_eq_iff a b = let h = eq_iff a b in (h, (λ e. h.0 (ground arith), λ e. ground (arith, h.1 e)))
  where
    eq_iff : (a b : Addr) → (addr_eq a b ≡ true) ↔ (a ≡ b)
    eq_iff [] [] = (λ _. refl, λ _. refl)
    eq_iff [] (b ∷ bs) = (λ h. absurd (cc), λ h. absurd (cc))
    eq_iff (a ∷ as') [] = (λ h. absurd (cc), λ h. absurd (cc))
    eq_iff (a ∷ as') (b ∷ bs) =
        let ih = eq_iff as' bs in (λ h. ground (arith, ih.0), λ h. ground (arith, ih.1))
