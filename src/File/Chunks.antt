-- ===== src/File/Chunks.antt =====
-- How a file is cut into chunks, and put together again.
use iu.Prelude.{
  ℕ, zero, suc, ◌-◌, ◌*◌, ◌≤◌, ◌<◌, ◌≡◌, refl, ap, ◌∙◌, Bool, some, List, [], ◌∷◌, ◌++◌,
  append_assoc, append-nil, length, take, drop, length-take, length-drop, take-append-drop, arith,
  All,
}
use iu.Msg.{word, Msg, Sizeof, file_chunk_of, as_chunk}
use iu.Msg.Sizes.{get_chunk_size-file_chunk_of}
use iu.File.{
  FileOps, Output, put, chunk_size, new_file_chunk, put_chunks, put_last, write_chunk, write_chunks,
  finishes, next_from,
}

-- The first `n` full pieces.
abbrev pub full_pieces : ℕ → List ℕ → List (List ℕ)
full_pieces zero bytes = []
full_pieces (suc n) bytes = take chunk_size bytes ∷ full_pieces n (drop chunk_size bytes)

-- What lies behind them.
abbrev pub rest : ℕ → List ℕ → List ℕ
rest zero bytes = bytes
rest (suc n) bytes = rest n (drop chunk_size bytes)

abbrev pub concat : List (List ℕ) → List ℕ
concat [] = []
concat (p ∷ ps) = p ++ concat ps

abbrev pub chunks : Sizeof → List (List ℕ) → List Msg
chunks size [] = []
chunks size (p ∷ ps) = file_chunk_of size (length p) p ∷ chunks size ps

abbrev pub last_piece : ℕ → List ℕ → List (List ℕ)
last_piece zero bytes = []
last_piece (suc r) bytes = bytes ∷ []

take_all : (n : ℕ) (bytes : List ℕ) → n ≡ length bytes → take n bytes ≡ bytes
take_all zero [] h = refl
take_all zero (b ∷ bytes) h = absurd (omega arith)
take_all (suc n) [] h = refl
take_all (suc n) (b ∷ bytes) h = ap (◌∷◌ b) (take_all n bytes (omega arith))

as_chunk-file_chunk_of :
    (size : Sizeof) (n : ℕ) (bytes : List ℕ) → as_chunk (file_chunk_of size n bytes) ≡ some bytes
unfolding as_chunk file_chunk_of
as_chunk-file_chunk_of size n bytes = refl

pub chunks-append :
    (size : Sizeof) (ps qs : List (List ℕ))
    → chunks size (ps ++ qs) ≡ chunks size ps ++ chunks size qs
chunks-append size [] qs = refl
chunks-append size (p ∷ ps) qs =
    ap (◌∷◌ (file_chunk_of size (length p) p)) (chunks-append size ps qs)

length-take_of_le : (n : ℕ) (bytes : List ℕ) → n ≤ length bytes → length (take n bytes) ≡ n
length-take_of_le n bytes h = omega (arith, length-take n bytes)

pub length-rest : (n : ℕ) (bytes : List ℕ) → length (rest n bytes) ≡ length bytes - n * chunk_size
length-rest zero bytes = omega arith
length-rest (suc n) bytes =
    omega (arith, length-rest n (drop chunk_size bytes), length-drop chunk_size bytes)

pub concat-full_pieces :
    (n : ℕ) (bytes : List ℕ) → concat (full_pieces n bytes) ++ rest n bytes ≡ bytes
concat-full_pieces zero bytes = refl
concat-full_pieces (suc n) bytes =
    append_assoc (take chunk_size bytes) _ _
    ∙ ap (◌++◌ (take chunk_size bytes)) (concat-full_pieces n (drop chunk_size bytes))
    ∙ take-append-drop chunk_size bytes

module _ {F : Type 0} (ops : FileOps F) (size : Sizeof) where
  open ops use {content, read, write, written}

  pub new_file_chunk_lem :
      (n : ℕ) (f : F)
      → n ≤ length (content f)
      → (g : F) × (new_file_chunk ops size n f
          ≡ finishes (file_chunk_of size (length (take n (content f))) (take n (content f)), g))
        × (content g ≡ drop n (content f))
  unfolding new_file_chunk
  new_file_chunk_lem n f h =
      let (g, e, c) = ops.read_lem n f h in (g, rw (e, length-take_of_le n (content f) h), c)

  write_chunk_lem :
      (p : List ℕ) (f : F)
      → size.file_chunk < word
      → length p < word
      → write_chunk ops size (file_chunk_of size (length p) p) f ≡ finishes (write p f)
  unfolding write_chunk
  write_chunk_lem p f s h =
      rw
        (
          get_chunk_size-file_chunk_of size (length p) p s h,
          as_chunk-file_chunk_of size (length p) p,
        )
        (ground (arith, take_all (length p) p refl))

  pub put_chunks_lem :
      (n : ℕ) (f : F) (out : Output)
      → n * chunk_size ≤ length (content f)
      → (g : F) × (put_chunks ops size n f out
          ≡ finishes (g, record out { put = out.put ++ chunks size (full_pieces n (content f)) }))
        × (content g ≡ rest n (content f))
  unfolding put_chunks
  put_chunks_lem zero f out h = (f, rw append-nil refl, refl)
  put_chunks_lem (suc n) f out h =
      let (g, e, c) = new_file_chunk_lem chunk_size f (omega arith) in
      let m =
        file_chunk_of size (length (take chunk_size (content f))) (take chunk_size (content f)) in
      let (k, e', c') =
        put_chunks_lem n g (put out m)
          (omega (arith, ap length c, length-drop chunk_size (content f))) in
      (k, rw e (e' ∙ simp (c, append_assoc)), c' ∙ ap (rest n) c)

  pub put_last_lem :
      (r : ℕ) (f : F) (out : Output)
      → r ≡ length (content f)
      → (g : F) × (put_last ops size r f out
          ≡ finishes (g, record out { put = out.put ++ chunks size (last_piece r (content f)) }))
  unfolding put_last
  put_last_lem zero f out h = (f, rw append-nil refl)
  put_last_lem (suc r) f out h =
      let (g, e, c) = new_file_chunk_lem (suc r) f (omega arith) in
      (g, rw (e, take_all (suc r) (content f) h))

  -- What the receiver writes for chunks of fewer than 2^64 bytes.
  pub write_chunks_lem :
      (hangup : Bool) (ps : List (List ℕ)) (ms : List Msg) (f : F)
      → size.file_chunk < word
      → All (λ p. length p < word) ps
      → content f ≡ []
      → (g : F) × (write_chunks ops size hangup (length ps) (chunks size ps ++ ms) f
          ≡ finishes (g, ms))
        × (written g ≡ written f ++ concat ps)
  unfolding write_chunks next_from
  write_chunks_lem hangup [] ms f s a z = (f, refl, rw append-nil refl)
  write_chunks_lem hangup (p ∷ ps) ms f s a z =
      let law = ops.write_lem p f z in
      let (g, e, c) = write_chunks_lem hangup ps ms (write p f) s a.1 law.1 in
      (g, rw (write_chunk_lem p f s a.0) e, c ∙ rw law.0 (append_assoc _ p _))
