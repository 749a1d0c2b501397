-- ===== src/File/Transfer.antt =====
-- What a transfer does as a whole.
use iu.Prelude.{
  ℕ, zero, suc, ◌*◌, ◌/◌, ◌%◌, ◌≤◌, ◌<◌, ◌≡◌, refl, sym, ap, ◌∙◌, Bool, true, some, List, [], ◌∷◌,
  ◌++◌, append_assoc, append-nil, length, drop, length-append, ltb, if◌then◌else◌, All, All-append,
  arith, length-take, length-drop,
}
use iu.Msg.{word, Msg, Sizeof, new_file_header, get_chunk_size, as_header}
use iu.Msg.Sizes.{get_chunk_size-file_chunk_of}
use iu.File.{
  FileOps, Output, no_output, put, chunk_size, num_chunks, send_file_thread, recv_file_deputy,
  finisher, callback, finishes, next_from,
}
use iu.File.Chunks.{
  full_pieces, rest, last_piece, concat, chunks, length-rest, concat-full_pieces, chunks-append,
  put_chunks_lem, put_last_lem, write_chunks_lem,
}

-- The pieces of a file.
pub pieces : List ℕ → List (List ℕ)
pieces bytes =
    full_pieces (length bytes / chunk_size) bytes
    ++ last_piece (length bytes % chunk_size) (rest (length bytes / chunk_size) bytes)

abbrev IsPiece : List ℕ → Type 0
IsPiece p = (1 ≤ length p) × (length p ≤ chunk_size)

full_pieces-IsPiece :
    (n : ℕ) (bytes : List ℕ) → n * chunk_size ≤ length bytes → All IsPiece (full_pieces n bytes)
full_pieces-IsPiece zero bytes h = tt
full_pieces-IsPiece (suc n) bytes h = (
  (omega (arith, length-take chunk_size bytes), omega (arith, length-take chunk_size bytes)),
  full_pieces-IsPiece n (drop chunk_size bytes) (omega (arith, length-drop chunk_size bytes)),
)

last_piece-IsPiece :
    (r : ℕ) (bytes : List ℕ) → r ≡ length bytes → r < chunk_size → All IsPiece (last_piece r bytes)
last_piece-IsPiece zero bytes h k = tt
last_piece-IsPiece (suc r) bytes h k = omega arith

pieces-IsPiece : (bytes : List ℕ) → All IsPiece (pieces bytes)
unfolding pieces
pieces-IsPiece bytes =
    All-append IsPiece (full_pieces (length bytes / chunk_size) bytes) _
      (full_pieces-IsPiece (length bytes / chunk_size) bytes (omega arith))
      (last_piece-IsPiece (length bytes % chunk_size) _
        (omega (arith, length-rest (length bytes / chunk_size) bytes)) (omega arith))

concat-append : (ps qs : List (List ℕ)) → concat (ps ++ qs) ≡ concat ps ++ concat qs
concat-append [] qs = refl
concat-append (p ∷ ps) qs = ap (◌++◌ p) (concat-append ps qs) ∙ sym (append_assoc p _ _)

concat-last_piece :
    (r : ℕ) (bytes : List ℕ) → r ≡ length bytes → concat (last_piece r bytes) ≡ bytes
concat-last_piece zero [] h = refl
concat-last_piece zero (b ∷ bytes) h = absurd (omega arith)
concat-last_piece (suc r) bytes h = append-nil bytes

concat-pieces : (bytes : List ℕ) → concat (pieces bytes) ≡ bytes
unfolding pieces
concat-pieces bytes =
    concat-append (full_pieces (length bytes / chunk_size) bytes) _
    ∙ ap (◌++◌ (concat (full_pieces (length bytes / chunk_size) bytes))) (
        concat-last_piece (length bytes % chunk_size) _
          (omega (arith, length-rest (length bytes / chunk_size) bytes)))
    ∙ concat-full_pieces (length bytes / chunk_size) bytes

length-full_pieces : (n : ℕ) (bytes : List ℕ) → length (full_pieces n bytes) ≡ n
length-full_pieces zero bytes = refl
length-full_pieces (suc n) bytes = ap suc (length-full_pieces n (drop chunk_size bytes))

length-last_piece :
    (r : ℕ) (bytes : List ℕ) → length (last_piece r bytes) ≡ (if ltb 0 r then 1 else 0)
length-last_piece zero bytes = refl
length-last_piece (suc r) bytes = ground arith

length-pieces : (bytes : List ℕ) → length (pieces bytes) ≡ num_chunks (length bytes)
unfolding pieces
length-pieces bytes = omega (
  arith,
  length-append (full_pieces (length bytes / chunk_size) bytes)
      (last_piece (length bytes % chunk_size) (rest (length bytes / chunk_size) bytes)),
  length-full_pieces (length bytes / chunk_size) bytes,
  length-last_piece (length bytes % chunk_size) (rest (length bytes / chunk_size) bytes),
)

All-map {κ} :
    {P Q : List ℕ → Type κ}
    → ((p : List ℕ) → P p → Q p)
    → (ps : List (List ℕ)) → All P ps
    → All Q ps
All-map f [] a = tt
All-map f (p ∷ ps) a = (f p a.0, All-map f ps a.1)

length-chunks : (size : Sizeof) (ps : List (List ℕ)) → length (chunks size ps) ≡ length ps
length-chunks size [] = refl
length-chunks size (p ∷ ps) = ap suc (length-chunks size ps)

chunks-pieces :
    (size : Sizeof) (bytes : List ℕ)
    → chunks size (pieces bytes)
      ≡ chunks size (full_pieces (length bytes / chunk_size) bytes)
        ++ chunks size
            (last_piece (length bytes % chunk_size) (rest (length bytes / chunk_size) bytes))
unfolding pieces
chunks-pieces size bytes = chunks-append size (full_pieces (length bytes / chunk_size) bytes) _

-- The size that a message claims is one that a chunk of a file may have.
abbrev pub IsChunk : Sizeof → Msg → Type 0
IsChunk size m = (1 ≤ get_chunk_size size m) × (get_chunk_size size m ≤ chunk_size)

chunks-IsChunk :
    (size : Sizeof) (ps : List (List ℕ))
    → size.file_chunk < word
    → All IsPiece ps
    → All (IsChunk size) (chunks size ps)
chunks-IsChunk size [] h a = tt
chunks-IsChunk size (p ∷ ps) h a = (
  rw (get_chunk_size-file_chunk_of size (length p) p h (omega arith)) a.0,
  chunks-IsChunk size ps h a.1,
)

pub as_header-new_file_header :
    (size : Sizeof) (n : ℕ) → as_header (new_file_header size n) ≡ some n
unfolding as_header new_file_header
as_header-new_file_header size n = refl

module _ {F : Type 0} (ops : FileOps F) (size : Sizeof) where
  open ops use {content, tmpfile, written, rewind}

  -- What a sender puts, in all.
  abbrev sent : List ℕ → List Msg
  sent bytes = new_file_header size (length (pieces bytes)) ∷ chunks size (pieces bytes)

  send_file_thread_lem :
      (f : F)
      → ops.size f ≡ length (content f)
      → send_file_thread ops size f (some no_output)
        ≡ finishes (record { put = sent (content f); off = true })
  unfolding send_file_thread
  send_file_thread_lem f h =
      let n = length (content f) / chunk_size in
      let header = put no_output (new_file_header size (length (pieces (content f)))) in
      let (g, e, c) = put_chunks_lem ops size n f header (omega arith) in
      let full : Output = record header {
        put = header.put ++ chunks size (full_pieces n (content f));
      } in
      let (k, e') =
        put_last_lem ops size (length (content f) % chunk_size) g full
          (omega (arith, ap length c, length-rest n (content f))) in
      rw (h, ← length-pieces (content f), e, e', c, chunks-pieces size (content f))

  -- The sender of a file whose offset is at its start puts a header, which counts the chunks, and
  -- the chunks, each of 1 to 1024 bytes, and then closes the stream; the size of a chunk's struct
  -- is below the word.
  pub send_file_thread_shape :
      (f : F)
      → ops.size f ≡ length (content f)
      → size.file_chunk < word
      → (ms : List Msg) × (send_file_thread ops size f (some no_output)
          ≡ finishes (record { put = new_file_header size (length ms) ∷ ms; off = true }))
        × All (IsChunk size) ms
  send_file_thread_shape f h k = (
    chunks size (pieces (content f)),
    send_file_thread_lem f h
        ∙ ap
            (λ n. finishes (record {
              put = new_file_header size n ∷ chunks size (pieces (content f));
              off = true;
            }))
            (sym (length-chunks size (pieces (content f)))),
    chunks-IsChunk size (pieces (content f)) k (pieces-IsPiece (content f)),
  )

  module _ {C : Type 0} (hangup : Bool) (source : ℕ) (arg : C) where
    recv_file_deputy_lem :
        (bytes : List ℕ) (ms : List Msg)
        → size.file_chunk < word
        → (g : F) × (recv_file_deputy ops size hangup source arg (sent bytes ++ ms)
            ≡ finishes (finisher source ∷ callback arg g ∷ [], ms))
          × (content g ≡ bytes)
          × (ops.size g ≡ length (content g))
    unfolding recv_file_deputy next_from
    recv_file_deputy_lem bytes ms k =
        let (g, e, w) =
          write_chunks_lem ops size hangup (pieces bytes) ms tmpfile k
            (All-map (λ p h. omega arith) (pieces bytes) (pieces-IsPiece bytes))
            ops.tmpfile_lem.1 in
        (
          rewind g,
          rw (as_header-new_file_header size (length (pieces bytes)), e),
          ops.content-rewind g ∙ w ∙ rw ops.tmpfile_lem.0 (concat-pieces bytes),
          ops.size-rewind g ∙ ap length (sym (ops.content-rewind g)),
        )

    -- For a file whose offset is at its start: what the sender puts, with other messages behind it,
    -- gives the receiver a file with the same content, whose offset is at its start. It takes exactly
    -- the messages of the file, whether or not the source hangs up behind them, and leaves two todos,
    -- the one that resumes the source and then the one that hands the file to the callback. The size of a chunk's struct is below the word.
    pub recv_file_deputy-send_file_thread :
        (f : F) (ms : List Msg)
        → ops.size f ≡ length (content f)
        → size.file_chunk < word
        → (out : Output) × (g : F) × (send_file_thread ops size f (some no_output) ≡ finishes out)
          × (out.off ≡ true)
          × (recv_file_deputy ops size hangup source arg (out.put ++ ms)
              ≡ finishes (finisher source ∷ callback arg g ∷ [], ms))
          × (content g ≡ content f)
          × (ops.size g ≡ length (content g))
    recv_file_deputy-send_file_thread f ms h k =
        let (g, e, c, z) = recv_file_deputy_lem (content f) ms k in
        (record { put = sent (content f); off = true }, g, send_file_thread_lem f h, refl, e, c, z)
