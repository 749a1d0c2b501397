-- ===== src/File/Failures.antt =====
-- Transfers that do not come to an end.
use iu.Prelude.{
  ℕ, zero, suc, ◌*◌, ◌/◌, ◌%◌, ◌<◌, ◌≡◌, refl, ap, some, List, Bool, true, false, All, take, ◌≤◌,
  if◌then◌else◌, [], ◌∷◌, length, length-drop, arith,
}
use iu.Msg.{Msg, Sizeof, new_file_header, as_chunk, get_chunk_size}
use native.Mathlib.Decide.{dec_le}
use iu.File.{
  FileOps, Output, no_output, put, chunk_size, num_chunks, new_file_chunk, put_chunks, put_last,
  write_chunk, write_chunks, send_file_thread, recv_file_deputy, finishes, null_pointer, waits,
  spins, next_from,
}
use iu.File.Chunks.{length-rest, new_file_chunk_lem, put_chunks_lem}
use iu.File.Transfer.{as_header-new_file_header}

module _ {F : Type 0} (ops : FileOps F) (size : Sizeof) where
  open ops use {content}

  new_file_chunk_past :
      (n : ℕ) (f : F) → length (content f) < n → new_file_chunk ops size n f ≡ spins
  unfolding new_file_chunk
  new_file_chunk_past n f h = rw (ops.read_past n f h)

  put_chunks_past :
      (n : ℕ) (f : F) (out : Output)
      → length (content f) < n * chunk_size
      → put_chunks ops size n f out ≡ spins
  unfolding put_chunks
  put_chunks_past zero f out h = absurd (omega arith)
  put_chunks_past (suc n) f out h = elim (dec_le chunk_size (length (content f))) [
    | yes k ↦
        let (g, e, c) = new_file_chunk_lem ops size chunk_size f k in
        rw e
          (put_chunks_past n g _ (omega (arith, ap length c, length-drop chunk_size (content f))))
    | no k ↦ rw (new_file_chunk_past chunk_size f (omega arith))
  ]

  put_last_past :
      (r : ℕ) (f : F) (out : Output) → length (content f) < r → put_last ops size r f out ≡ spins
  unfolding put_last
  put_last_past zero f out h = absurd (omega arith)
  put_last_past (suc r) f out h = rw (new_file_chunk_past (suc r) f h)

  -- The sender reads as many bytes as the file has in all. If the offset is behind the start, so
  -- that fewer are left, it never closes the stream: `Read` spins at the end of the file.
  pub send_file_thread_past :
      (f : F)
      → length (content f) < ops.size f
      → send_file_thread ops size f (some no_output) ≡ spins
  unfolding send_file_thread
  send_file_thread_past f h =
      let n = ops.size f / chunk_size in
      let header = put no_output (new_file_header size (num_chunks (ops.size f))) in
      elim (dec_le (n * chunk_size) (length (content f))) [
        | yes k ↦
            let (g, e, c) = put_chunks_lem ops size n f header k in
            rw e (
              rw (
                put_last_past (ops.size f % chunk_size) g _
                  (omega (arith, ap length c, length-rest n (content f)))))
        | no k ↦ rw (put_chunks_past n f header (omega arith))
      ]

  -- A message that is a chunk and has all the bytes that it claims.
  abbrev pub IsWhole : Msg → Type 0
  IsWhole m = (bytes : List ℕ) × (as_chunk m ≡ some bytes) × (get_chunk_size size m ≤ length bytes)

  write_chunk-IsWhole :
      (m : Msg) (f : F) → IsWhole m → (g : F) × (write_chunk ops size m f ≡ finishes g)
  unfolding write_chunk
  write_chunk-IsWhole m f (bytes, e, h) =
      (ops.write (take (get_chunk_size size m) bytes) f, ground (arith, e))

  write_chunks_short :
      (hangup : Bool) (n : ℕ) (ms : List Msg) (f : F)
      → length ms < n
      → All IsWhole ms
      → write_chunks ops size hangup n ms f ≡ (if hangup then null_pointer else waits)
  unfolding write_chunks next_from
  write_chunks_short hangup zero ms f h a = absurd (omega arith)
  write_chunks_short true (suc n) [] f h a = refl
  write_chunks_short false (suc n) [] f h a = refl
  write_chunks_short hangup (suc n) (m ∷ ms) f h a =
      let (g, e) = write_chunk-IsWhole m f a.0 in
      rw e (write_chunks_short hangup n ms g (omega arith) a.1)

  -- If fewer chunks than the header counts have come, and each of them has the bytes that it claims,
  -- then what comes next decides: if the source hangs up, the receiving thread follows the null
  -- pointer that `next_msg_from` returns; if nothing comes any more, it waits.
  pub recv_file_deputy_short :
      {C : Type 0} (source : ℕ) (arg : C) (n : ℕ) (ms : List Msg)
      → length ms < n
      → All IsWhole ms
      → (recv_file_deputy ops size true source arg (new_file_header size n ∷ ms) ≡ null_pointer)
        × (recv_file_deputy ops size false source arg (new_file_header size n ∷ ms) ≡ waits)
  unfolding recv_file_deputy next_from
  recv_file_deputy_short source arg n ms h a = (
    rw (as_header-new_file_header size n, write_chunks_short true n ms ops.tmpfile h a),
    rw (as_header-new_file_header size n, write_chunks_short false n ms ops.tmpfile h a),
  )
