-- ===== src/File/Tests.antt =====
-- The theorems on transfers at a concrete file: its bytes before and behind the offset.
use iu.Prelude.{
  ℕ, ◌+◌, ◌≡◌, ◌≤◌, refl, true, false, none, some, List, [], ◌∷◌, ◌++◌, length, All, arith,
}
use iu.Msg.{Msg, Sizeof, file_chunk_of, as_chunk, get_chunk_size, new_file_header}
use iu.File.{
  Output, no_output, finisher, callback, finishes, null_pointer, waits, spins, send_file_thread,
  recv_file_deputy,
}
use iu.File.Disk.{Disk, disk}
use iu.Prelude.Text.{digits}
use iu.File.Saving.{
  Timeval, proc_fd, saved_prefix, new_path, old_path, Links, is_taken, save_file,
  save_file-save_file,
}
use iu.File.Transfer.{IsChunk, send_file_thread_shape, recv_file_deputy-send_file_thread}
use iu.File.Failures.{send_file_thread_past, recv_file_deputy_short}

-- The sizes of a 64-bit platform.
abbrev sizes : Sizeof
sizes = record {
  item_msg = 40;
  identity_msg = 32;
  heartbeat_msg = 16;
  file_header = 24;
  file_chunk = 16;
  string_msg = 16;
  addr_msg = 56;
}

abbrev fresh : Disk
fresh = ([], 1 ∷ 2 ∷ 3 ∷ [])

abbrev half_read : Disk
half_read = (1 ∷ [], 2 ∷ 3 ∷ [])

send_file_thread_shape_example :
    (ms : List Msg) × (send_file_thread disk sizes fresh (some no_output)
      ≡ finishes (record { put = new_file_header sizes (length ms) ∷ ms; off = true }))
    × All (IsChunk sizes) ms
send_file_thread_shape_example = send_file_thread_shape disk sizes fresh (omega arith) (omega arith)

recv_file_deputy-send_file_thread_example :
    (out : Output) × (g : Disk) × (send_file_thread disk sizes fresh (some no_output)
      ≡ finishes out)
    × (out.off ≡ true)
    × (recv_file_deputy disk sizes true 42 tt (out.put ++ [])
        ≡ finishes (finisher 42 ∷ callback tt g ∷ [], []))
    × (g.1 ≡ 1 ∷ 2 ∷ 3 ∷ [])
    × (length g.0 + length g.1 ≡ length g.1)
recv_file_deputy-send_file_thread_example =
    recv_file_deputy-send_file_thread disk sizes true 42 tt fresh [] (omega arith) (omega arith)

send_file_thread_past_example : send_file_thread disk sizes half_read (some no_output) ≡ spins
send_file_thread_past_example = send_file_thread_past disk sizes half_read (omega arith)

chunk_fits : get_chunk_size sizes (file_chunk_of sizes 2 (5 ∷ 6 ∷ [])) ≤ 2
unfolding get_chunk_size file_chunk_of
chunk_fits = omega arith

-- One of two chunks has come.
abbrev one_chunk : List Msg
one_chunk = file_chunk_of sizes 2 (5 ∷ 6 ∷ []) ∷ []

recv_file_deputy_short_example :
    (recv_file_deputy disk sizes true 42 tt (new_file_header sizes 2 ∷ one_chunk) ≡ null_pointer)
    × (recv_file_deputy disk sizes false 42 tt (new_file_header sizes 2 ∷ one_chunk) ≡ waits)
recv_file_deputy_short_example =
    recv_file_deputy_short disk sizes 42 tt 2 one_chunk (omega arith)
      ((5 ∷ 6 ∷ [], unfold as_chunk file_chunk_of in refl, chunk_fits), tt)

abbrev noon : Timeval
noon = record { tv_sec = 43200; tv_usec = 5 }

-- File 8 is saved as "/tmp/iu-43200-8".
abbrev saved_8 : List ℕ
saved_8 = saved_prefix ++ 52 ∷ 51 ∷ 50 ∷ 48 ∷ 48 ∷ 45 ∷ 56 ∷ []

abbrev links_8 : Links
links_8 = (saved_8, proc_fd ++ 56 ∷ []) ∷ []

save_file-save_file_example :
    ((usec : ℕ) → save_file (record { tv_sec = 43200; tv_usec = usec }) 8 links_8 ≡ none)
    × ((tv' : Timeval) (fd' : ℕ)
        → ¬ ((43200 ≡ tv'.tv_sec) × (8 ≡ fd'))
        → is_taken (new_path tv' fd') links_8 ≡ is_taken (new_path tv' fd') [])
save_file-save_file_example =
    save_file-save_file noon 8 [] links_8 saved_8
      (unfold save_file old_path new_path digits in refl)
