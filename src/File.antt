-- ===== src/File.antt =====
-- src/file.cpp: a file goes over a stream as a header, which counts the chunks, and the chunks; the
-- receiver writes them to a temporary file and leaves two todos. What becomes of
-- a thread that does not come to its end is a value of `Course`.
pub mod Chunks
pub mod Transfer
pub mod Failures
pub mod Disk
pub mod Saving
mod Tests
use iu.Prelude.{
  ℕ, zero, suc, ◌+◌, ◌/◌, ◌%◌, ◌≤◌, ◌<◌, ◌≡◌, Bool, true, false, Option, none, some, List, [], ◌∷◌,
  ◌++◌, length, take, drop, ltb, if◌then◌else◌, not,
}
use iu.Msg.{Msg, Sizeof, new_file_header, file_chunk_of, get_chunk_size, as_header, as_chunk}

-- The calls of the system that go through a file descriptor, with what POSIX says of them: the file
-- as `fstat`, `read`, `write` and `lseek` show it. `content` is what lies between the offset and
-- the end, and `written` the whole file; `read` is the loop `Read`, which spins at the end of the file.
pub record FileOps {ℓ} (F : Type ℓ) : Type ℓ where
  pub content : F → List ℕ
  pub size : F → ℕ
  pub read : ℕ → F → Option (List ℕ × F)
  pub write : List ℕ → F → F
  pub rewind : F → F
  pub tmpfile : F
  pub written : F → List ℕ
  pub read_lem :
      (n : ℕ) (f : F)
      → n ≤ length (content f)
      → (g : F) × (read n f ≡ some (take n (content f), g)) × (content g ≡ drop n (content f))
  pub read_past : (n : ℕ) (f : F) → length (content f) < n → read n f ≡ none
  pub tmpfile_lem : (written tmpfile ≡ []) × (content tmpfile ≡ [])
  pub write_lem :
      (bytes : List ℕ) (f : F)
      → content f ≡ []
      → (written (write bytes f) ≡ written f ++ bytes) × (content (write bytes f) ≡ [])
  pub content-rewind : (f : F) → content (rewind f) ≡ written f
  pub size-rewind : (f : F) → size (rewind f) ≡ length (written f)

-- The stream that the sender fills: what was put, oldest first, and whether it was closed.
pub record Output : Type 0 where
  pub put : List Msg
  pub off : Bool

abbrev pub no_output : Output
no_output = record { put = []; off = false }

abbrev pub put : Output → Msg → Output
put out m = record out { put = out.put ++ m ∷ [] }

abbrev pub chunk_size : ℕ
chunk_size = 1024

-- A job that the receiver leaves to the main thread: `recv_file_finisher` with the source, or the
-- callback with the file and the caller's argument.
pub data Todo {ℓ} (F : Type ℓ) (C : Type ℓ) : Type ℓ where
  finisher : ℕ → Todo F C
  callback : C → F → Todo F C

-- What becomes of a thread: it goes on with a value, follows a null pointer, waits for a message that
-- never comes, spins in a `Read` at the end of the file, or reads a message as one of another type
-- or past its end.
pub data Course {ℓ} (A : Type ℓ) : Type ℓ where
  finishes : A → Course A
  null_pointer waits spins misreads overreads : Course A

infixl 5 ◌>>=◌
abbrev pub ◌>>=◌ {ℓ κ} : {A : Type ℓ} {B : Type κ} → Course A → (A → Course B) → Course B
finishes a >>= f = f a
null_pointer >>= f = null_pointer
waits >>= f = waits
spins >>= f = spins
misreads >>= f = misreads
overreads >>= f = overreads

-- `Read` returns when it has read all.
abbrev pub whole {ℓ} : {A : Type ℓ} → Option A → Course A
whole none = spins
whole (some a) = finishes a

abbrev pub cast_as {ℓ} : {A : Type ℓ} → Option A → Course A
cast_as none = misreads
cast_as (some a) = finishes a

abbrev pub num_chunks : ℕ → ℕ
num_chunks file_size = file_size / chunk_size + (if ltb 0 (file_size % chunk_size) then 1 else 0)

-- `next_msg_from`, from the messages that come: behind them the source hangs up, which gives a null
-- pointer, or nothing comes any more.
unfoldable pub next_from : (hangup : Bool) → List Msg → Course (Msg × List Msg)
next_from hangup [] = if hangup then null_pointer else waits
next_from hangup (m ∷ ms) = finishes (m, ms)

module _ {F : Type 0} (ops : FileOps F) (size : Sizeof) where
  open ops use {read, write, rewind, tmpfile}

  pub new_file_chunk : ℕ → F → Course (Msg × F)
  new_file_chunk buff_size fd = do
    (bytes, fd') ← whole (read buff_size fd)
    finishes (file_chunk_of size buff_size bytes, fd')

  -- The loop over the full chunks, by the rounds left.
  pub put_chunks : ℕ → F → Output → Course (F × Output)
  unfolding new_file_chunk
  put_chunks zero fd out = finishes (fd, out)
  put_chunks (suc n) fd out = do
    (chunk, fd') ← new_file_chunk chunk_size fd
    put_chunks n fd' (put out chunk)

  pub put_last : ℕ → F → Output → Course (F × Output)
  unfolding new_file_chunk
  put_last zero fd out = finishes (fd, out)
  put_last (suc r) fd out = do (last, fd') ← new_file_chunk (suc r) fd; finishes (fd', put out last)

  -- The stream is `none` where its pointer is null.
  unfoldable pub send_file_thread : F → Option Output → Course Output
  send_file_thread fd none = null_pointer
  send_file_thread fd (some out) = do
    let file_size = ops.size fd
    let out' = put out (new_file_header size (num_chunks file_size))
    (fd', out'') ← put_chunks (file_size / chunk_size) fd out'
    (fd'', out''') ← put_last (file_size % chunk_size) fd' out''
    finishes (record out''' { off = true })

  -- A chunk that claims more bytes than it has is read past its end.
  pub write_chunk : Msg → F → Course F
  write_chunk m fd = do
    bytes ← cast_as (as_chunk m)
    if ltb (length bytes) (get_chunk_size size m)
        then overreads
        else finishes (write (take (get_chunk_size size m) bytes) fd)

  pub write_chunks : (hangup : Bool) → ℕ → List Msg → F → Course (F × List Msg)
  unfolding write_chunk next_from
  write_chunks hangup zero ms fd = finishes (fd, ms)
  write_chunks hangup (suc n) ms fd = do
    (m, ms') ← next_from hangup ms
    fd' ← write_chunk m fd
    write_chunks hangup n ms' fd'

  -- The todos in the order in which they are added, and the messages that are left.
  unfoldable pub recv_file_deputy :
      {C : Type 0} → (hangup : Bool) → ℕ → C → List Msg → Course (List (Todo F C) × List Msg)
  unfolding next_from
  recv_file_deputy hangup source arg ms = do
    (header, ms') ← next_from hangup ms
    n ← cast_as (as_header header)
    (fd, ms'') ← write_chunks hangup n ms' tmpfile
    finishes (finisher source ∷ callback arg (rewind fd) ∷ [], ms'')
