-- ===== src/Program/Relaying.antt =====
-- A file on its way through a server.
use iu.Prelude.{
  ℕ, ◌≡◌, refl, sym, ap, ◌∙◌, ◌<◌, Bool, true, none, some, List, [], ◌∷◌, ◌++◌, length,
}
use iu.Msg.{word, Msg, Sizeof}
use iu.File.{
  FileOps, Output, no_output, Course, finishes, null_pointer, ◌>>=◌, finisher, callback,
  send_file_thread, recv_file_deputy,
}
use iu.File.Transfer.{recv_file_deputy-send_file_thread}
use iu.Net.{Net}
use iu.Program.{Thread, receives, sends, Job, run_job}

-- `Dup`: the new descriptor has the file and the offset of the old one.
pub record DupLaws {F : Type 0} (ops : FileOps F) (dup : F → F) : Type 0 where
  pub content-dup : (f : F) → ops.content (dup f) ≡ ops.content f
  pub size-dup : (f : F) → ops.size (dup f) ≡ ops.size f

-- What a thread leaves: the todos, with the messages that it has not taken, or what it has put into
-- its stream.
pub data Left (F : Type 0) : Type 0 where
  todos : List (Job F) → List Msg → Left F
  output : Output → Left F

module _ {F : Type 0} (ops : FileOps F) (dup : F → F) (laws : DupLaws ops dup)
    (sizes : Sizeof) where
  open ops use {content}

  -- The run of a thread, with the messages that come from its source; the stream that it fills is
  -- empty before.
  unfoldable pub run_thread : (hangup : Bool) → List Msg → Thread F → Course (Left F)
  unfolding send_file_thread recv_file_deputy
  run_thread hangup ms (receives source target) = do
    (jobs, ms') ← recv_file_deputy ops sizes hangup source target ms
    finishes (todos jobs ms')
  run_thread hangup ms (sends fd none) = do
    out ← send_file_thread ops sizes fd none
    finishes (output out)
  run_thread hangup ms (sends fd (some dest)) = do
    out ← send_file_thread ops sizes fd (some no_output)
    finishes (output out)

  -- What a server does with the messages of a file for a node, and the receiver with the server's.
  pub record Relays (f : F) (hangup : Bool) (source dest server : ℕ) (ms ms' : List Msg) (s : Net)
      (threads : List (Thread F)) : Type 0 where
    pub out : Output
    pub received : F
    pub starts : Thread F
    pub starts_without : Thread F
    pub out' : Output
    pub arrived : F
    pub sent : run_thread hangup [] (sends f (some server)) ≡ finishes (output out)
    pub taken :
        run_thread hangup (out.put ++ ms) (receives source (some dest))
        ≡ finishes (todos (finisher source ∷ callback (some dest) received ∷ []) ms)
    pub handed :
        run_job dup (callback (some dest) received) (s, threads) ≡ ((s, threads ++ starts ∷ []), [])
    pub sent_on : run_thread hangup [] starts ≡ finishes (output out')
    pub off : out'.off ≡ true
    pub taken_on :
        run_thread hangup (out'.put ++ ms') (receives server none)
        ≡ finishes (todos (finisher server ∷ callback none arrived ∷ []) ms')
    pub same_content : content arrived ≡ content f
    pub handed_without :
        run_job dup (callback none received) (s, threads)
        ≡ ((s, threads ++ starts_without ∷ []), [])
    pub crashes : run_thread hangup [] starts_without ≡ null_pointer

  pub relayed_file :
      (f : F) (hangup : Bool) (source dest server : ℕ) (ms ms' : List Msg) (s : Net)
      (threads : List (Thread F))
      → ops.size f ≡ length (content f)
      → sizes.file_chunk < word
      → Relays f hangup source dest server ms ms' s threads
  unfolding run_job iu.Program.on_finished iu.Program.send_file run_thread send_file_thread
  relayed_file f hangup source dest server ms ms' s threads h k =
      let (out, g, e, o, r, c, z) =
        recv_file_deputy-send_file_thread ops sizes hangup source (some dest) f ms h k in
      let (out', i, e', o', r', c', z') =
        recv_file_deputy-send_file_thread ops sizes hangup server none (dup g) ms'
          (laws.size-dup g ∙ z ∙ ap length (sym (laws.content-dup g))) k in
      record {
        out = out;
        received = g;
        starts = sends (dup g) (some dest);
        starts_without = sends (dup g) none;
        out' = out';
        arrived = i;
        sent = ap (λ r. r >>= (λ o. finishes (output o))) e;
        taken = ap (λ r. r >>= (λ x. finishes (todos x.0 x.1))) r;
        handed = refl;
        sent_on = ap (λ r. r >>= (λ o. finishes (output o))) e';
        off = o';
        taken_on = ap (λ r. r >>= (λ x. finishes (todos x.0 x.1))) r';
        same_content = c' ∙ laws.content-dup g ∙ c;
        handed_without = refl;
        crashes = refl;
      }
