-- ===== src/Hostfsd/Serve/Frames.antt =====
-- The frame that `serve` hands back for any request whatever.
use shinogi.Base.{
  ℕ, ◌+◌, ◌-◌, ◌%◌, ◌^◌, ◌≤◌, Bool, true, false, List, [], ◌∷◌, Bytes, ◌≡◌, ◌≢◌, inl, inr, arith,
  length, length-append, drop, All, All-drop, All-get_elem?, ltb, if◌then◌else◌, Option-cases,
}
use shinogi.Base.Result.{Result-cases}
use shinogi.Hostfsd.Config.{Config}
use shinogi.Hostfsd.Daemon.{file_of, dir_of, Daemon, Request, Reply, fail}
use shinogi.Hostfsd.Daemon.Tables.{dir_of-slot}
use shinogi.Hostfsd.Dirs.{
  Page, no_page, encode_entry, add_entry, readdir_loop, opendir_at, opendir_op, readdir_op,
  closedir_op,
}
use shinogi.Hostfsd.Dirs.Batch.{length-encode_entry}
use shinogi.Hostfsd.Files.{
  take_slot, open_resolved, open_op, close_op, read_at, read_op, write_at, write_op,
}
use shinogi.Hostfsd.Frame.{get16, get32, put16, put32}
use shinogi.Hostfsd.Host.{Host, ReadsAtMost}
use shinogi.Hostfsd.Names.{component_ok}
use shinogi.Hostfsd.Proto.{
  Op, op_read, op_readdir, op_readdir_batch, Status, e_ok, max_name, max_frame, max_rep_data,
  rep_hdr,
}
use shinogi.Hostfsd.Serve.{
  hello_op, dispatch, answer, settle, status_field, encode_reply, decode_request, serve,
}
use shinogi.Hostfsd.Serve.Invariant.{IsSound, IsSnapshot}
use shinogi.Hostfsd.Tree.{by_call, path_op, rename_op, setattr_op, stat_reply, stat_op, dfree_op}

-- The payload fits a frame.
abbrev Fits : Reply → Type 0
Fits r = length r.out ≤ max_rep_data

pub length-component_ok : (n : Bytes) → component_ok n ≡ true → length n ≤ max_name
unfolding component_ok
length-component_ok n h = ground arith

pub vetted_short :
    (ns : List Bytes) → All (λ n. component_ok n ≡ true) ns → All (λ n. length n ≤ max_name) ns
vetted_short [] h = tt
vetted_short (n ∷ ns) (h, hs) = (length-component_ok n h, vetted_short ns hs)

module _ (H : Host) (os : H.Os) (path : Bytes) where
  readdir_loop-fits :
      (batch : Bool) (names : List Bytes) (idx : ℕ) (p : Page)
      → All (λ n. length n ≤ max_name) names
      → length p.out ≤ max_rep_data
      → length (readdir_loop H os path batch names idx p).out ≤ max_rep_data
  unfolding readdir_loop add_entry
  readdir_loop-fits batch [] idx p s h = h
  readdir_loop-fits false (n ∷ names) idx p (s, short) h =
      ground (arith, readdir_loop-fits false names (idx + 1) p short h)
  readdir_loop-fits true (n ∷ names) idx p (s, short) h = ground (
    arith,
    readdir_loop-fits true names (idx + 1) p short h,
    length-append {0} p.out (encode_entry (idx + 1) n),
    length-encode_entry (idx + 1) n,
    readdir_loop-fits true names (idx + 1) (add_entry true (idx + 1) n p) short,
  )

module _ (H : Host) (cfg : Config) (reads : ReadsAtMost H) (label : length cfg.label ≤ max_rep_data)
    (d : Daemon H.Os) (s : IsSound d) where
  read_at-Fits : (fd b c : ℕ) → Fits (read_at H fd b c d).0
  unfolding read_at
  read_at-Fits fd b c =
      let os' = (H.lseek fd b d.os).1 in
      let n = if ltb max_rep_data c then max_rep_data else c in
      elim (Result-cases (H.read_fd fd n os').0) [
        | inl (bytes, e) ↦ ground (arith, reads fd n os' bytes e)
        | inr (e, m) ↦ ground arith
      ]

  read_op-Fits : (a b c : ℕ) → Fits (read_op H a b c d).0
  unfolding read_op
  read_op-Fits a b c = elim (Option-cases (file_of d.files a)) [
    | inl e ↦ rw (e, read_op) (omega arith)
    | inr (f, e) ↦ rw (e, read_op) (read_at-Fits f.fd b c)
  ]

  readdir_op-Fits : (batch : Bool) (a b : ℕ) → Fits (readdir_op H batch a b d).0
  unfolding readdir_op
  readdir_op-Fits batch a b = elim (Option-cases (dir_of d.dirs a)) [
    | inl e ↦ rw (e, readdir_op) (omega arith)
    | inr (h, e) ↦
        let (_, _, at, _) = dir_of-slot d.dirs a e in
        let snap = All-get_elem? IsSnapshot d.dirs (a - 1) s.snapshots at in
        rw (e, readdir_op)
          (readdir_loop-fits H d.os h.path batch (drop b h.names) b no_page
            (All-drop _ b h.names (vetted_short h.names snap.vetted)) (omega arith))
  ]

  dispatch-Fits : (op : Op) (r : Request) → Fits (dispatch H cfg op r d).0
  unfolding dispatch hello_op open_op open_resolved take_slot close_op write_op write_at stat_op
      stat_reply opendir_op opendir_at closedir_op path_op by_call rename_op setattr_op dfree_op
  dispatch-Fits op_read r = read_op-Fits r.a r.b r.c
  dispatch-Fits op_readdir r = readdir_op-Fits false r.a r.b
  dispatch-Fits op_readdir_batch r = readdir_op-Fits true r.a r.b
  dispatch-Fits _ r = ground arith

  answer-Fits : (r : Request) → Fits (answer H cfg r d).0
  unfolding answer
  answer-Fits r = ground (arith, dispatch-Fits r.op r)

-- A frame that a guest can read: its length field is its length, at most a frame's largest, and
-- its status is one of the protocol's; a frame with an error holds no operands and no data.
pub record IsReplyFrame (bytes : Bytes) : Type 0 where
  pub status : Status
  pub ra : ℕ
  pub rb : ℕ
  pub size_min : rep_hdr ≤ length bytes
  pub size_max : length bytes ≤ max_frame
  pub size_field : get16 bytes ≡ length bytes
  pub status_is : get16 (drop 2 bytes) ≡ status_field status
  pub ra_is : get32 (drop 4 bytes) ≡ ra % 2 ^ 32
  pub rb_is : get32 (drop 8 bytes) ≡ rb % 2 ^ 32
  pub no_data : status ≢ e_ok → (ra ≡ 0) × (rb ≡ 0) × (length bytes ≡ rep_hdr)

settle-Fits : (r : Reply) → Fits r → Fits (settle r)
unfolding settle
settle-Fits r h = ground arith

settle_error : (r : Reply) → (settle r).status ≢ e_ok → settle r ≡ fail (settle r).status
unfolding settle
settle_error r h = ground arith

encode_reply-IsReplyFrame :
    (r : Reply) → Fits r → (r.status ≢ e_ok → r ≡ fail r.status) → IsReplyFrame (encode_reply r)
unfolding encode_reply put16 put32 get16 get32
encode_reply-IsReplyFrame r h e = record {
  status = r.status;
  ra = r.ra;
  rb = r.rb;
  size_min = omega arith;
  size_max = omega arith;
  size_field = omega arith;
  status_is = omega arith;
  ra_is = omega arith;
  rb_is = omega arith;
  no_data = λ n. ground (arith, e n);
}

-- `serve` answers every request, in every sound state, by a well-formed frame. The host's `read`
-- must keep to its count, and the label must fit a frame.
pub serve-IsReplyFrame :
    (H : Host) (cfg : Config) (d : Daemon H.Os) (req : Bytes)
    → ReadsAtMost H
    → length cfg.label ≤ max_rep_data
    → IsSound d
    → IsReplyFrame (serve H cfg req d).0
unfolding serve
serve-IsReplyFrame H cfg d req reads label s =
    let r = (answer H cfg (decode_request req) d).0 in
    encode_reply-IsReplyFrame (settle r)
      (settle-Fits r (answer-Fits H cfg reads label d s (decode_request req))) (settle_error r)
