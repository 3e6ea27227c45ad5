-- ===== src/Hostfsd/Session/Client.antt =====
-- What a client that sends whole frames gets from `serve_client`.
use shinogi.Base.{
  ℕ, zero, suc, ◌+◌, ◌-◌, ◌<◌, true, List, [], ◌∷◌, ◌++◌, Option, some, ◌≡◌, refl, sym, ap, ◌∙◌,
  arith, Bytes, All, length, append-nil, append_assoc,
}
use shinogi.Hostfsd.Config.{Config}
use shinogi.Hostfsd.Daemon.{Daemon, handles_reset}
use shinogi.Hostfsd.Frame.{get16}
use shinogi.Hostfsd.Host.{Host}
use shinogi.Hostfsd.Proto.{req_hdr}
use shinogi.Hostfsd.Serve.{serve}
use shinogi.Hostfsd.Session.{
  at_end, Link, Grant, ended, Served, recv_exact, is_bad_length, bad_length_reply, refuse_frame,
  handle_header, round, client_loop, serve_client,
}
use shinogi.Hostfsd.Session.Exchange.{IsGoodFrame, exchange, recv_exact-Took, round-Answered}
use shinogi.Hostfsd.Session.Receive.{bytes_of, is_clean, recv_exact_lem}
use shinogi.Hostfsd.Session.Send.{send_all-all}

abbrev pub flatten : List Bytes → Bytes
flatten [] = []
flatten (f ∷ fs) = f ++ flatten fs

module _ (H : Host) (cfg : Config) (grant : Grant) (grants : (i : ℕ) → 0 < grant i) where
  -- The loop after all of the frames.
  record After (frames : List Bytes) (tail : Bytes) (k n : ℕ) (l : Link) (d : Daemon H.Os)
      (r : Option (Served H.Os)) : Type 0 where
    link : Link
    is_loop : r ≡ client_loop H cfg grant k (n + length frames) link (exchange H cfg frames d).1
    sent_is : link.sent ≡ l.sent ++ (exchange H cfg frames d).0
    rest_is : bytes_of link.incoming ≡ tail
    clean_is : is_clean link.incoming ≡ is_clean l.incoming

  client_loop-After :
      (frames : List Bytes) (tail : Bytes) (fuel k n : ℕ) (l : Link) (d : Daemon H.Os)
      → All IsGoodFrame frames
      → bytes_of l.incoming ≡ flatten frames ++ tail
      → fuel ≡ length frames + k
      → After frames tail k n l d (client_loop H cfg grant fuel n l d)
  unfolding client_loop exchange
  client_loop-After [] tail fuel k n l d good h e = record {
    link = l;
    is_loop =
        let same : fuel ≡ k = omega arith in
        let count : n ≡ n + 0 = omega arith in
        ap (λ m. client_loop H cfg grant m n l d) same
        ∙ ap (λ m. client_loop H cfg grant k m l d) count;
    sent_is = sym (append-nil l.sent);
    rest_is = h;
    clean_is = refl;
  }
  client_loop-After (f ∷ fs) tail zero k n l d good h e = absurd (omega arith)
  client_loop-After (f ∷ fs) tail (suc fuel) k n l d (g, good) h e =
      let a =
        round-Answered H cfg grant grants f (flatten fs ++ tail) l d g
          (h ∙ append_assoc f (flatten fs) tail) in
      let later =
        client_loop-After fs tail fuel k (n + 1) a.link (serve H cfg f d).1 good a.rest_is
          (omega arith) in
      let count : n + 1 + length fs ≡ n + suc (length fs) = omega arith in
      record {
        link = later.link;
        is_loop =
            rw (a.is_round, client_loop)
              (later.is_loop
                ∙ ap
                    (λ m.
                      client_loop H cfg grant k m later.link
                        (exchange H cfg fs (serve H cfg f d).1).1)
                    count);
        sent_is =
            later.sent_is
            ∙ ap (λ s. s ++ (exchange H cfg fs (serve H cfg f d).1).0) a.sent_is
            ∙ append_assoc l.sent _ _;
        rest_is = later.rest_is;
        clean_is = later.clean_is ∙ a.clean_is;
      }

  -- A clean end of the stream.
  round_at_end :
      (l : Link) (d : Daemon H.Os)
      → bytes_of l.incoming ≡ []
      → is_clean l.incoming ≡ true
      → round H cfg grant l d ≡ some (ended 0 l d)
  unfolding round
  round_at_end l d none_left clean =
      let size = ap (length {0}) none_left in
      let r = (recv_exact_lem req_hdr l.incoming).1 (omega arith) in
      let e : recv_exact req_hdr l.incoming ≡ some at_end = r ∙ ground arith in rw (e, round) refl

  client_loop_end :
      (k n : ℕ) (l : Link) (d : Daemon H.Os)
      → 0 < k
      → bytes_of l.incoming ≡ []
      → is_clean l.incoming ≡ true
      → client_loop H cfg grant k n l d ≡ some (record { served = n; link = l; daemon = d })
  unfolding client_loop
  client_loop_end zero n l d pos e c = absurd (omega arith)
  client_loop_end (suc k) n l d pos e c =
      let count : n + 0 ≡ n = omega arith in rw (round_at_end l d e c, client_loop) (rw count refl)

  -- A client that sends whole frames and closes, however they are cut into pieces, and that takes
  -- its replies, however few bytes at a time, gets the reply to each frame, in order, as `serve`
  -- gives it in the state that the frames before have left. The count of requests is right, and
  -- the handles are reset before the first and after the last.
  pub serve_client-exchange :
      (frames : List Bytes) (fuel : ℕ) (l : Link) (d : Daemon H.Os)
      → All IsGoodFrame frames
      → bytes_of l.incoming ≡ flatten frames
      → is_clean l.incoming ≡ true
      → length frames < fuel
      → let ex = exchange H cfg frames (handles_reset H d) in
        (l' : Link) × (serve_client H cfg grant fuel l d
          ≡ some (record { served = length frames; link = l'; daemon = handles_reset H ex.1 }))
        × (l'.sent ≡ l.sent ++ ex.0)
  unfolding serve_client
  serve_client-exchange frames fuel l d good h clean enough =
      let d0 = handles_reset H d in
      let k = fuel - length frames in
      let a =
        client_loop-After frames [] fuel k 0 l d0 good (h ∙ sym (append-nil (flatten frames)))
          (omega arith) in
      let run =
        a.is_loop
        ∙ client_loop_end k (0 + length frames) a.link (exchange H cfg frames d0).1 (omega arith)
            a.rest_is (a.clean_is ∙ clean) in
      let count : 0 + length frames ≡ length frames = omega arith in
      (a.link, rw (run, count, serve_client) refl, a.sent_is)

  refuse_frame-ended :
      (l : Link) (d : Daemon H.Os)
      → (l' : Link) × (refuse_frame H cfg grant l d ≡ some (ended 1 l' d))
        × (l'.sent ≡ l.sent ++ bad_length_reply)
  unfolding refuse_frame
  refuse_frame-ended l d =
      let (l', e, s, _) = send_all-all grant bad_length_reply l grants in
      (l', rw (e, refuse_frame) refl, s)

  -- A header with a bad length.
  client_loop_bad :
      (k n : ℕ) (header junk : Bytes) (l : Link) (d : Daemon H.Os)
      → 0 < k
      → length header ≡ req_hdr
      → is_bad_length (get16 header) ≡ true
      → bytes_of l.incoming ≡ header ++ junk
      → (l' : Link) × (client_loop H cfg grant k n l d
          ≡ some (record { served = n + 1; link = l'; daemon = d }))
        × (l'.sent ≡ l.sent ++ bad_length_reply)
  unfolding client_loop round handle_header
  client_loop_bad zero n header junk l d pos size bad h = absurd (omega arith)
  client_loop_bad (suc k) n header junk l d pos size bad h =
      let t = recv_exact-Took header junk l.incoming h in
      let taken = rw size at t.is_whole in
      let (l', e, s) = refuse_frame-ended (record l { incoming = t.events }) d in
      (l', rw (taken, round, client_loop) (rw (bad, handle_header) (rw e refl)), s)

  -- A frame whose length lies outside the limits ends the session: it is answered by EDRIVE,
  -- whatever comes in behind it is not read as a request, and the frames before it have been
  -- answered.
  pub serve_client-bad_length :
      (frames : List Bytes) (header junk : Bytes) (fuel : ℕ) (l : Link) (d : Daemon H.Os)
      → All IsGoodFrame frames
      → length header ≡ req_hdr
      → is_bad_length (get16 header) ≡ true
      → bytes_of l.incoming ≡ flatten frames ++ (header ++ junk)
      → length frames < fuel
      → let ex = exchange H cfg frames (handles_reset H d) in
        (l' : Link) × (serve_client H cfg grant fuel l d
          ≡ some (record { served = length frames + 1; link = l'; daemon = handles_reset H ex.1 }))
        × (l'.sent ≡ l.sent ++ (ex.0 ++ bad_length_reply))
  unfolding serve_client
  serve_client-bad_length frames header junk fuel l d good size bad h enough =
      let d0 = handles_reset H d in
      let k = fuel - length frames in
      let a = client_loop-After frames (header ++ junk) fuel k 0 l d0 good h (omega arith) in
      let (l', e, s) =
        client_loop_bad k (0 + length frames) header junk a.link (exchange H cfg frames d0).1
          (omega arith) size bad a.rest_is in
      let run = a.is_loop ∙ e in
      let count : 0 + length frames ≡ length frames = omega arith in
      (
        l',
        rw (run, count, serve_client) refl,
        s ∙ ap (λ x. x ++ bad_length_reply) a.sent_is ∙ append_assoc l.sent _ bad_length_reply,
      )
