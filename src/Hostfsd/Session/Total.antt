-- ===== src/Hostfsd/Session/Total.antt =====
-- `serve_client` ends, whatever comes in and however the peer takes the replies.
use shinogi.Base.{
  ℕ, zero, suc, ◌+◌, ◌-◌, ◌≤◌, ◌<◌, Bool, true, false, ◌&&◌, List, [], ◌++◌, Option, none, some,
  ◌≡◌, ◌⊎◌, inl, inr, refl, ap, ◌∙◌, arith, Bytes, length, length-drop, ltb, leb, leb→le, ◌==◌,
  if◌then◌else◌, Bool-cases,
}
use shinogi.Hostfsd.Config.{Config}
use shinogi.Hostfsd.Daemon.{Daemon, handles_reset, file_of, dir_of}
use shinogi.Hostfsd.Daemon.Tables.{handles_reset-forgets}
use shinogi.Hostfsd.Frame.{get16}
use shinogi.Hostfsd.Host.{Host}
use shinogi.Hostfsd.Proto.{req_hdr}
use shinogi.Hostfsd.Serve.{serve}
use shinogi.Hostfsd.Session.{
  Event, Received, whole, at_end, cut_off, Link, Grant, Round, ended, goes_on, Served, recv_exact,
  recv_body, is_bad_length, bad_length_reply, answer_frame, refuse_frame, handle_header, round,
  client_loop, serve_client,
}
use shinogi.Hostfsd.Session.Receive.{bytes_of, is_clean, recv_exact_lem}
use shinogi.Hostfsd.Session.Send.{send_all-IsSent}

-- A call of `recv_exact` ends; a success leaves fewer bytes by as many as were asked for.
data Ends (n : ℕ) (es : List Event) : Option Received → Type 0 where
  ends_whole :
      (b : Bytes) (es' : List Event)
      → length (bytes_of es') + n ≡ length (bytes_of es)
      → Ends n es (some (whole b es'))
  ends_at_end : Ends n es (some at_end)
  ends_cut_off : Ends n es (some cut_off)

recv_exact-Ends : (n : ℕ) (es : List Event) → Ends n es (recv_exact n es)
recv_exact-Ends n es = elim (Bool-cases (leb n (length (bytes_of es)))) [
  | inl enough ↦
      let (es', e, r, c) = (recv_exact_lem n es).0 (ground arith) in
      rw e (
        ends_whole _ es' (
          omega (
            arith,
            ap (length {0}) r,
            length-drop {0} n (bytes_of es),
            leb→le n (length (bytes_of es)) enough,
          )))
  | inr few ↦
      rw ((recv_exact_lem n es).1 (ground arith))
        (either (is_clean es && length (bytes_of es) == 0))
]
  where
    either : (b : Bool) → Ends n es (some (if b then at_end else cut_off))
    either true = ends_at_end
    either false = ends_cut_off

module _ (H : Host) (cfg : Config) (grant : Grant) where
  -- A round ends, and leaves fewer than `room` bytes to come in if the loop goes on.
  data RoundEnds (room : ℕ) : Option (Round H.Os) → Type 0 where
    stops : (k : ℕ) (l : Link) (d : Daemon H.Os) → RoundEnds room (some (ended k l d))
    continues :
        (l : Link) (d : Daemon H.Os)
        → length (bytes_of l.incoming) < room
        → RoundEnds room (some (goes_on l d))

  weaken :
      (room room' : ℕ)
      → room ≤ room'
      → (r : Option (Round H.Os)) → RoundEnds room r
      → RoundEnds room' r
  weaken room room' p _ (stops k l d) = stops k l d
  weaken room room' p _ (continues l d q) = continues l d (omega (arith, p, q))

  answer_frame-RoundEnds :
      (f : Bytes) (l : Link) (d : Daemon H.Os)
      → RoundEnds (length (bytes_of l.incoming) + 1) (answer_frame H cfg grant f l d)
  unfolding answer_frame
  answer_frame-RoundEnds f l d =
      let reply = (serve H cfg f d).0 in
      let (done, l', e, s, _) = send_all-IsSent grant (length reply) reply l (omega arith) in
      elim (Bool-cases done) [
        | inl all_sent ↦
            let e' = e ∙ ap (λ b. some (b, l')) all_sent in
            rw (e', answer_frame)
              (continues l' (serve H cfg f d).1
                (omega (arith, ap (λ x. length (bytes_of x)) s.incoming_is)))
        | inr not_sent ↦
            let e' = e ∙ ap (λ b. some (b, l')) not_sent in
            rw (e', answer_frame) (stops 1 l' (serve H cfg f d).1)
      ]

  refuse_frame-RoundEnds :
      (room : ℕ) (l : Link) (d : Daemon H.Os) → RoundEnds room (refuse_frame H cfg grant l d)
  unfolding refuse_frame
  refuse_frame-RoundEnds room l d =
      let (done, l', e, _, _) =
        send_all-IsSent grant (length bad_length_reply) bad_length_reply l (omega arith) in
      rw (e, refuse_frame) (stops 1 l' d)

  recv_body-Ends : (len : ℕ) (es : List Event) → Ends (len - req_hdr) es (recv_body len es)
  unfolding recv_body
  recv_body-Ends len es = elim (Bool-cases (ltb req_hdr len)) [
    | inl more ↦ rw (more, recv_body) (recv_exact-Ends (len - req_hdr) es)
    | inr none_left ↦ rw (none_left, recv_body) (ends_whole [] es (ground arith))
  ]

  handle_header-RoundEnds :
      (header : Bytes) (l : Link) (d : Daemon H.Os)
      → RoundEnds (length (bytes_of l.incoming) + 1) (handle_header H cfg grant header l d)
  unfolding handle_header
  handle_header-RoundEnds header l d = elim (Bool-cases (is_bad_length (get16 header))) [
    | inl bad ↦ rw (bad, handle_header) (refuse_frame-RoundEnds _ l d)
    | inr fine ↦
        rw (fine, handle_header)
          (after (recv_body (get16 header) l.incoming) (recv_body-Ends (get16 header) l.incoming))
  ]
    where
      after :
          (r : Option Received)
          → Ends (get16 header - req_hdr) l.incoming r
          → RoundEnds (length (bytes_of l.incoming) + 1) (elim r [
            | none ↦ none
            | some (whole body es) ↦
                answer_frame H cfg grant (header ++ body) (record l { incoming = es }) d
            | some _ ↦ some (ended 1 l d)
          ])
      after _ (ends_whole b es p) =
          weaken _ _ (omega (arith, p)) _
            (answer_frame-RoundEnds (header ++ b) (record l { incoming = es }) d)
      after _ ends_at_end = stops 1 l d
      after _ ends_cut_off = stops 1 l d

  round-RoundEnds :
      (l : Link) (d : Daemon H.Os)
      → RoundEnds (length (bytes_of l.incoming)) (round H cfg grant l d)
  unfolding round
  round-RoundEnds l d = after (recv_exact req_hdr l.incoming) (recv_exact-Ends req_hdr l.incoming)
    where
      after :
          (r : Option Received)
          → Ends req_hdr l.incoming r
          → RoundEnds (length (bytes_of l.incoming)) (elim r [
            | none ↦ none
            | some (whole header es) ↦
                handle_header H cfg grant header (record l { incoming = es }) d
            | some _ ↦ some (ended 0 l d)
          ])
      after _ (ends_whole b es p) =
          weaken _ _ (omega (arith, p)) _ (handle_header-RoundEnds b (record l { incoming = es }) d)
      after _ ends_at_end = stops 0 l d
      after _ ends_cut_off = stops 0 l d

  RoundEnds-cases :
      (room : ℕ) (r : Option (Round H.Os))
      → RoundEnds room r
      → ((k : ℕ) × (l : Link) × (d : Daemon H.Os) × (r ≡ some (ended k l d)))
        ⊎ ((l : Link) × (d : Daemon H.Os) × (r ≡ some (goes_on l d))
            × (length (bytes_of l.incoming) < room))
  RoundEnds-cases room _ (stops k l d) = inl (k, l, d, refl)
  RoundEnds-cases room _ (continues l d q) = inr (l, d, refl, q)

  client_loop-total :
      (fuel n : ℕ) (l : Link) (d : Daemon H.Os)
      → length (bytes_of l.incoming) < fuel
      → (s : Served H.Os) × (client_loop H cfg grant fuel n l d ≡ some s)
  unfolding client_loop
  client_loop-total zero n l d p = absurd (omega (arith, p))
  client_loop-total (suc fuel) n l d p = elim (RoundEnds-cases _ _ (round-RoundEnds l d)) [
    | inl (k, l', d', e) ↦
        (record { served = n + k; link = l'; daemon = d' }, rw (e, client_loop) refl)
    | inr (l', d', e, q) ↦
        let (s, e') = client_loop-total fuel (n + 1) l' d' (omega (arith, p, q)) in
        (s, rw (e, client_loop) e')
  ]

  -- With more fuel than bytes to come, for every sequence of arrivals, every pattern of partial
  -- writes and every host: `serve_client` returns, and no handle number of the daemon that it
  -- leaves is valid.
  pub serve_client-total :
      (fuel : ℕ) (l : Link) (d : Daemon H.Os)
      → length (bytes_of l.incoming) < fuel
      → (s : Served H.Os) × (serve_client H cfg grant fuel l d ≡ some s)
        × ((h : ℕ) → (file_of s.daemon.files h ≡ none) × (dir_of s.daemon.dirs h ≡ none))
  unfolding serve_client
  serve_client-total fuel l d p =
      let (s, e) = client_loop-total fuel 0 l (handles_reset H d) p in
      (
        record s { daemon = handles_reset H s.daemon },
        rw (e, serve_client) refl,
        λ h. handles_reset-forgets H s.daemon h,
      )
