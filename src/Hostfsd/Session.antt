-- ===== src/Hostfsd/Session.antt =====
-- tools/hostfsd/shinogi-hostfsd.c, "Framing": the byte pipe, and the loop that serves one client.
pub mod Receive
pub mod Send
pub mod Exchange
pub mod Client
pub mod Total
use shinogi.Base.{
  ℕ, zero, suc, ◌+◌, ◌-◌, Bool, true, false, not, ◌&&◌, ◌||◌, List, [], ◌∷◌, ◌++◌, Option, none,
  some, Bytes, length, take, drop, ltb, ◌==◌, if◌then◌else◌,
}
use shinogi.Hostfsd.Config.{Config}
use shinogi.Hostfsd.Daemon.{Daemon, fail, handles_reset}
use shinogi.Hostfsd.Frame.{get16}
use shinogi.Hostfsd.Host.{Host}
use shinogi.Hostfsd.Proto.{req_hdr, max_frame, edrive}
use shinogi.Hostfsd.Serve.{serve, encode_reply}

-- What comes in, as `read` finds it: at least one byte, or a failure. The peer closes at the end.
pub data Event : Type 0 where
  arrive : ℕ → Bytes → Event
  broken : Event

-- The result of `conn_recv`, where an interrupted call has been repeated.
pub data Recv : Type 0 where
  got : Bytes → List Event → Recv
  closed failed : Recv

-- The results 1, 0 and -1 of `recv_exact`.
pub data Received : Type 0 where
  whole : Bytes → List Event → Received
  at_end cut_off : Received

unfoldable pub leftover : Bytes → List Event → List Event
leftover [] es = es
leftover (c ∷ cs) es = arrive c cs ∷ es

-- At most `n` of the bytes that have arrived.
unfoldable pub conn_recv : ℕ → List Event → Recv
conn_recv n [] = closed
conn_recv n (broken ∷ es) = failed
conn_recv n (arrive c cs ∷ es) = got (take n (c ∷ cs)) (leftover (drop n (c ∷ cs)) es)

-- The loop, with the bytes received in `acc`; `none` is the end of the fuel.
unfoldable pub recv_loop : ℕ → Bytes → ℕ → List Event → Option Received
recv_loop zero acc n es = if ltb (length acc) n then none else some (whole acc es)
recv_loop (suc fuel) acc n es = elim (ltb (length acc) n) [
  | false ↦ some (whole acc es)
  | true ↦ elim (conn_recv (n - length acc) es) [
    | closed ↦ some (if length acc == 0 then at_end else cut_off)
    | failed ↦ some cut_off
    | got bytes es' ↦ recv_loop fuel (acc ++ bytes) n es'
  ]
]

-- Each call brings a byte, so `n` rounds are enough.
abbrev pub recv_exact : ℕ → List Event → Option Received
recv_exact n es = recv_loop n [] n es

-- The two directions of a connection: what is still to come in, the calls of `conn_send` made so
-- far, and the bytes that have gone out.
pub record Link : Type 0 where
  pub incoming : List Event
  pub calls : ℕ
  pub sent : Bytes

-- How many bytes the peer takes at each call of `conn_send`, at most; 0 is a failure.
abbrev pub Grant : Type 0
Grant = ℕ → ℕ

-- The loop of `send_all`, over the bytes that are left; the result is whether all went out.
unfoldable pub send_all : Grant → ℕ → Bytes → Link → Option (Bool × Link)
send_all grant fuel [] l = some (true, l)
send_all grant zero (c ∷ cs) l = none
send_all grant (suc fuel) (c ∷ cs) l =
    let w = grant l.calls in
    let l' = record l { calls = l.calls + 1; sent = l.sent ++ take w (c ∷ cs) } in
    let rest = send_all grant fuel (drop w (c ∷ cs)) l' in
    if w == 0 then some (false, record l { calls = l.calls + 1 }) else rest

-- Whether `len` lies outside the limits.
abbrev pub is_bad_length : ℕ → Bool
is_bad_length len = ltb len req_hdr || ltb max_frame len

-- The bytes behind the header, for which there is no call if there are none.
unfoldable pub recv_body : ℕ → List Event → Option Received
recv_body len es = if ltb req_hdr len then recv_exact (len - req_hdr) es else some (whole [] es)

-- One round of the loop in `serve_client`: it breaks, having counted so many requests, or goes on.
pub data Round (Os : Type 0) : Type 0 where
  ended : ℕ → Link → Daemon Os → Round Os
  goes_on : Link → Daemon Os → Round Os

-- What `serve_client` has in the end: the count that it returns, and the state.
pub record Served (Os : Type 0) : Type 0 where
  pub served : ℕ
  pub link : Link
  pub daemon : Daemon Os

abbrev pub bad_length_reply : Bytes
bad_length_reply = encode_reply (fail edrive)

module _ (H : Host) (cfg : Config) (grant : Grant) where
  -- A frame that has been received is served, and its reply is sent.
  unfoldable pub answer_frame : Bytes → Link → Daemon H.Os → Option (Round H.Os)
  answer_frame req l d =
      let (reply, d') = serve H cfg req d in
      elim (send_all grant (length reply) reply l) [
        | none ↦ none
        | some (true, l') ↦ some (goes_on l' d')
        | some (false, l') ↦ some (ended 1 l' d')
      ]

  unfoldable pub refuse_frame : Link → Daemon H.Os → Option (Round H.Os)
  refuse_frame l d = elim (send_all grant (length bad_length_reply) bad_length_reply l) [
    | none ↦ none
    | some (_, l') ↦ some (ended 1 l' d)
  ]

  -- From the length field on.
  unfoldable pub handle_header : Bytes → Link → Daemon H.Os → Option (Round H.Os)
  handle_header header l d =
      let len = get16 header in
      if is_bad_length len then refuse_frame l d else elim (recv_body len l.incoming) [
        | none ↦ none
        | some (whole body es) ↦ answer_frame (header ++ body) (record l { incoming = es }) d
        | some _ ↦ some (ended 1 l d)
      ]

  unfoldable pub round : Link → Daemon H.Os → Option (Round H.Os)
  round l d = elim (recv_exact req_hdr l.incoming) [
    | none ↦ none
    | some (whole header es) ↦ handle_header header (record l { incoming = es }) d
    | some _ ↦ some (ended 0 l d)
  ]

  -- The loop, with the requests counted so far.
  unfoldable pub client_loop : ℕ → ℕ → Link → Daemon H.Os → Option (Served H.Os)
  client_loop zero n l d = none
  client_loop (suc fuel) n l d = elim (round l d) [
    | none ↦ none
    | some (ended k l' d') ↦ some (record { served = n + k; link = l'; daemon = d' })
    | some (goes_on l' d') ↦ client_loop fuel (n + 1) l' d'
  ]

  unfoldable pub serve_client : ℕ → Link → Daemon H.Os → Option (Served H.Os)
  serve_client fuel l d = elim (client_loop fuel 0 l (handles_reset H d)) [
    | none ↦ none
    | some s ↦ some (record s { daemon = handles_reset H s.daemon })
  ]
