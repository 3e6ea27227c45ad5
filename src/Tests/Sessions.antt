-- ===== src/Tests/Sessions.antt =====
-- Runs of whole sessions.
use shinogi.Base.{
  ℕ, ◌+◌, ◌≤◌, ◌<◌, true, ◌&&◌, List, [], ◌∷◌, ◌++◌, none, some, ◌≡◌, refl, arith, Bytes, length,
  take, drop, ◌==◌, if◌then◌else◌, replicate,
}
use shinogi.Hostfsd.Daemon.{Daemon, start, handles_reset, file_of, dir_of}
use shinogi.Hostfsd.Frame.{get16}
use shinogi.Hostfsd.Session.{
  Event, arrive, whole, at_end, cut_off, Link, Grant, Served, recv_exact, bad_length_reply,
  serve_client,
}
use shinogi.Hostfsd.Session.Receive.{bytes_of, is_clean, recv_exact_lem}
use shinogi.Hostfsd.Session.Exchange.{IsGoodFrame, exchange}
use shinogi.Hostfsd.Session.Client.{flatten, serve_client-exchange, serve_client-bad_length}
use shinogi.Hostfsd.Session.Total.{serve_client-total}
use shinogi.Tests.Disk.{Ram, disk, fresh, cfg}

abbrev ready : Daemon Ram
ready = start disk fresh

-- HELLO, protocol 1.
abbrev hello : Bytes
hello = 16 ∷ 0 ∷ 1 ∷ 0 ∷ 1 ∷ 0 ∷ 0 ∷ 0 ∷ replicate 8 0

hello-IsGoodFrame : IsGoodFrame hello
unfolding get16
hello-IsGoodFrame = record { size_min = omega arith; size_max = omega arith; size_field = refl }

-- The frame comes in two pieces.
abbrev pieces : List Event
pieces = arrive 16 (take 4 (drop 1 hello)) ∷ arrive 0 (drop 6 hello) ∷ []

abbrev link : Link
link = record { incoming = pieces; calls = 0; sent = [] }

-- One byte at a time.
abbrev grant : Grant
grant = λ _. 1

recv_exact_lem_example :
    (8 ≤ length (bytes_of pieces)
      → (rest : List Event) × (recv_exact 8 pieces ≡ some (whole (take 8 (bytes_of pieces)) rest))
        × (bytes_of rest ≡ drop 8 (bytes_of pieces))
        × (is_clean rest ≡ is_clean pieces))
    × (length (bytes_of pieces) < 8
        → recv_exact 8 pieces
          ≡ some (if is_clean pieces && length (bytes_of pieces) == 0 then at_end else cut_off))
recv_exact_lem_example = recv_exact_lem 8 pieces

pieces_run : bytes_of pieces ≡ flatten (hello ∷ [])
unfolding bytes_of
pieces_run = refl

pieces_clean : is_clean pieces ≡ true
unfolding is_clean
pieces_clean = refl

serve_client-exchange_example :
    (l' : Link) × (serve_client disk cfg grant 2 link ready
      ≡ some (record {
        served = 1;
        link = l';
        daemon = handles_reset disk (exchange disk cfg (hello ∷ []) (handles_reset disk ready)).1;
      }))
    × (l'.sent ≡ [] ++ (exchange disk cfg (hello ∷ []) (handles_reset disk ready)).0)
serve_client-exchange_example =
    serve_client-exchange disk cfg grant (λ i. omega arith) (hello ∷ []) 2 link ready
      (hello-IsGoodFrame, tt) pieces_run pieces_clean (omega arith)

-- A header with the length 3, and a byte behind it.
abbrev bad_header : Bytes
bad_header = 3 ∷ 0 ∷ replicate 14 0

abbrev bad_link : Link
bad_link = record { incoming = arrive 3 (drop 1 bad_header ++ 9 ∷ []) ∷ []; calls = 0; sent = [] }

bad_run : bytes_of bad_link.incoming ≡ flatten [] ++ (bad_header ++ 9 ∷ [])
unfolding bytes_of
bad_run = refl

bad_size : get16 bad_header ≡ 3
unfolding get16
bad_size = refl

serve_client-bad_length_example :
    (l' : Link) × (serve_client disk cfg grant 1 bad_link ready
      ≡ some (record {
        served = 0 + 1;
        link = l';
        daemon = handles_reset disk (exchange disk cfg [] (handles_reset disk ready)).1;
      }))
    × (l'.sent ≡ [] ++ ((exchange disk cfg [] (handles_reset disk ready)).0 ++ bad_length_reply))
serve_client-bad_length_example =
    serve_client-bad_length disk cfg grant (λ i. omega arith) [] bad_header (9 ∷ []) 1 bad_link
      ready tt refl (ground (arith, bad_size)) bad_run (omega arith)

length-pieces : length (bytes_of pieces) ≡ 16
unfolding bytes_of
length-pieces = refl

serve_client-total_example :
    (s : Served Ram) × (serve_client disk cfg grant 17 link ready ≡ some s)
    × ((h : ℕ) → (file_of s.daemon.files h ≡ none) × (dir_of s.daemon.dirs h ≡ none))
serve_client-total_example =
    serve_client-total disk cfg grant 17 link ready (omega (arith, length-pieces))
