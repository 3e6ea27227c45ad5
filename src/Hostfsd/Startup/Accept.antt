-- ===== src/Hostfsd/Startup/Accept.antt =====
-- tools/hostfsd/shinogi-hostfsd.c, `main`: the loop over the clients that connect.
use shinogi.Base.{
  ℕ, ◌<◌, Bool, true, false, ◌&&◌, List, [], ◌∷◌, Option, none, some, ◌≡◌, inl, inr, refl, arith,
  All, length, ltb, Bool-cases,
}
use shinogi.Hostfsd.Config.{Config}
use shinogi.Hostfsd.Daemon.{Daemon, file_of, dir_of}
use shinogi.Hostfsd.Host.{Host}
use shinogi.Hostfsd.Session.{Link, Grant, serve_client}
use shinogi.Hostfsd.Session.Receive.{bytes_of}
use shinogi.Hostfsd.Session.Total.{serve_client-total}

-- A client: what it sends, and how much it takes at each call.
pub record Peer : Type 0 where
  pub link : Link
  pub grant : Grant

module _ (H : Host) (cfg : Config) (once : Bool) where
  -- The clients in the order in which they connect; after the last, `listener_accept` fails. The
  -- result is `served` for each client that was accepted, and the state.
  unfoldable pub accept_loop : ℕ → List Peer → Daemon H.Os → Option (List ℕ × Daemon H.Os)
  accept_loop fuel [] d = some ([], d)
  accept_loop fuel (p ∷ ps) d = elim (serve_client H cfg p.grant fuel p.link d) [
    | none ↦ none
    | some s ↦ elim (once && ltb 0 s.served) [
      | true ↦ some (s.served ∷ [], s.daemon)
      | false ↦ elim (accept_loop fuel ps s.daemon) [
        | none ↦ none
        | some (counts, d') ↦ some (s.served ∷ counts, d')
      ]
    ]
  ]

  -- All counts but the last are 0 where `once`; without it, and with it where no client sent a
  -- request, each client has been accepted.
  pub data IsServed : List Peer → List ℕ → Type 0 where
    no_more : IsServed [] []
    last_one :
        (p : Peer) (ps : List Peer) (n : ℕ) → once ≡ true → 0 < n → IsServed (p ∷ ps) (n ∷ [])
    next_one :
        (p : Peer) (ps : List Peer) (n : ℕ) (ns : List ℕ)
        → (once ≡ true → n ≡ 0)
        → IsServed ps ns
        → IsServed (p ∷ ps) (n ∷ ns)

  -- With more fuel than any client sends bytes, the loop ends. With --once it ends with the first
  -- client that sent a request, and not with one that sent nothing; otherwise it accepts every
  -- client. After the last, no handle number is valid, if there was none valid at the start.
  pub accept_loop-IsServed :
      (fuel : ℕ) (ps : List Peer) (d : Daemon H.Os)
      → All (λ p. length (bytes_of p.link.incoming) < fuel) ps
      → ((h : ℕ) → (file_of d.files h ≡ none) × (dir_of d.dirs h ≡ none))
      → (counts : List ℕ) × (d' : Daemon H.Os) × (accept_loop fuel ps d ≡ some (counts, d'))
        × IsServed ps counts
        × ((h : ℕ) → (file_of d'.files h ≡ none) × (dir_of d'.dirs h ≡ none))
  unfolding accept_loop
  accept_loop-IsServed fuel [] d short none_valid = ([], d, refl, no_more, none_valid)
  accept_loop-IsServed fuel (p ∷ ps) d (short, shorts) none_valid =
      let (s, e, after) = serve_client-total H cfg p.grant fuel p.link d short in
      elim (Bool-cases (once && ltb 0 s.served)) [
        | inl stop ↦ (
          s.served ∷ [],
          s.daemon,
          rw (e, stop, accept_loop) refl,
          last_one p ps s.served (ground arith) (ground arith),
          after,
        )
        | inr on ↦
            let (counts, d', e', is_served, at_end) =
              accept_loop-IsServed fuel ps s.daemon shorts after in
            (
              s.served ∷ counts,
              d',
              rw (e, on, accept_loop) (rw e' refl),
              next_one p ps s.served counts (λ o. ground arith) is_served,
              at_end,
            )
      ]
