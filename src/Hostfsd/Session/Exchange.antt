-- ===== src/Hostfsd/Session/Exchange.antt =====
-- A client's session as an exchange of whole frames.
use shinogi.Base.{
  ℕ, zero, suc, ◌+◌, ◌-◌, ◌≤◌, ◌<◌, true, false, List, [], ◌∷◌, ◌++◌, Option, some, ◌≡◌, refl, sym,
  ap, ◌∙◌, arith, Bytes, get_or, length, length-append, length-take, length-drop, take, drop,
  take-append-drop, take-length-append, drop-length-append, append_assoc, ltb,
}
use shinogi.Hostfsd.Config.{Config}
use shinogi.Hostfsd.Daemon.{Daemon}
use shinogi.Hostfsd.Frame.{get16}
use shinogi.Hostfsd.Host.{Host}
use shinogi.Hostfsd.Proto.{req_hdr, max_frame}
use shinogi.Hostfsd.Serve.{serve}
use shinogi.Hostfsd.Session.{
  Event, Received, whole, Link, Grant, goes_on, recv_exact, recv_body, is_bad_length, answer_frame,
  handle_header, round,
}
use shinogi.Hostfsd.Session.Receive.{bytes_of, is_clean, recv_exact_lem}
use shinogi.Hostfsd.Session.Send.{send_all-all}

-- `p` comes in next, and is taken.
pub record Took (p rest : Bytes) (es : List Event) (r : Option Received) : Type 0 where
  pub events : List Event
  pub is_whole : r ≡ some (whole p events)
  pub rest_is : bytes_of events ≡ rest
  pub clean_is : is_clean events ≡ is_clean es

pub recv_exact-Took :
    (p rest : Bytes) (es : List Event)
    → bytes_of es ≡ p ++ rest
    → Took p rest es (recv_exact (length p) es)
recv_exact-Took p rest es h =
    let (es', e, r, c) =
      (recv_exact_lem (length p) es).0
        (omega (arith, ap (length {0}) h, length-append {0} p rest)) in
    record {
      events = es';
      is_whole =
          e ∙ ap (λ b. some (whole b es')) (ap (take (length p)) h ∙ take-length-append p rest);
      rest_is = r ∙ ap (drop (length p)) h ∙ drop-length-append p rest;
      clean_is = c;
    }

recv_body-Took :
    (p rest : Bytes) (es : List Event)
    → bytes_of es ≡ p ++ rest
    → Took p rest es (recv_body (req_hdr + length p) es)
unfolding recv_body
recv_body-Took [] rest es h = record { events = es; is_whole = refl; rest_is = h; clean_is = refl }
recv_body-Took (c ∷ p) rest es h =
    let more : ltb req_hdr (req_hdr + length (c ∷ p)) ≡ true = ground arith in
    let left : req_hdr + length (c ∷ p) - req_hdr ≡ length (c ∷ p) = omega arith in
    rw (more, left) (recv_exact-Took (c ∷ p) rest es h)

get_or-take : (n i : ℕ) (xs : Bytes) → i < n → get_or (take n xs) i 0 ≡ get_or xs i 0
get_or-take zero i xs h = absurd (omega arith)
get_or-take (suc n) i [] h = refl
get_or-take (suc n) zero (x ∷ xs) h = refl
get_or-take (suc n) (suc i) (x ∷ xs) h = get_or-take n i xs (omega arith)

get16-take : (f : Bytes) → get16 (take req_hdr f) ≡ get16 f
unfolding get16
get16-take f =
    omega (arith, get_or-take req_hdr 0 f (omega arith), get_or-take req_hdr 1 f (omega arith))

-- A frame whose length field is its length, within the limits.
pub record IsGoodFrame (f : Bytes) : Type 0 where
  pub size_min : req_hdr ≤ length f
  pub size_max : length f ≤ max_frame
  pub size_field : get16 f ≡ length f

module _ (H : Host) (cfg : Config) where
  -- The replies to the frames, one behind the other, and the state after the last.
  unfoldable pub exchange : List Bytes → Daemon H.Os → Bytes × Daemon H.Os
  exchange [] d = ([], d)
  exchange (f ∷ fs) d =
      let (reply, d1) = serve H cfg f d in
      let (replies, d2) = exchange fs d1 in (reply ++ replies, d2)

module _ (H : Host) (cfg : Config) (grant : Grant) (grants : (i : ℕ) → 0 < grant i) where
  -- One round takes one frame, and sends its reply.
  pub record Answered (f rest : Bytes) (l : Link) (d : Daemon H.Os) : Type 0 where
    pub link : Link
    pub is_round : round H cfg grant l d ≡ some (goes_on link (serve H cfg f d).1)
    pub sent_is : link.sent ≡ l.sent ++ (serve H cfg f d).0
    pub rest_is : bytes_of link.incoming ≡ rest
    pub clean_is : is_clean link.incoming ≡ is_clean l.incoming

  answer_frame-goes_on :
      (f : Bytes) (l : Link) (d : Daemon H.Os)
      → (l' : Link) × (answer_frame H cfg grant f l d ≡ some (goes_on l' (serve H cfg f d).1))
        × (l'.sent ≡ l.sent ++ (serve H cfg f d).0)
        × (l'.incoming ≡ l.incoming)
  unfolding answer_frame
  answer_frame-goes_on f l d =
      let (l', e, s, i) = send_all-all grant (serve H cfg f d).0 l grants in
      (l', rw (e, answer_frame) refl, s, i)

  handle_header-Answered :
      (f rest : Bytes) (es : List Event) (l : Link) (d : Daemon H.Os)
      → IsGoodFrame f
      → bytes_of es ≡ drop req_hdr f ++ rest
      → (l' : Link) × (handle_header H cfg grant (take req_hdr f) (record l { incoming = es }) d
          ≡ some (goes_on l' (serve H cfg f d).1))
        × (l'.sent ≡ l.sent ++ (serve H cfg f d).0)
        × (bytes_of l'.incoming ≡ rest)
        × (is_clean l'.incoming ≡ is_clean es)
  unfolding handle_header
  handle_header-Answered f rest es l d good h =
      let len : get16 (take req_hdr f) ≡ req_hdr + length (drop req_hdr f) =
        omega (arith, get16-take f, good.size_field, good.size_min, length-drop {0} req_hdr f) in
      let fine : is_bad_length (req_hdr + length (drop req_hdr f)) ≡ false =
        ground (arith, length-drop {0} req_hdr f, good.size_min, good.size_max) in
      let t = recv_body-Took (drop req_hdr f) rest es h in
      let (l', e, s, i) = answer_frame-goes_on f (record l { incoming = t.events }) d in
      (
        l',
        rw (len, fine, handle_header) (rw (t.is_whole, take-append-drop req_hdr f) e),
        s,
        ap bytes_of i ∙ t.rest_is,
        ap is_clean i ∙ t.clean_is,
      )

  pub round-Answered :
      (f rest : Bytes) (l : Link) (d : Daemon H.Os)
      → IsGoodFrame f
      → bytes_of l.incoming ≡ f ++ rest
      → Answered f rest l d
  unfolding round
  round-Answered f rest l d good h =
      let size : length (take req_hdr f) ≡ req_hdr =
        omega (arith, length-take {0} req_hdr f, good.size_min) in
      let t = recv_exact-Took (take req_hdr f) (drop req_hdr f ++ rest) l.incoming (
        h
        ∙ ap (λ g. g ++ rest) (sym (take-append-drop req_hdr f))
        ∙ append_assoc (take req_hdr f) (drop req_hdr f) rest) in
      let taken = rw size at t.is_whole in
      let (l', e, s, r, c) = handle_header-Answered f rest t.events l d good t.rest_is in
      record {
        link = l';
        is_round = rw (taken, round) e;
        sent_is = s;
        rest_is = r;
        clean_is = c ∙ t.clean_is;
      }
