-- ===== src/Hostfsd/Session/Send.antt =====
-- `send_all` sends everything, in order, however little the peer takes at a time.
use shinogi.Base.{
  ℕ, zero, suc, ◌+◌, ◌≤◌, ◌<◌, Bool, true, false, [], ◌∷◌, ◌++◌, some, ◌≡◌, inl, inr, refl, sym, ap,
  ◌∙◌, arith, Bytes, length, length-drop, take, drop, take-append-drop, append-nil, append_assoc,
  ◌==◌, Bool-cases,
}
use shinogi.Hostfsd.Session.{Link, Grant, send_all}

-- What `send_all` leaves: on success all of the bytes have gone out; on failure a part of them,
-- from the front. What comes in is untouched.
pub record IsSent (bytes : Bytes) (l : Link) (done : Bool) (l' : Link) : Type 0 where
  pub out : Bytes
  pub unsent : Bytes
  pub splits : out ++ unsent ≡ bytes
  pub sent_is : l'.sent ≡ l.sent ++ out
  pub all_out : done ≡ true → unsent ≡ []
  pub incoming_is : l'.incoming ≡ l.incoming

module _ (grant : Grant) where
  pub send_all-IsSent :
      (fuel : ℕ) (bytes : Bytes) (l : Link)
      → length bytes ≤ fuel
      → (done : Bool) × (l' : Link) × (send_all grant fuel bytes l ≡ some (done, l'))
        × IsSent bytes l done l'
        × (((i : ℕ) → 0 < grant i) → done ≡ true)
  unfolding send_all
  send_all-IsSent fuel [] l h = (
    true,
    l,
    refl,
    record {
      out = [];
      unsent = [];
      splits = refl;
      sent_is = sym (append-nil l.sent);
      all_out = λ _. refl;
      incoming_is = refl;
    },
    λ _. refl,
  )
  send_all-IsSent zero (c ∷ cs) l h = absurd (omega arith)
  send_all-IsSent (suc fuel) (c ∷ cs) l h = elim (Bool-cases (grant l.calls == 0)) [
    | inl stuck ↦ (
      false,
      record l { calls = l.calls + 1 },
      rw (stuck, send_all) refl,
      record {
        out = [];
        unsent = c ∷ cs;
        splits = refl;
        sent_is = sym (append-nil l.sent);
        all_out = λ e. absurd (cc);
        incoming_is = refl;
      },
      λ grants. absurd (ground (arith, grants l.calls)),
    )
    | inr takes ↦
        let w = grant l.calls in
        let l1 : Link = record l { calls = l.calls + 1; sent = l.sent ++ take w (c ∷ cs) } in
        let (done, l', e, s, g) =
          send_all-IsSent fuel (drop w (c ∷ cs)) l1 (ground (arith, length-drop {0} w (c ∷ cs))) in
        (
          done,
          l',
          rw (takes, send_all) e,
          record {
            out = take w (c ∷ cs) ++ s.out;
            unsent = s.unsent;
            splits =
                append_assoc (take w (c ∷ cs)) s.out s.unsent
                ∙ ap (λ r. take w (c ∷ cs) ++ r) s.splits
                ∙ take-append-drop w (c ∷ cs);
            sent_is = s.sent_is ∙ append_assoc l.sent (take w (c ∷ cs)) s.out;
            all_out = s.all_out;
            incoming_is = s.incoming_is;
          },
          g,
        )
  ]

  -- A peer that always takes something is sent everything.
  pub send_all-all :
      (bytes : Bytes) (l : Link)
      → ((i : ℕ) → 0 < grant i)
      → (l' : Link) × (send_all grant (length bytes) bytes l ≡ some (true, l'))
        × (l'.sent ≡ l.sent ++ bytes)
        × (l'.incoming ≡ l.incoming)
  send_all-all bytes l grants =
      let (done, l', e, s, g) = send_all-IsSent (length bytes) bytes l (omega arith) in
      let out =
        sym (append-nil s.out) ∙ ap (λ u. s.out ++ u) (sym (s.all_out (g grants))) ∙ s.splits in
      (
        l',
        e ∙ ap (λ b. some (b, l')) (g grants),
        s.sent_is ∙ ap (λ o. l.sent ++ o) out,
        s.incoming_is,
      )
