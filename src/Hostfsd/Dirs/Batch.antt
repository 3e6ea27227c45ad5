-- ===== src/Hostfsd/Dirs/Batch.antt =====
-- The loop of READDIR_BATCH: which entries go into one reply.
use shinogi.Base.{
  ℕ, zero, suc, ◌+◌, ◌/◌, ◌%◌, ◌^◌, ◌≤◌, ◌<◌, true, false, List, [], ◌∷◌, ◌++◌, Bytes, ◌≡◌, ◌≢◌,
  ◌⊎◌, inl, inr, refl, sym, ap, ◌∙◌, arith, length, take, drop, length-append, ltb, ◌==◌,
  if◌then◌else◌, All, append-nil, append_assoc, take-length-append, drop-length-append, Bool-cases,
}
use shinogi.Hostfsd.Dirs.{
  Page, no_page, encode_entry, add_entry, is_listed, readdir_loop, page_reply,
}
use shinogi.Hostfsd.Frame.{get16, put16, put32}
use shinogi.Hostfsd.Host.{Host}
use shinogi.Hostfsd.Proto.{e_ok, max_name, max_rep_data}
use shinogi.Hostfsd.Dirs.Pages.{decode_names, names_of, visible, visible-split, IsPage}

module _ (H : Host) (os : H.Os) (path : Bytes) where
  -- The entries of a batch for the names from index `idx` on.
  encode_all : List Bytes → ℕ → Bytes
  encode_all [] idx = []
  encode_all (n ∷ ns) idx =
      let rest = encode_all ns (idx + 1) in
      if is_listed H os path n then encode_entry (idx + 1) n ++ rest else rest

  abbrev IsShort : Bytes → Type 0
  IsShort n = length n ≤ max_name

  -- What the loop of READDIR_BATCH adds to the page `p`: the entries of the next `taken` names.
  record IsBatch (names : List Bytes) (idx : ℕ) (p r : Page) : Type 0 where
    taken : ℕ
    within : taken ≤ length names
    out_is : r.out ≡ p.out ++ encode_all (take taken names) idx
    last_is : (taken ≡ 0) × (r ≡ p) ⊎ (1 ≤ taken) × (r.last ≡ idx + taken) × (r.status ≡ e_ok)
    progress : p.out ≡ [] → taken ≡ 0 → visible H os path names ≡ []

  -- A name that is not listed, in front.
  IsBatch-skip :
      (n : Bytes) (names : List Bytes) (idx : ℕ) (p r : Page)
      → is_listed H os path n ≡ false
      → IsBatch names (idx + 1) p r
      → IsBatch (n ∷ names) idx p r
  unfolding encode_all visible
  IsBatch-skip n names idx p r gone b = elim b.last_is [
    | inl (z, same) ↦ record {
      taken = 0;
      within = omega arith;
      out_is = ap (λ (q : Page). q.out) same ∙ sym (append-nil p.out);
      last_is = inl (refl, same);
      progress = λ e _. rw gone (b.progress e z);
    }
    | inr (pos, l, s) ↦ record {
      taken = suc b.taken;
      within = omega (arith, b.within);
      out_is = rw gone b.out_is;
      last_is = inr (omega arith, omega arith, s);
      progress = λ _ z. absurd (omega arith);
    }
  ]

  -- A name that is listed, in front.
  IsBatch-take :
      (n : Bytes) (names : List Bytes) (idx : ℕ) (p r : Page)
      → is_listed H os path n ≡ true
      → IsBatch names (idx + 1) (add_entry true (idx + 1) n p) r
      → IsBatch (n ∷ names) idx p r
  unfolding encode_all add_entry
  IsBatch-take n names idx p r here b = record {
    taken = suc b.taken;
    within = omega (arith, b.within);
    out_is = rw here (b.out_is ∙ append_assoc p.out (encode_entry (idx + 1) n) _);
    last_is = inr (omega arith, ground arith, ground arith);
    progress = λ _ z. absurd (omega arith);
  }

  -- A page that takes nothing more.
  IsBatch-stop :
      (names : List Bytes) (idx : ℕ) (p : Page)
      → (p.out ≡ [] → visible H os path names ≡ [])
      → IsBatch names idx p p
  unfolding encode_all
  IsBatch-stop names idx p h = record {
    taken = 0;
    within = omega arith;
    out_is = sym (append-nil p.out);
    last_is = inl (refl, refl);
    progress = λ e _. h e;
  }

  add_entry-ne_nil : (c : ℕ) (n : Bytes) (p : Page) → (add_entry true c n p).out ≢ []
  unfolding add_entry encode_entry put32
  add_entry-ne_nil c n p e =
      omega (arith, ap (length {0}) e, length-append {0} p.out (encode_entry c n))

  readdir_loop-IsBatch :
      (names : List Bytes) (idx : ℕ) (p : Page)
      → All IsShort names
      → IsBatch names idx p (readdir_loop H os path true names idx p)
  unfolding readdir_loop visible
  readdir_loop-IsBatch [] idx p short = IsBatch-stop [] idx p (λ _. refl)
  readdir_loop-IsBatch (n ∷ names) idx p (s, short) = elim (Bool-cases (is_listed H os path n)) [
    | inr gone ↦
        rw (gone, readdir_loop)
          (IsBatch-skip n names idx p _ gone (readdir_loop-IsBatch names (idx + 1) p short))
    | inl here ↦ elim (Bool-cases (ltb max_rep_data (length p.out + 6 + length n))) [
      | inl full ↦
          rw (here, full, readdir_loop)
            (IsBatch-stop (n ∷ names) idx p (λ e. absurd (ground (arith, ap (length {0}) e))))
      | inr fits ↦
          let p' = add_entry true (idx + 1) n p in
          elim (Bool-cases (p'.entries == 16)) [
            | inl enough ↦
                rw (here, fits, enough, readdir_loop)
                  (IsBatch-take n names idx p p' here (
                    IsBatch-stop names (idx + 1) p'
                      (λ e. absurd (add_entry-ne_nil (idx + 1) n p e))))
            | inr few ↦
                rw (here, fits, few, readdir_loop)
                  (IsBatch-take n names idx p _ here
                    (readdir_loop-IsBatch names (idx + 1) p' short))
          ]
    ]
  ]

decode_names-entry :
    (fuel c : ℕ) (n rest : Bytes)
    → length n < 2 ^ 16
    → decode_names (suc fuel) (encode_entry c n ++ rest) ≡ n ∷ decode_names fuel rest
unfolding decode_names encode_entry put32 put16 get16
decode_names-entry fuel c n rest h =
    let size : get16 (length n % 256 ∷ length n / 2 ^ 8 % 256 ∷ (n ++ rest)) ≡ length n =
      omega arith in
    let six : 6 + length n ≡ suc (suc (suc (suc (suc (suc (length n)))))) = omega arith in
    rw size (rw six (rw (take-length-append n rest, drop-length-append n rest)))

pub length-encode_entry : (c : ℕ) (n : Bytes) → length (encode_entry c n) ≡ 6 + length n
unfolding encode_entry put32 put16
length-encode_entry c n = omega arith

module _ (H : Host) (os : H.Os) (path : Bytes) where
  decode_names-encode_all :
      (ns : List Bytes) (idx fuel : ℕ)
      → All (λ n. length n ≤ max_name) ns
      → length (encode_all H os path ns idx) ≤ fuel
      → decode_names fuel (encode_all H os path ns idx) ≡ visible H os path ns
  unfolding encode_all visible
  decode_names-encode_all [] idx zero s h = unfold decode_names in refl
  decode_names-encode_all [] idx (suc fuel) s h = unfold decode_names in refl
  decode_names-encode_all (n ∷ ns) idx fuel (s, short) h =
      elim (Bool-cases (is_listed H os path n)) [
        | inr gone ↦ rw gone (decode_names-encode_all ns (idx + 1) fuel short (rw gone at h))
        | inl here ↦
            rw here
              (entry fuel (rw here at h) (λ f k. decode_names-encode_all ns (idx + 1) f short k))
      ]
    where
      later : Bytes
      later = encode_all H os path ns (idx + 1)

      entry :
          (f : ℕ)
          → length (encode_entry (idx + 1) n ++ later) ≤ f
          → ((g : ℕ) → length later ≤ g → decode_names g later ≡ visible H os path ns)
          → decode_names f (encode_entry (idx + 1) n ++ later) ≡ n ∷ visible H os path ns
      entry zero k ih = absurd (
          omega (
            arith,
            length-append {0} (encode_entry (idx + 1) n) later,
            length-encode_entry (idx + 1) n,
          ))
      entry (suc f) k ih =
          decode_names-entry f (idx + 1) n later (omega arith)
          ∙ ap (◌∷◌ n) (
              ih f (
                omega (
                  arith,
                  length-append {0} (encode_entry (idx + 1) n) later,
                  length-encode_entry (idx + 1) n,
                )))

  All-take :
      (k : ℕ) (ns : List Bytes)
      → All (λ n. length n ≤ max_name) ns
      → All (λ n. length n ≤ max_name) (take k ns)
  All-take zero ns h = tt
  All-take (suc k) [] h = tt
  All-take (suc k) (n ∷ ns) (h, hs) = (h, All-take k ns hs)

  -- A batch is a page.
  pub batch-IsPage :
      (names : List Bytes) (idx : ℕ)
      → All (λ n. length n ≤ max_name) names
      → IsPage H os path true names idx (page_reply (readdir_loop H os path true names idx no_page))
  unfolding names_of
  batch-IsPage names idx short =
      let r = readdir_loop H os path true names idx no_page in
      let b = readdir_loop-IsBatch H os path names idx no_page short in
      elim b.last_is [
        | inl (z, same) ↦ inl (ap (λ (q : Page). q.status) same, b.progress refl z)
        | inr (pos, l, s) ↦ inr (
          b.taken,
          pos,
          b.within,
          s,
          l,
          visible-split H os path b.taken names
              ∙ ap (λ ns. ns ++ visible H os path (drop b.taken names))
                  (sym (
                    rw b.out_is (
                      decode_names-encode_all (take b.taken names) idx
                        (length (encode_all H os path (take b.taken names) idx))
                        (All-take b.taken names short) (omega arith)))),
        )
      ]
