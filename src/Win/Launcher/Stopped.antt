-- ===== src/Win/Launcher/Stopped.antt =====
-- tools/win/shinogi-launcher.c: however the run ends, no helper is left, and QEMU runs only between
-- the start of all helpers and their end.
use mathlib.Core.List.{map-append}
use shinogi.Base.{
  ℕ, zero, suc, ◌+◌, ◌≤◌, ◌<◌, ◌≡◌, refl, ap, ◌∙◌, sym, ◌⊎◌, inl, inr, arith, Bool, true, false,
  ◌&&◌, List, [], ◌∷◌, ◌++◌, map, append-nil, append_assoc, Option, none, some, Bytes, length, ltb,
  leb, ◌==◌, if◌then◌else◌, Bool-cases, Option-cases,
}
use shinogi.Win.Drives.{DriveMapping}
use shinogi.Win.Drives.Images.{drives_image_options}
use shinogi.Win.Network.Options.{fitted}
use shinogi.Win.Launcher.{
  create_directory, delete_file, create_helper, sleep, terminate, close, run, Trace, Answers,
  helper_command, polls, wait_port, start_helper, stop_helper, ready_path, drive_option,
  drive_options_max, Helper, stop_all, Opened, opened, failed, add_drive, open_drive, open_drives,
  Session, run_session, with_drives, qemu_command,
}

-- The drives that have a folder, from drive `d` on.
unfoldable pub mapped : List DriveMapping → ℕ → List ℕ
mapped [] d = []
mapped (drive ∷ drives) d = (if length drive.path == 0 then [] else d ∷ []) ++ mapped drives (d + 1)

-- A helper that is there: its drive, and whether it has given its port.
abbrev pub Held : Type 0
Held = ℕ × Bool

abbrev pub serving : List ℕ → List Held
serving ds = map (λ d. (d, true)) ds

-- What was done, and the helpers that are there after it. QEMU runs only while the helpers of all
-- drives with a folder, and no others, have given a port in their ready files; a helper leaves only
-- after it has ended or was told to.
pub data Run (m : Answers) (logs : Bytes) (drives : List ℕ) : List Held → Trace → Type 0 where
  begin : (folder : Bytes) → Run m logs drives [] (create_directory folder ∷ [])
  clear :
      {hs : List Held} {t : Trace} (path : Bytes)
      → Run m logs drives hs t
      → Run m logs drives hs (delete_file path ∷ t)
  create :
      {t : Trace} (hs : List Held) (d : ℕ) (command : Bytes)
      → Run m logs drives hs t
      → Run m logs drives (hs ++ (d, false) ∷ []) (create_helper d command ∷ t)
  pause : {hs : List Held} {t : Trace} → Run m logs drives hs t → Run m logs drives hs (sleep ∷ t)
  give_port :
      {t : Trace} (hs : List Held) (d : ℕ) (ready : Bytes)
      → ready_path logs d ≡ some ready
      → 0 < m.chosen t ready
      → m.chosen t ready ≤ 65535
      → Run m logs drives (hs ++ (d, false) ∷ []) t
      → Run m logs drives (hs ++ (d, true) ∷ []) t
  finish :
      {hs' : List Held} {t : Trace} (xs ys : List Held) (d : ℕ) (b : Bool)
      → hs' ≡ xs ++ ys
      → m.ended t d ≡ true
      → Run m logs drives (xs ++ (d, b) ∷ ys) t
      → Run m logs drives hs' (close d ∷ t)
  stop :
      {hs' : List Held} {t : Trace} (xs ys : List Held) (d : ℕ) (b : Bool)
      → hs' ≡ xs ++ ys
      → Run m logs drives (xs ++ (d, b) ∷ ys) t
      → Run m logs drives hs' (close d ∷ terminate d ∷ t)
  emulate :
      {hs : List Held} {t : Trace} (command : Bytes)
      → hs ≡ serving drives
      → Run m logs drives hs t
      → Run m logs drives hs (run command ∷ t)

Opened-cases :
    (o : Opened)
    → ((hs : List Helper) × (t : Trace) × (o ≡ failed hs t))
      ⊎ ((hostfs : Bytes) × (hs : List Helper) × (t : Trace) × (o ≡ opened hostfs hs t))
Opened-cases (failed hs t) = inl (hs, t, refl)
Opened-cases (opened hostfs hs t) = inr (hostfs, hs, t, refl)

module _ (m : Answers) (logs : Bytes) (drives : List ℕ) where
  -- A helper that gives its port is there, and one that does not is gone.
  Started : List Held → ℕ → Option ℕ → Trace → Type 0
  Started hs d none t = Run m logs drives hs t
  Started hs d (some port) t = Run m logs drives (hs ++ (d, true) ∷ []) t

  wait_port-Started :
      (hs : List Held) (ready : Bytes) (d left : ℕ) (t : Trace)
      → ready_path logs d ≡ some ready
      → Run m logs drives (hs ++ (d, false) ∷ []) t
      → Started hs d (wait_port m ready d left t).0 (wait_port m ready d left t).1
  unfolding wait_port Started
  wait_port-Started hs ready d zero t path r = stop hs [] d false (sym (append-nil hs)) r
  wait_port-Started hs ready d (suc left) t path r =
      elim (Bool-cases (ltb 0 (m.chosen t ready) && leb (m.chosen t ready) 65535)) [
        | inl given ↦ rw given (give_port hs d ready path (ground arith) (ground arith) r)
        | inr waits ↦ elim (Bool-cases (m.ended t d)) [
          | inl over ↦ rw waits (rw over (finish hs [] d false (sym (append-nil hs)) over r))
          | inr alive ↦
              rw waits (rw alive (wait_port-Started hs ready d left (sleep ∷ t) path (pause r)))
        ]
      ]

  start_helper-Started :
      (hs : List Held) (dir folder ready : Bytes) (d : ℕ) (readonly : Bool) (t : Trace)
      → ready_path logs d ≡ some ready
      → Run m logs drives hs t
      → Started hs d
          (start_helper m dir folder ready d readonly t).0
          (start_helper m dir folder ready d readonly t).1
  unfolding start_helper Started
  start_helper-Started hs dir folder ready d readonly t path r =
      elim (Bool-cases (m.creates (delete_file ready ∷ t))) [
        | inl made ↦ rw made (
            wait_port-Started hs ready d polls
              (create_helper d (helper_command dir folder ready readonly) ∷ delete_file ready ∷ t)
              path (create hs d (helper_command dir folder ready readonly) (clear ready r)))
        | inr fails ↦ rw fails (clear ready r)
      ]

  abbrev pub held : List Helper → List Held
  held hs = map (λ h. (h.0, true)) hs

  -- The loop that stops them leaves none.
  stop_all-Run :
      (hs : List Helper) (t : Trace)
      → Run m logs drives (held hs) t
      → Run m logs drives [] (stop_all m hs t)
  unfolding stop_all stop_helper
  stop_all-Run [] t r = r
  stop_all-Run ((d, ready) ∷ hs) t r = elim (Bool-cases (m.ended t d)) [
    | inl over ↦ rw over (
        stop_all-Run hs (delete_file ready ∷ close d ∷ t)
          (clear ready (finish [] (held hs) d true refl over r)))
    | inr alive ↦ rw alive (
        stop_all-Run hs (delete_file ready ∷ close d ∷ terminate d ∷ t)
          (clear ready (stop [] (held hs) d true refl r)))
  ]

  -- Where opening stands: the helpers that run, which are those of the drives so far.
  abbrev pub drives_of : List Helper → List ℕ
  drives_of hs = map (λ h. h.0) hs

  serving-held : (hs : List Helper) → held hs ≡ serving (drives_of hs)
  serving-held [] = refl
  serving-held ((d, ready) ∷ hs) = ap (◌∷◌ (d, true)) (serving-held hs)

  pub IsOpened : List ℕ → Opened → Type 0
  IsOpened so_far (opened hostfs hs t) = Run m logs drives (held hs) t × (drives_of hs ≡ so_far)
  IsOpened so_far (failed hs t) = Run m logs drives (held hs) t

  add_drive-IsOpened :
      (ready : Bytes) (d : ℕ) (hostfs : Bytes) (hs : List Helper) (port : Option ℕ) (t : Trace)
      → Started (held hs) d port t
      → IsOpened (drives_of hs ++ d ∷ []) (add_drive ready d hostfs hs port t)
  unfolding add_drive IsOpened Started
  add_drive-IsOpened ready d hostfs hs none t r = r
  add_drive-IsOpened ready d hostfs hs (some port) t r =
      let one : Helper = (d, ready) in
      let longer : held (hs ++ one ∷ []) ≡ held hs ++ (d, true) ∷ [] =
        map-append (λ (h : Helper). (h.0, true)) hs (one ∷ []) in
      let r' : Run m logs drives (held (hs ++ one ∷ [])) t = rw longer r in
      elim (Option-cases (fitted drive_options_max (hostfs ++ drive_option d port))) [
        | inl long ↦ rw (long, add_drive) r'
        | inr (hostfs', fit) ↦
            rw (fit, add_drive) (r', map-append (λ (h : Helper). h.0) hs (one ∷ []))
      ]

  open_drive-IsOpened :
      (dir : Bytes) (drive : DriveMapping) (d : ℕ) (hostfs : Bytes) (hs : List Helper) (t : Trace)
      → Run m logs drives (held hs) t
      → IsOpened (drives_of hs ++ d ∷ []) (open_drive m dir logs drive d hostfs hs t)
  unfolding open_drive IsOpened
  open_drive-IsOpened dir drive d hostfs hs t r = elim (Option-cases (ready_path logs d)) [
    | inl long ↦ rw (long, open_drive) r
    | inr (ready, path) ↦
        rw (path, open_drive)
          (add_drive-IsOpened ready d hostfs hs _ _
            (start_helper-Started (held hs) dir drive.path ready d drive.readonly t path r))
  ]

  pub open_drives-IsOpened :
      (dir : Bytes) (ds : List DriveMapping) (d : ℕ) (hostfs : Bytes) (hs : List Helper) (t : Trace)
      → Run m logs drives (held hs) t
      → IsOpened (drives_of hs ++ mapped ds d) (open_drives m dir logs ds d hostfs hs t)
  unfolding open_drives IsOpened mapped
  open_drives-IsOpened dir [] d hostfs hs t r = (r, sym (append-nil (drives_of hs)))
  open_drives-IsOpened dir (drive ∷ ds) d hostfs hs t r =
      elim (Bool-cases (length drive.path == 0)) [
        | inl empty ↦ rw (empty, open_drives) (open_drives-IsOpened dir ds (d + 1) hostfs hs t r)
        | inr named ↦
            let one = open_drive-IsOpened dir drive d hostfs hs t r in
            elim (Opened-cases (open_drive m dir logs drive d hostfs hs t)) [
              | inl (hs', t', stops) ↦ rw (named, open_drives) (rw stops (rw stops at one))
              | inr (hostfs', hs', t', goes_on) ↦
                  let here = rw goes_on at one in
                  let more = open_drives-IsOpened dir ds (d + 1) hostfs' hs' t' here.0 in
                  let drives' : drives_of hs' ++ mapped ds (d + 1)
                      ≡ drives_of hs ++ (d ∷ mapped ds (d + 1)) =
                    ap (λ l. l ++ mapped ds (d + 1)) here.1
                    ∙ append_assoc (drives_of hs) (d ∷ []) (mapped ds (d + 1)) in
                  rw (named, open_drives) (rw goes_on (rw drives' at more))
            ]
      ]

  pub with_drives-Run :
      (s : Session) (mappings : List DriveMapping) (o : Opened)
      → IsOpened drives o
      → Run m logs drives [] (with_drives m s mappings o).1
  unfolding with_drives IsOpened run_session
  with_drives-Run s mappings (failed hs t) r = stop_all-Run hs t r
  with_drives-Run s mappings (opened hostfs hs t) (r, all_there) =
      elim (Option-cases (drives_image_options mappings 8192)) [
        | inl long ↦ rw (long, with_drives) (stop_all-Run hs t r)
        | inr (images, fit) ↦
            elim (Bool-cases (leb drive_options_max (length images + length hostfs))) [
              | inl long ↦ rw (fit, with_drives) (rw long (stop_all-Run hs t r))
              | inr short ↦
                  rw (fit, with_drives)
                    (rw short (
                      stop_all-Run hs (run (qemu_command s (hostfs ++ images)) ∷ t) (
                        emulate (qemu_command s (hostfs ++ images))
                          (serving-held hs ∙ ap serving all_there) r)))
            ]
      ]
