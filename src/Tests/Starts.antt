-- ===== src/Tests/Starts.antt =====
-- Runs of the helper's start.
use shinogi.Base.{
  ℕ, ◌<◌, true, false, List, [], ◌∷◌, none, some, ◌≡◌, refl, arith, Bytes, codes, All-replicate,
  length, equal,
}
use shinogi.Base.Result.{ok}
use shinogi.Hostfsd.Daemon.{
  max_files, max_dirs, FileHandle, DirHandle, Daemon, start, file_of, dir_of,
}
use shinogi.Hostfsd.Daemon.Tables.{file_of-unused, dir_of-unused}
use shinogi.Hostfsd.Host.{Stat}
use shinogi.Hostfsd.Startup.{
  no_settings, parse_args, settle_root, trim_root, make_label, base_name, label_byte,
}
use shinogi.Hostfsd.Startup.Accept.{Peer, accept_loop, IsServed, accept_loop-IsServed}
use shinogi.Hostfsd.Startup.Arguments.{print_args, parse_args-print_args}
use shinogi.Hostfsd.Startup.Label.{IsTrimmed, IsLabel, make_label-IsLabel, settle_root_lem}
use shinogi.Hostfsd.Startup.Sweep.{Survives, writable_pass-keeps}
use shinogi.Hostfsd.Startup.Writable.{writable_pass}
use shinogi.Hostfsd.Session.Receive.{bytes_of}
use shinogi.Tests.Disk.{Ram, disk, fresh, srv, cfg}

parse_args-print_args_example :
    parse_args (print_args (codes "/srv") (codes "--once") none true true false false) no_settings
    ≡ some (record {
      dir = some (codes "/srv");
      sockpath = some (codes "--once");
      readyfile = none;
      do_listen = true;
      once = true;
      read_only = false;
      verbose = false;
    })
parse_args-print_args_example =
    parse_args-print_args (codes "/srv") (codes "--once") none true true false false

make_label-IsLabel_example : IsLabel (make_label (codes "/home/user/My Atari Disk\\"))
make_label-IsLabel_example = make_label-IsLabel (codes "/home/user/My Atari Disk\\")

settle_root_run : settle_root disk fresh false srv ≡ ok cfg
unfolding settle_root trim_root make_label base_name label_byte equal
settle_root_run = refl

settle_root_lem_example :
    (resolved : Bytes) × (disk.realpath fresh srv ≡ some resolved)
    × (st : Stat) × (disk.stat fresh resolved ≡ ok st)
    × (st.is_dir ≡ true)
    × IsTrimmed resolved srv
    × IsLabel (codes "srv")
    × (false ≡ false)
settle_root_lem_example = settle_root_lem disk fresh false srv cfg settle_root_run

-- What the file holds does not depend on its mode.
abbrev KeepsContent : Ram → Type 0
KeepsContent os = os.content ≡ codes "hello"

KeepsContent-Survives : Survives disk srv KeepsContent
KeepsContent-Survives path mode os u p = p

writable_pass-keeps_example :
    KeepsContent (writable_pass disk srv false fresh).os
    × (false ≡ true → (writable_pass disk srv false fresh).os ≡ fresh)
writable_pass-keeps_example =
    writable_pass-keeps disk srv KeepsContent KeepsContent-Survives false fresh refl

-- A client that closes at once.
abbrev idle : Peer
idle = record { link = record { incoming = []; calls = 0; sent = [] }; grant = λ _. 1 }

short : length (bytes_of idle.link.incoming) < 1
unfolding bytes_of
short = omega arith

abbrev no_file : FileHandle
no_file = record { used = false; fd = 0; dirty = false }

abbrev no_dir : DirHandle
no_dir = record { used = false; names = []; path = [] }

none_valid :
    (h : ℕ)
    → (file_of (start disk fresh).files h ≡ none) × (dir_of (start disk fresh).dirs h ≡ none)
none_valid h = (
  file_of-unused (start disk fresh).files h
      (All-replicate (λ f. f.used ≡ false) max_files no_file refl),
  dir_of-unused (start disk fresh).dirs h
      (All-replicate (λ d. d.used ≡ false) max_dirs no_dir refl),
)

accept_loop-IsServed_example :
    (counts : List ℕ) × (d' : Daemon Ram) × (accept_loop disk cfg true 1
        (idle ∷ idle ∷ [])
        (start disk fresh)
      ≡ some (counts, d'))
    × IsServed disk cfg true (idle ∷ idle ∷ []) counts
    × ((h : ℕ) → (file_of d'.files h ≡ none) × (dir_of d'.dirs h ≡ none))
accept_loop-IsServed_example =
    accept_loop-IsServed disk cfg true 1 (idle ∷ idle ∷ []) (start disk fresh) (short, (short, tt))
      none_valid
