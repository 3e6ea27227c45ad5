-- ===== src/Hostfsd/Startup/Arguments.antt =====
-- The arguments of the helper.
use shinogi.Base.{
  Bool, true, false, List, [], ◌∷◌, ◌++◌, Option, none, some, ◌≡◌, refl, Bytes, codes, equal,
  if◌then◌else◌,
}
use shinogi.Hostfsd.Startup.{no_settings, set_value, set_flag, parse_args}

abbrev flag : Bool → Bytes → List Bytes
flag false name = []
flag true name = name ∷ []

abbrev ready_args : Option Bytes → List Bytes
ready_args none = []
ready_args (some path) = codes "--ready-file" ∷ path ∷ []

-- Arguments that ask for these settings.
abbrev pub print_args :
    Bytes → Bytes → Option Bytes → (do_listen once read_only verbose : Bool) → List Bytes
print_args dir sock ready do_listen once read_only verbose =
    codes "--root"
    ∷ dir
    ∷ (if do_listen then codes "--listen" else codes "--connect")
    ∷ sock
    ∷ (ready_args ready
        ++ (flag once (codes "--once")
            ++ (flag read_only (codes "--read-only") ++ flag verbose (codes "--verbose"))))

flags_lem :
    (o r v : Bool) (d p rf : Option Bytes) (l : Bool)
    → parse_args
        (flag o (codes "--once") ++ (flag r (codes "--read-only") ++ flag v (codes "--verbose")))
        (record {
          dir = d;
          sockpath = p;
          readyfile = rf;
          do_listen = l;
          once = false;
          read_only = false;
          verbose = false;
        })
      ≡ some (record {
        dir = d;
        sockpath = p;
        readyfile = rf;
        do_listen = l;
        once = o;
        read_only = r;
        verbose = v;
      })
unfolding parse_args set_flag set_value equal
flags_lem false false false d p rf l = refl
flags_lem false false true d p rf l = refl
flags_lem false true false d p rf l = refl
flags_lem false true true d p rf l = refl
flags_lem true false false d p rf l = refl
flags_lem true false true d p rf l = refl
flags_lem true true false d p rf l = refl
flags_lem true true true d p rf l = refl

-- The arguments for any settings are read back as these settings, whatever the values are, options'
-- names among them.
pub parse_args-print_args :
    (dir sock : Bytes) (ready : Option Bytes) (do_listen once read_only verbose : Bool)
    → parse_args (print_args dir sock ready do_listen once read_only verbose) no_settings
      ≡ some (record {
        dir = some dir;
        sockpath = some sock;
        readyfile = ready;
        do_listen = do_listen;
        once = once;
        read_only = read_only;
        verbose = verbose;
      })
unfolding parse_args set_value equal
parse_args-print_args dir sock none true o r v = flags_lem o r v (some dir) (some sock) none true
parse_args-print_args dir sock none false o r v = flags_lem o r v (some dir) (some sock) none false
parse_args-print_args dir sock (some f) true o r v =
    flags_lem o r v (some dir) (some sock) (some f) true
parse_args-print_args dir sock (some f) false o r v =
    flags_lem o r v (some dir) (some sock) (some f) false
