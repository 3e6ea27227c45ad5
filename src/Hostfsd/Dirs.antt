-- ===== src/Hostfsd/Dirs.antt =====
-- tools/hostfsd/shinogi-hostfsd.c, `dir_snapshot`, and of `serve`: OPENDIR, READDIR,
-- READDIR_BATCH and CLOSEDIR.
pub mod Snapshot
pub mod Pages
pub mod Batch
pub mod Enumerate
use shinogi.Base.{
  ℕ, zero, suc, ◌+◌, ◌-◌, ◌*◌, Bool, true, false, not, ◌&&◌, ◌||◌, List, [], ◌∷◌, ◌++◌, Option,
  none, some, Bytes, length, drop, get_elem?, set, ltb, leb, ◌==◌, not_after, if◌then◌else◌,
}
use shinogi.Base.Result.{Result, ok, err, ◌>>=◌}
use shinogi.Hostfsd.Config.{Config}
use shinogi.Hostfsd.Daemon.{
  max_dirs, DirHandle, Daemon, Reply, fail, done, errno_to_gemdos, free_dir, dir_of, dir_release,
}
use shinogi.Hostfsd.Frame.{put16, put32}
use shinogi.Hostfsd.Host.{Errno, Stat, Host}
use shinogi.Hostfsd.Names.{component_ok, is_dots}
use shinogi.Hostfsd.Path.{resolve_path}
use shinogi.Hostfsd.Proto.{Status, e_ok, enhndl, eihndl, ensmem, enmfil, max_rep_data, fullpath_max}

-- `qsort` by `cmp_names`: equal names cannot be told apart, so any sort gives this list.
unfoldable pub insert_name : Bytes → List Bytes → List Bytes
insert_name n [] = n ∷ []
insert_name n (m ∷ ms) = if not_after n m then n ∷ m ∷ ms else m ∷ insert_name n ms

unfoldable pub sort_names : List Bytes → List Bytes
unfolding insert_name
sort_names [] = []
sort_names (n ∷ ns) = insert_name n (sort_names ns)

-- An entry that the listing leaves out.
abbrev pub is_unlisted : Bytes → Bool
is_unlisted name = is_dots name || not (component_ok name)

-- What the loop of READDIR has put together: `out`, `entries`, `ra` and `status`.
pub record Page : Type 0 where
  pub out : Bytes
  pub entries : ℕ
  pub last : ℕ
  pub status : Status

abbrev pub no_page : Page
no_page = record { out = []; entries = 0; last = 0; status = enmfil }

-- One entry of a batch: the cookie behind it, its length and its bytes.
unfoldable pub encode_entry : ℕ → Bytes → Bytes
encode_entry idx name = put32 idx ++ (put16 (length name) ++ name)

unfoldable pub add_entry : Bool → ℕ → Bytes → Page → Page
unfolding encode_entry
add_entry true idx name p = record {
  out = p.out ++ encode_entry idx name;
  entries = p.entries + 1;
  last = idx;
  status = e_ok;
}
add_entry false idx name p = record { out = name; entries = p.entries; last = idx; status = e_ok }

abbrev pub page_reply : Page → Reply
page_reply p = record { status = p.status; ra = p.last; rb = p.entries; out = p.out }

module _ (H : Host) where
  -- The growth of the table by doubling: its new capacity.
  unfoldable pub grow : H.Os → ℕ → ℕ → Option ℕ
  grow os count cap =
      if count == cap
      then (let newcap = if cap == 0 then 64 else cap * 2 in
          if H.realloc os newcap then some newcap else none)
      else some cap

  unfoldable pub collect : H.Os → List Bytes → List Bytes → ℕ → Result Status (List Bytes)
  collect os [] names cap = ok names
  collect os (e ∷ es) names cap = elim (is_unlisted e) [
    | true ↦ collect os es names cap
    | false ↦ elim (grow os (length names) cap) [
      | none ↦ err ensmem
      | some cap' ↦ elim (H.malloc os (length e + 1)) [
        | false ↦ err ensmem
        | true ↦ collect os es (names ++ e ∷ []) cap'
      ]
    ]
  ]

  unfoldable pub dir_snapshot : H.Os → Bytes → Result Status (List Bytes)
  dir_snapshot os path = elim (H.list_dir os path) [
    | err e ↦ err (errno_to_gemdos e)
    | ok entries ↦ do names ← collect os entries [] 0; ok (sort_names names)
  ]

  -- The slot `i` is free, and has no names: a snapshot that fails leaves it so.
  unfoldable pub opendir_at : ℕ → Bytes → Daemon H.Os → Reply × Daemon H.Os
  opendir_at i path d = elim (dir_snapshot d.os path) [
    | err e ↦ (fail e, d)
    | ok names ↦ (
      done (i + 1) 0 [],
      record d { dirs = set d.dirs i (record { used = true; names = names; path = path }) },
    )
  ]

  unfoldable pub opendir_op : Config → Bytes → Daemon H.Os → Reply × Daemon H.Os
  opendir_op cfg payload d = elim (resolve_path H d.os cfg.root payload) [
    | err e ↦ (fail e, d)
    | ok path ↦
        let i = free_dir d.dirs in if i == max_dirs then (fail enhndl, d) else opendir_at i path d
  ]

  -- `stat(...) == 0` on a path that fits its buffer.
  unfoldable pub is_listed : H.Os → Bytes → Bytes → Bool
  is_listed os path name =
      if leb fullpath_max (length path + 1 + length name)
      then false
      else elim (H.stat os (path ++ b'/' ∷ name)) [ err _ ↦ false | ok _ ↦ true ]

  -- The loop, over the names from index `idx` on.
  unfoldable pub readdir_loop : H.Os → Bytes → Bool → List Bytes → ℕ → Page → Page
  readdir_loop os path batch [] idx p = p
  readdir_loop os path batch (name ∷ names) idx p = elim (is_listed os path name) [
    | false ↦ readdir_loop os path batch names (idx + 1) p
    | true ↦ elim (batch && ltb max_rep_data (length p.out + 6 + length name)) [
      | true ↦ p
      | false ↦
          let p' = add_entry batch (idx + 1) name p in
          elim (not batch || p'.entries == 16) [
            | true ↦ p'
            | false ↦ readdir_loop os path batch names (idx + 1) p'
          ]
    ]
  ]

  unfoldable pub readdir_op : Bool → ℕ → ℕ → Daemon H.Os → Reply × Daemon H.Os
  readdir_op batch a b d = elim (dir_of d.dirs a) [
    | none ↦ (fail eihndl, d)
    | some h ↦ (page_reply (readdir_loop d.os h.path batch (drop b h.names) b no_page), d)
  ]

unfoldable pub closedir_op : {Os : Type 0} → ℕ → Daemon Os → Reply × Daemon Os
closedir_op a d = elim (dir_of d.dirs a) [
  | none ↦ (fail eihndl, d)
  | some h ↦ (done 0 0 [], record d { dirs = set d.dirs (a - 1) (dir_release h) })
]
