-- ===== src/Tests/Paths.antt =====
-- Runs of the vetting of names and of `resolve_path`.
use shinogi.Base.{true, List, [], ◌∷◌, some, ◌≡◌, ◌↔◌, refl, arith, Bytes, codes, All, starts_with}
use shinogi.Base.Result.{ok, err}
use shinogi.Hostfsd.Host.{Host}
use shinogi.Hostfsd.Names.{component_ok, match_fold_in}
use shinogi.Hostfsd.Names.Vetted.{IsVetted, component_ok_iff}
use shinogi.Hostfsd.Names.Fold.{IsFirstMatch, match_fold_in-IsFirstMatch}
use shinogi.Hostfsd.Path.{
  under_root, resolve_path, join_path, join_component, resolve_joined, spelling, match_fold,
  dir_under_root,
}
use shinogi.Hostfsd.Path.Walk.{components}
use shinogi.Hostfsd.Path.Contained.{
  IsContained, resolve_path-IsContained, resolve_path-refuses, resolve_path-slash_root,
}
use shinogi.Hostfsd.Proto.{epthnf}
use shinogi.Tests.Disk.{disk, fresh, srv, a_txt}

-- A name in small letters finds the file that is there.
resolve_path_run : resolve_path disk fresh srv (codes "a.txt") ≡ ok a_txt
unfolding resolve_path join_path join_component resolve_joined spelling match_fold dir_under_root
    under_root component_ok match_fold_in
resolve_path_run = refl

resolve_path_device : resolve_path disk fresh srv (codes "con.txt") ≡ err epthnf
unfolding resolve_path join_path join_component component_ok
resolve_path_device = refl

resolve_path-IsContained_example : IsContained disk fresh srv (codes "a.txt") a_txt
resolve_path-IsContained_example =
    resolve_path-IsContained disk fresh srv (codes "a.txt") a_txt resolve_path_run

dots_rejected : ¬ All (λ c. component_ok c ≡ true) (components [] (codes "A/.."))
unfolding component_ok components
dots_rejected h = ground (arith, h.1)

resolve_path-refuses_example : resolve_path disk fresh srv (codes "A/..") ≡ err epthnf
resolve_path-refuses_example =
    resolve_path-refuses disk fresh srv (codes "A/..") (λ e. absurd (cc)) dots_rejected

-- Every path of this host is a link to `/`.
abbrev loop_host : Host
loop_host = record disk { realpath = λ os p. some (codes "/") }

loop_run : resolve_path loop_host fresh (codes "/") (codes "x") ≡ ok (codes "//x")
unfolding resolve_path join_path join_component resolve_joined spelling match_fold dir_under_root
    under_root component_ok match_fold_in
loop_run = refl

resolve_path-slash_root_example : codes "/" ≡ codes "/"
unfolding starts_with
resolve_path-slash_root_example =
    resolve_path-slash_root loop_host fresh (codes "/") (codes "x") (codes "//x") (codes "/")
      (λ e. absurd (cc)) refl (λ p r h. ground arith) loop_run refl

component_ok_iff_example : (component_ok (codes "A.TXT") ≡ true) ↔ IsVetted (codes "A.TXT")
component_ok_iff_example = component_ok_iff (codes "A.TXT")

abbrev entries : List Bytes
entries = codes ".." ∷ codes "B" ∷ codes "ReadMe" ∷ codes "README" ∷ []

fold_run : match_fold_in entries (codes "readme") ≡ some (codes "ReadMe")
unfolding match_fold_in
fold_run = refl

match_fold_in-IsFirstMatch_example : IsFirstMatch entries (codes "readme") (codes "ReadMe")
match_fold_in-IsFirstMatch_example =
    match_fold_in-IsFirstMatch entries (codes "readme") (codes "ReadMe") fold_run
