-- ===== src/Hostfsd/Daemon/Held.antt =====
-- Which descriptors the table of files holds.
use shinogi.Base.{
  ℕ, zero, suc, Bool, true, false, not, ◌&&◌, ◌||◌, List, [], ◌∷◌, some, ◌≡◌, refl, ◌∙◌, arith,
  get_elem?, set, ◌==◌, replicate,
}
use shinogi.Hostfsd.Daemon.{FileHandle}

-- Some slot in use holds descriptor `x`.
unfoldable pub holds : List FileHandle → ℕ → Bool
holds [] x = false
holds (f ∷ fs) x = (f.used && f.fd == x) || holds fs x

-- No two slots in use hold the same descriptor.
abbrev pub UniqueFds : List FileHandle → Type 0
UniqueFds [] = Unit
UniqueFds (f ∷ fs) = (f.used ≡ true → holds fs f.fd ≡ false) × UniqueFds fs

pub holds-set_free :
    (fs : List FileHandle) (i : ℕ) {f : FileHandle} (g : FileHandle) (x : ℕ)
    → get_elem? fs i ≡ some f
    → f.used ≡ false
    → g.used ≡ true
    → holds (set fs i g) x ≡ (g.fd == x || holds fs x)
unfolding holds
holds-set_free [] i g x e free used = absurd (cc)
holds-set_free (h ∷ fs) zero g x e free used = ground arith
holds-set_free (h ∷ fs) (suc i) g x e free used =
    ground (arith, holds-set_free fs i g x e free used)

pub UniqueFds-set_free :
    (fs : List FileHandle) (i : ℕ) {f : FileHandle} (g : FileHandle)
    → get_elem? fs i ≡ some f
    → f.used ≡ false
    → g.used ≡ true
    → holds fs g.fd ≡ false
    → UniqueFds fs
    → UniqueFds (set fs i g)
unfolding holds
UniqueFds-set_free [] i g e free used fresh u = absurd (cc)
UniqueFds-set_free (h ∷ fs) zero g e free used fresh (v, u) = (λ _. ground arith, u)
UniqueFds-set_free (h ∷ fs) (suc i) g e free used fresh (v, u) = (
  λ in_use. ground (arith, holds-set_free fs i g h.fd e free used, v in_use),
  UniqueFds-set_free fs i g e free used (ground arith) u,
)

-- A slot in use holds its descriptor.
pub holds_at :
    (fs : List FileHandle) (i : ℕ) {f : FileHandle}
    → get_elem? fs i ≡ some f
    → f.used ≡ true
    → holds fs f.fd ≡ true
unfolding holds
holds_at [] i e used = absurd (cc)
holds_at (h ∷ fs) zero e used = ground arith
holds_at (h ∷ fs) (suc i) e used = ground (arith, holds_at fs i e used)

pub holds-set_closed :
    (fs : List FileHandle) (i : ℕ) {f : FileHandle} (g : FileHandle) (x : ℕ)
    → get_elem? fs i ≡ some f
    → f.used ≡ true
    → g.used ≡ false
    → UniqueFds fs
    → holds (set fs i g) x ≡ (not (x == f.fd) && holds fs x)
unfolding holds
holds-set_closed [] i g x e used free u = absurd (cc)
holds-set_closed (h ∷ fs) zero g x e used free (v, u) = ground arith
holds-set_closed (h ∷ fs) (suc i) g x e used free (v, u) =
    ground (arith, holds_at fs i e used, holds-set_closed fs i g x e used free u)

pub UniqueFds-set_closed :
    (fs : List FileHandle) (i : ℕ) {f : FileHandle} (g : FileHandle)
    → get_elem? fs i ≡ some f
    → f.used ≡ true
    → g.used ≡ false
    → UniqueFds fs
    → UniqueFds (set fs i g)
unfolding holds
UniqueFds-set_closed [] i g e used free u = absurd (cc)
UniqueFds-set_closed (h ∷ fs) zero g e used free (v, u) = (λ in_use. absurd (cc), u)
UniqueFds-set_closed (h ∷ fs) (suc i) g e used free (v, u) = (
  λ in_use. ground (arith, holds-set_closed fs i g h.fd e used free u, v in_use),
  UniqueFds-set_closed fs i g e used free u,
)

-- A slot that keeps its descriptor, as when a write marks it dirty.
pub holds-set_same :
    (fs : List FileHandle) (i : ℕ) {f : FileHandle} (g : FileHandle) (x : ℕ)
    → get_elem? fs i ≡ some f
    → g.used ≡ f.used
    → g.fd ≡ f.fd
    → holds (set fs i g) x ≡ holds fs x
unfolding holds
holds-set_same [] i g x e used same = refl
holds-set_same (h ∷ fs) zero g x e used same = ground arith
holds-set_same (h ∷ fs) (suc i) g x e used same =
    ground (arith, holds-set_same fs i g x e used same)

pub UniqueFds-set_same :
    (fs : List FileHandle) (i : ℕ) {f : FileHandle} (g : FileHandle)
    → get_elem? fs i ≡ some f
    → g.used ≡ f.used
    → g.fd ≡ f.fd
    → UniqueFds fs
    → UniqueFds (set fs i g)
unfolding holds
UniqueFds-set_same [] i g e used same u = tt
UniqueFds-set_same (h ∷ fs) zero g e used same (v, u) = (λ in_use. ground arith, u)
UniqueFds-set_same (h ∷ fs) (suc i) g e used same (v, u) = (
  λ in_use. holds-set_same fs i g h.fd e used same ∙ v in_use,
  UniqueFds-set_same fs i g e used same u,
)

pub holds-replicate :
    (n : ℕ) (f : FileHandle) (x : ℕ) → f.used ≡ false → holds (replicate n f) x ≡ false
unfolding holds
holds-replicate zero f x free = refl
holds-replicate (suc n) f x free = ground (arith, holds-replicate n f x free)

pub UniqueFds-replicate : (n : ℕ) (f : FileHandle) → f.used ≡ false → UniqueFds (replicate n f)
UniqueFds-replicate zero f free = tt
UniqueFds-replicate (suc n) f free = (λ used. absurd (cc), UniqueFds-replicate n f free)
