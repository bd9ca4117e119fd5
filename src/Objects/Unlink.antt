-- ===== src/Objects/Unlink.antt =====
-- `obj_unlink`: what becomes of the object and of its directory entry.
use tensix.Base.{ℕ, suc, ◌-◌, ◌≡◌, ◌≢◌, ◌∙◌, refl, arith, true, false, List, [], ◌∷◌, some, ==_ne}
use tensix.Namespace.{e_none}
use tensix.Buffers.{unlink}
use tensix.Channels.{connected}
use tensix.Objects.{Vfs, obj_of, dirent_alloc, dirent_free, obj_free, release, obj_unlink}
use tensix.Objects.RoundTrip.{obj_free_quiet}

dirent_free_persistent :
    (v : Vfs) (o : ℕ) → ((dirent_free v o).node o).persistent ≡ (v.node o).persistent
unfolding dirent_free
dirent_free_persistent v o = ground arith

obj_free_persistent :
    (fuel : ℕ) (w : Vfs) (current o : ℕ)
    → (w.node o).persistent ≡ true
    → obj_free fuel w current o ≡ some w
unfolding obj_free
obj_free_persistent fuel w current o e = rw (e, obj_free) refl

-- An object that is marked persistent stays in use when it is unlinked: `obj_unlink` answers success,
-- and all that it does is to free the directory entry, to which the object points on.
pub obj_unlink_persistent :
    (fuel : ℕ) (v : Vfs) (current o : ℕ)
    → (v.node o).persistent ≡ true
    → obj_unlink fuel v current o true 0 ≡ some (e_none, dirent_free v o)
unfolding obj_unlink
obj_unlink_persistent fuel v current o e =
    rw
      (
        obj_free_persistent fuel (dirent_free v o) current o (dirent_free_persistent v o ∙ e),
        obj_unlink,
      )
      refl

-- The object is unused in `v'`, and the directory entry `d` is the next to be allocated, and the next
-- but one.
pub record Unlinked (v v' : Vfs) (o d : ℕ) : Type 0 where
  pub obj_unused : v'.obj_unused ≡ o ∷ v.obj_unused
  pub objects : v'.iod.cache.objects ≡ unlink o v.iod.cache.objects
  pub in_use : v'.in_use ≡ v.in_use - 1
  pub first : (p : ℕ) → (dirent_alloc v' p).0 ≡ d
  pub second : (p q : ℕ) → (dirent_alloc (dirent_alloc v' p).1 q).0 ≡ d

allocs_twice :
    (v' : Vfs) (d : ℕ) (ds : List ℕ)
    → v'.dirent_unused ≡ d ∷ d ∷ ds
    → ((p : ℕ) → (dirent_alloc v' p).0 ≡ d)
      × ((p q : ℕ) → (dirent_alloc (dirent_alloc v' p).1 q).0 ≡ d)
unfolding dirent_alloc
allocs_twice v' d ds e = (λ p. rw (e, dirent_alloc) refl, λ p q. rw (e, dirent_alloc) refl)

release-Unlinked :
    (v : Vfs) (o : ℕ)
    → (v.node o).dirent ≢ 0
    → o ≢ (v.node o).parent
    → Unlinked v (release (dirent_free v o) o) o (v.node o).dirent
unfolding release dirent_free
release-Unlinked v o nd ne =
    let v' = release (dirent_free v o) o in
    let d = (v.node o).dirent in
    let unused : v'.dirent_unused ≡ d ∷ d ∷ v.dirent_unused =
      rw (==_ne o (v.node o).parent ne, ==_ne d 0 nd) refl in
    let twice = allocs_twice v' d v.dirent_unused unused in
    record {
      obj_unused = rw (==_ne o (v.node o).parent ne, ==_ne d 0 nd) refl;
      objects = rw (==_ne o (v.node o).parent ne, ==_ne d 0 nd) refl;
      in_use = rw (==_ne o (v.node o).parent ne, ==_ne d 0 nd) refl;
      first = twice.0;
      second = twice.1;
    }

-- Where an object that is not persistent has a directory entry, no buffers and no inactive channel,
-- and its driver agrees, `obj_unlink` frees the object once but the directory entry twice: the next two
-- entries that are allocated are one and the same.
pub obj_unlink_frees_twice :
    (fuel : ℕ) (v : Vfs) (current o : ℕ)
    → (v.node o).persistent ≡ false
    → (v.node o).dirent ≢ 0
    → o ≢ (v.node o).parent
    → connected (suc fuel) v.iod o v.iod.inactive.first ≡ some 0
    → (obj_of v o).buffers ≡ []
    → (v' : Vfs) × (obj_unlink (suc fuel) v current o true 0 ≡ some (e_none, v'))
      × Unlinked v v' o (v.node o).dirent
unfolding obj_unlink dirent_free
obj_unlink_frees_twice fuel v current o ep nd ne ec eb = (
  release (dirent_free v o) o,
  rw
      (
        obj_free_quiet fuel (dirent_free v o) current o (dirent_free_persistent v o ∙ ep) ec eb,
        obj_unlink,
      )
      refl,
  release-Unlinked v o nd ne,
)
