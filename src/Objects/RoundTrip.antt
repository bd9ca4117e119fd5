-- ===== src/Objects/RoundTrip.antt =====
-- `obj_suballoc`, and `obj_free` of what it made.
use tensix.Base.{
  none, ltb, length, ◌<◌, true, ℕ, zero, suc, ◌+◌, ◌≡◌, ◌≢◌, ◌∙◌, refl, ap, ap₂, sym, arith, false,
  ◌||◌, List, [], ◌∷◌, ◌++◌, Option, some, if◌then◌else◌, ◌==◌, ◌∉◌, Bool-cases, inl, inr, ==_refl,
  ==_ne,
}
use tensix.Namespace.{name_max}
use tensix.Buffers.{Cache, unlink, count, bfree}
use tensix.Queue.{Heap, Header}
use tensix.Channels.{Iod, Chan, connected, iod_obj_free}
use tensix.Objects.{
  Vfs, obj_of, set_node, set_dirent, with_objects, dirent_alloc, dirent_free, init_obj, attach,
  alloc_with, obj_alloc, name_obj, obj_suballoc, free_buffers, obj_free_buffers, release, obj_free,
}

-- What `obj_suballoc` leaves in `w`, of the object `o` with the directory entry `d`.
pub record Made (v w : Vfs) (parent ident : ℕ) (name : List ℕ) (o d : ℕ) (os ds : List ℕ)
    : Type 0 where
  pub own_parent : (w.node o).parent ≡ parent
  pub own_dirent : (w.node o).dirent ≡ d
  pub own_ident : (w.node o).ident ≡ ident
  pub persistent : (w.node o).persistent ≡ (v.node parent).persistent
  pub entry : w.dirent d ≡ record { obj = o; ident = ident; name = name }
  pub above :
      w.node parent ≡ record (v.node parent) { dirents = (v.node parent).dirents ++ (d ∷ []) }
  pub buffers : (obj_of w o).buffers ≡ []
  pub used : w.iod.cache.objects ≡ v.iod.cache.objects ++ (o ∷ [])
  pub unused : w.obj_unused ≡ os
  pub entries : w.dirent_unused ≡ ds
  pub counted : w.in_use ≡ v.in_use + 1
  pub unreferenced : w.iod.files.refcnt o ≡ 0
  pub handles : w.iod.files.objects ≡ v.iod.files.objects
  pub links : w.iod.heap ≡ v.iod.heap
  pub asleep : w.iod.inactive ≡ v.iod.inactive
  pub channels : w.iod.chan ≡ v.iod.chan

-- Unused records at hand for an object `o` with the entry `d`, of the directory `parent`.
pub record Ready (v : Vfs) (parent o d : ℕ) (os ds : List ℕ) : Type 0 where
  pub obj_pool : v.obj_unused ≡ o ∷ os
  pub dirent_pool : v.dirent_unused ≡ d ∷ ds
  pub an_obj : o ≢ 0
  pub a_dirent : d ≢ 0
  pub a_parent : parent ≢ 0
  pub other : o ≢ parent
  pub unlisted : o ∉ v.iod.cache.objects
  pub no_entry : d ∉ (v.node parent).dirents

module _ (v : Vfs) (parent ident : ℕ) (name : List ℕ) (o d : ℕ) (os ds : List ℕ) where
  fresh : Vfs
  fresh =
      init_obj (with_objects (record v { obj_unused = os }) (v.iod.cache.objects ++ (o ∷ []))) o
        parent

  listed : Vfs
  listed =
      set_node
        (set_dirent (record fresh { dirent_unused = ds }) d (record (fresh.dirent d) { name = [] }))
        parent (record (fresh.node parent) { dirents = (fresh.node parent).dirents ++ (d ∷ []) })

  pub made : Vfs
  made =
      name_obj (record (attach listed o d) { in_use = (attach listed o d).in_use + 1 }) o parent
        ident name

  got_dirent : v.dirent_unused ≡ d ∷ ds → dirent_alloc fresh parent ≡ (d, listed)
  unfolding dirent_alloc listed fresh init_obj
  got_dirent ed = rw (ed, dirent_alloc) refl

  alloc_eq :
      v.dirent_unused ≡ d ∷ ds
      → d ≢ 0
      → parent ≢ 0
      → alloc_with v parent o os
        ≡ (o, record (attach listed o d) { in_use = (attach listed o d).in_use + 1 })
  unfolding alloc_with fresh
  alloc_eq ed nd np = rw (got_dirent ed, ==_ne parent 0 np, ==_ne d 0 nd) refl

  named : ℕ × Vfs → Option (ℕ × Vfs)
  named r =
      if r.0 == 0
      then some (0, r.1)
      else if ltb (length name) name_max
      then some (r.0, name_obj r.1 r.0 parent ident name)
      else none

  pub obj_suballoc_eq :
      Ready v parent o d os ds
      → length name < name_max
      → obj_suballoc v parent ident name ≡ some (o, made)
  unfolding obj_suballoc obj_alloc made named
  obj_suballoc_eq a fits =
      let short : ltb (length name) name_max ≡ true = ground arith in
      ap (λ (l : List ℕ). named (elim l [ [] ↦ (0, v) | o' ∷ us ↦ alloc_with v parent o' us ]))
        a.obj_pool
      ∙ ap named (alloc_eq a.dirent_pool a.a_dirent a.a_parent)
      ∙ rw (==_ne o 0 a.an_obj, short) refl

  pub Made-made : o ≢ parent → Made v made parent ident name o d os ds
  unfolding made name_obj attach listed fresh init_obj
  Made-made ne = record {
    own_parent = ground arith;
    own_dirent = ground arith;
    own_ident = ground arith;
    persistent = ground arith;
    entry = ground arith;
    above = ground arith;
    buffers = ground arith;
    used = refl;
    unused = refl;
    entries = refl;
    counted = refl;
    unreferenced = ground arith;
    handles = refl;
    links = refl;
    asleep = refl;
    channels = refl;
  }

-- The walk along the inactive channels depends on their links and on what they connect.
connected-same :
    (fuel : ℕ) (s s' : Iod) (o ch : ℕ)
    → s'.heap ≡ s.heap
    → s'.chan ≡ s.chan
    → connected fuel s' o ch ≡ connected fuel s o ch
unfolding connected
connected-same zero s s' o ch eh ec = refl
connected-same (suc fuel) s s' o ch eh ec =
    ap₂
      (λ (c : ℕ → Chan) (r : Option ℕ).
        if ch == 0 then some 0 else if ((c ch).from == o) || ((c ch).to == o) then some ch else r)
      ec
      (ap (λ (h : Heap). connected fuel s' o (h ch).next) eh
        ∙ connected-same fuel s s' o (s.heap ch).next eh ec)

pub iod_obj_free-none :
    (fuel : ℕ) (s : Iod) (current o : ℕ)
    → connected (suc fuel) s o s.inactive.first ≡ some 0
    → iod_obj_free (suc fuel) s current o ≡ some s
unfolding iod_obj_free
iod_obj_free-none fuel s current o e = rw (e, iod_obj_free) refl

no_buffers : (c : Cache) (o : ℕ) → (c.obj o).buffers ≡ [] → obj_free_buffers c o ≡ some c
unfolding obj_free_buffers free_buffers
no_buffers c o e =
    ap
      (λ (l : List ℕ). elim l [
        | [] ↦ some c
        | b ∷ bs ↦ free_buffers (count (c.obj o).buffers) (bfree c b) o
      ])
      e

-- An object without channels and without buffers.
pub obj_free_quiet :
    (fuel : ℕ) (w : Vfs) (current o : ℕ)
    → (w.node o).persistent ≡ false
    → connected (suc fuel) w.iod o w.iod.inactive.first ≡ some 0
    → (obj_of w o).buffers ≡ []
    → obj_free (suc fuel) w current o ≡ some (release w o)
unfolding obj_free
obj_free_quiet fuel w current o ep ec eb =
    rw (ep, iod_obj_free-none fuel w.iod current o ec, obj_free, no_buffers w.iod.cache o eb) refl

pub unlink-append : (x : ℕ) (xs : List ℕ) → x ∉ xs → unlink x (xs ++ (x ∷ [])) ≡ xs
unfolding unlink
unlink-append x [] out = rw ==_refl refl
unlink-append x (y ∷ ys) out = elim (Bool-cases (x == y)) [
  | inl e ↦ cc
  | inr e ↦ rw e (ap (◌∷◌ y) (unlink-append x ys (ground arith)))
]

-- What is restored.
pub record Restored (v v' : Vfs) (parent : ℕ) : Type 0 where
  pub objects : v'.iod.cache.objects ≡ v.iod.cache.objects
  pub obj_unused : v'.obj_unused ≡ v.obj_unused
  pub dirent_unused : v'.dirent_unused ≡ v.dirent_unused
  pub above : v'.node parent ≡ v.node parent
  pub in_use : v'.in_use ≡ v.in_use

release-Restored :
    (v w : Vfs) (parent ident : ℕ) (name : List ℕ) (o d : ℕ) (os ds : List ℕ)
    → Ready v parent o d os ds
    → Made v w parent ident name o d os ds
    → Restored v (release w o) parent
unfolding release dirent_free
release-Restored v w parent ident name o d os ds a m =
    rw (m.own_dirent, ==_ne d 0 a.a_dirent, m.own_parent)
      record {
        objects = ap (unlink o) m.used ∙ unlink-append o v.iod.cache.objects a.unlisted;
        obj_unused = ap (◌∷◌ o) m.unused ∙ sym a.obj_pool;
        dirent_unused = ap (◌∷◌ d) m.entries ∙ sym a.dirent_pool;
        above =
            rw (==_refl, m.above)
              (ap (λ l. record (v.node parent) { dirents = l })
                (unlink-append d (v.node parent).dirents a.no_entry));
        in_use = omega (arith, m.counted);
      }

-- `obj_suballoc` with unused records at hand, in a directory that is not persistent, for a name of
-- less than NAME_MAX characters, makes an object that `obj_free` takes back while no inactive channel
-- is connected to it: the pools, their lists, the directory's entries and the count of objects are as
-- they were.
pub obj_free-obj_suballoc :
    (fuel : ℕ) (v : Vfs) (current parent ident : ℕ) (name : List ℕ) (o d : ℕ) (os ds : List ℕ)
    → Ready v parent o d os ds
    → length name < name_max
    → (v.node parent).persistent ≡ false
    → connected (suc fuel) v.iod o v.iod.inactive.first ≡ some 0
    → (w v' : Vfs) × (obj_suballoc v parent ident name ≡ some (o, w))
      × (obj_free (suc fuel) w current o ≡ some v')
      × Restored v v' parent
obj_free-obj_suballoc fuel v current parent ident name o d os ds a fits ep ec =
    let w = made v parent ident name o d os ds in
    let m = Made-made v parent ident name o d os ds a.other in
    (
      w,
      release w o,
      obj_suballoc_eq v parent ident name o d os ds a fits,
      obj_free_quiet fuel w current o (m.persistent ∙ ep)
          (connected-same (suc fuel) v.iod w.iod o w.iod.inactive.first m.links m.channels
            ∙ ap (λ (l : Header). connected (suc fuel) v.iod o l.first) m.asleep
            ∙ ec)
          m.buffers,
      release-Restored v w parent ident name o d os ds a m,
    )
