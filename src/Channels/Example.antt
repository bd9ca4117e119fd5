-- ===== src/Channels/Example.antt =====
-- The theorems on the I/O daemon at one channel, 10, and one unused descriptor, 20.
use tensix.Base.{ℕ, ◌+◌, ◌%◌, ◌≡◌, ◌≢◌, refl, arith, true, false, not, ◌&&◌, [], ◌∷◌, if◌then◌else◌}
use tensix.Namespace.{e_none}
use tensix.Queue.{Heap, header, pop}
use tensix.Queue.Deque.{IsDeque}
use tensix.Pool.{pool_alloc}
use tensix.Files.{Files, hold, sarray_add, obj_ref}
use tensix.Buffers.{Cache, has_flag}
use tensix.Channels.{
  Iod, Chan, chn_is, chn_active, chn_poll, chn_push, iod_chn_create, iod_chn_kill, iod_chn_sleep,
}
use tensix.Channels.Lists.{IsChannels}
use tensix.Channels.Kill.{IsIod, iod_chn_kill_lem}
use tensix.Channels.Create.{Accepted, iod_chn_create_crosses}
use tensix.Channels.Polling.{kill-create-polling}

abbrev empty_cache : Cache
empty_cache = record {
  buf = λ b. record { obj = 0; blk = 0; len = 0; refcnt = 0; dirty = false; fresh = false };
  obj = λ o. record {
    stream = true;
    cached = false;
    has_io = true;
    has_dirent = false;
    size = 0;
    bytes = 0;
    blksize = 0;
    buffers = [];
    dirtybufs = 0;
  };
  unused = [];
  objects = [];
  in_use = 0;
}

abbrev files : Files
files = record { refcnt = λ o. 0; objects = λ p. 0 ∷ 0 ∷ 0 ∷ [] }

abbrev chan : ℕ → ℕ → Chan
chan flags q = record {
  from = 300;
  to = 400;
  blk_from = 0;
  blk_to = 0;
  dstbuf = 0;
  dstrest = 0;
  flags = flags;
}

-- Asleep, and awake.
abbrev asleep : Iod
asleep = record {
  heap = λ q. record { prev = 0; next = 0 };
  active = header 0 0;
  inactive = header 10 10;
  pool = record { used = header 10 10; unused = header 20 20; area = 5 };
  chan = chan 0;
  polling = 0;
  files = files;
  cache = empty_cache;
}

abbrev awake : Iod
awake = record asleep { active = header 10 10; inactive = header 0 0; chan = chan 1 }

alone :
    (h : Heap) (x : ℕ)
    → x ≢ 0
    → h ≡ (λ q. record { prev = 0; next = 0 })
    → IsDeque h (header x x) (x ∷ [])
alone h x nz e =
    rw e record { links = (refl, refl, tt); distinct = (nz, refl, tt); first = refl; last = refl }

nobody : (h : Heap) → IsDeque h (header 0 0) []
nobody h = record { links = tt; distinct = tt; first = refl; last = refl }

asleep-IsChannels : IsChannels asleep [] (10 ∷ [])
unfolding has_flag
asleep-IsChannels = record {
  lists = record {
    used = nobody asleep.heap;
    unused = alone asleep.heap 10 (omega arith) refl;
    apart = λ q i. cc;
  };
  on = λ c i. cc;
  off = λ c i. refl;
  byte = λ c. omega arith;
}

awake-IsChannels : IsChannels awake (10 ∷ []) []
unfolding has_flag
awake-IsChannels = record {
  lists = record {
    used = alone awake.heap 10 (omega arith) refl;
    unused = nobody awake.heap;
    apart = λ q i. refl;
  };
  on = λ c i. refl;
  off = λ c i. cc;
  byte = λ c. omega arith;
}

asleep-IsIod : IsIod asleep [] (10 ∷ []) (20 ∷ [])
asleep-IsIod = record {
  channels = asleep-IsChannels;
  free = alone asleep.heap 20 (omega arith) refl;
  active_free = λ q i. cc;
  inactive_free = λ q i. ground arith;
}

iod_chn_kill_lem_example : IsIod (iod_chn_kill asleep 3 10) [] [] (20 ∷ 10 ∷ [])
iod_chn_kill_lem_example = iod_chn_kill_lem asleep 3 10 [] [] [] (20 ∷ []) asleep-IsIod

abbrev once : Files
once = (hold files 1 300).1

abbrev twice : Files
twice = (hold once 1 400).1

-- A request for a pushed channel from object 300 to object 400.
pushed-Accepted : Accepted asleep 1 300 400 32 once twice
unfolding has_flag hold sarray_add obj_ref
pushed-Accepted = record {
  legal = refl;
  opens = refl;
  streams = refl;
  background = refl;
  hold_from = refl;
  hold_to = refl;
}

iod_chn_create_crosses_example :
    let (err, id, s') = iod_chn_create asleep 1 3 300 400 32 (λ s c. s) in
    (err ≡ e_none)
    × (id ≡ 20)
    × ((s'.heap 10).next ≡ 20)
    × (chn_is s' 20 chn_active ≡ true)
    × ¬ IsDeque s'.heap s'.inactive (10 ∷ [])
iod_chn_create_crosses_example =
    iod_chn_create_crosses asleep 1 3 300 400 32 (λ s c. s) once twice pushed-Accepted (omega arith)
      10 20 [] [] [] asleep-IsIod refl

found : (pool_alloc asleep.heap asleep.pool).0 ≢ 0
unfolding pool_alloc pop
found = omega arith

kill-create-polling_example :
    let made = iod_chn_create asleep 1 3 300 400 32 (λ s c. s) in
    (made.1 ≡ (pool_alloc asleep.heap asleep.pool).0)
    × ((iod_chn_kill (iod_chn_sleep made.2 made.1) 3 made.1).polling ≡ (
        if has_flag 32 chn_push && not (has_flag 32 chn_poll)
        then (asleep.polling + 1) % 256
        else asleep.polling))
kill-create-polling_example =
    kill-create-polling asleep 1 3 300 400 32 (λ s c. s) once twice pushed-Accepted (omega arith)
      found (omega arith)
