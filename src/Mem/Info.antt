-- ===== src/Mem/Info.antt =====
-- The info byte of a page: what `PAGEINFO_SET` packs, and what the accessors read.
use tensix.Base.{
  ℕ, ◌%◌, ◌<◌, ◌≡◌, refl, arith, Bool, true, false, not, ◌&&◌, ◌==◌, ltb, passes, passes-at,
}
use tensix.Mem.{page_info, info_cont, info_frag, info_proc}

info_table :
    passes 4 (λ f. passes 256 (λ p.
      ((info_frag (page_info f true p) == f) && (info_frag (page_info f false p) == f))
      && ((info_proc (page_info f true p) == p % 32) && (info_proc (page_info f false p) == p % 32))
      && (info_cont (page_info f true p) && not (info_cont (page_info f false p)))
      && (ltb (page_info f true p) 256 && ltb (page_info f false p) 256)))
    ≡ true
unfolding passes page_info info_cont info_frag info_proc
info_table = refl

-- What the accessors read of a packed info: the fragment size and the continuation flag as they
-- went in, of the process id only the low five bits.
pub page_info_lem :
    (f p : ℕ) (c : Bool)
    → f < 4
    → p < 256
    → (info_frag (page_info f c p) ≡ f)
      × (info_cont (page_info f c p) ≡ c)
      × (info_proc (page_info f c p) ≡ p % 32)
      × (page_info f c p < 256)
page_info_lem f p true hf hp =
    let t = passes-at 256 _ p (passes-at 4 _ f info_table hf) hp in ground arith
page_info_lem f p false hf hp =
    let t = passes-at 256 _ p (passes-at 4 _ f info_table hf) hp in ground arith
