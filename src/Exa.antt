-- ===== src/Exa.antt =====
-- The pixmaps of src/loongson_pixmap.c, src/loongson_buffer.c and src/fake_exa.c: private records with
-- a dumb buffer object or malloc'ed memory. The objects are those of Buffers; none is the use of a
-- record or an object that is not there, or the free of a pointer that malloc did not give. What
-- exaGetPixmapDriverPrivate, calloc, malloc and the kernel answer is an argument.
pub mod Sizes
pub mod Lifetimes
pub mod Failures
pub mod Owners
pub mod Objects
pub mod Steps
pub mod Histories
use xserver_xorg_video_loong.Base.{
  ℕ, ◌+◌, ◌*◌, ◌/◌, ◌%◌, ◌^◌, Bool, true, false, not, ◌&&◌, ◌||◌, Option, none, some, ◌==◌, ltb,
  if◌then◌else◌, ◌>>=◌, is_some,
}
use xserver_xorg_video_loong.Buffers.{
  DumbBo, Store, set_live, CreateDumb, dumb_bo_create, dumb_bo_map, dumb_bo_destroy,
  dumb_get_bo_from_fd,
}

-- The usage hints that LS_IsDumbPixmap tells apart.
pub data Usage : Type 0 where
  backing shared glyph_picture scratch scanout other : Usage

unfoldable pub is_dumb_pixmap : Usage → Bool
is_dumb_pixmap backing = true
is_dumb_pixmap shared = true
is_dumb_pixmap glyph_picture = false
is_dumb_pixmap scratch = false
is_dumb_pixmap scanout = true
is_dumb_pixmap other = false

-- struct LoongsonBuf.
pub record Buf : Type 0 where
  pub dat : Option ℕ
  pub size : ℕ
  pub pitch : ℕ
  pub width : ℕ
  pub height : ℕ

abbrev pub no_buf : Buf
no_buf = record { dat = none; size = 0; pitch = 0; width = 0; height = 0 }

-- LS_AllocBuf, with the 32-bit FbBits of the server; `dat` is what malloc gives. The product of width
-- and bpp is an int, which holds it for the sizes of the server.
unfoldable pub alloc_buf : (width height bpp : ℕ) → (dat : Option ℕ) → Buf
alloc_buf width height bpp dat =
    let words = (width * bpp + 31) / 2 ^ 5 * 4 % 2 ^ 32 in
    let pitch = (words + 15) % 2 ^ 32 / 16 * 16 in
    record {
      dat = dat;
      size = pitch * height % 2 ^ 32;
      pitch = pitch;
      width = width;
      height = height;
    }

-- struct ms_exa_pixmap_priv; the descriptor 0 is none.
pub record Priv : Type 0 where
  pub bo : Option ℕ
  pub fd : ℕ
  pub pitch : ℕ
  pub owned : Bool
  pub buf : Buf
  pub usage_hint : Usage

-- The dumb objects, the private records, the blocks of malloc and the open descriptors.
pub record World : Type 0 where
  pub store : Store
  pub privs : ℕ → Option Priv
  pub blocks : ℕ → Bool
  pub fds : ℕ → Bool

unfoldable pub set_priv : (ℕ → Option Priv) → ℕ → Option Priv → ℕ → Option Priv
set_priv h p v q = if q == p then v else h q

-- What a creation asks for: a private record, memory, a dumb object and a descriptor of it.
pub record Creating : Type 0 where
  pub calloc : Option ℕ
  pub malloc : Option ℕ
  pub dumb : CreateDumb
  pub prime : Option ℕ

abbrev pub new_priv : Usage → Priv
new_priv usage = record {
  bo = none;
  fd = 0;
  pitch = 0;
  owned = false;
  buf = no_buf;
  usage_hint = usage;
}

-- What a creation that gave a record writes to *new_fb_pitch; a dumb pixmap without an object writes
-- nothing.
unfoldable pub new_fb_pitch : Priv → Option ℕ
unfolding is_dumb_pixmap
new_fb_pitch v =
    if is_dumb_pixmap v.usage_hint
    then if is_some v.bo then some v.pitch else none
    else some v.buf.pitch

-- LS_CreateExaPixmap with a record at `p`; sizes are not negative, as those of the server; without memory it frees a pointer into the record.
unfoldable pub exa_at :
    World
    → (width height depth : ℕ) → Usage
    → (bpp : ℕ) → Creating
    → (p : ℕ) → Option (World × Option ℕ)
unfolding alloc_buf set_priv set_live
exa_at w width height depth usage bpp c p =
    let filled = λ (buf : Buf). set_priv w.privs p (some (record (new_priv usage) { buf = buf })) in
    if ltb 0 width && ltb 0 height && ltb 0 depth && ltb 0 bpp
    then elim c.malloc [
      | none ↦ none
      | some m ↦ some (
        record w {
          privs = filled (alloc_buf width height bpp (some m));
          blocks = set_live w.blocks m true;
        },
        some p,
      )
    ]
    else some (record w { privs = filled no_buf }, some p)

unfoldable pub create_exa_pixmap :
    World → (width height depth : ℕ) → Usage → (bpp : ℕ) → Creating → Option (World × Option ℕ)
unfolding exa_at
create_exa_pixmap w width height depth usage bpp c = elim c.calloc [
  | none ↦ some (w, none)
  | some p ↦ exa_at w width height depth usage bpp c p
]

-- LS_FreeBuf and the end of LS_DestroyExaPixmap.
unfoldable pub free_buf : World → Buf → World
unfolding set_live
free_buf w buf = elim buf.dat [
  | none ↦ w
  | some m ↦ record w { blocks = set_live w.blocks m false }
]

unfoldable pub destroy_exa_pixmap : World → (p : ℕ) → Priv → World
unfolding free_buf set_priv
destroy_exa_pixmap w p v = record (free_buf w v.buf) { privs = set_priv w.privs p none }

-- The descriptor that drmPrimeHandleToFD opens is not kept; without one the record and the object
-- stay.
unfoldable pub name_dumb :
    World → Usage → (prime : Option ℕ) → (p b : ℕ) → Option (World × Option ℕ)
unfolding set_priv set_live
name_dumb w usage prime p b =
    let made = record (new_priv usage) { bo = some b; owned = true } in
    elim prime [
      | none ↦ some (record w { privs = set_priv w.privs p (some made) }, none)
      | some fd ↦ w.store.heap b >>= λ bo. some (
        record w {
          privs = set_priv w.privs p (some (record made { pitch = bo.pitch }));
          fds = set_live w.fds fd true;
        },
        some p,
      )
    ]

unfoldable pub dumb_at :
    World → (width height : ℕ) → Usage → Creating → (p : ℕ) → Option (World × Option ℕ)
unfolding name_dumb dumb_bo_create set_priv
dumb_at w width height usage c p =
    if width == 0 && height == 0
    then some (record w { privs = set_priv w.privs p (some (new_priv usage)) }, some p)
    else (let (store, created) = dumb_bo_create w.store c.dumb in
        elim created [
          | none ↦ some (record w { store = store }, none)
          | some b ↦ name_dumb (record w { store = store }) usage c.prime p b
        ])

unfoldable pub create_dumb_pixmap :
    World → (width height : ℕ) → Usage → Creating → Option (World × Option ℕ)
unfolding dumb_at
create_dumb_pixmap w width height usage c = elim c.calloc [
  | none ↦ some (w, none)
  | some p ↦ dumb_at w width height usage c p
]

unfoldable pub close_fd : World → (fd : ℕ) → World
unfolding set_live
close_fd w fd = if ltb 0 fd then record w { fds = set_live w.fds fd false } else w

-- The object of a record that owns it goes; the result of the ioctl is not looked at.
unfoldable pub drop_bo : World → (owned : Bool) (bo : Option ℕ) (destroyed : Bool) → Option World
unfolding dumb_bo_destroy
drop_bo w false bo destroyed = some w
drop_bo w true none destroyed = some w
drop_bo w true (some b) destroyed =
    dumb_bo_destroy w.store b destroyed >>= λ (store, ok). some (record w { store = store })

unfoldable pub destroy_dumb_pixmap : World → (p : ℕ) → Priv → (destroyed : Bool) → Option World
unfolding close_fd drop_bo set_priv
destroy_dumb_pixmap w p v destroyed = drop_bo (close_fd w v.fd) v.owned v.bo destroyed >>= λ w.
    some (record w { privs = set_priv w.privs p none })

-- ms_exa_create_pixmap2 and ms_exa_destroy_pixmap.
unfoldable pub create_pixmap2 :
    World → (width height depth : ℕ) → Usage → (bpp : ℕ) → Creating → Option (World × Option ℕ)
unfolding create_dumb_pixmap create_exa_pixmap
create_pixmap2 w width height depth usage bpp c =
    if is_dumb_pixmap usage
    then create_dumb_pixmap w width height usage c
    else create_exa_pixmap w width height depth usage bpp c

unfoldable pub destroy_pixmap : World → (p : ℕ) → (destroyed : Bool) → Option World
unfolding destroy_dumb_pixmap destroy_exa_pixmap
destroy_pixmap w p destroyed = w.privs p >>= λ v.
    if is_dumb_pixmap v.usage_hint
    then destroy_dumb_pixmap w p v destroyed
    else some (destroy_exa_pixmap w p v)

-- A pixmap: its private record, devPrivate.ptr and devKind.
pub record Pixmap : Type 0 where
  pub priv : Option ℕ
  pub ptr : Option ℕ
  pub dev_kind : ℕ

-- ms_exa_prepare_access; the private record is read before it is tested.
unfoldable pub map_pixmap :
    World → Pixmap → Priv → (mapped : Option ℕ) → Option (World × Pixmap × Bool)
unfolding dumb_bo_map
map_pixmap w pix v mapped =
    if is_some pix.ptr
    then some (w, pix, true)
    else (v.bo >>= λ b. dumb_bo_map w.store b mapped >>= λ (store, ok). store.heap b >>= λ o.
        some (record w { store = store }, record pix { ptr = o.ptr }, is_some o.ptr))

unfoldable pub prepare_access :
    World → Pixmap → (mapped : Option ℕ) → Option (World × Pixmap × Bool)
unfolding map_pixmap
prepare_access w pix mapped = pix.priv >>= λ p. w.privs p >>= λ v.
    if is_dumb_pixmap v.usage_hint
    then map_pixmap w pix v mapped
    else some (w, record pix { ptr = v.buf.dat }, is_some v.buf.dat)

unfoldable pub finish_access : World → Pixmap → Option Pixmap
finish_access w pix = elim pix.priv [
  | none ↦ some pix
  | some p ↦ w.privs p >>= λ v. some (if is_some v.bo then record pix { ptr = none } else pix)
]

unfoldable pub pixmap_is_offscreen : World → Pixmap → Option Bool
unfolding is_dumb_pixmap
pixmap_is_offscreen w pix = elim pix.priv [
  | none ↦ some false
  | some p ↦ w.privs p >>= λ v.
      some (if is_dumb_pixmap v.usage_hint then is_some v.bo else is_some v.buf.dat)
]

-- ms_exa_set_pixmap_bo on the record at `p`, after the tests for exaDrvPtr and the record: the old
-- descriptor and object go before the new descriptor is asked for.
unfoldable pub set_priv_bo :
    World
    → Pixmap
    → (p : ℕ) → Priv
    → (b : ℕ) → (owned : Bool) → (prime : Option ℕ) → Option (World × Pixmap × Bool)
unfolding set_priv set_live
set_priv_bo w pix p v b owned prime = w.store.heap b >>= λ bo. elim prime [
  | none ↦ some (w, pix, false)
  | some fd ↦ some (
    record w {
      privs =
          set_priv w.privs p
            (some (record v { bo = some b; fd = fd; pitch = bo.pitch; owned = owned }));
      fds = set_live w.fds fd true;
    },
    record pix { ptr = none; dev_kind = bo.pitch },
    true,
  )
]

unfoldable pub set_pixmap_bo :
    World
    → (has_exa : Bool) → Pixmap
    → (b : ℕ) → (owned : Bool) → (prime : Option ℕ) (destroyed : Bool)
    → Option (World × Pixmap × Bool)
unfolding close_fd drop_bo set_priv_bo
set_pixmap_bo w has_exa pix b owned prime destroyed = elim pix.priv [
  | none ↦ some (w, pix, false)
  | some p ↦
      if has_exa
      then (w.privs p >>= λ v. drop_bo (close_fd w v.fd) v.owned v.bo destroyed >>= λ w.
          set_priv_bo w pix p v b owned prime)
      else some (w, pix, false)
]

-- ms_exa_bo_from_pixmap and ms_exa_shareable_fd_from_pixmap, where none stands for -1 there.
unfoldable pub bo_from_pixmap : World → (has_exa : Bool) → Pixmap → Option (Option ℕ)
bo_from_pixmap w has_exa pix = elim pix.priv [
  | none ↦ some none
  | some p ↦ if has_exa then (w.privs p >>= λ v. some v.bo) else some none
]

unfoldable pub shareable_fd_from_pixmap : World → (has_exa : Bool) → Pixmap → Option (Option ℕ)
shareable_fd_from_pixmap w has_exa pix = elim pix.priv [
  | none ↦ some none
  | some p ↦
      if has_exa
      then (w.privs p >>= λ v. some (if v.fd == 0 then none else some v.fd))
      else some none
]

-- ms_exa_exchange_buffers: the records at two addresses are swapped.
unfoldable pub exchange_buffers : World → (front back : ℕ) → Option World
unfolding set_priv
exchange_buffers w front back = w.privs front >>= λ f. w.privs back >>= λ b.
    some (record w { privs = set_priv (set_priv w.privs front (some b)) back (some f) })

-- ms_exa_back_pixmap_from_fd; ModifyPixmapHeader is the server's. The stride and the height have 16 bits
-- there, and their product is an int. Two imports of one file get objects of their own, with the one
-- handle that the kernel gives the file.
unfoldable pub end_back :
    (b : ℕ) (destroyed : Bool) → World × Pixmap × Bool → Option (World × Pixmap × Bool)
unfolding dumb_bo_destroy
end_back b destroyed (w, pix, true) = some (w, pix, true)
end_back b destroyed (w, pix, false) = dumb_bo_destroy w.store b destroyed >>= λ (store, ok).
    some (record w { store = store }, pix, false)

unfoldable pub back_pixmap_from_fd :
    World
    → (has_exa : Bool) → Pixmap
    → (stride height : ℕ) → (calloc imported prime : Option ℕ) (old_destroyed new_destroyed : Bool)
    → Option (World × Pixmap × Bool)
unfolding dumb_get_bo_from_fd set_pixmap_bo end_back
back_pixmap_from_fd w has_exa pix stride height calloc imported prime old_destroyed new_destroyed =
    let (store, got) = dumb_get_bo_from_fd w.store stride (stride * height) calloc imported in
    elim got [
      | none ↦ some (w, pix, false)
      | some b ↦
          set_pixmap_bo (record w { store = store }) has_exa pix b true prime old_destroyed >>= λ r.
          end_back b new_destroyed r
    ]
