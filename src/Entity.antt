-- ===== src/Entity.antt =====
-- loongson_entity.c, the record that the screens of one device share, with its two clients: the
-- descriptor of the device (ms_get_drm_master_fd and FreeRec of driver.c) and the wakeup on it
-- (ms_vblank_screen_init and ms_vblank_close_screen of vblank.c). An `int` is a ℤ.
pub mod Sharing
use Prim.Native.Nat.{bit_or}
use xserver_xorg_video_loong.Vblank.Events.{Events, abort_scrn}
use xserver_xorg_video_loong.Base.{
  [], ℕ, ◌^◌, Bool, true, false, not, ◌&&◌, Option, none, some, ◌==◌, if◌then◌else◌, ℤ, pos, negsuc,
  ltb_ℤ, leb_ℤ, ◌+ℤ◌, ◌-ℤ◌,
}

-- struct loongsonEntRec.
pub record EntRec : Type 0 where
  pub fd : ℤ
  pub fd_ref : ℤ
  pub fd_wakeup_registered : ℕ
  pub fd_wakeup_ref : ℤ
  pub assigned_crtcs : ℕ

-- What xnfcalloc gives.
abbrev pub zeroed : EntRec
zeroed = record {
  fd = pos 0;
  fd_ref = pos 0;
  fd_wakeup_registered = 0;
  fd_wakeup_ref = pos 0;
  assigned_crtcs = 0;
}

-- ls_entity_index (none for -1) and the private pointers of the entities.
pub record Entities : Type 0 where
  pub index : Option ℕ
  pub ptr : ℕ → Option EntRec

-- LS_SetupEntity; `fresh` is what xf86AllocateEntityPrivateIndex returns if it is called.
unfoldable pub setup_entity : Entities → (fresh entity_num : ℕ) → Entities
setup_entity s fresh entity_num =
    let index : ℕ = elim s.index [ none ↦ fresh | some i ↦ i ] in
    let ent : EntRec = elim (s.ptr entity_num) [ none ↦ zeroed | some e ↦ e ] in
    record { index = some index; ptr = λ k. if k == entity_num then some ent else s.ptr k }

abbrev is_zero : ℤ → Bool
is_zero (pos n) = n == 0
is_zero (negsuc n) = false

unfoldable pub increase_fd_reference : EntRec → EntRec × ℤ
unfolding ◌+ℤ◌
increase_fd_reference e = let n = e.fd_ref +ℤ pos 1 in (record e { fd_ref = n }, n)

unfoldable pub decrease_fd_reference : EntRec → EntRec × ℤ
unfolding ◌-ℤ◌
decrease_fd_reference e =
    let n = e.fd_ref -ℤ pos 1 in
    (record e { fd_ref = n; fd = if is_zero n then pos 0 else e.fd }, n)

unfoldable pub get_cached_fd : EntRec → ℤ
get_cached_fd e = e.fd

unfoldable pub init_fd : EntRec → ℤ → EntRec
init_fd e fd = record e { fd = fd; fd_ref = pos 1 }

-- 1 << num is meant for num below 31.
unfoldable pub mark_crtc_in_use : EntRec → ℕ → EntRec
mark_crtc_in_use e num = record e { assigned_crtcs = bit_or e.assigned_crtcs (2 ^ num) }

unfoldable pub get_assigned_crtc : EntRec → ℕ
get_assigned_crtc e = e.assigned_crtcs

unfoldable pub clear_assigned_crtc : EntRec → EntRec
clear_assigned_crtc e = record e { assigned_crtcs = 0 }

unfoldable pub get_fd_wakeup : EntRec → ℕ
get_fd_wakeup e = e.fd_wakeup_registered

unfoldable pub init_fd_wakeup : EntRec → ℕ → EntRec
init_fd_wakeup e generation = record e { fd_wakeup_registered = generation; fd_wakeup_ref = pos 1 }

unfoldable pub inc_ref_wakeup : EntRec → EntRec × ℤ
unfolding ◌+ℤ◌
inc_ref_wakeup e = let n = e.fd_wakeup_ref +ℤ pos 1 in (record e { fd_wakeup_ref = n }, n)

unfoldable pub dec_ref_wakeup : EntRec → EntRec × ℤ
unfolding ◌-ℤ◌
dec_ref_wakeup e = let n = e.fd_wakeup_ref -ℤ pos 1 in (record e { fd_wakeup_ref = n }, n)

-- ms_get_drm_master_fd. `passed` is what LS_GetPassedFD returns, and `opened` is ms->fd after the
-- branch for the kind of bus, which calls libraries. The result has ms->fd and what is returned.
unfoldable pub get_drm_master_fd : EntRec → (passed opened : ℤ) → EntRec × ℤ × Bool
unfolding get_cached_fd increase_fd_reference init_fd
get_drm_master_fd e passed opened =
    if not (is_zero (get_cached_fd e))
    then ((increase_fd_reference e).0, get_cached_fd e, true)
    else if leb_ℤ (pos 0) passed
    then (e, passed, true)
    else if ltb_ℤ opened (pos 0)
    then (e, opened, false)
    else (init_fd e opened, opened, true)

-- The part of FreeRec that gives the descriptor back; the flag of the result says that it is
-- closed. `server_fd` says that the server manages the descriptor of a platform device.
unfoldable pub free_rec : EntRec → (fd : ℤ) → (server_fd : Bool) → EntRec × Bool
unfolding decrease_fd_reference
free_rec e fd server_fd =
    let (e', n) = decrease_fd_reference e in
    if ltb_ℤ (pos 0) fd then (e', is_zero n && not server_fd) else (e, false)

-- The entity, and whether the server watches the descriptor.
pub record Watch : Type 0 where
  pub ent : EntRec
  pub notified : Bool

-- The registration in ms_vblank_screen_init.
unfoldable pub start_watch : Watch → (generation : ℕ) → Watch
unfolding get_fd_wakeup init_fd_wakeup inc_ref_wakeup
start_watch w generation =
    if generation == get_fd_wakeup w.ent
    then record w { ent = (inc_ref_wakeup w.ent).0 }
    else record { ent = init_fd_wakeup w.ent generation; notified = true }

-- The end of ms_vblank_close_screen: the reference is dropped only in the generation that
-- registered.
unfoldable pub stop_watch : Watch → (generation : ℕ) → Watch
unfolding get_fd_wakeup dec_ref_wakeup
stop_watch w generation =
    let (e, n) = dec_ref_wakeup w.ent in
    if generation == get_fd_wakeup w.ent
    then record { ent = e; notified = if is_zero n then false else w.notified }
    else w

-- ms_vblank_screen_init on the shared queue and the entity: the list becomes empty, and its entries are
-- neither run nor freed.
module _ {D : Type 0} where
  unfoldable pub vblank_screen_init : Events D × Watch → (generation : ℕ) → Events D × Watch
  unfolding start_watch
  vblank_screen_init (s, w) generation =
      (record s { queue = record (s.queue) { entries = [] } }, start_watch w generation)

  -- ms_vblank_close_screen.
  unfoldable pub vblank_close_screen : Events D × Watch → (scrn generation : ℕ) → Events D × Watch
  unfolding abort_scrn stop_watch
  vblank_close_screen (s, w) scrn generation = (abort_scrn s scrn, stop_watch w generation)
