-- ===== src/Sprites.antt =====
-- The software cursors of src/drmmode_display.c: drmmode_sprite_set_cursor and
-- drmmode_sprite_move_cursor, which count the cursors that are visible. The server's own functions for
-- sprites, which both call last, are left out.
pub mod Counting
use xserver_xorg_video_loong.Base.{
  ℕ, zero, suc, Bool, true, false, ◌&&◌, Option, none, some, List, [], ◌∷◌, if◌then◌else◌, ℤ, pos,
  negsuc, ◌+ℤ◌, ◌-ℤ◌, ltb_ℤ,
}

-- The size of a cursor and its hot spot.
pub record CursorBits : Type 0 where
  pub width : ℕ
  pub height : ℕ
  pub xhot : ℕ
  pub yhot : ℕ

-- msSpritePrivRec of a device on a screen.
pub record Sprite : Type 0 where
  pub cursor : Option CursorBits
  pub sprite_visible : Bool

-- The screen: its size, the sprites of its devices, and the count.
pub record Sprites : Type 0 where
  pub virtual_x : ℤ
  pub virtual_y : ℤ
  pub sprites : List Sprite
  pub sprites_visible : ℤ

unfoldable pub is_visible : (virtual_x virtual_y : ℤ) → CursorBits → (x y : ℤ) → Bool
is_visible virtual_x virtual_y c x y =
    let left = x -ℤ pos c.xhot in
    let top = y -ℤ pos c.yhot in
    ltb_ℤ left virtual_x
    && ltb_ℤ top virtual_y
    && ltb_ℤ (pos 0) (left +ℤ pos c.width)
    && ltb_ℤ (pos 0) (top +ℤ pos c.height)

-- The visibility of a sprite at a position.
unfoldable pub place : Sprites → Sprite → (x y : ℤ) → Sprite
unfolding is_visible
place s p x y = elim p.cursor [
  | none ↦ record p { sprite_visible = false }
  | some c ↦ record p { sprite_visible = is_visible s.virtual_x s.virtual_y c x y }
]

abbrev pub to_int : Bool → ℤ
to_int b = if b then pos 1 else pos 0

-- The sprite of the device at an index is another one.
unfoldable pub put : List Sprite → (device : ℕ) → Sprite → List Sprite
put [] device p = []
put (q ∷ qs) zero p = p ∷ qs
put (q ∷ qs) (suc device) p = q ∷ put qs device p

abbrev pub sprite_at : List Sprite → (device : ℕ) → Option Sprite
sprite_at [] device = none
sprite_at (q ∷ qs) zero = some q
sprite_at (q ∷ qs) (suc device) = sprite_at qs device

-- drmmode_sprite_do_set_cursor, where the cursor has been stored and `was` is the sprite before.
unfoldable pub sprite_do_set_cursor : Sprites → (device : ℕ) → Sprite → (x y : ℤ) → Sprites
unfolding place put
sprite_do_set_cursor s device p x y =
    let new = place s p x y in
    record s {
      sprites = put s.sprites device new;
      sprites_visible = s.sprites_visible +ℤ (to_int new.sprite_visible -ℤ to_int p.sprite_visible);
    }

-- A device without a private record has no sprite on this screen.
unfoldable pub sprite_set_cursor : Sprites → (device : ℕ) → Option CursorBits → (x y : ℤ) → Sprites
unfolding sprite_do_set_cursor
sprite_set_cursor s device cursor x y = elim (sprite_at s.sprites device) [
  | none ↦ s
  | some p ↦ sprite_do_set_cursor s device (record p { cursor = cursor }) x y
]

unfoldable pub sprite_move_cursor : Sprites → (device : ℕ) → (x y : ℤ) → Sprites
unfolding sprite_do_set_cursor
sprite_move_cursor s device x y = elim (sprite_at s.sprites device) [
  | none ↦ s
  | some p ↦ sprite_do_set_cursor s device p x y
]
