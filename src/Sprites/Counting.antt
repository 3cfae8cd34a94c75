-- ===== src/Sprites/Counting.antt =====
-- The count of the visible cursors over any history of the pointers.
use xserver_xorg_video_loong.Base.{
  ℕ, zero, suc, ◌+◌, ◌≡◌, refl, Bool, true, false, Option, some, List, [], ◌∷◌, if◌then◌else◌, ℤ,
  pos, ◌+ℤ◌, ◌-ℤ◌, inl, inr, Option-cases, arith,
}
use xserver_xorg_video_loong.Sprites.{
  CursorBits, Sprite, Sprites, place, to_int, put, sprite_at, sprite_do_set_cursor,
  sprite_set_cursor, sprite_move_cursor,
}

abbrev one_if : Bool → ℕ
one_if b = if b then 1 else 0

-- How many sprites are visible.
abbrev pub count_visible : List Sprite → ℕ
count_visible [] = 0
count_visible (p ∷ ps) = one_if p.sprite_visible + count_visible ps

abbrev pub IsCounted : Sprites → Type 0
IsCounted s = s.sprites_visible ≡ pos (count_visible s.sprites)

put_count :
    (ps : List Sprite) (device : ℕ) (p q : Sprite)
    → sprite_at ps device ≡ some q
    → one_if q.sprite_visible + count_visible (put ps device p)
      ≡ one_if p.sprite_visible + count_visible ps
unfolding put
put_count [] device p q h = absurd cc
put_count (r ∷ ps) zero p q h = let one : r ≡ q = cc in rw one (omega arith)
put_count (r ∷ ps) (suc device) p q h = omega (arith, put_count ps device p q h)

-- A step of the count.
recount :
    (n m : ℕ) (new old : Bool)
    → one_if old + m ≡ one_if new + n
    → pos n +ℤ (to_int new -ℤ to_int old) ≡ pos m
unfolding ◌+ℤ◌ ◌-ℤ◌
recount n m true true h = ground arith
recount n m true false h = ground arith
recount n m false true h = ground arith
recount n m false false h = ground arith

do_set_cursor-IsCounted :
    (s : Sprites) (device : ℕ) (p q : Sprite) (x y : ℤ)
    → sprite_at s.sprites device ≡ some q
    → p.sprite_visible ≡ q.sprite_visible
    → IsCounted s
    → IsCounted (sprite_do_set_cursor s device p x y)
unfolding sprite_do_set_cursor
do_set_cursor-IsCounted s device p q x y h v c =
    let new = place s p x y in
    let n = count_visible s.sprites in
    let m = count_visible (put s.sprites device new) in
    let moved : one_if p.sprite_visible + m ≡ one_if new.sprite_visible + n =
      rw v (put_count s.sprites device new q h) in
    rw c (recount n m new.sprite_visible p.sprite_visible moved)

-- What happens to the pointers of a screen: a cursor is set or moved, or the screen is resized.
pub data SpriteEvent : Type 0 where
  set_cursor : (device : ℕ) (cursor : Option CursorBits) (x y : ℤ) → SpriteEvent
  move_cursor : (device : ℕ) (x y : ℤ) → SpriteEvent
  resize : (virtual_x virtual_y : ℤ) → SpriteEvent

abbrev pub run : Sprites → List SpriteEvent → Sprites
run s [] = s
run s (set_cursor device cursor x y ∷ es) = run (sprite_set_cursor s device cursor x y) es
run s (move_cursor device x y ∷ es) = run (sprite_move_cursor s device x y) es
run s (resize virtual_x virtual_y ∷ es) =
    run (record s { virtual_x = virtual_x; virtual_y = virtual_y }) es

set_cursor-IsCounted :
    (s : Sprites) (device : ℕ) (cursor : Option CursorBits) (x y : ℤ)
    → IsCounted s
    → IsCounted (sprite_set_cursor s device cursor x y)
unfolding sprite_set_cursor
set_cursor-IsCounted s device cursor x y c = elim (Option-cases (sprite_at s.sprites device)) [
  | inl e ↦ rw (e, sprite_set_cursor) c
  | inr (q, e) ↦
      rw (e, sprite_set_cursor)
        (do_set_cursor-IsCounted s device (record q { cursor = cursor }) q x y e refl c)
]

move_cursor-IsCounted :
    (s : Sprites) (device : ℕ) (x y : ℤ) → IsCounted s → IsCounted (sprite_move_cursor s device x y)
unfolding sprite_move_cursor
move_cursor-IsCounted s device x y c = elim (Option-cases (sprite_at s.sprites device)) [
  | inl e ↦ rw (e, sprite_move_cursor) c
  | inr (q, e) ↦ rw (e, sprite_move_cursor) (do_set_cursor-IsCounted s device q q x y e refl c)
]

-- If sprites_visible is the number of the visible cursors of a screen, it is so after any sequence of
-- drmmode_sprite_set_cursor and drmmode_sprite_move_cursor for any devices, with resizes in between.
pub run-IsCounted : (s : Sprites) (es : List SpriteEvent) → IsCounted s → IsCounted (run s es)
run-IsCounted s [] c = c
run-IsCounted s (set_cursor device cursor x y ∷ es) c =
    run-IsCounted (sprite_set_cursor s device cursor x y) es
      (set_cursor-IsCounted s device cursor x y c)
run-IsCounted s (move_cursor device x y ∷ es) c =
    run-IsCounted (sprite_move_cursor s device x y) es (move_cursor-IsCounted s device x y c)
run-IsCounted s (resize virtual_x virtual_y ∷ es) c =
    run-IsCounted (record s { virtual_x = virtual_x; virtual_y = virtual_y }) es c
