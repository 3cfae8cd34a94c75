-- ===== src/Examples/Damage.antt =====
-- Runs of cursors, of the damage of a screen, and of the search for modifiers.
use xserver_xorg_video_loong.Base.{
  ℕ, ◌+◌, ◌==◌, if◌then◌else◌, ◌≡◌, refl, ◌↔◌, Bool, true, false, some, none, List, [], ◌∷◌, ◌++◌,
  pos, In,
}
use xserver_xorg_video_loong.Sprites.{CursorBits, Sprites}
use xserver_xorg_video_loong.Sprites.Counting.{
  IsCounted, SpriteEvent, set_cursor, move_cursor, resize, run, run-IsCounted,
}
use xserver_xorg_video_loong.Dirty.{
  Answers, Clip, good, einval, Damage, dispatch_dirty_region, DirtyEntry, DirtyState, dirty_update,
}
use xserver_xorg_video_loong.Dirty.Dispatch.{
  AllTaken, dispatch_dirty_region-AllTaken, AreUpdated, all_calls, dirty_update-AreUpdated,
}
use xserver_xorg_video_loong.Formats.{xrgb8888, argb8888, get_opaque_format, CrtcFormats}
use xserver_xorg_video_loong.Formats.Modifiers.{get_modifiers_set}
use xserver_xorg_video_loong.Formats.Modifiers.Members.{SomeLists, Fits, get_modifiers_set-In}

abbrev arrow : CursorBits
arrow = record { width = 16; height = 16; xhot = 1; yhot = 1 }

abbrev pointers : Sprites
pointers = record {
  virtual_x = pos 1024;
  virtual_y = pos 768;
  sprites = record { cursor = none; sprite_visible = false } ∷ [];
  sprites_visible = pos 0;
}

-- The cursor shows, leaves the screen, and is there again once the screen has grown.
abbrev moves : List SpriteEvent
moves =
    set_cursor 0 (some arrow) (pos 10) (pos 10)
    ∷ move_cursor 0 (pos 2000) (pos 10)
    ∷ resize (pos 4096) (pos 768)
    ∷ move_cursor 0 (pos 2000) (pos 11)
    ∷ []

run-IsCounted_example : IsCounted (run pointers moves)
run-IsCounted_example = run-IsCounted pointers moves refl

abbrev clip : ℕ → Clip
clip x = record { x1 = x; y1 = 0; x2 = x + 8; y2 = 8 }

-- The kernel takes one rectangle at a time only.
abbrev swamped : Answers
swamped sent fb_id (c ∷ []) = good
swamped sent fb_id _ = einval

abbrev damage : Damage
damage = record { region = clip 0 ∷ clip 20 ∷ []; sent = [] }

dispatch_dirty_region-AllTaken_example :
    let r = dispatch_dirty_region swamped damage 50 true in
    (r.0.region ≡ []) × (r.1 ≡ good → AllTaken swamped [] 50 damage.region)
dispatch_dirty_region-AllTaken_example = dispatch_dirty_region-AllTaken swamped damage 50

abbrev dirty_entry : ℕ → Bool → DirtyEntry
dirty_entry dst defer = record {
  slave_dst = dst;
  damaged = true;
  notify_on_damage = true;
  defer_dirty_update = defer;
}

abbrev dirty : DirtyState
dirty = record {
  entries = dirty_entry 1 false ∷ dirty_entry 2 true ∷ [];
  calls = [];
  at_once = false;
}

dirty_update-AreUpdated_example :
    AreUpdated false dirty.entries (dirty_update false dirty).entries
    × ((dirty_update false dirty).calls ≡ all_calls false dirty.entries ++ dirty.calls)
dirty_update-AreUpdated_example = dirty_update-AreUpdated false dirty

abbrev listing : List CrtcFormats
listing =
    record { enabled = true; formats = record { format = xrgb8888; modifiers = 0 ∷ 7 ∷ [] } ∷ [] }
    ∷ []

-- The modifier 7 needs two planes.
abbrev planes : ℕ → ℕ → ℕ
planes format m = if m == 7 then 2 else 1

get_modifiers_set-In_example :
    In 7 (get_modifiers_set planes (λ n. true) listing argb8888 true true) ↔ (
      SomeLists true (get_opaque_format argb8888) 7 listing
      × Fits planes (λ n. true) (λ n. refl) true (get_opaque_format argb8888) 7)
get_modifiers_set-In_example =
    get_modifiers_set-In planes (λ n. true) (λ n. refl) listing argb8888 true true 7
