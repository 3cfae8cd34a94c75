-- ===== src/Examples/Pixmaps.antt =====
-- Runs of pixmaps: a window, a scratch pixmap, and a buffer that the kernel does not name.
use xserver_xorg_video_loong.Base.{
  ℕ, refl, true, false, some, none, List, [], ◌∷◌, ◌==◌, if◌then◌else◌, arith, Yields,
}
use xserver_xorg_video_loong.Buffers.{
  DumbBo, Store, set_heap, set_live, dumb_bo_create, dumb_bo_destroy, destroy_object,
}
use xserver_xorg_video_loong.Exa.{
  backing, scratch, Priv, World, Creating, new_priv, alloc_buf, set_priv, exa_at, create_exa_pixmap,
  name_dumb, dumb_at, create_dumb_pixmap, create_pixmap2, is_dumb_pixmap, close_fd, drop_bo,
  destroy_dumb_pixmap, destroy_exa_pixmap, free_buf, destroy_pixmap, exchange_buffers,
  set_pixmap_bo,
}
use xserver_xorg_video_loong.Exa.Sizes.{HoldsPixels, alloc_buf-HoldsPixels}
use xserver_xorg_video_loong.Exa.Lifetimes.{IsFresh, GivesBack, create_pixmap2-GivesBack}
use xserver_xorg_video_loong.Exa.Failures.{LosesObject, set_pixmap_bo_dangles}
use xserver_xorg_video_loong.Exa.Objects.{Owned}
use xserver_xorg_video_loong.Exa.Histories.{
  PixmapOp, creates, destroys, exchanges, step, run, AllAllowed, run-Owned,
}

-- The largest pixmap of the server.
alloc_buf-HoldsPixels_example : HoldsPixels 32767 32767 32 (alloc_buf 32767 32767 32 (some 900))
alloc_buf-HoldsPixels_example =
    alloc_buf-HoldsPixels 32767 32767 32 (some 900) (omega arith) (omega arith)

abbrev bare : Store
bare = record { heap = λ q. none; handles = λ q. false; gbms = λ q. false }

abbrev nothing : World
nothing = record { store = bare; privs = λ q. none; blocks = λ q. false; fds = λ q. false }

abbrev object : ℕ → DumbBo
object h = record { handle = h; size = 4096; pitch = 64; ptr = none }

-- A record at `p`, an object at `b`, and the descriptor 8.
abbrev answers : (p b : ℕ) → Creating
answers p b = record {
  calloc = some p;
  malloc = some 700;
  dumb = record { calloc = some b; created = some (object b) };
  prime = some 8;
}

nothing-IsFresh : IsFresh nothing (answers 1 10)
nothing-IsFresh = record {
  priv = λ p e. refl;
  block = λ m e. refl;
  object = λ b e. refl;
  handle = λ o e. refl;
}

create_pixmap2-GivesBack_example :
    Yields
      (GivesBack backing 16 16 nothing (answers 1 10) true)
      (create_pixmap2 nothing 16 16 24 backing 32 (answers 1 10))
create_pixmap2-GivesBack_example =
    create_pixmap2-GivesBack nothing backing 16 16 24 32 700 (answers 1 10) true nothing-IsFresh
      refl

abbrev history : List PixmapOp
history =
    creates backing 16 16 24 32 (answers 1 10)
    ∷ creates scratch 16 16 24 32 (answers 2 20)
    ∷ exchanges 1 2
    ∷ destroys 1 true
    ∷ destroys 2 true
    ∷ []

nothing-Owned : Owned nothing
nothing-Owned = record { object = λ p b e. cc; apart = λ p q b e f. absurd cc }

history-AllAllowed : AllAllowed nothing history
unfolding step create_pixmap2 create_dumb_pixmap create_exa_pixmap exa_at dumb_at name_dumb
    alloc_buf is_dumb_pixmap dumb_bo_create set_heap set_live set_priv exchange_buffers
    destroy_pixmap destroy_dumb_pixmap destroy_exa_pixmap drop_bo close_fd free_buf dumb_bo_destroy
    destroy_object
history-AllAllowed = (
  (nothing-IsFresh, 700, refl),
  (
    (
      record {
        priv = λ p e. ground (arith, e);
        block = λ m e. ground (arith, e);
        object = λ b e. ground (arith, e);
        handle = λ o e. ground (arith, e);
      },
      700,
      refl,
    ),
    (((_, refl), (_, refl)), ((_, refl), ((_, refl), tt))),
  ),
)

run-Owned_example : Yields Owned (run nothing history)
run-Owned_example = run-Owned nothing history nothing-Owned history-AllAllowed

abbrev window_priv : Priv
window_priv = record (new_priv backing) { owned = true; bo = some 10 }

abbrev shown : World
shown = record nothing {
  store = record bare {
    heap = λ q. if q == 10 then some (object 10) else if q == 20 then some (object 20) else none;
  };
  privs = λ q. if q == 1 then some window_priv else none;
}

set_pixmap_bo_dangles_example : Yields (LosesObject 1) (
    set_pixmap_bo shown true
      (record { priv = some 1; ptr = none; dev_kind = 64 })
      20
      true
      none
      true)
unfolding is_dumb_pixmap
set_pixmap_bo_dangles_example =
    set_pixmap_bo_dangles shown 1 10 20 window_priv (object 10) (object 20) none 64 refl refl refl
      refl (λ e. ground arith) true
