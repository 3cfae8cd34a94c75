-- ===== src/Modeset/Properties/Copies.antt =====
-- drmmode_prop_info_copy and drmmode_prop_info_free of drmmode_display.c, with the arrays of enum
-- values that they allocate and free. malloc answers as an argument.
pub mod Balance
use xserver_xorg_video_loong.Base.{
  ℕ, Bool, true, false, Option, none, some, List, [], ◌∷◌, map, ◌==◌, if◌then◌else◌, ◌>>=◌,
}
use xserver_xorg_video_loong.Modeset.Properties.{EnumValue, PropInfo}

-- The enum_values of a table: no array, the array of the table it was copied from, or one of its own.
pub data Pointer : Type 0 where
  null shared : Pointer
  own : ℕ → Pointer

-- A property of a copy.
pub record Slot : Type 0 where
  pub info : PropInfo
  pub array : Pointer

-- Which arrays are allocated.
abbrev pub Memory : Type 0
Memory = ℕ → Bool

unfoldable pub set_memory : Memory → ℕ → Bool → Memory
set_memory m p b q = if q == p then b else m q

unfoldable pub has_enums : PropInfo → Bool
has_enums info = elim info.enum_values [ [] ↦ false | _ ↦ true ]

-- The array of a property as memcpy leaves it.
abbrev pub shared_array : PropInfo → Pointer
shared_array info = if has_enums info then shared else null

-- The loop that resets the values of a copy.
unfoldable pub reset_values : List EnumValue → List EnumValue
reset_values [] = []
reset_values (e ∷ es) = record e { valid = false } ∷ reset_values es

-- A property of the copy with its id and its values.
abbrev pub copy_info : (copy_prop_id : Bool) → PropInfo → PropInfo
copy_info copy_prop_id info = record info {
  prop_id = if copy_prop_id then info.prop_id else 0;
  enum_values = reset_values info.enum_values;
}

-- A property that the loop does not reach.
abbrev pub memcpy_slot : PropInfo → Slot
memcpy_slot info = record { info = info; array = shared_array info }

-- What the function leaves.
pub record Copied : Type 0 where
  pub slots : List Slot
  pub memory : Memory
  pub ok : Bool

-- The next answer of malloc, where there is one.
abbrev pub malloc : List (Option ℕ) → Option ℕ
malloc [] = none
malloc (a ∷ mallocs) = a

abbrev pub later : List (Option ℕ) → List (Option ℕ)
later [] = []
later (a ∷ mallocs) = mallocs

-- A property without enum values is copied; nothing is allocated.
unfoldable pub keep_plain : Bool → PropInfo → Copied → Copied
keep_plain copy_prop_id info rest = record rest {
  slots = record { info = copy_info copy_prop_id info; array = null } ∷ rest.slots;
}

-- A property with its own array; if the loop fails later, the array is freed on the way out.
unfoldable pub keep_own : Bool → PropInfo → ℕ → Copied → Copied
unfolding set_memory
keep_own copy_prop_id info p rest = record rest {
  slots = record { info = copy_info copy_prop_id info; array = own p } ∷ rest.slots;
  memory = if rest.ok then rest.memory else set_memory rest.memory p false;
}

-- The failure at a property; the later ones are as memcpy left them.
unfoldable pub stop_at : Bool → PropInfo → List PropInfo → Memory → Copied
unfolding has_enums
stop_at copy_prop_id info infos m = record {
  slots =
      record {
        info = record info { prop_id = if copy_prop_id then info.prop_id else 0 };
        array = null;
      }
      ∷ map memcpy_slot infos;
  memory = m;
  ok = false;
}

unfoldable pub prop_info_copy :
    (copy_prop_id : Bool) → List PropInfo → (mallocs : List (Option ℕ)) → Memory → Copied
unfolding has_enums reset_values keep_plain keep_own stop_at
prop_info_copy copy_prop_id [] mallocs m = record { slots = []; memory = m; ok = true }
prop_info_copy copy_prop_id (info ∷ infos) mallocs m =
    let plain = prop_info_copy copy_prop_id infos mallocs m in
    let owned : ℕ → Copied =
      λ p. prop_info_copy copy_prop_id infos (later mallocs) (set_memory m p true) in
    if has_enums info
    then elim (malloc mallocs) [
      | none ↦ stop_at copy_prop_id info infos m
      | some p ↦ keep_own copy_prop_id info p (owned p)
    ]
    else keep_plain copy_prop_id info plain

-- free: a fault where the pointer is to no allocated array.
unfoldable pub free_array : Pointer → Memory → Option Memory
unfolding set_memory
free_array null m = some m
free_array shared m = none
free_array (own p) m = if m p then some (set_memory m p false) else none

unfoldable pub free_arrays : List Pointer → Memory → Option Memory
unfolding free_array
free_arrays [] m = some m
free_arrays (a ∷ arrays) m = free_array a m >>= free_arrays arrays

abbrev pub arrays_of : List Slot → List Pointer
arrays_of [] = []
arrays_of (s ∷ slots) = s.array ∷ arrays_of slots

unfoldable pub prop_info_free : List Slot → Memory → Option Memory
unfolding free_arrays
prop_info_free slots m = free_arrays (arrays_of slots) m
