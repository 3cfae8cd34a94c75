-- ===== src/Examples/Connectors.antt =====
-- A run on the properties of a monitor.
use xserver_xorg_video_loong.Base.{
  ℕ, ◌+◌, ◌-◌, ◌*◌, ◌↔◌, ◌≡◌, refl, true, false, Option, none, some, List, [], ◌∷◌, Yields,
}
use xserver_xorg_video_loong.Modeset.Properties.{Name, same, enum_named}
use xserver_xorg_video_loong.Outputs.{
  ModeProp, create_resources, PropertyValue, output_set_property, atom, edid_name, property_ignore,
  keep_props, name_prop, set_prop, set_enum, set_named, is_atom,
}
use xserver_xorg_video_loong.Outputs.Paths.{IsPath, parse_path_blob, parse_path_blob-IsPath}
use xserver_xorg_video_loong.Outputs.Requests.{Answers, create_resources-Answers}

abbrev full : Name
full = b'F' ∷ []

abbrev edid : ModeProp
edid = record {
  prop_id = 1;
  name = edid_name;
  blob = true;
  range = false;
  enumerated = false;
  enums = [];
}

abbrev scaling : ModeProp
scaling = record {
  prop_id = 2;
  name = b's' ∷ [];
  blob = false;
  range = false;
  enumerated = true;
  enums = (b'N' ∷ [], 0) ∷ (full, 3) ∷ [];
}

-- The first letter of a name is its atom.
abbrev letter : Name → ℕ
letter [] = 0
letter (c ∷ cs) = c

abbrev letter_name : ℕ → Option Name
letter_name c = some (c ∷ [])

abbrev full_value : PropertyValue
full_value = record { kind = atom; format = 32; size = 1; word = b'F' }

abbrev monitor : List (Option ModeProp × ℕ)
monitor = (some edid, 0) ∷ (none, 0) ∷ (some scaling, 0) ∷ []

scaling_set :
    output_set_property letter_name
      (create_resources letter (λ p. true) true monitor)
      b's'
      full_value
    ≡ some (some (2, 3), true)
unfolding output_set_property create_resources keep_props property_ignore same name_prop set_prop
    set_enum set_named is_atom enum_named
scaling_set = refl

create_resources-Answers_example :
    let ps = create_resources letter (λ p. true) true monitor in
    Yields
      (Answers letter_name b's' full_value ps)
      (output_set_property letter_name ps b's' full_value)
unfolding property_ignore
create_resources-Answers_example =
    create_resources-Answers letter (λ p. true) (λ p. refl) letter_name b's' full_value true monitor
      (λ h. absurd cc, (tt, (λ h. refl, tt)))

-- The number of decimal digits, after those that make `n`.
abbrev decimal : (n : ℕ) → Name → ℕ
decimal n [] = n
decimal n (c ∷ cs) = decimal (n * 10 + (c - b'0')) cs

-- "mst:48-3".
abbrev third_of_48 : Name
third_of_48 = b'm' ∷ b's' ∷ b't' ∷ b':' ∷ b'4' ∷ b'8' ∷ b'-' ∷ b'3' ∷ []

parse_path_blob-IsPath_example :
    (parse_path_blob (decimal 0) (some third_of_48) ≡ some (48, b'3' ∷ []))
    ↔ IsPath (decimal 0) third_of_48 (48, b'3' ∷ [])
parse_path_blob-IsPath_example = parse_path_blob-IsPath (decimal 0) third_of_48 (b'3' ∷ []) 48
