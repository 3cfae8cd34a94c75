-- ===== src/Outputs/Paths.antt =====
-- parse_path_blob and find_output of src/drmmode_display.c: the path of a monitor that hangs on
-- another one, "mst:", the id of a connector, a dash, and the rest. A blob is the list of its
-- characters before the first NUL; strtoul is an argument.
use mathlib.Core.Path.{subst}
use xserver_xorg_video_loong.Base.{
  ℕ, ◌+◌, ◌≤◌, ◌≡◌, refl, ◌↔◌, false, Option, none, some, List, [], ◌∷◌, ◌++◌, ◌==◌, ltb,
  if◌then◌else◌, ◌>>=◌, length, arith, inl, inr, if_either, Option-cases, Ensures, Ensures->>=, ap,
  ◌∙◌,
}
use xserver_xorg_video_loong.Modeset.Properties.{Name}

abbrev pub mst_prefix : Name
mst_prefix = b'm' ∷ b's' ∷ b't' ∷ b':' ∷ []

-- strncmp with a prefix, and what follows it.
unfoldable pub strip : (prefix : Name) → Name → Option Name
strip [] cs = some cs
strip (p ∷ ps) [] = none
strip (p ∷ ps) (c ∷ cs) = let rest = strip ps cs in if c == p then rest else none

-- strchr for the dash: what is before it and after it.
unfoldable pub split_dash : Name → Option (Name × Name)
split_dash [] = none
split_dash (c ∷ cs) =
    let rest = split_dash cs in
    if c == b'-' then some ([], cs) else (rest >>= λ (conn, path). some (c ∷ conn, path))

module _ (strtoul : Name → ℕ) where
  unfoldable pub read_id : Name × Name → Option (ℕ × Name)
  read_id (conn, path) = if ltb 5 (length conn + 1) then none else some (strtoul conn, path)

  -- parse_path_blob; none is the result -1.
  unfoldable pub parse_path_blob : Option Name → Option (ℕ × Name)
  unfolding strip split_dash read_id
  parse_path_blob blob =
      blob >>= λ cs. strip mst_prefix cs >>= λ rest. split_dash rest >>= λ halves. read_id halves

-- find_output: the outputs are ids with their names.
unfoldable pub find_output : List (ℕ × Name) → (id : ℕ) → Option Name
find_output [] id = none
find_output ((output_id, name) ∷ outputs) id =
    let rest = find_output outputs id in if output_id == id then some name else rest

-- No character is a dash.
abbrev pub HasNoDash : Name → Type 0
HasNoDash [] = Unit
HasNoDash (c ∷ cs) = ((c == b'-') ≡ false) × HasNoDash cs

strip-some : (ps cs rest : Name) → strip ps cs ≡ some rest → cs ≡ ps ++ rest
unfolding strip
strip-some [] cs rest h = ground (arith, h)
strip-some (p ∷ ps) [] rest h = absurd cc
strip-some (p ∷ ps) (c ∷ cs) rest h = ground (arith, strip-some ps cs rest)

split_dash-append :
    (conn path : Name) → HasNoDash conn → split_dash (conn ++ (b'-' ∷ path)) ≡ some (conn, path)
unfolding split_dash
split_dash-append [] path h = refl
split_dash-append (c ∷ cs) path (e, h) = rw (e, split_dash-append cs path h) refl

-- The two halves are the string with a dash between them, the first one.
abbrev Splits : Name → Name × Name → Type 0
Splits cs (conn, path) = (cs ≡ conn ++ (b'-' ∷ path)) × HasNoDash conn

split_dash-Splits : (cs : Name) → Ensures (Splits cs) (split_dash cs)
unfolding split_dash
split_dash-Splits [] = tt
split_dash-Splits (c ∷ cs) =
    if_either (Ensures (Splits (c ∷ cs))) (c == b'-') _ _ (λ e. (ground (arith, e), tt))
      (λ e.
        Ensures->>= (Splits cs) (Splits (c ∷ cs)) _ _ (split_dash-Splits cs)
          (λ (conn, path) (h, n). (ap (λ t. c ∷ t) h, (e, n))))

strip-Ensures : (ps cs : Name) → Ensures (λ rest. cs ≡ ps ++ rest) (strip ps cs)
unfolding strip
strip-Ensures ps cs = elim (Option-cases (strip ps cs)) [
  | inl e ↦ rw e tt
  | inr (rest, e) ↦ rw e (strip-some ps cs rest e)
]

module _ (strtoul : Name → ℕ) where
  -- The string is "mst:", the digits of the id, a dash and the path.
  abbrev pub IsPath : Name → ℕ × Name → Type 0
  IsPath cs (id, path) =
      (conn : Name) × (cs ≡ mst_prefix ++ (conn ++ (b'-' ∷ path)))
      × HasNoDash conn
      × (length conn ≤ 4)
      × (id ≡ strtoul conn)

  read_id-IsPath :
      (cs rest : Name) (halves : Name × Name)
      → cs ≡ mst_prefix ++ rest
      → Splits rest halves
      → Ensures (IsPath cs) (read_id strtoul halves)
  unfolding read_id
  read_id-IsPath cs rest (conn, path) prefix (h, n) =
      if_either (Ensures (IsPath cs)) (ltb 5 (length conn + 1)) _ _ (λ e. tt)
        (λ e. (conn, prefix ∙ ap (λ t. mst_prefix ++ t) h, n, ground arith, refl))

  parse_path_blob-Ensures : (cs : Name) → Ensures (IsPath cs) (parse_path_blob strtoul (some cs))
  unfolding parse_path_blob
  parse_path_blob-Ensures cs =
      Ensures->>= (λ rest. cs ≡ mst_prefix ++ rest) (IsPath cs) _ _ (strip-Ensures mst_prefix cs)
        (λ rest prefix.
          Ensures->>= (Splits rest) (IsPath cs) _ _ (split_dash-Splits rest)
            (λ halves h. read_id-IsPath cs rest halves prefix h))

  -- parse_path_blob reads exactly the strings of "mst:", at most four characters without a dash, a
  -- dash and a rest: the id is the number that strtoul reads of the four, the path is the rest.
  pub parse_path_blob-IsPath :
      (cs path : Name) (id : ℕ)
      → (parse_path_blob strtoul (some cs) ≡ some (id, path)) ↔ IsPath cs (id, path)
  unfolding parse_path_blob read_id
  parse_path_blob-IsPath cs path id = (
    λ h. subst (Ensures (IsPath cs)) h (parse_path_blob-Ensures cs),
    λ (conn, e, n, l, i).
        let short : ltb 5 (length conn + 1) ≡ false = ground arith in
        rw (e, i, split_dash-append conn path n, short) refl,
  )
