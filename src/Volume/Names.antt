-- ===== src/Volume/Names.antt =====
-- The extensions of file names.
use esp32_daplink.Base.{
  ℕ, ◌==◌, ◌&&◌, Bool, true, false, if◌then◌else◌, Option, none, some, List, [], ◌∷◌,
}
use esp32_daplink.Hex.{toupper}

-- `strrchr(name, '.')`
unfoldable pub last_dot : List ℕ → Option (List ℕ)
last_dot [] = none
last_dot (c ∷ name) =
    let rest = last_dot name in
    elim rest [ some ext ↦ some ext | none ↦ if c == b'.' then some (c ∷ name) else none ]

-- `strcasecmp(a, b) == 0`
unfoldable pub same_name : List ℕ → List ℕ → Bool
same_name [] [] = true
same_name [] (d ∷ b) = false
same_name (c ∷ a) [] = false
same_name (c ∷ a) (d ∷ b) = (toupper c == toupper d) && same_name a b

unfoldable pub has_extension : List ℕ → List ℕ → Bool
has_extension ext name = elim (last_dot name) [ none ↦ false | some found ↦ same_name found ext ]

abbrev pub has_hex_extension : List ℕ → Bool
has_hex_extension = has_extension (b'.' ∷ b'h' ∷ b'e' ∷ b'x' ∷ [])

abbrev pub has_flm_extension : List ℕ → Bool
has_flm_extension = has_extension (b'.' ∷ b'f' ∷ b'l' ∷ b'm' ∷ [])
