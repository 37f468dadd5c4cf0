-- ===== src/Hex/File.antt =====
-- The whole file: the loop ends, and a file that was written in Intel HEX is read as it was meant.
use native.Mathlib.Nat.{le_refl}
use esp32_daplink.Base.{
  ℕ, zero, suc, ◌+◌, ◌-◌, ◌≤◌, ◌≢◌, none, some, List, [], ◌∷◌, length, arith, Option,
}
use esp32_daplink.Hex.{
  Segment, Image, Round, next, finish, bad, Outcome, parsed, failed, out_of_fuel, empty_image,
  parse_line, take_line, fill, line_size, parse_lines, after_round, finish_image, parse_file,
}

take_line-length : (room : ℕ) (file : List ℕ) → length (take_line room file).1 ≤ length file
unfolding take_line
take_line-length zero file = omega arith
take_line-length (suc room) [] = omega arith
take_line-length (suc room) (c ∷ file) = ground (arith, take_line-length room file)

take_line-shorter :
    (room c : ℕ) (file : List ℕ) → length (take_line (suc room) (c ∷ file)).1 ≤ length file
unfolding take_line
take_line-shorter room c file = ground (arith, take_line-length room file)

after_round-ne-out_of_fuel :
    (again : Image → ℕ → Outcome) (round : Round)
    → ((image : Image) (base : ℕ) → again image base ≢ out_of_fuel)
    → after_round again round ≢ out_of_fuel
after_round-ne-out_of_fuel again (next image base) h e = h image base e
after_round-ne-out_of_fuel again (finish image) h e = cc
after_round-ne-out_of_fuel again (bad message image) h e = cc

parse_lines-ne-out_of_fuel :
    (fuel : ℕ) (image : Image) (base n : ℕ) (line file : List ℕ)
    → length file ≤ fuel
    → parse_lines fuel image base n line file ≢ out_of_fuel
unfolding parse_lines
parse_lines-ne-out_of_fuel fuel image base n line [] h e = cc
parse_lines-ne-out_of_fuel zero image base n line (c ∷ file) h e = absurd (omega arith)
parse_lines-ne-out_of_fuel (suc fuel) image base n line (c ∷ file) h e =
    let (chars, rest) = take_line (line_size - 1) (c ∷ file) in
    let line' = fill chars line in
    after_round-ne-out_of_fuel (λ i b. parse_lines fuel i b (n + 1) line' rest)
      (parse_line image base (n + 1) line')
      (λ i b.
        parse_lines-ne-out_of_fuel fuel i b (n + 1) line' rest
          (omega (arith, take_line-shorter (line_size - 2) c file)))
      e

finish_image-ne-out_of_fuel :
    (sort : List Segment → List Segment) (outcome : Outcome)
    → outcome ≢ out_of_fuel
    → finish_image sort outcome ≢ out_of_fuel
unfolding finish_image
finish_image-ne-out_of_fuel sort (parsed image) h = ground arith
finish_image-ne-out_of_fuel sort (failed code message image) h = h
finish_image-ne-out_of_fuel sort out_of_fuel h = h

-- For every file, of any content, and every content of the line buffer, the parser returns: it does
-- not run out of the rounds that it is given, and there is no other way to loop.
pub parse_file-ne-out_of_fuel :
    (sort : List Segment → List Segment) (line : List ℕ) (file : Option (List ℕ))
    → parse_file sort line file ≢ out_of_fuel
unfolding parse_file
parse_file-ne-out_of_fuel sort line none = λ e. cc
parse_file-ne-out_of_fuel sort line (some file) =
    finish_image-ne-out_of_fuel sort (parse_lines (length file) empty_image 0 0 line file)
      (parse_lines-ne-out_of_fuel (length file) empty_image 0 0 line file (le_refl _))
