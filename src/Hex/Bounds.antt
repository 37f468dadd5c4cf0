-- ===== src/Hex/Bounds.antt =====
-- The invariant of the image that the lines build up.
use esp32_daplink.Base.{
  ℕ, zero, suc, ◌+◌, ◌-◌, ◌^◌, ◌≤◌, ◌<◌, ◌≡◌, refl, inl, inr, none, some, List, [], ◌∷◌, ◌++◌,
  length, add32, arith, Bool-cases, ◌||◌, not, get_or, ltb, ◌==◌,
}
use esp32_daplink.Hex.{
  Segment, Image, Header, Round, next, finish, bad, bad_byte, bad_header, Outcome, parsed, failed,
  out_of_fuel, empty_image, strlen, add_segment, offset_of, parse_bytes, parse_data, parse_base,
  parse_header, parse_record, parse_line, take_line, fill, line_size, parse_lines, after_round,
}
use esp32_daplink.Hex.Bytes.{AllBytes, parse_bytes-AllBytes}

-- The address behind a segment, as the uint32_t that the code computes: 2 ^ 32 is 0.
abbrev pub end32 : Segment → ℕ
end32 s = add32 s.address (length s.bytes)

-- A segment as a line gives it, which starts at the lower bound of the image or above, and whose end
-- as a uint32_t is at most the upper bound; one that does not reach 2 ^ 32 lies between the two.
pub record IsWithin (low high : ℕ) (s : Segment) : Type 0 where
  pub word : s.address < 2 ^ 32
  pub all_bytes : AllBytes s.bytes
  pub above : low ≤ s.address
  pub below : end32 s ≤ high

abbrev pub AllWithin : ℕ → ℕ → List Segment → Type 0
AllWithin low high [] = Unit
AllWithin low high (s ∷ segments) = IsWithin low high s × AllWithin low high segments

abbrev pub IsSound : Image → Type 0
IsSound image = AllWithin image.lowest_address image.highest_address image.segments

AllWithin-wider :
    (low high low' high' : ℕ) (segments : List Segment)
    → low' ≤ low
    → high ≤ high'
    → AllWithin low high segments
    → AllWithin low' high' segments
AllWithin-wider low high low' high' [] p q h = tt
AllWithin-wider low high low' high' (s ∷ segments) p q (w, h) = (
  record { word = w.word; all_bytes = w.all_bytes; above = omega arith; below = omega arith },
  AllWithin-wider low high low' high' segments p q h,
)

AllWithin-append :
    (low high : ℕ) (xs ys : List Segment)
    → AllWithin low high xs
    → AllWithin low high ys
    → AllWithin low high (xs ++ ys)
AllWithin-append low high [] ys p q = q
AllWithin-append low high (x ∷ xs) ys (w, p) q = (w, AllWithin-append low high xs ys p q)

add_segment-IsSound :
    (image : Image) (s : Segment)
    → s.address < 2 ^ 32
    → AllBytes s.bytes
    → IsSound image
    → IsSound (add_segment image s)
unfolding add_segment
add_segment-IsSound image s word bytes h =
    AllWithin-append _ _ image.segments (s ∷ [])
      (AllWithin-wider image.lowest_address image.highest_address _ _ image.segments (omega arith)
        (omega arith) h)
      (record { word = word; all_bytes = bytes; above = omega arith; below = omega arith }, tt)

-- What is known of the image that a round leaves, however it ends.
abbrev pub RoundSound : Round → Type 0
RoundSound (next image base) = IsSound image
RoundSound (finish image) = IsSound image
RoundSound (bad message image) = IsSound image

parse_data_adds :
    (image : Image) (base : ℕ) (line : List ℕ) (h : Header) (bs : List ℕ)
    → IsSound image
    → parse_bytes line 9 h.byte_count ≡ some bs
    → IsSound (add_segment image (record { address = add32 base (offset_of h); bytes = bs }))
parse_data_adds image base line h bs sound reads =
    add_segment-IsSound image (record { address = add32 base (offset_of h); bytes = bs })
      (omega arith) (parse_bytes-AllBytes line 9 h.byte_count bs reads).0 sound

parse_data-RoundSound :
    (image : Image) (base n : ℕ) (line : List ℕ) (h : Header)
    → IsSound image
    → RoundSound (parse_data image base n line h)
unfolding parse_data
parse_data-RoundSound image base n line h sound =
    (elim (parse_bytes line 9 h.byte_count)
        as (λ o.
          parse_bytes line 9 h.byte_count ≡ o
          → RoundSound (elim o [
            | none ↦ bad (bad_byte n) image
            | some bs ↦
                next (add_segment image (record { address = add32 base (offset_of h); bytes = bs }))
                  base
          ])) [ none ↦ λ e. sound | some bs ↦ λ e. parse_data_adds image base line h bs sound e ])
      refl

parse_base-RoundSound :
    (image : Image) (n : ℕ) (line : List ℕ) (h : Header)
    → IsSound image
    → RoundSound (parse_base image n line h)
unfolding parse_base
parse_base-RoundSound image n line h sound = ground arith

parse_record-RoundSound :
    (image : Image) (base n : ℕ) (line : List ℕ) (h : Header)
    → IsSound image
    → RoundSound (parse_record image base n line h)
unfolding parse_record
parse_record-RoundSound image base n line h sound = elim (Bool-cases (h.record_type == 0)) [
  | inl data_record ↦ rw data_record (parse_data-RoundSound image base n line h sound)
  | inr other ↦ rw other (elim (Bool-cases (h.record_type == 1)) [
    | inl end_record ↦ rw end_record sound
    | inr other' ↦ rw other' (elim (Bool-cases (h.record_type == 4)) [
      | inl base_record ↦ rw base_record (parse_base-RoundSound image n line h sound)
      | inr skipped ↦ rw skipped sound
    ])
  ])
]

-- A line with any content keeps the invariant: each segment has a 32-bit address and bytes below 256,
-- starts at the lower bound or above, and its end as a uint32_t is at most the upper bound.
pub parse_line-RoundSound :
    (image : Image) (base n : ℕ) (line : List ℕ)
    → IsSound image
    → RoundSound (parse_line image base n line)
unfolding parse_line
parse_line-RoundSound image base n line sound =
    elim (Bool-cases (ltb (strlen line) 11 || not (get_or line 0 0 == b':'))) [
      | inl wrong ↦ rw wrong sound
      | inr right ↦
          rw right
            (elim (parse_header line)
              as (λ o. RoundSound (elim o [
                | none ↦ bad (bad_header n) image
                | some h ↦ parse_record image base n line h
              ])) [ none ↦ sound | some h ↦ parse_record-RoundSound image base n line h sound ])
    ]

-- What is known of the image that is returned, on success and on failure.
abbrev pub OutcomeSound : Outcome → Type 0
OutcomeSound (parsed image) = IsSound image
OutcomeSound (failed code message image) = IsSound image
OutcomeSound out_of_fuel = Unit

after_round-OutcomeSound :
    (again : Image → ℕ → Outcome)
    → ((image : Image) (base : ℕ) → IsSound image → OutcomeSound (again image base))
    → (round : Round) → RoundSound round
    → OutcomeSound (after_round again round)
after_round-OutcomeSound again keep (next image base) h = keep image base h
after_round-OutcomeSound again keep (finish image) h = h
after_round-OutcomeSound again keep (bad message image) h = h

pub parse_lines-OutcomeSound :
    (fuel : ℕ) (image : Image) (base n : ℕ) (line file : List ℕ)
    → IsSound image
    → OutcomeSound (parse_lines fuel image base n line file)
unfolding parse_lines
parse_lines-OutcomeSound fuel image base n line [] sound = sound
parse_lines-OutcomeSound zero image base n line (c ∷ file) sound = tt
parse_lines-OutcomeSound (suc fuel) image base n line (c ∷ file) sound =
    let (chars, rest) = take_line (line_size - 1) (c ∷ file) in
    let line' = fill chars line in
    after_round-OutcomeSound (λ i b. parse_lines fuel i b (n + 1) line' rest)
      (λ i b. parse_lines-OutcomeSound fuel i b (n + 1) line' rest)
      (parse_line image base (n + 1) line') (parse_line-RoundSound image base (n + 1) line' sound)

pub empty_image-IsSound : IsSound empty_image
unfolding empty_image
empty_image-IsSound = tt
