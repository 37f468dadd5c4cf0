-- ===== src/Wifi/Relay/Frames.antt =====
-- A stream of messages in frames, and where a part of it ends.
use mathlib.Core.List.{append_assoc}
use esp32_daplink.Base.{
  ℕ, ◌+◌, ◌%◌, ◌^◌, ◌<◌, ◌≤◌, ◌≡◌, refl, sym, ap, ap₂, ◌∙◌, ◌⊎◌, inl, inr, ◌==◌, ◌&&◌, false,
  bit_or, ◌<<<◌, ◌>>>◌, List, [], ◌∷◌, ◌++◌, length, get_or, get_or-append_left, le-or-lt, arith,
}
use esp32_daplink.Base.Bits.{bit_and-low_mask, bit_or-high}
use esp32_daplink.Wifi.Relay.{framed}

-- A message that the client takes: of 1 to 4000 bytes, and not the notification that the peer is gone.
pub record IsMessage (m : List ℕ) : Type 0 where
  pub filled : 0 < length m
  pub small : length m ≤ 4000
  pub stays : ((length m == 1) && (get_or m 0 0 == 2)) ≡ false

abbrev pub AllMessages : List (List ℕ) → Type 0
AllMessages [] = Unit {0}
AllMessages (m ∷ ms) = IsMessage m × AllMessages ms

abbrev pub stream : List (List ℕ) → List ℕ
stream [] = []
stream (m ∷ ms) = framed m ++ stream ms

abbrev pub size_in : List ℕ → ℕ
size_in xs = bit_or (get_or xs 0 0 <<< 8) (get_or xs 1 0)

pub size_in-framed : (m xs : List ℕ) → length m ≤ 4000 → size_in (framed m ++ xs) ≡ length m
unfolding framed
size_in-framed m xs small =
    let n : ℕ = length m in
    ap₂ (λ h l. bit_or (h <<< 8) l) (bit_and-low_mask 8 (n >>> 8)) (bit_and-low_mask 8 n)
    ∙ bit_or-high 8 (n >>> 8 % 2 ^ 8) (n % 2 ^ 8) (omega arith)
    ∙ omega arith

pub length-framed : (m : List ℕ) → length (framed m) ≡ 2 + length m
unfolding framed
length-framed m = omega arith

-- The start of a frame whose rest has not come, or nothing.
abbrev pub Incomplete : List ℕ → Type 0
Incomplete xs =
    (length xs < 2) ⊎ ((0 < size_in xs) × (size_in xs ≤ 4000) × (length xs < 2 + size_in xs))

-- Of two ways to cut a list, the longer start has the shorter one us its start.
split_at :
    (xs ys us vs : List ℕ)
    → xs ++ ys ≡ us ++ vs
    → length us ≤ length xs
    → (cs : List ℕ) × (xs ≡ us ++ cs) × (cs ++ ys ≡ vs)
split_at xs ys [] vs e long = (xs, refl, e)
split_at [] ys (a ∷ us) vs e long = absurd (omega arith)
split_at (x ∷ xs) ys (a ∷ us) vs e long =
    let same_head : x ≡ a = cc in
    let same_tail : xs ++ ys ≡ us ++ vs = cc in
    let (cs, front, back) = split_at xs ys us vs same_tail (omega arith) in
    (cs, ap₂ (λ h t. h ∷ t) same_head front, back)

short-Incomplete :
    (xs ys m zs : List ℕ)
    → IsMessage m
    → xs ++ ys ≡ framed m ++ zs
    → length xs < length (framed m)
    → Incomplete xs
short-Incomplete xs ys m zs message e short = elim (le-or-lt 2 (length xs)) [
  | inl long ↦
      (let size : size_in xs ≡ length m =
          sym (
            ap₂ (λ h l. bit_or (h <<< 8) l) (get_or-append_left xs ys 0 0 (omega arith))
              (get_or-append_left xs ys 1 0 (omega arith)))
          ∙ ap size_in e
          ∙ size_in-framed m zs message.small in
        let filled = message.filled in
        let small = message.small in inr (omega arith, omega arith, omega (arith, length-framed m)))
  | inr less ↦ inl less
]

-- The messages whose frames a part of a stream has whole, and the rest of that part.
pub record Cut (xs ys : List ℕ) (ms : List (List ℕ)) : Type 0 where
  pub whole : List (List ℕ)
  pub left : List (List ℕ)
  pub rest : List ℕ
  pub all : ms ≡ whole ++ left
  pub part : xs ≡ stream whole ++ rest
  pub incomplete : Incomplete rest
  pub onward : rest ++ ys ≡ stream left
  pub whole_messages : AllMessages whole
  pub left_messages : AllMessages left

pub stream-Cut :
    (xs ys : List ℕ) (ms : List (List ℕ)) → AllMessages ms → xs ++ ys ≡ stream ms → Cut xs ys ms
stream-Cut [] ys ms messages e = record {
  whole = [];
  left = ms;
  rest = [];
  all = refl;
  part = refl;
  incomplete = inl (omega arith);
  onward = e;
  whole_messages = tt;
  left_messages = messages;
}
stream-Cut (x ∷ xs) ys [] messages e = cc
stream-Cut (x ∷ xs) ys (m ∷ ms) (message, messages) e =
    elim (le-or-lt (length (framed m)) (length (x ∷ xs))) [
      | inl long ↦
          (let (cs, front, back) = split_at (x ∷ xs) ys (framed m) (stream ms) e long in
            let cut = stream-Cut cs ys ms messages back in
            record {
              whole = m ∷ cut.whole;
              left = cut.left;
              rest = cut.rest;
              all = ap (λ t. m ∷ t) cut.all;
              part =
                  front
                  ∙ ap (λ t. framed m ++ t) cut.part
                  ∙ sym (append_assoc (framed m) (stream cut.whole) cut.rest);
              incomplete = cut.incomplete;
              onward = cut.onward;
              whole_messages = (message, cut.whole_messages);
              left_messages = cut.left_messages;
            })
      | inr short ↦ record {
        whole = [];
        left = m ∷ ms;
        rest = x ∷ xs;
        all = refl;
        part = refl;
        incomplete = short-Incomplete (x ∷ xs) ys m (stream ms) message e short;
        onward = e;
        whole_messages = tt;
        left_messages = (message, messages);
      }
    ]
