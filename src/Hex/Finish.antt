-- ===== src/Hex/Finish.antt =====
-- `std::sort` as an interface, and what the parser promises of a file that it accepts.
use mathlib.Core.List.{append_assoc, Perm, Permᴰ, perm_append_comm, Mem, mem-cons, not-mem-nil}
use mathlib.Core.List.Perm
use mathlib.Core.Logic.{∥∥₁_elim}
use mathlib.Core.Logic.Or
use mathlib.Core.Path.{subst}
use native.Mathlib.Bridge.{le_prop}
use esp32_daplink.Base.{ℕ, ◌^◌, ◌<◌, ◌≡◌, ◌≢◌, refl, some, List, [], ◌∷◌, length, arith}
use esp32_daplink.Hex.{
  Segment, Image, Outcome, parsed, failed, out_of_fuel, empty_image, merge_segments, parse_lines,
  finish_image, parse_file,
}
use esp32_daplink.Hex.Merge.{
  writes_at, writes, AllWords, IsSeparated, IsAscending, writes-merge_segments,
  merge_segments-IsSeparated, merge_segments-IsAscending,
}
use esp32_daplink.Hex.Bounds.{
  AllWithin, IsSound, OutcomeSound, parse_lines-OutcomeSound, empty_image-IsSound,
}

-- What the C++ standard says of `std::sort` by address: the same segments, in ascending order. It
-- leaves the order of equal addresses open.
pub record Sorter : Type 0 where
  pub sort : List Segment → List Segment
  pub sort-perm : (segments : List Segment) → Perm (sort segments) segments
  pub sort-IsAscending : (segments : List Segment) → IsAscending (sort segments)

regroup :
    (s t : Segment) (segments : List Segment)
    → Perm (writes (s ∷ t ∷ segments)) (writes (t ∷ s ∷ segments))
regroup s t segments =
    let xs = writes_at s.address s.bytes in
    let ys = writes_at t.address t.bytes in
    let zs = writes segments in
    rw (← append_assoc xs ys zs, ← append_assoc ys xs zs)
      (Perm.append_right zs (perm_append_comm xs ys))

Permᴰ-writes : {l m : List Segment} → Permᴰ l m → Perm (writes l) (writes m)
Permᴰ-writes Permᴰ.nil = Perm.refl []
Permᴰ-writes (Permᴰ.cons {a = a} e p) =
    rw (← e) (Perm.append_left (writes_at a.address a.bytes) (Permᴰ-writes p))
Permᴰ-writes (Permᴰ.swap {a = a} {b = b} {l = l} e f) = rw (← e, ← f) (regroup a b l)
Permᴰ-writes (Permᴰ.trans p q) = Perm.trans (Permᴰ-writes p) (Permᴰ-writes q)

-- Reordering segments reorders their writes.
Perm-writes : {l m : List Segment} → Perm l m → Perm (writes l) (writes m)
Perm-writes p = ∥∥₁_elim p squash₁ Permᴰ-writes

Mem-word :
    (s : Segment) (segments : List Segment)
    → AllWords segments
    → Mem s segments
    → s.address < 2 ^ 32
Mem-word s [] h m = absurd (not-mem-nil m)
Mem-word s (t ∷ segments) h m =
    Or.elim le_prop (mem-cons.0 m) (λ e. rw e h.0) (Mem-word s segments h.1)

AllWords-of_Mem :
    (segments : List Segment)
    → ((s : Segment) → Mem s segments → s.address < 2 ^ 32)
    → AllWords segments
AllWords-of_Mem [] h = tt
AllWords-of_Mem (s ∷ segments) h =
    (h s (mem-cons.1 (Or.inl refl)), AllWords-of_Mem segments (λ t m. h t (mem-cons.1 (Or.inr m))))

Perm-AllWords : {l m : List Segment} → Perm l m → AllWords m → AllWords l
Perm-AllWords {l} {m} p h = AllWords-of_Mem l (λ s i. Mem-word s m h ((Perm.mem_iff p).0 i))

AllWithin-AllWords :
    (low high : ℕ) (segments : List Segment) → AllWithin low high segments → AllWords segments
AllWithin-AllWords low high [] h = tt
AllWithin-AllWords low high (s ∷ segments) (w, h) = (w.word, AllWithin-AllWords low high segments h)

-- `result` puts the same bytes at the same addresses as `image`, in segments with ascending
-- addresses of which none continues the one before, and has the same bounds.
pub record Delivers (image result : Image) : Type 0 where
  pub same_writes : Perm (writes result.segments) (writes image.segments)
  pub ascending : IsAscending result.segments
  pub separated : IsSeparated result.segments
  pub same_lowest : result.lowest_address ≡ image.lowest_address
  pub same_highest : result.highest_address ≡ image.highest_address

merged : (Sorter) → Image → Image
merged sorter image = record image { segments = merge_segments (sorter.sort image.segments) }

merged-Delivers :
    (sorter : Sorter) (image : Image) → IsSound image → Delivers image (merged sorter image)
unfolding merged
merged-Delivers sorter image sound =
    let sorted = sorter.sort image.segments in
    let words : AllWords sorted =
      Perm-AllWords (sorter.sort-perm image.segments)
        (AllWithin-AllWords _ _ image.segments sound) in
    record {
      same_writes =
          rw (writes-merge_segments sorted words) (Perm-writes (sorter.sort-perm image.segments));
      ascending = merge_segments-IsAscending sorted (sorter.sort-IsAscending image.segments);
      separated = merge_segments-IsSeparated sorted;
      same_lowest = refl;
      same_highest = refl;
    }

parsed_some :
    (sorter : Sorter) (image : Image) (s : Segment) (segments : List Segment) (result : Image)
    → image.segments ≡ s ∷ segments
    → finish_image sorter.sort (parsed image) ≡ parsed result
    → (image.segments ≢ []) × (result ≡ merged sorter image)
unfolding finish_image merged
parsed_some sorter image s segments result e h = ground arith

finish_image-parsed :
    (sorter : Sorter) (outcome : Outcome) (result : Image)
    → finish_image sorter.sort outcome ≡ parsed result
    → (image : Image) × (outcome ≡ parsed image)
      × (image.segments ≢ [])
      × (result ≡ merged sorter image)
unfolding finish_image merged
finish_image-parsed sorter (parsed image) result h =
    (elim image.segments
        as (λ l.
          image.segments ≡ l
          → (i : Image) × (parsed image ≡ parsed i)
            × (i.segments ≢ [])
            × (result ≡ merged sorter i)) [
              | [] ↦ λ e. absurd (ground arith)
              | s ∷ segments ↦ λ e.
                  let facts = parsed_some sorter image s segments result e h in
                  (image, refl, facts.0, facts.1)
            ])
      refl
finish_image-parsed sorter (failed code message image) result h = cc
finish_image-parsed sorter out_of_fuel result h = cc

-- When the parser accepts a file, the lines gave an image with at least one segment, all of whose
-- segments have 32-bit addresses and bytes below 256, start at the lower bound or above and end, as
-- a uint32_t, at the upper bound or below, and what it returns delivers that image: the same writes,
-- ascending, merged, with the same bounds.
pub parse_file-Delivers :
    (sorter : Sorter) (line file : List ℕ) (result : Image)
    → parse_file sorter.sort line (some file) ≡ parsed result
    → (image : Image) × (parse_lines (length file) empty_image 0 0 line file ≡ parsed image)
      × (image.segments ≢ [])
      × IsSound image
      × Delivers image result
unfolding parse_file
parse_file-Delivers sorter line file result h =
    let run = parse_lines (length file) empty_image 0 0 line file in
    let (image, ends, some_segment, same) = finish_image-parsed sorter run result h in
    let sound : IsSound image =
      subst OutcomeSound ends
        (parse_lines-OutcomeSound (length file) empty_image 0 0 line file empty_image-IsSound) in
    (image, ends, some_segment, sound, rw same (merged-Delivers sorter image sound))
