-- ===== src/Rtt/Pushed.antt =====
-- The down buffer as a queue, and what bytes written behind its contents do to it.
use esp32_daplink.Base.{
  ℕ, ◌+◌, ◌-◌, ◌%◌, ◌^◌, ◌≤◌, ◌<◌, ◌≡◌, refl, sym, ap, ap₂, ◌∙◌, ◌⊎◌, List, ◌++◌, length, arith,
}
use esp32_daplink.Rtt.Core.{Rtt}
use esp32_daplink.Rtt.Down.{free_space}
use esp32_daplink.Rtt.Ring.{walk, ring, unread, ring_ext, length-ring}
use esp32_daplink.Rtt.Reading.{ring_byte}
use esp32_daplink.Rtt.Append.{walk_lem, put_bytes, ring-put_bytes}
use esp32_daplink.Rtt.Writing.{walk-walk}

-- The words of the descriptor.
abbrev pub down_wr_addr : Rtt → ℕ
down_wr_addr g = g.down0_base + 0x0C

abbrev pub down_rd_addr : Rtt → ℕ
down_rd_addr g = g.down0_base + 0x10

-- The bytes in the down buffer that the target has not read, the oldest first.
unfoldable pub down_queue : Rtt → (ℕ → ℕ) → List ℕ
down_queue g word =
    ring g.down0_size (ring_byte word g.down0_buf_ptr)
      (unread g.down0_size (word (down_wr_addr g)) (word (down_rd_addr g))) (word (down_rd_addr g))

-- A buffer of whole words, apart from its descriptor, with offsets inside of it.
pub record IsDownBuffer (g : Rtt) (word : ℕ → ℕ) : Type 0 where
  pub base_aligned : g.down0_base % 4 ≡ 0
  pub base_fits : g.down0_base + 0x14 < 2 ^ 32
  pub some : 0 < g.down0_size
  pub whole : g.down0_size % 4 ≡ 0
  pub buf_aligned : g.down0_buf_ptr % 4 ≡ 0
  pub buf_fits : g.down0_buf_ptr + g.down0_size < 2 ^ 32
  pub apart : (down_rd_addr g < g.down0_buf_ptr) ⊎ (g.down0_buf_ptr + g.down0_size ≤ down_wr_addr g)
  pub wr_inside : word (down_wr_addr g) < g.down0_size
  pub rd_inside : word (down_rd_addr g) < g.down0_size

pub walk-unread :
    (size wr rd : ℕ) → size < 2 ^ 32 → wr < size → rd < size → walk size (unread size wr rd) rd ≡ wr
unfolding unread
walk-unread size wr rd small hw hr =
    walk_lem size (unread size wr rd) rd small (ground arith) hr ∙ ground arith

pub unread-lt : (size wr rd : ℕ) → wr < size → rd < size → unread size wr rd < size
unfolding unread
unread-lt size wr rd hw hr = ground arith

unread-walk_back :
    (size n rd : ℕ) → size < 2 ^ 32 → n < size → rd < size → unread size (walk size n rd) rd ≡ n
unfolding unread
unread-walk_back size n rd small h hr = ground (arith, walk_lem size n rd small (omega arith) hr)

pub free_space-unread :
    (size wr rd : ℕ)
    → size < 2 ^ 32
    → wr < size
    → rd < size
    → free_space size wr rd ≡ size - 1 - unread size wr rd
unfolding free_space unread
free_space-unread size wr rd small hw hr = ground arith

pub length-down_queue :
    (g : Rtt) (word : ℕ → ℕ)
    → length (down_queue g word)
      ≡ unread g.down0_size (word (down_wr_addr g)) (word (down_rd_addr g))
unfolding down_queue
length-down_queue g word =
    length-ring g.down0_size (ring_byte word g.down0_buf_ptr)
      (unread g.down0_size (word (down_wr_addr g)) (word (down_rd_addr g))) (word (down_rd_addr g))

-- `WrOff` moved over the bytes that are written.
pub pushed-down_queue :
    (g : Rtt) (word after : ℕ → ℕ) (sent : List ℕ)
    → IsDownBuffer g word
    → length (down_queue g word) + length sent < g.down0_size
    → after (down_rd_addr g) ≡ word (down_rd_addr g)
    → after (down_wr_addr g) ≡ walk g.down0_size (length sent) (word (down_wr_addr g))
    → ((p : ℕ)
        → p < g.down0_size
        → ring_byte after g.down0_buf_ptr p
          ≡ put_bytes g.down0_size (ring_byte word g.down0_buf_ptr) sent (word (down_wr_addr g)) p)
    → down_queue g after ≡ down_queue g word ++ sent
unfolding down_queue
pushed-down_queue g word after sent down room rd_same wr_moved bytes =
    let size = g.down0_size in
    let wr = word (down_wr_addr g) in
    let rd = word (down_rd_addr g) in
    let at = ring_byte word g.down0_buf_ptr in
    let c = unread size wr rd in
    let small : size < 2 ^ 32 = omega (arith, down.buf_fits) in
    let back = walk-unread size wr rd small down.wr_inside down.rd_inside in
    let room_left : c + length sent < size = omega (arith, room, length-ring size at c rd) in
    let wr_is : after (down_wr_addr g) ≡ walk size (c + length sent) rd =
      wr_moved
      ∙ ap (walk size (length sent)) (sym back)
      ∙ walk-walk size c (length sent) (c + length sent) rd refl in
    let total : unread size (after (down_wr_addr g)) (after (down_rd_addr g)) ≡ c + length sent =
      ap₂ (unread size) wr_is rd_same
      ∙ unread-walk_back size (c + length sent) rd small room_left down.rd_inside in
    ap₂ (λ (k p : ℕ). ring size (ring_byte after g.down0_buf_ptr) k p) total rd_same
    ∙ ring_ext size (ring_byte after g.down0_buf_ptr) (put_bytes size at sent wr) (c + length sent)
        rd down.some down.rd_inside bytes
    ∙ ap (λ q. ring size (put_bytes size at sent q) (c + length sent) rd) (sym back)
    ∙ ring-put_bytes size at sent c (c + length sent) rd small down.rd_inside refl (omega arith)
