-- ===== src/Dap/Bounds/Invariant.antt =====
-- What DAP_Transfer has answered after so many requests, and how the parts of a request keep it.
use Prim.{⊥}
use esp32_daplink.Base.{
  ℕ, suc, ◌+◌, ◌*◌, ◌%◌, ◌≤◌, ◌<◌, ◌≡◌, refl, ◌∙◌, min, Bool, true, false, Option, some, List, ltb,
  length, get_or, set, u8, inl, inr, arith, Bool-cases, length-set, get_or-set_ne, get_or-set_self,
  length-replicate, replicate,
}
use esp32_daplink.Swd.Wire.{Swd, digit}
use esp32_daplink.Dap.{Dap, response_size, put_u32_le, clear_response}
use esp32_daplink.Dap.Transfer.{
  Progress, Turn, go, stop, out_of_fuel, answer, and_then, with_word, after_turn,
}

pub length-put_u32_le :
    (offset value : ℕ) (response : List ℕ)
    → length (put_u32_le offset value response) ≡ length response
unfolding put_u32_le
length-put_u32_le offset value response = elim (Bool-cases (ltb (length response) (offset + 4))) [
  | inl full ↦ rw full refl
  | inr room ↦ rw room (length-set _ _ _ ∙ length-set _ _ _ ∙ length-set _ _ _ ∙ length-set _ _ _)
]

-- After `k` requests: an answer for each at most, one to come counted, and rounds enough for a
-- match.
pub record Fits (fuel k : ℕ) (p : Progress) : Type 0 where
  pub offset_le : p.response_offset ≤ 3 + 4 * p.completed
  pub completed_le : p.completed + digit p.post_read ≤ k
  pub size : length p.dap.response ≡ response_size
  pub rounds : p.dap.match_retry + 2 ≤ fuel
  pub no_wrap : p.dap.match_retry < 0xFFFF

abbrev pub TurnFits : ℕ → ℕ → Turn → Type 0
TurnFits fuel k (go p) = Fits fuel k p
TurnFits fuel k (stop p) = Fits fuel k p
TurnFits fuel k out_of_fuel = ⊥

pub count_lem : (c d k : ℕ) → k < 256 → c + 1 + d ≤ k → (c + 1) % 256 + d ≤ k
count_lem c d k small h = omega arith

pub answer-Fits :
    {fuel j k : ℕ} (v : ℕ) (p : Progress)
    → k < 256
    → Fits fuel j p
    → p.completed + 1 + digit p.post_read ≤ k
    → Fits fuel k (answer v p)
unfolding answer
answer-Fits {k = k} v p small f h = record {
  offset_le = offset p.completed p.response_offset k (digit p.post_read) small f.offset_le h;
  completed_le = count_lem p.completed (digit p.post_read) k small h;
  size = length-put_u32_le p.response_offset v p.dap.response ∙ f.size;
  rounds = f.rounds;
  no_wrap = f.no_wrap;
}
  where
    offset :
        (c o k d : ℕ) → k < 256 → o ≤ 3 + 4 * c → c + 1 + d ≤ k → o + 4 ≤ 3 + 4 * ((c + 1) % 256)
    offset c o k d small h g = omega arith

-- Without an answer: one request more that is completed.
pub record Counts (fuel k : ℕ) (p : Progress) : Type 0 where
  pub offset_le : p.response_offset ≤ 3 + 4 * u8 (p.completed + 1)
  pub completed_le : u8 (p.completed + 1) + digit p.post_read ≤ k
  pub size : length p.dap.response ≡ response_size
  pub rounds : p.dap.match_retry + 2 ≤ fuel
  pub no_wrap : p.dap.match_retry < 0xFFFF

pub Fits-Counts : {fuel k : ℕ} {p : Progress} → suc k < 256 → Fits fuel k p → Counts fuel (suc k) p
Fits-Counts {k = k} {p = p} small f = record {
  offset_le =
      offset p.completed p.response_offset k (digit p.post_read) small f.offset_le f.completed_le;
  completed_le = completed p.completed k (digit p.post_read) small f.completed_le;
  size = f.size;
  rounds = f.rounds;
  no_wrap = f.no_wrap;
}
  where
    offset : (c o k d : ℕ) → suc k < 256 → o ≤ 3 + 4 * c → c + d ≤ k → o ≤ 3 + 4 * ((c + 1) % 256)
    offset c o k d small h g = omega arith

    completed : (c k d : ℕ) → suc k < 256 → c + d ≤ k → (c + 1) % 256 + d ≤ suc k
    completed c k d small h = omega arith

pub Fits-suc : {fuel k : ℕ} {p : Progress} → Fits fuel k p → Fits fuel (suc k) p
Fits-suc {k = k} {p = p} f = record {
  offset_le = f.offset_le;
  completed_le = later p.completed k (digit p.post_read) f.completed_le;
  size = f.size;
  rounds = f.rounds;
  no_wrap = f.no_wrap;
}
  where
    later : (c k d : ℕ) → c + d ≤ k → c + d ≤ suc k
    later c k d h = omega arith

pub Fits-no_post :
    {fuel k : ℕ} {p : Progress} → Fits fuel k p → Fits fuel k (record p { post_read = false })
Fits-no_post {k = k} {p = p} f = record {
  offset_le = f.offset_le;
  completed_le = fewer p.completed k (digit p.post_read) f.completed_le;
  size = f.size;
  rounds = f.rounds;
  no_wrap = f.no_wrap;
}
  where
    fewer : (c k d : ℕ) → c + d ≤ k → c + 0 ≤ k
    fewer c k d h = omega arith

-- The status and the bus have no part in it.
pub on_bus-Fits :
    {fuel k status : ℕ} {bus : Swd} {p : Progress}
    → Fits fuel k p
    → Fits fuel k (record p { transfer_status = status; dap = record p.dap { bus = bus } })
on_bus-Fits f = record {
  offset_le = f.offset_le;
  completed_le = f.completed_le;
  size = f.size;
  rounds = f.rounds;
  no_wrap = f.no_wrap;
}

pub pending_lem : (c k : ℕ) (b : Bool) → b ≡ true → c + digit b ≤ k → c + 1 + digit false ≤ k
pending_lem c k b pending h = ground arith

pub posted_lem :
    (c k : ℕ) (b : Bool)
    → b ≡ true
    → suc k < 256
    → c + digit b ≤ k
    → u8 (c + 1) + digit true ≤ suc k
posted_lem c k b posted small h = ground arith

pub first_lem : (c k d : ℕ) → c + d ≤ k → c + digit true ≤ suc k
first_lem c k d h = omega arith

pub read_answer :
    {fuel k : ℕ} (v : ℕ) (p : Progress)
    → suc k < 256
    → Fits fuel k p
    → Fits fuel (suc k) (answer v p)
read_answer {k = k} v p small f =
    answer-Fits v p small f (shift_lem p.completed k (digit p.post_read) f.completed_le)
  where
    shift_lem : (c k d : ℕ) → c + d ≤ k → c + 1 + d ≤ suc k
    shift_lem c k d h = omega arith

pub with_word-Fits :
    {fuel k : ℕ} (buffer : List ℕ) (p : Progress) (rest : ℕ → Progress → Turn)
    → Fits fuel k p
    → ((v : ℕ) (q : Progress) → Fits fuel k q → TurnFits fuel (suc k) (rest v q))
    → TurnFits fuel (suc k) (with_word buffer p rest)
unfolding with_word
with_word-Fits buffer p rest f h = elim (Bool-cases (ltb (length buffer) (p.request_offset + 4))) [
  | inl short ↦ rw short (on_bus-Fits (Fits-suc f))
  | inr enough ↦ rw enough (
      h _ _ (record {
        offset_le = f.offset_le;
        completed_le = f.completed_le;
        size = f.size;
        rounds = f.rounds;
        no_wrap = f.no_wrap;
      }))
]

pub and_then-Fits :
    {fuel k : ℕ} (t : Turn) (rest : Progress → Turn)
    → TurnFits fuel k t
    → ((q : Progress) → Fits fuel k q → TurnFits fuel (suc k) (rest q))
    → TurnFits fuel (suc k) (and_then t rest)
unfolding and_then
and_then-Fits (go p) rest f h = h p f
and_then-Fits (stop p) rest f h = Fits-suc f
and_then-Fits out_of_fuel rest f h = absurd f

pub counted :
    {fuel k : ℕ} {mask : ℕ} (p : Progress)
    → Counts fuel k p
    → Fits fuel k
        (record p { completed = u8 (p.completed + 1); dap = record p.dap { match_mask = mask } })
counted p c = record {
  offset_le = c.offset_le;
  completed_le = c.completed_le;
  size = c.size;
  rounds = c.rounds;
  no_wrap = c.no_wrap;
}

pub Fits-le : {fuel k n : ℕ} {p : Progress} → k ≤ n → Fits fuel k p → Fits fuel n p
Fits-le {k = k} {n = n} {p = p} le f = record {
  offset_le = f.offset_le;
  completed_le = more p.completed k n (digit p.post_read) le f.completed_le;
  size = f.size;
  rounds = f.rounds;
  no_wrap = f.no_wrap;
}
  where
    more : (c k n d : ℕ) → k ≤ n → c + d ≤ k → c + d ≤ n
    more c k n d le h = omega arith

pub after_turn-Fits :
    {fuel k n : ℕ} (again : Progress → Option Progress) (t : Turn)
    → k ≤ n
    → TurnFits fuel k t
    → ((q : Progress) → Fits fuel k q → (x : Progress) × (again q ≡ some x) × Fits fuel n x)
    → (x : Progress) × (after_turn again t ≡ some x) × Fits fuel n x
after_turn-Fits again (go p) le f h = h p f
after_turn-Fits again (stop p) le f h = (p, refl, Fits-le le f)
after_turn-Fits again out_of_fuel le f h = absurd f

-- After the last read: nothing is to come.
pub record Done (k : ℕ) (p : Progress) : Type 0 where
  pub offset_le : p.response_offset ≤ 3 + 4 * p.completed
  pub completed_le : p.completed ≤ k
  pub size : length p.dap.response ≡ response_size

pub Fits-Done : {fuel k : ℕ} {p : Progress} → Fits fuel k p → Done k p
Fits-Done {k = k} {p = p} f = record {
  offset_le = f.offset_le;
  completed_le = fewer p.completed k (digit p.post_read) f.completed_le;
  size = f.size;
}
  where
    fewer : (c k d : ℕ) → c + d ≤ k → c ≤ k
    fewer c k d h = omega arith

pub min_le : {m b : ℕ} (n l : ℕ) → m ≡ min n l → n ≤ b → m ≤ b
min_le n l e h = omega arith

pub count_byte :
    (r : List ℕ) (c t : ℕ) → length r ≡ response_size → get_or (set (set r 1 c) 2 t) 1 0 ≡ c
count_byte r c t size =
    get_or-set_ne (set r 1 c) 2 1 t 0 (omega arith) ∙ get_or-set_self r 1 c 0 (omega (arith, size))

pub clear_response-size :
    (command : ℕ) (d : Dap) → length (clear_response command d).response ≡ response_size
unfolding clear_response
clear_response-size command d =
    length-set (replicate {A = ℕ} response_size 0) 0 command
    ∙ length-replicate {A = ℕ} response_size 0
