-- ===== src/Kernel/Ids.antt =====
-- crates/kernel/src/kernel.rs `hashed_id`, and the id counters of memory.rs and process.rs. A
-- `u64` is a number below 2 ^ 64.
pub mod Fresh
use Prim.Native.Nat.{bit_xor}
use selium.Base.{
  ℕ, zero, suc, ◌+◌, ◌*◌, ◌/◌, ◌%◌, ◌^◌, Bool, true, false, Option, none, some, nat_beq,
  if◌then◌else◌,
}

abbrev pub add64 : ℕ → ℕ → ℕ
add64 a b = (a + b) % 2 ^ 64

abbrev pub mul64 : ℕ → ℕ → ℕ
mul64 a b = a * b % 2 ^ 64

unfoldable pub hashed_id : ℕ → ℕ → ℕ
hashed_id seed counter =
    let z = add64 seed counter in
    let y = mul64 (bit_xor z (z / 2 ^ 30)) 0xBF58476D1CE4E5B9 in
    let x = mul64 (bit_xor y (y / 2 ^ 27)) 0x94D049BB133111EB in bit_xor x (x / 2 ^ 31)

-- The loop of `next_local_id`, `next_shared_id` and `next_process_id`: `fetch_add` on the counter
-- until the hash is not zero. The result is the id and the counter; `none` is a loop cut short.
unfoldable pub next_id_loop : ℕ → ℕ → ℕ → Option (ℕ × ℕ)
next_id_loop zero seed counter = none
next_id_loop (suc rounds) seed counter =
    let rest = next_id_loop rounds seed (add64 counter 1) in
    if nat_beq (hashed_id seed counter) 0
    then rest
    else some (hashed_id seed counter, add64 counter 1)

-- An account of the loop without a loop.
unfoldable pub next_id : ℕ → ℕ → ℕ × ℕ
next_id seed counter =
    if nat_beq (hashed_id seed counter) 0
    then (hashed_id seed (add64 counter 1), add64 (add64 counter 1) 1)
    else (hashed_id seed counter, add64 counter 1)
