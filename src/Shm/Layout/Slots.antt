-- ===== src/Shm/Layout/Slots.antt =====
-- crates/shm/src/layout.rs: the scan of the reader and writer slots for their least position.
use selium.Base.{
  ℕ, zero, suc, ◌+◌, ◌*◌, ◌^◌, ◌≤◌, ◌<◌, ◌≡◌, refl, sym, ap, ◌∙◌, Option, none, some, arith,
}
use selium.Base.Exec.{ok}
use selium.Memory.Backend.{Backend, word}
use selium.Memory.Backend.Words.{load_in_range}
use selium.Shm.Layout.{max_reader_slots, reader_slots_offset}
use selium.Shm.Layout.Words.{lower, scan_slots, minimum_reader_position}

-- The fold that the scan computes.
unfoldable pub fold_slots : Backend → ℕ → ℕ → Option ℕ → Option ℕ
fold_slots b zero offset minimum = minimum
fold_slots b (suc count) offset minimum =
    fold_slots b count (offset + 8) (lower minimum (word b offset))

pub scan_slots_lem :
    (b : Backend) (count offset : ℕ) (minimum : Option ℕ)
    → offset + 8 * count ≤ b.size
    → b.size < 2 ^ 64
    → scan_slots count offset minimum b ≡ (ok (fold_slots b count offset minimum), b)
unfolding scan_slots fold_slots
scan_slots_lem b zero offset minimum h s = refl
scan_slots_lem b (suc count) offset minimum h s =
    rw (load_in_range b offset (omega arith) s)
      (scan_slots_lem b count (offset + 8) (lower minimum (word b offset)) (omega arith) s)

-- `none` is above every position.
abbrev pub AtMost : Option ℕ → ℕ → Type 0
AtMost none n = ⊥
AtMost (some m) n = m ≤ n

lower-AtMost : (m : Option ℕ) (w n : ℕ) → AtMost m n → AtMost (lower m w) n
lower-AtMost m zero n h = h
lower-AtMost none (suc w) n h = absurd h
lower-AtMost (some c) (suc w) n h = omega arith

lower-AtMost_self : (m : Option ℕ) (w : ℕ) → AtMost (lower m (suc w)) w
lower-AtMost_self none w = omega arith
lower-AtMost_self (some c) w = omega arith

fold_keeps :
    (b : Backend) (count offset : ℕ) (m : Option ℕ) (n : ℕ)
    → AtMost m n
    → AtMost (fold_slots b count offset m) n
unfolding fold_slots
fold_keeps b zero offset m n h = h
fold_keeps b (suc count) offset m n h =
    fold_keeps b count (offset + 8) (lower m (word b offset)) n (lower-AtMost m (word b offset) n h)

-- Every slot in use is at or above the result.
pub fold_slots-AtMost :
    (b : Backend) (count offset : ℕ) (m : Option ℕ) (i position : ℕ)
    → i < count
    → word b (offset + i * 8) ≡ suc position
    → AtMost (fold_slots b count offset m) position
unfolding fold_slots
fold_slots-AtMost b zero offset m i position h e = absurd (omega arith)
fold_slots-AtMost b (suc count) offset m zero position h e =
    let f : offset + 0 * 8 ≡ offset = omega arith in
    let g : word b offset ≡ suc position = ap (word b) (sym f) ∙ e in
    rw g (
      fold_keeps b count (offset + 8) (lower m (suc position)) position
        (lower-AtMost_self m position))
fold_slots-AtMost b (suc count) offset m (suc i) position h e =
    let f : offset + 8 + i * 8 ≡ offset + suc i * 8 = omega arith in
    fold_slots-AtMost b count (offset + 8) (lower m (word b offset)) i position (omega arith)
      (ap (word b) f ∙ e)

-- On a mapping that holds the header the scan of the reader slots succeeds and changes nothing,
-- and its result is at most the position of every reader slot in use.
pub minimum_reader_position-AtMost :
    (b : Backend) (slot position : ℕ)
    → reader_slots_offset + 8 * max_reader_slots ≤ b.size
    → b.size < 2 ^ 64
    → slot < max_reader_slots
    → word b (reader_slots_offset + slot * 8) ≡ suc position
    → (m : Option ℕ) × (minimum_reader_position b ≡ (ok m, b)) × AtMost m position
unfolding minimum_reader_position
minimum_reader_position-AtMost b slot position room small in_range used = (
  fold_slots b max_reader_slots reader_slots_offset none,
  scan_slots_lem b max_reader_slots reader_slots_offset none room small,
  fold_slots-AtMost b max_reader_slots reader_slots_offset none slot position in_range used,
)
