-- ===== src/Shm/Layout/Loads.antt =====
-- crates/shm/src/layout.rs: what a round of `reserve_tail` loads, under interference.
use selium.Base.{ℕ, zero, suc, ◌+◌, ◌≡◌, ap, ◌∙◌, Bool, true, false, Option, none, arith}
use selium.Base.Exec.{ok, continue-eq-ok}
use selium.Memory.Backend.{Backend, word, atomic_load_u64}
use selium.Shm.Error.{from_backend}
use selium.Shm.Layout.{
  next_tail_offset, reader_slots_offset, writer_slots_offset, max_reader_slots, max_writer_slots,
}
use selium.Shm.Layout.Words.{
  load_next_tail, lower, scan_slots, minimum_reader_position, minimum_writer_position,
}
use selium.Shm.Layout.Reserve.{Round, when_protected, load_positions}

load_inverse :
    (b b' : Backend) (tail : ℕ)
    → load_next_tail b ≡ (ok tail, b')
    → (tail ≡ word b next_tail_offset) × (b' ≡ b)
unfolding load_next_tail atomic_load_u64
load_inverse b b' tail e = (ground arith, ground arith)

word_kept :
    (offset n : ℕ) (b b' : Backend) → from_backend (atomic_load_u64 offset) b ≡ (ok n, b') → b' ≡ b
unfolding atomic_load_u64
word_kept offset n b b' e = ground arith

scan_kept :
    (count offset : ℕ) (least found : Option ℕ) (b b' : Backend)
    → scan_slots count offset least b ≡ (ok found, b')
    → b' ≡ b
unfolding scan_slots
scan_kept zero offset least found b b' e = cc
scan_kept (suc count) offset least found b b' e =
    let (n, b₁, e₁, f₁) = continue-eq-ok (from_backend (atomic_load_u64 offset) b) _ found b' e in
    scan_kept count (offset + 8) (lower least n) found b₁ b' f₁ ∙ word_kept offset n b b₁ e₁

readers_kept :
    (protect : Bool) (found : Option ℕ) (b b' : Backend)
    → when_protected protect minimum_reader_position b ≡ (ok found, b')
    → b' ≡ b
unfolding when_protected minimum_reader_position
readers_kept true found b b' e = scan_kept max_reader_slots reader_slots_offset none found b b' e
readers_kept false found b b' e = cc

writers_kept :
    (protect : Bool) (found : Option ℕ) (b b' : Backend)
    → when_protected protect minimum_writer_position b ≡ (ok found, b')
    → b' ≡ b
unfolding when_protected minimum_writer_position
writers_kept true found b b' e = scan_kept max_writer_slots writer_slots_offset none found b b' e
writers_kept false found b b' e = cc

-- What a round loads: the tail at its start, and nothing of the memory changes but by the others.
pub load_positions_inverse :
    (r : Round) (pr pw : Bool) (positions : ℕ × Option ℕ × Option ℕ) (b b' : Backend)
    → load_positions r pr pw b ≡ (ok positions, b')
    → (positions.0 ≡ word b next_tail_offset) × (b' ≡ r.before_writers (r.before_readers b))
unfolding load_positions
load_positions_inverse r pr pw positions b b' e =
    let (tail, b₁, e₁, f₁) = continue-eq-ok (load_next_tail b) _ positions b' e in
    let (readers, b₂, e₂, f₂) =
      continue-eq-ok (when_protected pr minimum_reader_position (r.before_readers b₁)) _ positions
        b' f₁ in
    let (writers, b₃, e₃, f₃) =
      continue-eq-ok (when_protected pw minimum_writer_position (r.before_writers b₂)) _ positions
        b' f₂ in
    let (loaded, same) = load_inverse b b₁ tail e₁ in
    let kept = readers_kept pr readers (r.before_readers b₁) b₂ e₂ in
    let kept' = writers_kept pw writers (r.before_writers b₂) b₃ e₃ in
    let end : b' ≡ b₃ = cc in
    let given : positions.0 ≡ tail = cc in
    (
      given ∙ loaded,
      end ∙ kept' ∙ ap r.before_writers kept ∙ ap (λ b. r.before_writers (r.before_readers b)) same,
    )
