-- ===== src/Shm/Layout/Spurious.antt =====
-- crates/memory/src/lib.rs `compare_exchange_u64`, whose weak exchange may fail spuriously and still
-- return the expected value, in the reservation loop of crates/shm/src/layout.rs.
use selium.Base.{ℕ, ◌≤◌, ◌≡◌, Bool, true, false, Option, some, List, ◌∷◌, arith, ap}
use selium.Base.Exec.{Result, ok}
use selium.Memory.Backend.{Backend, word}
use selium.Shm.Error.{Error}
use selium.Shm.Layout.{next_tail_offset, data_offset}
use selium.Shm.Layout.Reserve.{Round, quiet, reserve_tail}
use selium.Shm.Layout.Window.{IsRing}
use selium.Shm.Layout.Alone.{weak, next_of, reserve_tail_alone}

-- A reservation that fits, made in a round whose exchange fails spuriously, is granted the tail
-- and leaves the mapping as it was, so the reservation after it is granted the same position.
pub reserve_tail-twice :
    (rs ss : List Round) (len capacity k : ℕ) (pr pw : Bool) (b : Backend) (next : ℕ)
    → IsRing b capacity k
    → next_of len capacity pr pw b ≡ ok next
    → (b' : Backend) × (reserve_tail (weak ∷ rs) len capacity pr pw b
        ≡ (ok (some (word b next_tail_offset)), b'))
      × ((reserve_tail (quiet ∷ ss) len capacity pr pw b').0 ≡ ok (some (word b next_tail_offset)))
reserve_tail-twice rs ss len capacity k pr pw b next ring h =
    let room : data_offset ≤ b.size = omega (arith, ring.room) in
    (
      b,
      reserve_tail_alone true rs len capacity pr pw b room ring.small h,
      ap (λ (r : Result Error (Option ℕ) × Backend). r.0)
          (reserve_tail_alone false ss len capacity pr pw b room ring.small h),
    )
