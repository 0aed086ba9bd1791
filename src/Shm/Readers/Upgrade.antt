-- ===== src/Shm/Readers/Upgrade.antt =====
-- crates/shm/src/channels/reader.rs `Reader::upgrade`: a reader that has read a frame in part.
use mathlib.Core.Path.{subst}
use selium.Base.{
  ℕ, ◌+◌, ◌^◌, ◌≤◌, ◌<◌, ◌≡◌, ◌≢◌, sym, ap, ◌∙◌, true, false, some, List, [], arith, leb, nat_beq,
  checked_add, if◌then◌else◌, length, take, drop, length-drop,
}
use selium.Base.Exec.{Result, ok, err, continue-eq-ok}
use selium.Memory.Backend.{Backend, word}
use selium.Memory.Backend.Words.{load_in_range}
use selium.Shm.Error.{Error}
use selium.Shm.Layout.{next_tail_offset, writer_count_offset, data_offset}
use selium.Shm.Layout.Words.{
  load_next_tail, load_writer_count, load_generation, allocate_reader_slot,
}
use selium.Shm.Readers.{
  Poll, Reader, BlockingReader, new_blocking_reader, frame, find, find_idle, find_blocking, ready,
  pending, poll_read, poll_read_blocking, upgrade, unwrap_or_zero,
}
use selium.Shm.Readers.Polls.{poll_first, poll_end}

abbrev value_or : BlockingReader → Result Error BlockingReader → BlockingReader
value_or d (ok r) = r
value_or d (err e) = d

-- What an upgrade that succeeds makes of a reader.
upgrade_inverse :
    (r : Reader) (w : BlockingReader) (b b' : Backend)
    → upgrade r b ≡ (ok w, b')
    → (id : ℕ) × (record (new_blocking_reader r.pos id) { last_generation = r.last_generation } ≡ w)
unfolding upgrade
upgrade_inverse r w b b' h =
    let (id, b₂, allocated, given) = continue-eq-ok (allocate_reader_slot r.pos b) _ w b' h in
    (id, ap (λ (x : Result Error BlockingReader × Backend). value_or w (x.0)) given)

-- A poll with nothing buffered and nothing before the tail.
poll_idle :
    (capacity room p id g : ℕ) (b : Backend)
    → data_offset ≤ b.size
    → b.size < 2 ^ 63
    → word b next_tail_offset ≤ p
    → poll_read_blocking capacity room (record (new_blocking_reader p id) { last_generation = g }) b
      ≡ (
        ok (if nat_beq (word b writer_count_offset) 0 then ready [] else pending),
        record (new_blocking_reader p id) { last_generation = g },
        b,
      )
unfolding poll_read_blocking find_blocking find_idle load_next_tail load_writer_count
poll_idle capacity room p id g b fits small behind =
    let reached : leb (word b next_tail_offset) p ≡ true = ground arith in
    rw
      (
        load_in_range b next_tail_offset (omega arith) (omega arith),
        reached,
        load_in_range b writer_count_offset (omega arith) (omega arith),
      )
      (ground arith)

-- A non-blocking reader that has not ended and has nothing buffered finds a frame and reads its
-- first bytes, fewer than all. Polled again with room for the rest it gives the rest, which is not
-- empty. Upgraded at that point, where the frame is the last before the tail and the mapping, below
-- 2 ^ 63 bytes, holds the ring's header, it gives none of the rest: each poll, whatever its room,
-- reports that nothing is there (the end of the stream where no writer is left) and changes neither
-- the blocking reader nor the ring.
pub upgrade-loses :
    (capacity first last room size p : ℕ) (bytes : List ℕ) (r : Reader) (w : BlockingReader)
    (b b1 b2 : Backend)
    → r.terminated ≡ false
    → length r.pending_frame ≤ r.pending_offset
    → find capacity r b ≡ (ok (frame bytes size), b1)
    → checked_add r.pos size ≡ some p
    → first < length bytes
    → length bytes ≤ first + last
    → upgrade ((poll_read capacity first r b).1) b1 ≡ (ok w, b2)
    → data_offset ≤ b2.size
    → b2.size < 2 ^ 63
    → word b2 next_tail_offset ≤ p
    → ((poll_read capacity first r b).0 ≡ ok (ready (take first bytes)))
      × ((poll_read capacity last ((poll_read capacity first r b).1) b1).0
          ≡ ok (ready (drop first bytes)))
      × (drop first bytes ≢ [])
      × (poll_read_blocking capacity room w b2
          ≡ (ok (if nat_beq (word b2 writer_count_offset) 0 then ready [] else pending), w, b2))
upgrade-loses capacity first last room size p bytes r w b b1 b2 live empty found moved part enough
      upgraded fits small behind =
    let partly : Reader = record r {
      pos = p;
      last_generation = unwrap_or_zero ((load_generation b1).0);
      pending_frame = bytes;
      pending_offset = first;
    } in
    let polled = poll_first capacity first size p bytes r b b1 live empty found moved part in
    let reader_of = λ (x : Result Error Poll × Reader × Backend). x.1 in
    let at_part : (poll_read capacity first r b).1 ≡ partly = ap reader_of polled in
    let (id, same) =
      upgrade_inverse partly w b1 b2 (ap (λ q. upgrade q b1) (sym at_part) ∙ upgraded) in
    (
      ap (λ (x : Result Error Poll × Reader × Backend). x.0) polled,
      ap (λ q. (poll_read capacity last q b1).0) at_part
          ∙ ap (λ (x : Result Error Poll × Reader × Backend). x.0)
              (poll_end capacity last partly b1 part enough),
      λ none_left. omega (arith, ap length none_left, length-drop first bytes, part),
      subst
          (λ v.
            poll_read_blocking capacity room v b2
            ≡ (ok (if nat_beq (word b2 writer_count_offset) 0 then ready [] else pending), v, b2))
          same
          (poll_idle capacity room p id (unwrap_or_zero ((load_generation b1).0)) b2 fits small
            behind),
    )
