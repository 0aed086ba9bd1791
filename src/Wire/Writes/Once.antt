-- ===== src/Wire/Writes/Once.antt =====
-- crates/wire/src/framed.rs: what a write puts on the transport.
use mathlib.Core.List.{append_assoc, append-nil}
use selium.Base.{
  and_left, and_right, ◌&&◌, ℕ, ◌-◌, ◌^◌, ◌<◌, Bool, true, false, List, [], ◌∷◌, ◌++◌, ◌≡◌, refl,
  sym, ap, ◌∙◌, arith, ltb, length, take, drop, take-append-drop, le→ltb,
}
use selium.Base.Exec.{Result, ok, err}
use selium.Shm.Error.{Error, buffer_full}
use selium.Wire.Framed.{Item, encode}
use selium.Wire.LiveTable.{Poll, ready, pending}
use selium.Wire.Writes.{
  FramedWrite, Answers, flushed, when_ready, poll_write_frame_with_flags, write_frame_async,
  write_frame_with_flags, or_full, polled_again,
}

-- What is on the way, whether the transport took it yet or not.
abbrev pub on_the_way : FramedWrite → List ℕ
on_the_way w = w.sent ++ w.buffered

flushed-on_the_way :
    (answer : Poll (Result Error (Unit {0}))) (taken : ℕ) (w : FramedWrite)
    → on_the_way (flushed answer taken w) ≡ on_the_way w
flushed-on_the_way (ready (ok _)) taken w = append-nil (w.sent ++ w.buffered)
flushed-on_the_way (ready (err e)) taken w =
    append_assoc w.sent (take taken w.buffered) (drop taken w.buffered)
    ∙ ap (λ l. w.sent ++ l) (take-append-drop taken w.buffered)
flushed-on_the_way pending taken w =
    append_assoc w.sent (take taken w.buffered) (drop taken w.buffered)
    ∙ ap (λ l. w.sent ++ l) (take-append-drop taken w.buffered)

-- A write that is complete.
abbrev pub complete : List ℕ → FramedWrite
complete bytes = record { sent = bytes; buffered = []; is_flushing = false }

abbrev is_fine : Poll (Result Error (Unit {0})) → Bool
is_fine (ready (ok _)) = true
is_fine (ready (err e)) = false
is_fine pending = true

-- No poll fails.
abbrev pub all_fine : List Answers → Bool
all_fine [] = true
all_fine (answers ∷ polls) = is_fine answers.readiness && (is_fine answers.flush && all_fine polls)

-- A flush that is pending is taken up by the next poll, and otherwise ends the write.
polled_flush :
    (answer : Poll (Result Error (Unit {0}))) (taken : ℕ) (w : FramedWrite)
    (rest : FramedWrite → Poll (Result Error (Unit {0})) × FramedWrite)
    → is_fine answer ≡ true
    → rest (flushed pending taken w) ≡ (ready (ok tt), complete (on_the_way w))
    → polled_again (answer, flushed answer taken w) rest ≡ (ready (ok tt), complete (on_the_way w))
polled_flush (ready (ok _)) taken w rest fine h = refl
polled_flush (ready (err e)) taken w rest fine h = cc
polled_flush pending taken w rest fine h = h

module _ (item : Item) (last : Answers) (small : length item.payload < 2 ^ 32)
    (can_send : last.readiness ≡ ready (ok tt)) (can_flush : last.flush ≡ ready (ok tt)) where
  within : ltb (2 ^ 32 - 1) (length item.payload) ≡ false
  within = le→ltb (2 ^ 32 - 1) (length item.payload) (omega arith)

  -- The frame of this write is buffered already: it is not buffered again.
  flushing :
      (polls : List Answers) (w : FramedWrite)
      → all_fine polls ≡ true
      → write_frame_async item (polls ++ last ∷ []) (record w { is_flushing = true })
        ≡ (ready (ok tt), complete (on_the_way w))
  unfolding write_frame_async poll_write_frame_with_flags
  flushing [] w fine = rw (within, can_flush) refl
  flushing (answers ∷ polls) w fine =
      let later =
        and_right (is_fine answers.flush) (all_fine polls)
          (and_right (is_fine answers.readiness) _ fine) in
      let w' = flushed pending answers.taken w in
      rw within (
        polled_flush answers.flush answers.taken (record w { is_flushing = false })
          (write_frame_async item (polls ++ last ∷ []))
          (and_left _ (all_fine polls) (and_right (is_fine answers.readiness) _ fine))
          (flushing polls w' later
            ∙ ap (λ l. (ready (ok tt), complete l)) (flushed-on_the_way pending answers.taken w)))

  -- A writer that flushes nothing.
  abbrev idle : List ℕ → List ℕ → FramedWrite
  idle sent buffered = record { sent = sent; buffered = buffered; is_flushing = false }

  polled_ready :
      (readiness : Poll (Result Error (Unit {0}))) (answers : Answers) (sent buffered : List ℕ)
      (rest : FramedWrite → Poll (Result Error (Unit {0})) × FramedWrite)
      → is_fine readiness ≡ true
      → is_fine answers.flush ≡ true
      → rest (idle sent buffered) ≡ (ready (ok tt), complete ((sent ++ buffered) ++ encode item []))
      → rest (flushed pending answers.taken (idle sent (encode item buffered)))
        ≡ (ready (ok tt), complete (sent ++ encode item buffered))
      → polled_again (when_ready readiness answers item (idle sent buffered)) rest
        ≡ (ready (ok tt), complete ((sent ++ buffered) ++ encode item []))
  unfolding encode
  polled_ready pending answers sent buffered rest fine ends again started = again
  polled_ready (ready (err e)) answers sent buffered rest fine ends again started = cc
  polled_ready (ready (ok _)) answers sent buffered rest fine ends again started =
      polled_flush answers.flush answers.taken (idle sent (encode item buffered)) rest ends started
      ∙ ap (λ l. (ready (ok tt), complete l)) (sym (append_assoc sent buffered (encode item [])))

  -- Where no flush is pending at the start, a write that is polled until it is ready puts its frame
  -- once behind what was on the way, and the transport has taken all of it, however many of its
  -- polls were pending, at the readiness or in the flush. The payload fits its length, no poll
  -- fails, and the last one can send and flush.
  pub write_frame_async-once :
      (polls : List Answers) (sent buffered : List ℕ)
      → all_fine polls ≡ true
      → write_frame_async item (polls ++ last ∷ []) (idle sent buffered)
        ≡ (ready (ok tt), complete ((sent ++ buffered) ++ encode item []))
  unfolding write_frame_async poll_write_frame_with_flags
  write_frame_async-once [] sent buffered fine =
      rw (within, can_send, can_flush)
        (ap (λ l. (ready (ok tt), complete l)) (sym (append_assoc sent buffered (encode item []))))
  write_frame_async-once (answers ∷ polls) sent buffered fine =
      let behind =
        and_right (is_fine answers.readiness) (is_fine answers.flush && all_fine polls) fine in
      let later = and_right (is_fine answers.flush) (all_fine polls) behind in
      let started = idle sent (encode item buffered) in
      rw within (
        polled_ready answers.readiness answers sent buffered
          (write_frame_async item (polls ++ last ∷ []))
          (and_left _ (is_fine answers.flush && all_fine polls) fine)
          (and_left _ (all_fine polls) behind) (write_frame_async-once polls sent buffered later)
          (flushing polls (flushed pending answers.taken started) later
            ∙ ap (λ l. (ready (ok tt), complete l))
                (flushed-on_the_way pending answers.taken started)))

pended :
    (item : Item) (answers : Answers) (sent buffered : List ℕ)
    → length item.payload < 2 ^ 32
    → answers.readiness ≡ ready (ok tt)
    → answers.flush ≡ pending
    → poll_write_frame_with_flags item answers
        (record { sent = sent; buffered = buffered; is_flushing = false })
      ≡ (
        pending,
        flushed pending answers.taken
            (record { sent = sent; buffered = encode item buffered; is_flushing = false }),
      )
unfolding poll_write_frame_with_flags
pended item answers sent buffered small sends pends =
    rw (le→ltb (2 ^ 32 - 1) (length item.payload) (omega arith), sends, pends) refl

taken_up :
    (item : Item) (answers : Answers) (w : FramedWrite)
    → length item.payload < 2 ^ 32
    → answers.flush ≡ ready (ok tt)
    → poll_write_frame_with_flags item answers (record w { is_flushing = true })
      ≡ (ready (ok tt), complete (on_the_way w))
unfolding poll_write_frame_with_flags
taken_up item answers w small flushes =
    rw (le→ltb (2 ^ 32 - 1) (length item.payload) (omega arith), flushes) refl

-- A synchronous write whose flush is pending reports that the buffer is full, although its frame is
-- on the way; the next write, of another frame, then reports success without putting its own frame
-- on the transport or in the buffer. Both payloads fit their lengths; the first poll can send, and
-- the second can flush.
pub write_frame_with_flags-loses :
    (first second : Item) (answers answers' : Answers) (sent buffered : List ℕ)
    → length first.payload < 2 ^ 32
    → length second.payload < 2 ^ 32
    → answers.readiness ≡ ready (ok tt)
    → answers.flush ≡ pending
    → answers'.flush ≡ ready (ok tt)
    → ((write_frame_with_flags first answers
          (record { sent = sent; buffered = buffered; is_flushing = false })).0
        ≡ err buffer_full)
      × (write_frame_with_flags second answers' (
            (write_frame_with_flags first answers
              (record { sent = sent; buffered = buffered; is_flushing = false })).1)
          ≡ (ok tt, complete ((sent ++ buffered) ++ encode first [])))
unfolding write_frame_with_flags encode
write_frame_with_flags-loses first second answers answers' sent buffered small small' sends pends
      flushes =
    let started : FramedWrite = record {
      sent = sent;
      buffered = encode first buffered;
      is_flushing = false;
    } in
    let once = pended first answers sent buffered small sends pends in
    let again = taken_up second answers' (flushed pending answers.taken started) small' flushes in
    let whole : on_the_way (flushed pending answers.taken started)
        ≡ (sent ++ buffered) ++ encode first [] =
      flushed-on_the_way pending answers.taken started
      ∙ sym (append_assoc sent buffered (encode first [])) in
    (
      ap (λ p. or_full (p.0)) once,
      ap (λ p. write_frame_with_flags second answers' (p.1)) once
          ∙ ap (λ p. (or_full (p.0), p.1)) again
          ∙ ap (λ l. (ok tt, complete l)) whole,
    )
