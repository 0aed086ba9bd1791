-- ===== src/Wire/FrameTests.antt =====
-- crates/wire: requests, frames in chunks and writes on concrete inputs.
use selium.Base.{ℕ, ◌+◌, false, Option, some, List, [], ◌∷◌, ◌++◌, ◌≡◌, refl, arith, take, drop}
use selium.Base.Exec.{ok, err}
use selium.Shm.Error.{buffer_full, overwritten}
use selium.Memory.Frame.{is_ready}
use selium.Memory.Frame
use selium.Wire.Framed.{Item, encode}
use selium.Wire.Framed.Buffers.{IsItem}
use selium.Wire.Framed.Chunks.{feed_all, feed_all-encode_all, encode_all}
use selium.Wire.LiveTable.{ready, pending}
use selium.Wire.Rpc.{new_client, send_request, request_rounds, await_reply_via_waker, decoded}
use selium.Wire.Rpc.Parked.{request_rounds-parks}
use selium.Wire.Rpc.Replies.{await_reply-serve, send_all, serve}
use selium.Wire.Subscriber.{poll_all}
use selium.Wire.Subscriber.Overwritten.{poll_all-stuck}
use selium.Wire.Writes.{Answers, write_frame_async, write_frame_with_flags}
use selium.Wire.Writes.Once.{write_frame_async-once, write_frame_with_flags-loses, complete}

-- Requests are numbers, and a server doubles them.
abbrev received : ℕ → Option ℕ
received n = some n

abbrev sent_as : ℕ → ℕ
sent_as n = n

abbrev abandoned : List ℕ
abandoned = 7 ∷ 8 ∷ []

abbrev double : ℕ → ℕ
double n = n + n

await_reply-serve_example :
    await_reply_via_waker received
      ((send_all sent_as abandoned new_client).1).next_correlation
      (serve received sent_as double ((send_all sent_as abandoned new_client).0)
        ++ (serve received sent_as double
              ((send_request sent_as 9 ((send_all sent_as abandoned new_client).1)).0 ∷ [])
            ++ []))
      false
    ≡ (ready (ok 18), [])
await_reply-serve_example =
    await_reply-serve sent_as received sent_as received double (λ _. refl) (λ _. refl) abandoned 9
      new_client [] (omega arith) (omega arith)

request_rounds-parks_example :
    (request_rounds received 2 4 5
        (record { unread = (14, 1) ∷ (16, 2) ∷ []; generation = 6; peer_closed = false })
      ≡ (pending, 6, record { unread = (16, 2) ∷ []; generation = 6; peer_closed = false }))
    × (await_reply_via_waker received 2 ((14, 1) ∷ (16, 2) ∷ []) false
        ≡ (ready (decoded (received 16)), []))
request_rounds-parks_example = request_rounds-parks received 2 3 5 1 14 16 [] 6 refl refl

abbrev first_item : Item
first_item = record { payload = 1 ∷ 2 ∷ 3 ∷ []; tag = 7; flags = 1 }

abbrev second_item : Item
second_item = record { payload = 9 ∷ []; tag = 8; flags = 5 }

first_item-IsItem : IsItem first_item
unfolding is_ready
first_item-IsItem = record {
  length_fits = omega arith;
  tag_fits = omega arith;
  flags_fit = omega arith;
  committed = refl;
}

second_item-IsItem : IsItem second_item
unfolding is_ready
second_item-IsItem = record {
  length_fits = omega arith;
  tag_fits = omega arith;
  flags_fit = omega arith;
  committed = refl;
}

abbrev both_items : List ℕ
both_items = encode_all (first_item ∷ second_item ∷ []) []

feed_all-encode_all_example :
    feed_all [] (take 5 both_items ∷ take 20 (drop 5 both_items) ∷ drop 25 both_items ∷ [])
    ≡ (ok (first_item ∷ second_item ∷ []), [])
unfolding encode_all encode Frame.encode
feed_all-encode_all_example =
    feed_all-encode_all (first_item ∷ second_item ∷ [])
      (take 5 both_items ∷ take 20 (drop 5 both_items) ∷ drop 25 both_items ∷ [])
      (first_item-IsItem, (second_item-IsItem, tt)) refl

abbrev blocked : Answers
blocked = record { readiness = ready (ok tt); flush = pending; taken = 2 }

abbrev free : Answers
free = record { readiness = ready (ok tt); flush = ready (ok tt); taken = 0 }

write_frame_async-once_example :
    write_frame_async first_item
      (blocked ∷ blocked ∷ free ∷ [])
      (record { sent = 4 ∷ []; buffered = 5 ∷ []; is_flushing = false })
    ≡ (ready (ok tt), complete (4 ∷ 5 ∷ encode first_item []))
write_frame_async-once_example =
    write_frame_async-once first_item free (omega arith) refl refl (blocked ∷ blocked ∷ []) (4 ∷ [])
      (5 ∷ []) refl

write_frame_with_flags-loses_example :
    ((write_frame_with_flags first_item blocked
        (record { sent = []; buffered = []; is_flushing = false })).0
      ≡ err buffer_full)
    × (write_frame_with_flags second_item free (
          (write_frame_with_flags first_item blocked
            (record { sent = []; buffered = []; is_flushing = false })).1)
        ≡ (ok tt, complete (encode first_item [])))
write_frame_with_flags-loses_example =
    write_frame_with_flags-loses first_item second_item blocked free [] [] (omega arith)
      (omega arith) refl refl refl

poll_all-stuck_example :
    poll_all received
      (40 ∷ 41 ∷ [])
      (record { unread = (5, 0) ∷ []; capacity = some 16; last_generation = 3 })
    ≡ (
      ready (err overwritten) ∷ ready (err overwritten) ∷ [],
      record { unread = (5, 0) ∷ []; capacity = some 16; last_generation = 3 },
    )
poll_all-stuck_example =
    poll_all-stuck received (5, 0) [] 16 3 40 (40 ∷ 41 ∷ []) (omega arith) (omega arith)
      (omega arith, omega arith, (omega arith, omega arith, tt))
