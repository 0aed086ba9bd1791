-- ===== src/Guests/Accountant/Windows/Lost.antt =====
-- guests/accountant/src/lib.rs `merge_bucket`: a window that a bucket of another minute replaces.
use selium.Base.{
  ℕ, Bool, false, Option, none, some, List, [], ◌∷◌, ◌++◌, ◌≡◌, ◌≢◌, refl, ap, ◌∙◌, arith, nat_beq,
  nat_beq_refl,
}
use selium.Guests.Accountant.{LedgerRecord}
use selium.Guests.Accountant.Windows.{
  MeteringBucket, RollingWindow, Shared, bucket_second, window_complete, merge, merge_bucket,
  roll_due, author_windows, tick, receive_bucket,
}
use selium.Guests.Accountant.Windows.Totals.{merge_all}
use selium.Guests.Accountant.Windows.Replay.{Event, arrived, handle, handle_all}

-- Buckets of one minute, each of which arrives before the minute is over for the clock.
abbrev pub AreEarly : ℕ → List (Option ℕ × MeteringBucket) → Type 0
AreEarly m [] = Unit
AreEarly m ((now, bucket) ∷ arrivals) =
    (bucket_second bucket ≡ m)
    × (window_complete now (record { start_s = m; usage = [] }) ≡ false)
    × AreEarly m arrivals

abbrev pub arrivals_of : List (Option ℕ × MeteringBucket) → List Event
arrivals_of [] = []
arrivals_of ((now, bucket) ∷ arrivals) = arrived now bucket ∷ arrivals_of arrivals

abbrev pub buckets_of : List (Option ℕ × MeteringBucket) → List MeteringBucket
buckets_of [] = []
buckets_of ((now, bucket) ∷ arrivals) = bucket ∷ buckets_of arrivals

-- Whether a window is complete depends on its start alone.
window_complete_start :
    (now : Option ℕ) (w : RollingWindow)
    → window_complete now w ≡ window_complete now (record { start_s = w.start_s; usage = [] })
unfolding window_complete
window_complete_start none w = refl
window_complete_start (some nanos) w = refl

module _ {Payload : Type 0} (encode : LedgerRecord → Option Payload)
    (accepts : Payload → Bool) where
  first_bucket :
      (now : Option ℕ) (bucket : MeteringBucket) (shared : Shared Payload)
      → shared.window ≡ none
      → receive_bucket encode accepts now bucket shared ≡ record shared {
        window = some (merge bucket (record { start_s = bucket_second bucket; usage = [] }));
      }
  unfolding receive_bucket tick roll_due merge_bucket author_windows
  first_bucket now bucket shared closed = rw closed refl

  same_minute :
      (now : Option ℕ) (bucket : MeteringBucket) (w : RollingWindow) (shared : Shared Payload)
      → window_complete now w ≡ false
      → bucket_second bucket ≡ w.start_s
      → receive_bucket encode accepts now bucket (record shared { window = some w })
        ≡ record shared { window = some (merge bucket w) }
  unfolding receive_bucket tick roll_due merge_bucket author_windows
  same_minute now bucket w shared running same = rw (running, same, nat_beq_refl w.start_s) refl

  other_minute :
      (now : Option ℕ) (bucket : MeteringBucket) (w : RollingWindow) (shared : Shared Payload)
      → shared.window ≡ none
      → window_complete now w ≡ false
      → bucket_second bucket ≢ w.start_s
      → receive_bucket encode accepts now bucket (record shared { window = some w })
        ≡ receive_bucket encode accepts now bucket shared
  unfolding receive_bucket tick roll_due merge_bucket author_windows
  other_minute now bucket w shared closed running other =
      let differs : nat_beq w.start_s (bucket_second bucket) ≡ false = ground arith in
      rw (running, differs, closed) refl

  same_minute_all :
      (arrivals : List (Option ℕ × MeteringBucket)) (w : RollingWindow) (shared : Shared Payload)
      → AreEarly w.start_s arrivals
      → handle_all encode accepts (arrivals_of arrivals) (record shared { window = some w })
        ≡ record shared { window = some (merge_all (buckets_of arrivals) w) }
  unfolding handle handle_all merge_all merge
  same_minute_all [] w shared early = refl
  same_minute_all ((now, bucket) ∷ arrivals) w shared (same, running, early) =
      ap (handle_all encode accepts (arrivals_of arrivals))
        (same_minute now bucket w shared (window_complete_start now w ∙ running) same)
      ∙ same_minute_all arrivals (merge bucket w) shared early

  append_events :
      (before after : List Event) (shared : Shared Payload)
      → handle_all encode accepts (before ++ after) shared
        ≡ handle_all encode accepts after (handle_all encode accepts before shared)
  unfolding handle_all
  append_events [] after shared = refl
  append_events (event ∷ before) after shared =
      append_events before after (handle encode accepts event shared)

  start-merge_all :
      (buckets : List MeteringBucket) (w : RollingWindow)
      → (merge_all buckets w).start_s ≡ w.start_s
  unfolding merge_all merge
  start-merge_all [] w = refl
  start-merge_all (bucket ∷ buckets) w = start-merge_all buckets (merge bucket w)

  collected :
      (arrivals : List (Option ℕ × MeteringBucket)) (now : Option ℕ) (bucket : MeteringBucket)
      (shared : Shared Payload)
      → shared.window ≡ none
      → AreEarly (bucket_second bucket) arrivals
      → handle_all encode accepts (arrivals_of ((now, bucket) ∷ arrivals)) shared ≡ record shared {
        window = some (
            merge_all
              (bucket ∷ buckets_of arrivals)
              (record { start_s = bucket_second bucket; usage = [] }));
      }
  unfolding handle handle_all merge_all merge
  collected arrivals now bucket shared closed early =
      ap (handle_all encode accepts (arrivals_of arrivals)) (first_bucket now bucket shared closed)
      ∙ same_minute_all arrivals
          (merge bucket (record { start_s = bucket_second bucket; usage = [] })) shared early

  -- Where no window is open, buckets of one minute that arrive before the minute is over change
  -- nothing but the window, which holds what all of them report together. When then, before the
  -- minute is over, a bucket of another minute arrives, everything that follows, whatever it is, goes
  -- as if those buckets had never arrived: they reach neither the ledger nor the accounts.
  pub handle_all-loses :
      (arrivals : List (Option ℕ × MeteringBucket)) (now now' : Option ℕ)
      (first other : MeteringBucket) (events : List Event) (shared : Shared Payload)
      → shared.window ≡ none
      → AreEarly (bucket_second first) arrivals
      → window_complete now' (record { start_s = bucket_second first; usage = [] }) ≡ false
      → bucket_second other ≢ bucket_second first
      → (handle_all encode accepts (arrivals_of ((now, first) ∷ arrivals)) shared ≡ record shared {
        window = some (
            merge_all
              (first ∷ buckets_of arrivals)
              (record { start_s = bucket_second first; usage = [] }));
      })
        × (handle_all encode accepts
              (arrivals_of ((now, first) ∷ arrivals) ++ arrived now' other ∷ events)
              shared
            ≡ handle_all encode accepts (arrived now' other ∷ events) shared)
  unfolding handle handle_all
  handle_all-loses arrivals now now' first other events shared closed early running elsewhere =
      let w : RollingWindow = record { start_s = bucket_second first; usage = [] } in
      let all : RollingWindow = merge_all (first ∷ buckets_of arrivals) w in
      let start : all.start_s ≡ bucket_second first =
        start-merge_all (first ∷ buckets_of arrivals) w in
      let open_still : window_complete now' all ≡ false =
        window_complete_start now' all
        ∙ ap (λ s. window_complete now' (record { start_s = s; usage = [] })) start
        ∙ running in
      let before = collected arrivals now first shared closed early in
      (
        before,
        append_events (arrivals_of ((now, first) ∷ arrivals)) (arrived now' other ∷ events) shared
            ∙ ap (handle_all encode accepts (arrived now' other ∷ events)) before
            ∙ ap (handle_all encode accepts events) (
                other_minute now' other all shared closed open_still
                  (λ same. elsewhere (same ∙ start))),
      )
