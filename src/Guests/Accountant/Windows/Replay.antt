-- ===== src/Guests/Accountant/Windows/Replay.antt =====
-- guests/accountant/src/lib.rs: the live accounts beside a replay of the ledger.
use selium.Base.{
  ℕ, Bool, true, Option, none, some, List, [], ◌∷◌, ◌++◌, ◌≡◌, refl, ◌∙◌, Bool-cases, inl, inr,
  string_eq,
}
use selium.Guests.Accountant.{LedgerRecord, window}
use selium.Guests.Accountant.Book.{AccountBook, empty_book, rebuild_payloads, replayed}
use selium.Guests.Accountant.Windows.{
  Shared, RollingWindow, MeteringBucket, AccountantControl, control_record, append_record,
  book_record, book_records, roll_window, into_records, roll_taken, roll_due, author_windows,
  author_enforcement, tick, merge_bucket, receive_bucket, apply_policy, apply_control,
  window_complete,
}

-- What reaches the accountant: a minute without a bucket, a bucket, a control.
pub data Event : Type 0 where
  elapsed : Option ℕ → Event
  arrived : Option ℕ → MeteringBucket → Event
  controlled : AccountantControl → Event

module _ {Payload : Type 0} (encode : LedgerRecord → Option Payload)
    (accepts : Payload → Bool) where
  unfoldable pub handle : Event → Shared Payload → Shared Payload
  handle (elapsed now) shared = tick encode accepts now shared
  handle (arrived now bucket) shared = receive_bucket encode accepts now bucket shared
  handle (controlled control) shared = apply_control encode accepts control shared

  unfoldable pub handle_all : List Event → Shared Payload → Shared Payload
  handle_all [] shared = shared
  handle_all (event ∷ events) shared = handle_all events (handle event shared)

module _ {Payload : Type 0} (encode : LedgerRecord → Option Payload)
    (decode : Payload → Option LedgerRecord) (accepts : Payload → Bool)
    (round : (r : LedgerRecord) → (p : Payload) × (encode r ≡ some p) × (decode p ≡ some r))
    (stores : (p : Payload) → accepts p ≡ true) where
  -- The accounts are those that a replay of the ledger rebuilds.
  abbrev pub IsReplay : Shared Payload → Type 0
  IsReplay shared = rebuild_payloads decode shared.ledger empty_book ≡ shared.accounts

  rebuild-append :
      (ps : List Payload) (p : Payload) (book : AccountBook)
      → rebuild_payloads decode (ps ++ p ∷ []) book
        ≡ replayed decode (decode p) (rebuild_payloads decode ps book)
  unfolding rebuild_payloads
  rebuild-append [] p book = refl
  rebuild-append (q ∷ qs) p book = rebuild-append qs p (replayed decode (decode q) book)

  book_record-IsReplay :
      (r : LedgerRecord) (shared : Shared Payload)
      → IsReplay shared
      → IsReplay (book_record encode accepts r shared)
  unfolding book_record append_record
  book_record-IsReplay r shared h =
      let (p, encoded, decoded) = round r in
      rw (encoded, stores p) (rebuild-append shared.ledger p empty_book ∙ rw (decoded, h) refl)

  book_records-IsReplay :
      (rs : List LedgerRecord) (shared : Shared Payload)
      → IsReplay shared
      → IsReplay (book_records encode accepts rs shared)
  unfolding book_records
  book_records-IsReplay [] shared h = h
  book_records-IsReplay (r ∷ rs) shared h =
      book_records-IsReplay rs (book_record encode accepts r shared)
        (book_record-IsReplay r shared h)

  author_windows-IsReplay :
      (rs : List LedgerRecord) (shared : Shared Payload)
      → IsReplay shared
      → IsReplay (author_windows encode accepts rs shared)
  unfolding author_windows author_enforcement
  author_windows-IsReplay [] shared h = h
  author_windows-IsReplay (window t s u o ∷ rs) shared h =
      author_windows-IsReplay rs (author_enforcement t shared) h
  author_windows-IsReplay (other ∷ rs) shared h = author_windows-IsReplay rs shared h

  roll_taken-IsReplay :
      (now : Option ℕ) (w : Option RollingWindow) (shared : Shared Payload)
      → IsReplay shared
      → IsReplay (roll_taken encode accepts now w shared).1
  unfolding roll_window
  roll_taken-IsReplay now none shared h = h
  roll_taken-IsReplay now (some w) shared h = elim (Bool-cases (window_complete now w)) [
    | inl complete ↦ rw complete (
        book_records-IsReplay (into_records w shared.accounts.accounts)
          (record shared { window = none }) h)
    | inr running ↦ rw running h
  ]

  tick-IsReplay :
      (now : Option ℕ) (shared : Shared Payload)
      → IsReplay shared
      → IsReplay (tick encode accepts now shared)
  unfolding tick roll_due
  tick-IsReplay now shared h =
      author_windows-IsReplay ((roll_due encode accepts now shared).0)
        ((roll_due encode accepts now shared).1) (roll_taken-IsReplay now shared.window shared h)

  handle-IsReplay :
      (event : Event) (shared : Shared Payload)
      → IsReplay shared
      → IsReplay (handle encode accepts event shared)
  unfolding handle receive_bucket merge_bucket apply_control apply_policy author_enforcement
  handle-IsReplay (elapsed now) shared h = tick-IsReplay now shared h
  handle-IsReplay (arrived now bucket) shared h = tick-IsReplay now shared h
  handle-IsReplay (controlled control) shared h =
      book_record-IsReplay (control_record control) shared h

  -- Where each record is encoded to a payload that decodes to it and the log takes every payload:
  -- from accounts that a replay of the ledger rebuilds, after any events in any order the accounts
  -- are those that a replay of the ledger then rebuilds.
  pub handle_all-IsReplay :
      (events : List Event) (shared : Shared Payload)
      → IsReplay shared
      → IsReplay (handle_all encode accepts events shared)
  unfolding handle_all
  handle_all-IsReplay [] shared h = h
  handle_all-IsReplay (event ∷ events) shared h =
      handle_all-IsReplay events (handle encode accepts event shared)
        (handle-IsReplay event shared h)
