-- ===== src/Guests/Accountant/Windows.antt =====
-- guests/accountant/src/lib.rs `RollingWindow` and `Shared`: the buckets of a minute, the ledger and
-- the controls. A host call that sets a quota, and the publication of a narrowing, go well.
pub mod Replay
pub mod Totals
pub mod Lost
use selium.Base.{
  ℕ, ◌+◌, ◌-◌, ◌/◌, ◌%◌, ◌^◌, String, Bool, true, false, Option, none, some, List, [], ◌∷◌, ◌++◌,
  ◌≡◌, leb, nat_beq, if◌then◌else◌, Eq, string_eq, ◌==◌,
}
use selium.Base.Map.{Map, lookup, insert}
use selium.Abi.Grants.{Capability}
use selium.Kernel.Quota.{Quotas}
use selium.Guests.Accountant.{
  Usage, no_usage, add_counters, merge_gauges, over, LedgerRecord, window, Account, account_or,
  author_quotas, author_narrowing,
}
use selium.Guests.Accountant.Book.{AccountBook, apply_record}

-- `MeteringBucket` of crates/service
pub record MeteringBucket : Type 0 where
  pub tenant : String
  pub cpu_instructions : ℕ
  pub memory_bytes : ℕ
  pub storage_bytes : ℕ
  pub bandwidth_bytes : ℕ
  pub published_unix_s : ℕ

pub record RollingWindow : Type 0 where
  pub start_s : ℕ
  pub usage : Map String Usage

abbrev pub usage_or : Option Usage → Usage
usage_or none = no_usage
usage_or (some usage) = usage

abbrev pub counters_of : MeteringBucket → Usage
counters_of bucket = record no_usage {
  cpu_instructions = bucket.cpu_instructions;
  bandwidth_bytes = bucket.bandwidth_bytes;
}

abbrev pub gauges_of : MeteringBucket → Usage
gauges_of bucket = record no_usage {
  memory_bytes = bucket.memory_bytes;
  storage_bytes = bucket.storage_bytes;
}

-- `RollingWindow::merge`
unfoldable pub merge : MeteringBucket → RollingWindow → RollingWindow
merge bucket w = record w {
  usage =
      insert bucket.tenant
        (merge_gauges (add_counters (usage_or (lookup bucket.tenant w.usage)) (counters_of bucket))
          (gauges_of bucket))
        w.usage;
}

-- `into_records`, for the entries from some point of the walk on.
unfoldable pub records_of : ℕ → Map String Account → Map String Usage → List LedgerRecord
records_of start_s accounts [] = []
records_of start_s accounts ((tenant, usage) ∷ entries) =
    window tenant start_s usage (over usage (account_or (lookup tenant accounts)).plan)
    ∷ records_of start_s accounts entries

unfoldable pub into_records : RollingWindow → Map String Account → List LedgerRecord
unfolding records_of
into_records w accounts = records_of w.start_s accounts w.usage

abbrev pub window_secs : ℕ
window_secs = 60

unfoldable pub bucket_second : MeteringBucket → ℕ
bucket_second bucket = bucket.published_unix_s - bucket.published_unix_s % window_secs

-- The clock may fail.
unfoldable pub window_complete : Option ℕ → RollingWindow → Bool
window_complete none w = false
window_complete (some nanos) w = leb (w.start_s + window_secs) (nanos / 10 ^ 9)

-- Beside the fields, the payloads of the durable log, the kernel's quotas, and the narrowing table.
pub record Shared (Payload : Type 0) : Type 0 where
  pub accounts : AccountBook
  pub ledger : List Payload
  pub quotas : Quotas
  pub narrowing : Map String (List Capability)
  pub window : Option RollingWindow

abbrev pub open_window : Option RollingWindow → ℕ → RollingWindow
open_window none start_s = record { start_s = start_s; usage = [] }
open_window (some w) start_s =
    if nat_beq w.start_s start_s then w else record { start_s = start_s; usage = [] }

-- A window of another minute is replaced.
unfoldable pub merge_bucket : {Payload : Type 0} → MeteringBucket → Shared Payload → Shared Payload
unfolding merge bucket_second
merge_bucket bucket shared = record shared {
  window = some (merge bucket (open_window shared.window (bucket_second bucket)));
}

unfoldable pub author_enforcement : {Payload : Type 0} → String → Shared Payload → Shared Payload
author_enforcement tenant shared =
    let account : Account = account_or (lookup tenant shared.accounts.accounts) in
    record shared {
      quotas = author_quotas tenant account shared.quotas;
      narrowing = insert tenant (author_narrowing account) shared.narrowing;
    }

-- `AccountantControl` of crates/service
pub data AccountantControl : Type 0 where
  set_plan set_overage : String → Usage → AccountantControl
  mark_delinquent mark_restored : String → AccountantControl
  set_process_quota : String → ℕ → AccountantControl

abbrev pub control_tenant : AccountantControl → String
control_tenant (AccountantControl.set_plan tenant plan) = tenant
control_tenant (AccountantControl.set_overage tenant overage) = tenant
control_tenant (mark_delinquent tenant) = tenant
control_tenant (mark_restored tenant) = tenant
control_tenant (AccountantControl.set_process_quota tenant processes) = tenant

abbrev pub control_record : AccountantControl → LedgerRecord
control_record (AccountantControl.set_plan tenant plan) = LedgerRecord.set_plan tenant plan
control_record (AccountantControl.set_overage tenant overage) =
    LedgerRecord.set_overage tenant overage
control_record (mark_delinquent tenant) = LedgerRecord.delinquent tenant
control_record (mark_restored tenant) = LedgerRecord.restored tenant
control_record (AccountantControl.set_process_quota tenant processes) =
    LedgerRecord.set_process_quota tenant processes

-- The payloads and `encode_rkyv` are those of the library that the program serialises with, and
-- `accepts` is whether the host appends a payload.
module _ {Payload : Type 0} (encode : LedgerRecord → Option Payload)
    (accepts : Payload → Bool) where
  abbrev pub appended : Option Payload → List Payload → List Payload
  appended none ledger = ledger
  appended (some payload) ledger = if accepts payload then ledger ++ payload ∷ [] else ledger

  -- A failure is only warned about.
  unfoldable pub append_record : LedgerRecord → Shared Payload → Shared Payload
  append_record r shared = record shared { ledger = appended (encode r) shared.ledger }

  -- One record of `roll_window`, and the start of `apply_policy`.
  unfoldable pub book_record : LedgerRecord → Shared Payload → Shared Payload
  unfolding append_record
  book_record r shared =
      let stored : Shared Payload = append_record r shared in
      record stored { accounts = apply_record r stored.accounts }

  unfoldable pub book_records : List LedgerRecord → Shared Payload → Shared Payload
  book_records [] shared = shared
  book_records (r ∷ rs) shared = book_records rs (book_record r shared)

  unfoldable pub roll_window : RollingWindow → Shared Payload → List LedgerRecord × Shared Payload
  unfolding into_records book_records
  roll_window w shared =
      let records : List LedgerRecord = into_records w shared.accounts.accounts in
      (records, book_records records shared)

  abbrev pub roll_taken :
      Option ℕ → Option RollingWindow → Shared Payload → List LedgerRecord × Shared Payload
  roll_taken now none shared = ([], shared)
  roll_taken now (some w) shared =
      if window_complete now w
      then roll_window w (record shared { window = none })
      else ([], shared)

  unfoldable pub roll_due : Option ℕ → Shared Payload → List LedgerRecord × Shared Payload
  unfolding window_complete
  roll_due now shared = roll_taken now shared.window shared

  -- The enforcement of the tenants of the rolled windows.
  unfoldable pub author_windows : List LedgerRecord → Shared Payload → Shared Payload
  unfolding author_enforcement
  author_windows [] shared = shared
  author_windows (window tenant start usage overage ∷ rs) shared =
      author_windows rs (author_enforcement tenant shared)
  author_windows (other ∷ rs) shared = author_windows rs shared

  -- One round of the rolling loop without a bucket, and the handling of a bucket.
  unfoldable pub tick : Option ℕ → Shared Payload → Shared Payload
  unfolding roll_due author_windows
  tick now shared = let (records, rolled) = roll_due now shared in author_windows records rolled

  unfoldable pub receive_bucket : Option ℕ → MeteringBucket → Shared Payload → Shared Payload
  unfolding tick merge_bucket
  receive_bucket now bucket shared = merge_bucket bucket (tick now shared)

  unfoldable pub apply_policy : String → LedgerRecord → Shared Payload → Shared Payload
  unfolding book_record author_enforcement
  apply_policy tenant r shared = author_enforcement tenant (book_record r shared)

  unfoldable pub apply_control : AccountantControl → Shared Payload → Shared Payload
  unfolding apply_policy
  apply_control control shared =
      apply_policy (control_tenant control) (control_record control) shared
