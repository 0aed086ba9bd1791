-- ===== src/Guests/Accountant/Book.antt =====
-- guests/accountant/src/lib.rs `AccountBook`: the accounts as a projection of the durable ledger.
use selium.Base.{ℕ, String, Option, none, some, List, [], ◌∷◌, ◌++◌, string_eq}
use selium.Base.Map.{Map, lookup, insert}
use selium.Guests.Accountant.{
  Usage, LedgerRecord, window, set_plan, set_overage, restored, set_process_quota, Account,
  account_or, apply_to,
}

abbrev pub History : Type 0
History = List (ℕ × Usage × Usage)

pub record AccountBook : Type 0 where
  pub accounts : Map String Account
  pub history : Map String History

abbrev pub empty_book : AccountBook
empty_book = record { accounts = []; history = [] }

abbrev pub tenant_of : LedgerRecord → String
tenant_of (window tenant start usage overage) = tenant
tenant_of (set_plan tenant plan) = tenant
tenant_of (set_overage tenant overage) = tenant
tenant_of (LedgerRecord.delinquent tenant) = tenant
tenant_of (restored tenant) = tenant
tenant_of (set_process_quota tenant processes) = tenant

abbrev pub history_or : Option History → History
history_or none = []
history_or (some history) = history

-- A window is pushed onto the tenant's history.
abbrev pub remember : LedgerRecord → Map String History → Map String History
remember (window tenant start usage overage) history =
    insert tenant (history_or (lookup tenant history) ++ (start, usage, overage) ∷ []) history
remember other history = history

-- `AccountBook::apply_record`
unfoldable pub apply_record : LedgerRecord → AccountBook → AccountBook
apply_record record' book = record {
  accounts =
      insert (tenant_of record')
        (apply_to record' (account_or (lookup (tenant_of record') book.accounts))) book.accounts;
  history = remember record' book.history;
}

unfoldable pub apply_records : List LedgerRecord → AccountBook → AccountBook
apply_records [] book = book
apply_records (r ∷ rs) book = apply_records rs (apply_record r book)

-- The payloads and `decode_rkyv` are those of the library that the program serialises with.
module _ {Payload : Type 0} (decode : Payload → Option LedgerRecord) where
  abbrev pub replayed : Option LedgerRecord → AccountBook → AccountBook
  replayed none book = book
  replayed (some r) book = apply_record r book

  -- An undecodable payload is skipped.
  unfoldable pub rebuild_payloads : List Payload → AccountBook → AccountBook
  rebuild_payloads [] book = book
  rebuild_payloads (payload ∷ payloads) book =
      rebuild_payloads payloads (replayed (decode payload) book)
