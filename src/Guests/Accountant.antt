-- ===== src/Guests/Accountant.antt =====
-- guests/accountant/src/lib.rs: usage, accounts and the enforcement that follows from an account.
pub mod Book
pub mod Windows
pub mod Samples
pub mod Enforced
use selium.Base.{
  saturating_add, ℕ, ◌+◌, ◌-◌, ◌*◌, max, min, String, Bool, true, false, ◌||◌, Option, none, some,
  List, [], ◌∷◌, ◌≡◌, ltb, u64_max, if◌then◌else◌, Eq, string_eq, ◌==◌,
}
use selium.Base.Map.{Map, lookup, insert}
use selium.Abi.Classes.{
  ResourceClass, class_eq, shared_region, durable_log, blob_store, process, cpu,
}
use selium.Abi.Grants.{
  Capability, process_lifecycle, shared_memory, signal, network, storage, session_lifecycle,
  activity_read, metering_read, guest_log_read, guest_log_write, host_queue, delegate_grants,
  system_registration, mint_certificate, quota_write,
}
use selium.Kernel.Quota.{Quotas, set}

pub record Usage : Type 0 where
  pub cpu_instructions : ℕ
  pub memory_bytes : ℕ
  pub storage_bytes : ℕ
  pub bandwidth_bytes : ℕ

-- `Usage::default`
abbrev pub no_usage : Usage
no_usage = record { cpu_instructions = 0; memory_bytes = 0; storage_bytes = 0; bandwidth_bytes = 0 }

-- The counters are added, saturating; the gauges keep their peak.
unfoldable pub add_counters : Usage → Usage → Usage
add_counters u other = record u {
  cpu_instructions = saturating_add u.cpu_instructions other.cpu_instructions;
  bandwidth_bytes = saturating_add u.bandwidth_bytes other.bandwidth_bytes;
}

unfoldable pub merge_gauges : Usage → Usage → Usage
merge_gauges u other = record u {
  memory_bytes = max u.memory_bytes other.memory_bytes;
  storage_bytes = max u.storage_bytes other.storage_bytes;
}

unfoldable pub over : Usage → Usage → Usage
over u ceiling = record {
  cpu_instructions = u.cpu_instructions - ceiling.cpu_instructions;
  memory_bytes = u.memory_bytes - ceiling.memory_bytes;
  storage_bytes = u.storage_bytes - ceiling.storage_bytes;
  bandwidth_bytes = u.bandwidth_bytes - ceiling.bandwidth_bytes;
}

unfoldable pub exceeds : Usage → Usage → Bool
exceeds u ceiling =
    ltb ceiling.cpu_instructions u.cpu_instructions
    || (ltb ceiling.memory_bytes u.memory_bytes
        || (ltb ceiling.storage_bytes u.storage_bytes
            || ltb ceiling.bandwidth_bytes u.bandwidth_bytes))

unfoldable pub add_ceilings : Usage → Usage → Usage
add_ceilings plan overage = record {
  cpu_instructions = saturating_add plan.cpu_instructions overage.cpu_instructions;
  memory_bytes = saturating_add plan.memory_bytes overage.memory_bytes;
  storage_bytes = saturating_add plan.storage_bytes overage.storage_bytes;
  bandwidth_bytes = saturating_add plan.bandwidth_bytes overage.bandwidth_bytes;
}

pub data LedgerRecord : Type 0 where
  window : String → ℕ → Usage → Usage → LedgerRecord
  set_plan : String → Usage → LedgerRecord
  set_overage : String → Usage → LedgerRecord
  delinquent restored : String → LedgerRecord
  set_process_quota : String → ℕ → LedgerRecord

pub data AccountState : Type 0 where
  paid in_overage at_budget delinquent : AccountState

pub record Account : Type 0 where
  pub plan : Usage
  pub overage : Usage
  pub process_quota : ℕ
  pub delinquent : Bool
  pub last_usage : Usage

abbrev pub default_process_quota : ℕ
default_process_quota = 100

-- `Account::default`
abbrev pub new_account : Account
new_account = record {
  plan = no_usage;
  overage = no_usage;
  process_quota = default_process_quota;
  delinquent = false;
  last_usage = no_usage;
}

unfoldable pub hard_ceiling : Account → Usage
unfolding add_ceilings
hard_ceiling account = add_ceilings account.plan account.overage

unfoldable pub state : Account → AccountState
unfolding hard_ceiling
state account =
    if account.delinquent
    then AccountState.delinquent
    else if exceeds account.last_usage (hard_ceiling account)
    then at_budget
    else if exceeds account.last_usage account.plan
    then in_overage
    else paid

-- `Account::apply_record`
unfoldable pub apply_to : LedgerRecord → Account → Account
apply_to (window tenant start usage overage) account = record account { last_usage = usage }
apply_to (set_plan tenant plan) account = record account { plan = plan }
apply_to (set_overage tenant overage) account = record account { overage = overage }
apply_to (set_process_quota tenant processes) account = record account { process_quota = processes }
apply_to (LedgerRecord.delinquent tenant) account = record account { delinquent = true }
apply_to (restored tenant) account = record account { delinquent = false }

pub record Enforcement : Type 0 where
  pub cpu_ceiling : ℕ
  pub memory_quota : ℕ
  pub storage_quota : ℕ
  pub process_quota : ℕ
  pub narrowing : List Capability

unfoldable pub all_capabilities : List Capability
all_capabilities =
    process_lifecycle ∷ shared_memory ∷ signal ∷ network ∷ storage ∷ session_lifecycle
    ∷ activity_read ∷ metering_read ∷ guest_log_read ∷ guest_log_write ∷ host_queue
    ∷ delegate_grants ∷ system_registration ∷ mint_certificate ∷ quota_write ∷ []

unfoldable pub enforcement_for : Usage → Usage → ℕ → Bool → Enforcement
unfolding add_ceilings
enforcement_for plan overage process_quota is_delinquent =
    let hard : Usage = add_ceilings plan overage in
    if is_delinquent
    then record {
      cpu_ceiling = 0;
      memory_quota = 0;
      storage_quota = 0;
      process_quota = 0;
      narrowing = all_capabilities;
    }
    else record {
      cpu_ceiling = hard.cpu_instructions;
      memory_quota = hard.memory_bytes;
      storage_quota = hard.storage_bytes;
      process_quota = process_quota;
      narrowing = [];
    }

-- `get(..).cloned().unwrap_or_default()`
abbrev pub account_or : Option Account → Account
account_or none = new_account
account_or (some account) = account

-- `author_enforcement`, its quotas: each is a host call that sets a ceiling of the kernel's table.
unfoldable pub author_quotas : String → Account → Quotas → Quotas
author_quotas tenant account quotas =
    let e : Enforcement =
      enforcement_for account.plan account.overage account.process_quota account.delinquent in
    set tenant cpu e.cpu_ceiling (
      set tenant process e.process_quota (
        set tenant blob_store e.storage_quota (
          set tenant durable_log e.storage_quota (set tenant shared_region e.memory_quota quotas))))

-- The capabilities that it publishes for the tenant.
unfoldable pub author_narrowing : Account → List Capability
author_narrowing account =
    let e : Enforcement =
      enforcement_for account.plan account.overage account.process_quota account.delinquent in
    e.narrowing
