-- ===== src/Kernel/Quota.antt =====
-- crates/kernel/src/quota.rs `QuotaTable`: the counters that cap what a tenant may allocate. The
-- table is behind a lock, so an operation is one step from a table to a table.
pub mod Counters
pub mod Ceiling
use selium.Base.{
  ℕ, ◌+◌, ◌-◌, String, Bool, true, false, ◌&&◌, Option, none, some, ◌≡◌, ltb, leb, u64_max,
  if◌then◌else◌, Eq, pair_eq, string_eq, ◌==◌, saturating_add,
}
use selium.Base.Map.{Map, lookup, insert, remove}
use selium.Base.Exec.{Result, ok, err}
use selium.Kernel.Error.{Error, quota_exceeded}
use selium.Abi.Classes.{ResourceClass, class_eq}
use selium.Kernel.Error

pub record QuotaState : Type 0 where
  pub limit : ℕ
  pub used : ℕ

-- `QuotaState::default`
abbrev pub unlimited : QuotaState
unlimited = record { limit = u64_max; used = 0 }

abbrev pub Key : Type 0
Key = String × ResourceClass

abbrev pub Quotas : Type 0
Quotas = Map Key QuotaState

abbrev pub state_or : Option QuotaState → QuotaState
state_or none = unlimited
state_or (some state) = state

-- `entry(..).or_default()`
unfoldable pub entry : Key → Quotas → QuotaState
entry key quotas = state_or (lookup key quotas)

abbrev pub is_platform : String → Bool
is_platform tenant = tenant == ""

unfoldable pub set : String → ResourceClass → ℕ → Quotas → Quotas
set tenant class limit quotas =
    insert (tenant, class) (record { limit = limit; used = (entry (tenant, class) quotas).used })
      quotas

unfoldable pub clear : String → ResourceClass → Quotas → Quotas
clear tenant class quotas = remove (tenant, class) quotas

-- `.map(|state| state.limit)`
abbrev pub limit_of : Option QuotaState → Option ℕ
limit_of none = none
limit_of (some state) = some state.limit

-- `lookup`: the ceiling.
unfoldable pub ceiling : String → ResourceClass → Quotas → Option ℕ
ceiling tenant class quotas = limit_of (lookup (tenant, class) quotas)

-- `.map(|state| state.used).unwrap_or(0)`
abbrev pub used_or_zero : Option QuotaState → ℕ
used_or_zero none = 0
used_or_zero (some state) = state.used

-- `used`
unfoldable pub used_by : String → ResourceClass → Quotas → ℕ
used_by tenant class quotas = used_or_zero (lookup (tenant, class) quotas)

-- The counter after a reservation.
abbrev pub charged : QuotaState → ℕ → QuotaState
charged state amount = record { limit = state.limit; used = saturating_add state.used amount }

-- A refused reservation leaves the default entry that `or_default` made.
unfoldable pub try_consume : String → ResourceClass → ℕ → Quotas → Result Error (Unit {0}) × Quotas
try_consume tenant class amount quotas =
    let state : QuotaState = entry (tenant, class) quotas in
    if is_platform tenant
    then (ok tt, quotas)
    else if ltb (state.limit - state.used) amount
    then (err (quota_exceeded tenant class), insert (tenant, class) state quotas)
    else (ok tt, insert (tenant, class) (charged state amount) quotas)

unfoldable pub force_consume : String → ResourceClass → ℕ → Quotas → Quotas
force_consume tenant class amount quotas =
    if is_platform tenant
    then quotas
    else insert (tenant, class) (charged (entry (tenant, class) quotas) amount) quotas

-- `get_mut`: a missing entry stays missing.
abbrev pub lowered : Key → ℕ → Option QuotaState → Quotas → Quotas
lowered key amount none quotas = quotas
lowered key amount (some state) quotas =
    insert key (record { limit = state.limit; used = state.used - amount }) quotas

unfoldable pub release : String → ResourceClass → ℕ → Quotas → Quotas
release tenant class amount quotas =
    if is_platform tenant
    then quotas
    else lowered (tenant, class) amount (lookup (tenant, class) quotas) quotas
