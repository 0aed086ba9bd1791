-- ===== src/Guests/Accountant/Enforced.antt =====
-- guests/accountant/src/lib.rs `author_enforcement` with the quota table of
-- crates/kernel/src/quota.rs and the conferral of guests/bridge/src/lib.rs.
use selium.Base.{
  ℕ, ◌-◌, ◌<◌, String, Bool, true, false, Option, none, some, List, [], ◌∷◌, ◌≡◌, refl, ap, ◌∙◌,
  arith, ltb, if◌then◌else◌, pair_eq, string_eq,
}
use selium.Base.Exec.{err}
use selium.Base.Map.{lookup, lookup-insert, eq_self}
use selium.Abi.Classes.{
  ResourceClass, class_eq, same_class, shared_region, shared_mapping, signal, tcp_listener,
  tcp_stream, udp_socket, durable_log, blob_store, process, activity_log, metering_stream,
  guest_log, host_queue, cpu,
}
use selium.Abi.Grants.{
  Capability, CapabilityGrant, process_lifecycle, shared_memory, network, storage,
  session_lifecycle, activity_read, metering_read, guest_log_read, guest_log_write, delegate_grants,
  system_registration, mint_certificate, quota_write,
}
use selium.Kernel.Error.{quota_exceeded}
use selium.Kernel.Quota.{
  Quotas, QuotaState, set, ceiling, limit_of, entry, state_or, is_platform, try_consume,
}
use selium.Runtime.Delegation.{has_listed, narrow_grants}
use selium.Guests.Accountant.{
  Usage, Account, Enforcement, enforcement_for, all_capabilities, author_quotas, author_narrowing,
}

limit_of_if :
    (b : Bool) (state : QuotaState) (before : Option QuotaState)
    → limit_of (if b then some state else before)
      ≡ (if b then some state.limit else limit_of before)
limit_of_if true state before = refl
limit_of_if false state before = refl

ceiling-set :
    (t : String) (d c : ResourceClass) (limit : ℕ) (q : Quotas)
    → ceiling t c (set t d limit q) ≡ (if same_class d c then some limit else ceiling t c q)
unfolding ceiling set
ceiling-set t d c limit q =
    rw
      (
        lookup-insert (t, d) (t, c) (record { limit = limit; used = (entry (t, d) q).used }) q,
        eq_self t,
      )
      (limit_of_if (same_class d c) (record { limit = limit; used = (entry (t, d) q).used })
        (lookup (t, c) q))

-- The ceiling that an enforcement sets for a class, if any.
abbrev pub ceiling_for : Enforcement → ResourceClass → Option ℕ
ceiling_for e shared_region = some e.memory_quota
ceiling_for e durable_log = some e.storage_quota
ceiling_for e blob_store = some e.storage_quota
ceiling_for e process = some e.process_quota
ceiling_for e cpu = some e.cpu_ceiling
ceiling_for e other = none

abbrev pub or_before : Option ℕ → Option ℕ → Option ℕ
or_before none before = before
or_before (some limit) before = some limit

abbrev pub enforcement_of : Account → Enforcement
enforcement_of account =
    enforcement_for account.plan account.overage account.process_quota account.delinquent

-- After the authoring each class of the tenant has the ceiling of the enforcement, and a class
-- that the enforcement does not name has the ceiling that it had.
pub ceiling-author_quotas :
    (t : String) (account : Account) (c : ResourceClass) (q : Quotas)
    → ceiling t c (author_quotas t account q)
      ≡ or_before (ceiling_for (enforcement_of account) c) (ceiling t c q)
unfolding author_quotas
ceiling-author_quotas t account c q =
    let e : Enforcement = enforcement_of account in
    rw
      (
        ceiling-set t cpu c e.cpu_ceiling,
        ceiling-set t process c e.process_quota,
        ceiling-set t blob_store c e.storage_quota,
        ceiling-set t durable_log c e.storage_quota,
        ceiling-set t shared_region c e.memory_quota,
      )
      (by_class e c (ceiling t c q))
  where
    by_class :
        (e : Enforcement) (c : ResourceClass) (before : Option ℕ)
        → (if same_class cpu c
            then some e.cpu_ceiling
            else if same_class process c
            then some e.process_quota
            else if same_class blob_store c
            then some e.storage_quota
            else if same_class durable_log c
            then some e.storage_quota
            else if same_class shared_region c
            then some e.memory_quota
            else before)
          ≡ or_before (ceiling_for e c) before
    by_class e shared_region before = refl
    by_class e shared_mapping before = refl
    by_class e signal before = refl
    by_class e tcp_listener before = refl
    by_class e tcp_stream before = refl
    by_class e udp_socket before = refl
    by_class e durable_log before = refl
    by_class e blob_store before = refl
    by_class e process before = refl
    by_class e activity_log before = refl
    by_class e metering_stream before = refl
    by_class e guest_log before = refl
    by_class e host_queue before = refl
    by_class e cpu before = refl

zero_limit : (o : Option QuotaState) → limit_of o ≡ some 0 → (state_or o).limit ≡ 0
zero_limit none h = cc
zero_limit (some s) h = grind (arith)

refused :
    (t : String) (c : ResourceClass) (amount : ℕ) (q : Quotas)
    → is_platform t ≡ false
    → 0 < amount
    → ceiling t c q ≡ some 0
    → (try_consume t c amount q).0 ≡ err (quota_exceeded t c)
unfolding try_consume ceiling entry
refused t c amount q named some_amount zero =
    let limit : (state_or (lookup (t, c) q)).limit ≡ 0 = zero_limit (lookup (t, c) q) zero in
    let over : ltb ((state_or (lookup (t, c) q)).limit - (state_or (lookup (t, c) q)).used) amount
        ≡ true =
      ground (arith) in
    rw (named, over) refl

has_listed-all : (c : Capability) → has_listed all_capabilities c ≡ true
unfolding has_listed all_capabilities
has_listed-all process_lifecycle = refl
has_listed-all shared_memory = refl
has_listed-all Capability.signal = refl
has_listed-all network = refl
has_listed-all storage = refl
has_listed-all session_lifecycle = refl
has_listed-all activity_read = refl
has_listed-all metering_read = refl
has_listed-all guest_log_read = refl
has_listed-all guest_log_write = refl
has_listed-all Capability.host_queue = refl
has_listed-all delegate_grants = refl
has_listed-all system_registration = refl
has_listed-all mint_certificate = refl
has_listed-all quota_write = refl

narrow-all : (gs : List CapabilityGrant) → narrow_grants gs all_capabilities ≡ []
unfolding narrow_grants
narrow-all [] = refl
narrow-all (g ∷ gs) = rw (has_listed-all g.capability) (narrow-all gs)

narrow-none : (gs : List CapabilityGrant) → narrow_grants gs [] ≡ gs
unfolding narrow_grants has_listed
narrow-none [] = refl
narrow-none (g ∷ gs) = ap (λ l. g ∷ l) (narrow-none gs)

-- The classes that an enforcement sets a ceiling for.
abbrev pub is_capped : ResourceClass → Bool
is_capped shared_region = true
is_capped durable_log = true
is_capped blob_store = true
is_capped process = true
is_capped cpu = true
is_capped other = false

zeroed :
    (plan overage : Usage) (processes : ℕ) (c : ResourceClass) (before : Option ℕ)
    → is_capped c ≡ true
    → or_before (ceiling_for (enforcement_for plan overage processes true) c) before ≡ some 0
unfolding enforcement_for
zeroed plan overage processes shared_region before h = refl
zeroed plan overage processes durable_log before h = refl
zeroed plan overage processes blob_store before h = refl
zeroed plan overage processes process before h = refl
zeroed plan overage processes cpu before h = refl
zeroed plan overage processes c before h = cc

-- What a delinquent account comes to, once its enforcement is authored: a reservation of some
-- amount of shared memory, storage, processes or instructions for its tenant is refused, whatever
-- the table was, and the narrowing leaves none of the grants that it is subtracted from. The
-- tenant is not the platform.
pub author-delinquent :
    (t : String) (account : Account) (c : ResourceClass) (amount : ℕ) (q : Quotas)
    (gs : List CapabilityGrant)
    → account.delinquent ≡ true
    → is_platform t ≡ false
    → 0 < amount
    → is_capped c ≡ true
    → ((try_consume t c amount (author_quotas t account q)).0 ≡ err (quota_exceeded t c))
      × (narrow_grants gs (author_narrowing account) ≡ [])
unfolding author_narrowing enforcement_for
author-delinquent t account c amount q gs suspended named some_amount capped = (
  refused t c amount (author_quotas t account q) named some_amount (
      ceiling-author_quotas t account c q
      ∙ rw suspended
          (zeroed account.plan account.overage account.process_quota c (ceiling t c q) capped)),
  rw suspended (narrow-all gs),
)

-- An account in good standing keeps every grant.
pub author-good_standing :
    (account : Account) (gs : List CapabilityGrant)
    → account.delinquent ≡ false
    → narrow_grants gs (author_narrowing account) ≡ gs
unfolding author_narrowing enforcement_for
author-good_standing account gs good = rw good (narrow-none gs)
