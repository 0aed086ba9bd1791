-- ===== src/Kernel/Storage.antt =====
-- crates/kernel/src/storage.rs `StorageRegistry`: durable logs and blob stores by local handles.
-- The digest of SHA-256 is a parameter.
pub mod Logs
pub mod Blobs
use Prim.Native.String.{◌++◌ as str_append}
use selium.Base.{
  ℕ, ◌+◌, ◌*◌, ◌/◌, ◌%◌, String, Bool, true, false, ◌&&◌, ◌||◌, not, Option, none, some, List, [],
  ◌∷◌, ◌++◌, ◌≡◌, length, take, leb, nat_beq, get_or, if◌then◌else◌, Eq, nat_eq, string_eq, ◌==◌,
}
use selium.Base.Map.{Map, lookup, insert, remove}
use selium.Base.Exec.{Exec, Result, ok, err, ok_or, pure, raise, lift, gets, modify, ◌>>=◌, ◌>>◌}
use selium.Kernel.Error.{Error, not_found}

pub record StorageRecord : Type 0 where
  pub sequence : ℕ
  pub timestamp_ms : ℕ
  pub headers : List (String × String)
  pub payload : List ℕ

pub record DurableLogState : Type 0 where
  pub name : String
  pub next_sequence : ℕ
  pub records : List StorageRecord
  pub checkpoints : Map String ℕ

pub record BlobStoreState : Type 0 where
  pub name : String
  pub blobs : Map String (List ℕ)
  pub manifests : Map String String

pub record StorageRegistry : Type 0 where
  pub durable_logs_by_shared : Map ℕ DurableLogState
  pub local_logs : Map ℕ ℕ
  pub blob_stores_by_shared : Map ℕ BlobStoreState
  pub local_blob_stores : Map ℕ ℕ

-- `DurableLogDescriptor` and `BlobStoreDescriptor`
pub record Descriptor : Type 0 where
  pub local_id : ℕ
  pub shared_id : ℕ
  pub name : String

abbrev pub Op : Type 0 → Type 0
Op A = Exec StorageRegistry Error A

abbrev pub with_logs : Map ℕ DurableLogState → Map ℕ ℕ → StorageRegistry → StorageRegistry
with_logs logs handles r = record {
  durable_logs_by_shared = logs;
  local_logs = handles;
  blob_stores_by_shared = r.blob_stores_by_shared;
  local_blob_stores = r.local_blob_stores;
}

abbrev pub with_stores : Map ℕ BlobStoreState → Map ℕ ℕ → StorageRegistry → StorageRegistry
with_stores stores handles r = record {
  durable_logs_by_shared = r.durable_logs_by_shared;
  local_logs = r.local_logs;
  blob_stores_by_shared = stores;
  local_blob_stores = handles;
}

-- `iter().find(..)` by name.
unfoldable pub find_log : String → Map ℕ DurableLogState → Option ℕ
find_log name [] = none
find_log name ((shared, log) ∷ logs) = if log.name == name then some shared else find_log name logs

unfoldable pub find_store : String → Map ℕ BlobStoreState → Option ℕ
find_store name [] = none
find_store name ((shared, store) ∷ stores) =
    if store.name == name then some shared else find_store name stores

abbrev pub empty_log : String → DurableLogState
empty_log name = record { name = name; next_sequence = 1; records = []; checkpoints = [] }

abbrev pub empty_store : String → BlobStoreState
empty_store name = record { name = name; blobs = []; manifests = [] }

-- The shared id and the logs after `open_log` looked for the name; `fresh` is the id that
-- `next_shared_id` gives.
abbrev pub log_found : ℕ → String → Option ℕ → Map ℕ DurableLogState → ℕ × Map ℕ DurableLogState
log_found fresh name (some shared) logs = (shared, logs)
log_found fresh name none logs = (fresh, insert fresh (empty_log name) logs)

unfoldable pub open_log : ℕ → ℕ → String → StorageRegistry → Descriptor × StorageRegistry
open_log local fresh name r =
    let found =
      log_found fresh name (find_log name r.durable_logs_by_shared) r.durable_logs_by_shared in
    (
      record { local_id = local; shared_id = found.0; name = name },
      with_logs (found.1) (insert local (found.0) r.local_logs) r,
    )

abbrev pub store_found : ℕ → String → Option ℕ → Map ℕ BlobStoreState → ℕ × Map ℕ BlobStoreState
store_found fresh name (some shared) stores = (shared, stores)
store_found fresh name none stores = (fresh, insert fresh (empty_store name) stores)

unfoldable pub open_blob_store : ℕ → ℕ → String → StorageRegistry → Descriptor × StorageRegistry
open_blob_store local fresh name r =
    let found =
      store_found fresh name (find_store name r.blob_stores_by_shared) r.blob_stores_by_shared in
    (
      record { local_id = local; shared_id = found.0; name = name },
      with_stores (found.1) (insert local (found.0) r.local_blob_stores) r,
    )

unfoldable pub log_shared_id : ℕ → Op ℕ
log_shared_id local r = (ok_or (lookup local r.local_logs) not_found, r)

unfoldable pub blob_store_shared_id : ℕ → Op ℕ
blob_store_shared_id local r = (ok_or (lookup local r.local_blob_stores) not_found, r)

-- `get` and `get_mut` on the shared maps.
unfoldable pub log_state : ℕ → Op DurableLogState
log_state shared r = (ok_or (lookup shared r.durable_logs_by_shared) not_found, r)

unfoldable pub store_state : ℕ → Op BlobStoreState
store_state shared r = (ok_or (lookup shared r.blob_stores_by_shared) not_found, r)

unfoldable pub put_log : ℕ → DurableLogState → StorageRegistry → StorageRegistry
put_log shared log r = with_logs (insert shared log r.durable_logs_by_shared) r.local_logs r

unfoldable pub put_store : ℕ → BlobStoreState → StorageRegistry → StorageRegistry
put_store shared store r =
    with_stores (insert shared store r.blob_stores_by_shared) r.local_blob_stores r

abbrev pub appended : ℕ → List (String × String) → List ℕ → DurableLogState → DurableLogState
appended timestamp_ms headers payload log = record {
  name = log.name;
  next_sequence = log.next_sequence + 1;
  records =
      log.records
      ++ (record {
        sequence = log.next_sequence;
        timestamp_ms = timestamp_ms;
        headers = headers;
        payload = payload;
      }
          ∷ []);
  checkpoints = log.checkpoints;
}

-- The sequence is a `u64`, and an append that makes it overflow needs 2 ^ 64 records before it.
unfoldable pub append_log : ℕ → ℕ → List (String × String) → List ℕ → Op ℕ
append_log local timestamp_ms headers payload = do
  shared ← log_shared_id local
  log ← log_state shared
  modify (put_log shared (appended timestamp_ms headers payload log))
  pure log.next_sequence

-- `from_sequence.is_none_or(..)`
abbrev pub starts_by : Option ℕ → ℕ → Bool
starts_by none sequence = true
starts_by (some from) sequence = leb from sequence

unfoldable pub records_from : Option ℕ → List StorageRecord → List StorageRecord
records_from from [] = []
records_from from (r ∷ rs) =
    let rest = records_from from rs in if starts_by from r.sequence then r ∷ rest else rest

unfoldable pub replay_log : ℕ → Option ℕ → ℕ → Op (List StorageRecord)
replay_log local from_sequence limit = do
  shared ← log_shared_id local
  log ← log_state shared
  pure (take limit (records_from from_sequence log.records))

unfoldable pub has_sequence : ℕ → List StorageRecord → Bool
has_sequence sequence [] = false
has_sequence sequence (r ∷ rs) = nat_beq r.sequence sequence || has_sequence sequence rs

abbrev pub checkpointed : String → ℕ → DurableLogState → DurableLogState
checkpointed name sequence log = record {
  name = log.name;
  next_sequence = log.next_sequence;
  records = log.records;
  checkpoints = insert name sequence log.checkpoints;
}

unfoldable pub checkpoint_log : ℕ → String → ℕ → Op (Unit {0})
checkpoint_log local name sequence = do
  shared ← log_shared_id local
  log ← log_state shared
  if has_sequence sequence log.records
      then modify (put_log shared (checkpointed name sequence log))
      else raise not_found

unfoldable pub checkpoint_sequence : ℕ → String → Op (Option ℕ)
checkpoint_sequence local name = do
  shared ← log_shared_id local
  log ← log_state shared
  pure (lookup name log.checkpoints)

-- The two hexadecimal digits of each byte. `push` and `hex_char` are the append of a digit.
abbrev pub hex_digits : List String
hex_digits =
    "0" ∷ "1" ∷ "2" ∷ "3" ∷ "4" ∷ "5" ∷ "6" ∷ "7" ∷ "8" ∷ "9" ∷ "a" ∷ "b" ∷ "c" ∷ "d" ∷ "e" ∷ "f"
    ∷ []

unfoldable pub hex_id : List ℕ → String
hex_id [] = ""
hex_id (b ∷ bs) =
    str_append (get_or hex_digits (b / 16) "0")
      (str_append (get_or hex_digits (b % 16) "0") (hex_id bs))

abbrev pub with_blob : String → List ℕ → BlobStoreState → BlobStoreState
with_blob id bytes store = record {
  name = store.name;
  blobs = insert id bytes store.blobs;
  manifests = store.manifests;
}

abbrev pub with_manifest : String → String → BlobStoreState → BlobStoreState
with_manifest name id store = record {
  name = store.name;
  blobs = store.blobs;
  manifests = insert name id store.manifests;
}

unfoldable pub put_blob : (List ℕ → List ℕ) → ℕ → List ℕ → Op String
put_blob sha256 local bytes = do
  shared ← blob_store_shared_id local
  store ← store_state shared
  modify (put_store shared (with_blob (hex_id (sha256 bytes)) bytes store))
  pure (hex_id (sha256 bytes))

unfoldable pub get_blob : ℕ → String → Op (Option (List ℕ))
get_blob local id = do
  shared ← blob_store_shared_id local
  store ← store_state shared
  pure (lookup id store.blobs)

-- `contains_key`
abbrev pub is_some : {A : Type 0} → Option A → Bool
is_some none = false
is_some (some a) = true

unfoldable pub set_manifest : ℕ → String → String → Op (Unit {0})
set_manifest local name id = do
  shared ← blob_store_shared_id local
  store ← store_state shared
  if is_some (lookup id store.blobs)
      then modify (put_store shared (with_manifest name id store))
      else raise not_found

unfoldable pub get_manifest : ℕ → String → Op (Option String)
get_manifest local name = do
  shared ← blob_store_shared_id local
  store ← store_state shared
  pure (lookup name store.manifests)

-- `remove(..).ok_or_else(..)`
unfoldable pub close_log : ℕ → Op (Unit {0})
close_log local = do
  shared ← log_shared_id local
  modify (λ r. with_logs r.durable_logs_by_shared (remove local r.local_logs) r)

unfoldable pub close_blob_store : ℕ → Op (Unit {0})
close_blob_store local = do
  shared ← blob_store_shared_id local
  modify (λ r. with_stores r.blob_stores_by_shared (remove local r.local_blob_stores) r)
