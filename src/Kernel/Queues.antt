-- ===== src/Kernel/Queues.antt =====
-- crates/kernel/src/host_queue.rs `HostQueueRegistry`: queues of connections that processes pass
-- to each other, by local handles on a shared queue.
pub mod Fifo
use selium.Base.{
  ℕ, ◌+◌, String, Bool, true, false, Option, none, some, List, [], ◌∷◌, ◌++◌, ◌≡◌, length,
  if◌then◌else◌, Eq, nat_eq, ◌==◌,
}
use selium.Base.Map.{Map, lookup, insert}
use selium.Base.Exec.{Exec, Result, ok, err, ok_or, pure, raise, lift, gets, modify, ◌>>=◌, ◌>>◌}
use selium.Kernel.Error.{Error, not_found}

-- The client's process, the value and its metadata.
abbrev pub Entry : Type 0
Entry = ℕ × ℕ × List ℕ

pub record HostQueueRegistry : Type 0 where
  pub queues_by_shared : Map ℕ (List Entry)
  pub local_queues : Map ℕ ℕ

pub record HostQueueDescriptor : Type 0 where
  pub local_id : ℕ
  pub shared_id : ℕ

abbrev pub Op : Type 0 → Type 0
Op A = Exec HostQueueRegistry Error A

abbrev pub put_queue : ℕ → List Entry → HostQueueRegistry → HostQueueRegistry
put_queue shared entries r = record {
  queues_by_shared = insert shared entries r.queues_by_shared;
  local_queues = r.local_queues;
}

abbrev pub put_handle : ℕ → ℕ → HostQueueRegistry → HostQueueRegistry
put_handle local shared r = record {
  queues_by_shared = r.queues_by_shared;
  local_queues = insert local shared r.local_queues;
}

unfoldable pub host_queue_shared_id : ℕ → Op ℕ
host_queue_shared_id local r = (ok_or (lookup local r.local_queues) not_found, r)

-- The queue of a shared id, as the operations find it.
unfoldable pub queue_entries : ℕ → Op (List Entry)
queue_entries shared r = (ok_or (lookup shared r.queues_by_shared) not_found, r)

-- `local` and `shared` are what `next_local_id` and `next_shared_id` of the memory registry gave.
unfoldable pub create_host_queue :
    ℕ → ℕ → HostQueueRegistry → HostQueueDescriptor × HostQueueRegistry
create_host_queue local shared r = (
  record { local_id = local; shared_id = shared },
  put_handle local shared (put_queue shared [] r),
)

unfoldable pub attach_host_queue : ℕ → ℕ → Op HostQueueDescriptor
attach_host_queue local shared = do
  entries ← queue_entries shared
  modify (put_handle local shared)
  pure (record { local_id = local; shared_id = shared })

unfoldable pub host_queue_send : ℕ → ℕ → ℕ → List ℕ → Op (Unit {0})
host_queue_send local client value metadata = do
  shared ← host_queue_shared_id local
  entries ← queue_entries shared
  modify (put_queue shared (entries ++ ((client, value, metadata) ∷ [])))

-- `pop_front` of a queue and what it leaves.
abbrev pub pop_front : ℕ → List Entry → Op (Option Entry)
pop_front shared [] = pure none
pop_front shared (e ∷ rest) = modify (put_queue shared rest) >> pure (some e)

unfoldable pub try_host_queue_recv : ℕ → Op (Option Entry)
try_host_queue_recv local = do
  shared ← host_queue_shared_id local
  entries ← queue_entries shared
  pop_front shared entries

unfoldable pub host_queue_pending : ℕ → Op ℕ
host_queue_pending local = do
  shared ← host_queue_shared_id local
  entries ← queue_entries shared
  pure (length entries)
