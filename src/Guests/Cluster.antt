-- ===== src/Guests/Cluster.antt =====
-- guests/cluster/src/lib.rs: the hosts of the cluster and their load.
use selium.Base.{ℕ, String, Bool, true, false, Option, none, some, List, [], ◌∷◌, ◌++◌, string_eq}
use selium.Base.Map.{Map, lookup, insert, remove}

pub record HostLoad : Type 0 where
  pub cpu_millis : ℕ
  pub memory_bytes : ℕ
  pub active_processes : ℕ

pub data HostAvailability : Type 0 where
  joining available draining unavailable : HostAvailability

pub record HostRecord : Type 0 where
  pub id : String
  pub address : String
  pub load : HostLoad
  pub availability : HostAvailability

pub record ClusterState : Type 0 where
  pub hosts : Map String HostRecord
  pub bootstrap_addresses : List String
  pub peers : List String

-- `HostLoad::available`
abbrev pub no_load : HostLoad
no_load = record { cpu_millis = 0; memory_bytes = 0; active_processes = 0 }

unfoldable pub bootstrap_single_host : HostRecord → ClusterState → ClusterState
bootstrap_single_host host state = record state {
  bootstrap_addresses = host.address ∷ [];
  hosts = insert host.id host state.hosts;
}

unfoldable pub upsert_host : HostRecord → ClusterState → ClusterState
upsert_host host state = record state { hosts = insert host.id host state.hosts }

unfoldable pub remove_host : String → ClusterState → Option HostRecord × ClusterState
remove_host host_id state =
    (lookup host_id state.hosts, record state { hosts = remove host_id state.hosts })

abbrev pub loaded : Option HostRecord → String → HostLoad → ClusterState → Bool × ClusterState
loaded none host_id load state = (false, state)
loaded (some host) host_id load state =
    (true, record state { hosts = insert host_id (record host { load = load }) state.hosts })

unfoldable pub update_host_load : String → HostLoad → ClusterState → Bool × ClusterState
update_host_load host_id load state = loaded (lookup host_id state.hosts) host_id load state

unfoldable pub add_peer : String → ClusterState → ClusterState
add_peer address state = record state { peers = state.peers ++ address ∷ [] }
