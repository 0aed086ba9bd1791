-- ===== src/Kernel/Queues/Fifo.antt =====
-- crates/kernel/src/host_queue.rs: the order in which a queue hands out its entries.
use selium.Base.{
  ℕ, zero, suc, Option, some, List, [], ◌∷◌, ◌++◌, ◌≡◌, refl, sym, ap, ◌∙◌, length, nat_eq,
}
use mathlib.Core.List.{append-nil, append_assoc}
use mathlib.Core.Path.{subst}
use selium.Base.Map.{lookup, lookup-insert, eq_self}
use selium.Base.Exec.{Result, ok}
use selium.Kernel.Error.{Error}
use selium.Kernel.Queues.{
  Entry, HostQueueRegistry, put_queue, host_queue_shared_id, queue_entries, host_queue_send,
  try_host_queue_recv, host_queue_pending,
}

-- The handle names the queue with these entries.
abbrev pub Names : HostQueueRegistry → ℕ → ℕ → List Entry → Type 0
Names r local shared entries =
    (lookup local r.local_queues ≡ some shared) × (lookup shared r.queues_by_shared ≡ some entries)

abbrev pub put_one : HostQueueRegistry → ℕ → List Entry → HostQueueRegistry
put_one r shared entries = put_queue shared entries r

host_queue_send_lem :
    (r : HostQueueRegistry) (local shared : ℕ) (entries : List Entry) (client value : ℕ)
    (metadata : List ℕ)
    → Names r local shared entries
    → host_queue_send local client value metadata r
      ≡ (ok tt, put_one r shared (entries ++ ((client, value, metadata) ∷ [])))
unfolding host_queue_send host_queue_shared_id queue_entries
host_queue_send_lem r local shared entries client value metadata names = rw (names.0, names.1)

try_host_queue_recv_lem :
    (r : HostQueueRegistry) (local shared : ℕ) (e : Entry) (rest : List Entry)
    → Names r local shared (e ∷ rest)
    → try_host_queue_recv local r ≡ (ok (some e), put_one r shared rest)
unfolding try_host_queue_recv host_queue_shared_id queue_entries
try_host_queue_recv_lem r local shared e rest names = rw (names.0, names.1)

-- The queue after an update, through every handle on it.
put_one-Names :
    (r : HostQueueRegistry) (local shared : ℕ) (entries new : List Entry)
    → Names r local shared entries
    → Names (put_one r shared new) local shared new
put_one-Names r local shared entries new names =
    (names.0, lookup-insert shared shared new r.queues_by_shared ∙ rw (eq_self shared))

-- Sends through one handle, one after the other.
unfoldable pub send_all : ℕ → List Entry → HostQueueRegistry → HostQueueRegistry
send_all local [] r = r
send_all local ((client, value, metadata) ∷ more) r =
    send_all local more (host_queue_send local client value metadata r).1

-- As many receives through a handle as asked for: what they gave, and the registry after them.
unfoldable pub recv_all :
    ℕ → ℕ → HostQueueRegistry → List (Result Error (Option Entry)) × HostQueueRegistry
recv_all local zero r = ([], r)
recv_all local (suc n) r =
    let more = recv_all local n (try_host_queue_recv local r).1 in
    ((try_host_queue_recv local r).0 ∷ more.0, more.1)

abbrev pub delivered : List Entry → List (Result Error (Option Entry))
delivered [] = []
delivered (e ∷ es) = ok (some e) ∷ delivered es

-- What a queue holds after the sends, seen through any handle on it.
send_all-Names :
    (es entries : List Entry) (r : HostQueueRegistry) (local reader shared : ℕ)
    → Names r local shared entries
    → Names r reader shared entries
    → Names (send_all local es r) reader shared (entries ++ es)
unfolding send_all
send_all-Names [] entries r local reader shared sends reads = rw (append-nil entries) reads
send_all-Names ((client, value, metadata) ∷ es) entries r local reader shared sends reads =
    let new : List Entry = entries ++ ((client, value, metadata) ∷ []) in
    let after =
      send_all-Names es new (put_one r shared new) local reader shared
        (put_one-Names r local shared entries new sends)
        (put_one-Names r reader shared entries new reads) in
    subst
      (λ p.
        Names (send_all local es p.1) reader shared (entries ++ ((client, value, metadata) ∷ es)))
      (sym (host_queue_send_lem r local shared entries client value metadata sends))
      (subst (λ l. Names (send_all local es (put_one r shared new)) reader shared l)
        (append_assoc entries ((client, value, metadata) ∷ []) es) after)

recv_all_lem :
    (es : List Entry) (r : HostQueueRegistry) (reader shared : ℕ)
    → Names r reader shared es
    → ((recv_all reader (length es) r).0 ≡ delivered es)
      × Names (recv_all reader (length es) r).1 reader shared []
unfolding recv_all
recv_all_lem [] r reader shared reads = (refl, reads)
recv_all_lem (e ∷ es) r reader shared reads =
    let step = try_host_queue_recv_lem r reader shared e es reads in
    let rest =
      recv_all_lem es (put_one r shared es) reader shared
        (put_one-Names r reader shared (e ∷ es) es reads) in
    (
      rw step (ap (λ l. ok (some e) ∷ l) (rest.0)),
      subst (λ p. Names (recv_all reader (length es) p.1).1 reader shared []) (sym step) (rest.1),
    )

host_queue_pending_lem :
    (r : HostQueueRegistry) (reader shared : ℕ) (entries : List Entry)
    → Names r reader shared entries
    → host_queue_pending reader r ≡ (ok (length entries), r)
unfolding host_queue_pending host_queue_shared_id queue_entries
host_queue_pending_lem r reader shared entries names = rw (names.0, names.1)

-- Values sent through one handle on a queue come out of any handle on that queue, after those it
-- held before, each once and in the order of sending. Until then `host_queue_pending` counts them,
-- and afterwards it counts none.
pub recv_all-send_all :
    (es entries : List Entry) (r : HostQueueRegistry) (local reader shared : ℕ)
    → Names r local shared entries
    → Names r reader shared entries
    → ((host_queue_pending reader (send_all local es r)).0 ≡ ok (length (entries ++ es)))
      × ((recv_all reader (length (entries ++ es)) (send_all local es r)).0
          ≡ delivered (entries ++ es))
      × ((host_queue_pending reader
            (recv_all reader (length (entries ++ es)) (send_all local es r)).1).0
          ≡ ok 0)
recv_all-send_all es entries r local reader shared sends reads =
    let full = send_all-Names es entries r local reader shared sends reads in
    let out = recv_all_lem (entries ++ es) (send_all local es r) reader shared full in
    (
      ap (λ p. p.0)
          (host_queue_pending_lem (send_all local es r) reader shared (entries ++ es) full),
      out.0,
      ap (λ p. p.0) (host_queue_pending_lem _ reader shared [] (out.1)),
    )
