-- ===== src/Kernel/Storage/Blobs.antt =====
-- crates/kernel/src/storage.rs: the blobs and manifests of a blob store under its operations.
use mathlib.Core.Path.{subst}
use selium.Base.{
  ℕ, String, Bool, true, false, Option, some, List, [], ◌∷◌, ◌≡◌, refl, sym, ap, ◌∙◌, if◌then◌else◌,
  nat_eq, string_eq, ◌==◌, Bool-cases, inl, inr,
}
use selium.Base.Map.{Map, lookup, insert, lookup-insert, eq_self}
use selium.Base.Exec.{Result, ok}
use selium.Kernel.Error.{Error}
use selium.Kernel.Storage.{
  BlobStoreState, StorageRegistry, blob_store_shared_id, store_state, put_store, with_blob,
  with_manifest, put_blob, get_blob, is_some, set_manifest, get_manifest, hex_id,
}

-- The handle names the store.
abbrev pub Holds : StorageRegistry → ℕ → ℕ → BlobStoreState → Type 0
Holds r local shared store =
    (lookup local r.local_blob_stores ≡ some shared)
    × (lookup shared r.blob_stores_by_shared ≡ some store)

put_store-Holds :
    (r : StorageRegistry) (local shared : ℕ) (old new : BlobStoreState)
    → Holds r local shared old
    → Holds (put_store shared new r) local shared new
unfolding put_store
put_store-Holds r local shared old new holds =
    (holds.0, lookup-insert shared shared new r.blob_stores_by_shared ∙ rw (eq_self shared))

put_blob_lem :
    (sha256 : List ℕ → List ℕ) (r : StorageRegistry) (local shared : ℕ) (store : BlobStoreState)
    (bytes : List ℕ)
    → Holds r local shared store
    → put_blob sha256 local bytes r ≡ (
      ok (hex_id (sha256 bytes)),
      put_store shared (with_blob (hex_id (sha256 bytes)) bytes store) r,
    )
unfolding put_blob blob_store_shared_id store_state
put_blob_lem sha256 r local shared store bytes holds = rw (holds.0, holds.1)

get_blob_lem :
    (r : StorageRegistry) (local shared : ℕ) (store : BlobStoreState) (id : String)
    → Holds r local shared store
    → get_blob local id r ≡ (ok (lookup id store.blobs), r)
unfolding get_blob blob_store_shared_id store_state
get_blob_lem r local shared store id holds = rw (holds.0, holds.1)

get_manifest_lem :
    (r : StorageRegistry) (local shared : ℕ) (store : BlobStoreState) (name : String)
    → Holds r local shared store
    → get_manifest local name r ≡ (ok (lookup name store.manifests), r)
unfolding get_manifest blob_store_shared_id store_state
get_manifest_lem r local shared store name holds = rw (holds.0, holds.1)

abbrev blob_found : Option (List ℕ) → Result Error (Option (List ℕ))
blob_found o = ok o

-- After `put_blob`, `get_blob` through any handle on the store gives the bytes under the id that
-- `put_blob` returned, and under every other id what it gave before.
pub get_blob-put_blob :
    (sha256 : List ℕ → List ℕ) (r : StorageRegistry) (local reader shared : ℕ)
    (store : BlobStoreState) (bytes : List ℕ) (id : String)
    → Holds r local shared store
    → Holds r reader shared store
    → ((put_blob sha256 local bytes r).0 ≡ ok (hex_id (sha256 bytes)))
      × ((get_blob reader id (put_blob sha256 local bytes r).1).0
          ≡ (if hex_id (sha256 bytes) == id then ok (some bytes) else (get_blob reader id r).0))
get_blob-put_blob sha256 r local reader shared store bytes id writes reads =
    let key : String = hex_id (sha256 bytes) in
    let step = put_blob_lem sha256 r local shared store bytes writes in
    let new : BlobStoreState = with_blob key bytes store in
    let there =
      subst (λ p. Holds p.1 reader shared new) (sym step)
        (put_store-Holds r reader shared store new reads) in
    (
      ap (λ p. p.0) step,
      ap (λ p. p.0) (get_blob_lem _ reader shared new id there)
          ∙ ap (λ o. ok o) (lookup-insert key id bytes store.blobs)
          ∙ spread (key == id)
          ∙ ap (λ o. if key == id then ok (some bytes) else o)
              (sym (ap (λ p. p.0) (get_blob_lem r reader shared store id reads))),
    )
  where
    spread :
        (b : Bool)
        → blob_found (if b then some bytes else lookup id store.blobs)
          ≡ (if b then ok (some bytes) else ok (lookup id store.blobs))
    spread true = refl
    spread false = refl

-- Every manifest of the store names a blob of the store.
abbrev pub IsResolved : BlobStoreState → Type 0
IsResolved store =
    (name id : String)
    → lookup name store.manifests ≡ some id
    → is_some (lookup id store.blobs) ≡ true

is_some-insert :
    (key id : String) (bytes : List ℕ) (blobs : Map String (List ℕ))
    → is_some (lookup id blobs) ≡ true
    → is_some (lookup id (insert key bytes blobs)) ≡ true
is_some-insert key id bytes blobs h = rw (lookup-insert key id bytes blobs) (choose (key == id))
  where
    choose : (b : Bool) → is_some (if b then some bytes else lookup id blobs) ≡ true
    choose true = refl
    choose false = h

with_blob-IsResolved :
    (key : String) (bytes : List ℕ) (store : BlobStoreState)
    → IsResolved store
    → IsResolved (with_blob key bytes store)
with_blob-IsResolved key bytes store resolved name id h =
    is_some-insert key id bytes store.blobs (resolved name id h)

with_manifest-IsResolved :
    (name id : String) (store : BlobStoreState)
    → is_some (lookup id store.blobs) ≡ true
    → IsResolved store
    → IsResolved (with_manifest name id store)
with_manifest-IsResolved name id store found resolved other target h =
    choose (name == other) (sym (lookup-insert name other id store.manifests) ∙ h)
  where
    choose :
        (b : Bool)
        → (if b then some id else lookup other store.manifests) ≡ some target
        → is_some (lookup target store.blobs) ≡ true
    choose true e = subst (λ t. is_some (lookup t store.blobs) ≡ true) (same e) found
      where
        same : some id ≡ some target → id ≡ target
        same e = cc
    choose false e = resolved other target e

-- A client's writes to a store, in the order in which the lock admits them.
pub data Call : Type 0 where
  put : List ℕ → Call
  name_blob : String → String → Call

unfoldable pub run : (List ℕ → List ℕ) → ℕ → List Call → StorageRegistry → StorageRegistry
run sha256 local [] r = r
run sha256 local (put bytes ∷ calls) r = run sha256 local calls (put_blob sha256 local bytes r).1
run sha256 local (name_blob name id ∷ calls) r =
    run sha256 local calls (set_manifest local name id r).1

-- A registry in which the handle names a store whose manifests all lead to blobs.
abbrev pub IsSound : StorageRegistry → ℕ → ℕ → Type 0
IsSound r local shared = (store : BlobStoreState) × Holds r local shared store × IsResolved store

set_manifest-IsSound :
    (r : StorageRegistry) (local shared : ℕ) (name id : String)
    → IsSound r local shared
    → IsSound (set_manifest local name id r).1 local shared
unfolding set_manifest blob_store_shared_id store_state
set_manifest-IsSound r local shared name id (store, holds, resolved) =
    elim (Bool-cases (is_some (lookup id store.blobs))) [
      | inl found ↦
          rw (holds.0, holds.1, found)
            (
              with_manifest name id store,
              put_store-Holds r local shared store (with_manifest name id store) holds,
              with_manifest-IsResolved name id store found resolved,
            )
      | inr missing ↦ rw (holds.0, holds.1, missing) (store, holds, resolved)
    ]

put_blob-IsSound :
    (sha256 : List ℕ → List ℕ) (r : StorageRegistry) (local shared : ℕ) (bytes : List ℕ)
    → IsSound r local shared
    → IsSound (put_blob sha256 local bytes r).1 local shared
put_blob-IsSound sha256 r local shared bytes (store, holds, resolved) =
    let key : String = hex_id (sha256 bytes) in
    subst (λ p. IsSound p.1 local shared)
      (sym (put_blob_lem sha256 r local shared store bytes holds))
      (
        with_blob key bytes store,
        put_store-Holds r local shared store (with_blob key bytes store) holds,
        with_blob-IsResolved key bytes store resolved,
      )

-- From a handle on a store whose manifests all name blobs of the store, whatever blobs are put and
-- whatever manifests are set through it, in any order, every manifest of the store names a blob that
-- the store holds.
pub run-IsSound :
    (calls : List Call) (sha256 : List ℕ → List ℕ) (r : StorageRegistry) (local shared : ℕ)
    → IsSound r local shared
    → IsSound (run sha256 local calls r) local shared
unfolding run
run-IsSound [] sha256 r local shared sound = sound
run-IsSound (put bytes ∷ calls) sha256 r local shared sound =
    run-IsSound calls sha256 (put_blob sha256 local bytes r).1 local shared
      (put_blob-IsSound sha256 r local shared bytes sound)
run-IsSound (name_blob name id ∷ calls) sha256 r local shared sound =
    run-IsSound calls sha256 (set_manifest local name id r).1 local shared
      (set_manifest-IsSound r local shared name id sound)
