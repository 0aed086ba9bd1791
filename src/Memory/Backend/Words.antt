-- ===== src/Memory/Backend/Words.antt =====
-- The words of a mapping: what a load returns after a store, in range and out of range.
use selium.Base.{
  ℕ, ◌+◌, ◌%◌, ◌^◌, ◌≤◌, ◌<◌, ◌≡◌, refl, ap, ◌∙◌, ◌⊎◌, arith, Bool, nat_beq, not, ◌&&◌,
  if◌then◌else◌,
}
use selium.Base.Exec.{ok}
use selium.Memory.Bytes.{
  from_le, to_le, from_le-to_le, slice-patch_self, slice-patch_ne, patch_outside,
}
use selium.Memory.Backend.{
  Backend, word, set_word, atomic_load_u64, atomic_store_u64, fetch_add_u64, compare_exchange_u64,
}

pub word-set_word_self : (b : Backend) (o v : ℕ) → v < 2 ^ 64 → word (set_word b o v) o ≡ v
unfolding word set_word
word-set_word_self b o v h =
    ap from_le (slice-patch_self b.bytes o (to_le 8 v)) ∙ from_le-to_le 8 v h

pub word-set_word_ne :
    (b : Backend) (o p v : ℕ) → (p + 8 ≤ o) ⊎ (o + 8 ≤ p) → word (set_word b o v) p ≡ word b p
unfolding word set_word
word-set_word_ne b o p v h = ap from_le (slice-patch_ne b.bytes o p 8 (to_le 8 v) h)

pub size-set_word : (b : Backend) (o v : ℕ) → (set_word b o v).size ≡ b.size
unfolding set_word
size-set_word b o v = refl

-- A store of a word leaves the bytes outside its eight.
pub byte-set_word :
    (b : Backend) (o v i : ℕ) → (i < o) ⊎ (o + 8 ≤ i) → (set_word b o v).bytes i ≡ b.bytes i
unfolding set_word
byte-set_word b o v i h = patch_outside b.bytes o (to_le 8 v) i h

module _ (b : Backend) (o : ℕ) (room : o + 8 ≤ b.size) (small : b.size < 2 ^ 64) where
  pub load_in_range : atomic_load_u64 o b ≡ (ok (word b o), b)
  unfolding atomic_load_u64
  load_in_range = ground arith

  pub store_in_range : (v : ℕ) → atomic_store_u64 o v b ≡ (ok tt, set_word b o v)
  unfolding atomic_store_u64
  store_in_range v = ground arith

  pub add_in_range :
      (v : ℕ) → fetch_add_u64 o v b ≡ (ok (word b o), set_word b o ((word b o + v) % 2 ^ 64))
  unfolding fetch_add_u64
  add_in_range v = ground arith

  pub exchange_in_range :
      (spurious : Bool) (current new : ℕ)
      → compare_exchange_u64 spurious o current new b ≡ (
        ok (word b o),
        if nat_beq (word b o) current && not spurious then set_word b o new else b,
      )
  unfolding compare_exchange_u64
  exchange_in_range spurious current new = ground arith
