-- ===== src/Detools/Chunk/Header.antt =====
-- What `chunk_unpack_header_size` reads and returns: bounds on every input.
use delta_updates_for_embedd.Common.{ℕ, ◌+◌, ◌*◌, ◌%◌, ◌^◌, ◌≤◌, ◌<◌, arith}
use delta_updates_for_embedd.Common.{◌≡◌, ◌≢◌, ◌⊎◌, List, [], ◌∷◌, All}
use delta_updates_for_embedd.Common.{length, bit_and, bit_or, shl32}
use delta_updates_for_embedd.Common.{bit_and_0x7f, bit_and_0x3f, bit_or_shifted}
use delta_updates_for_embedd.Common.{pos, neg, is_neg, true}
use delta_updates_for_embedd.Detools.Codes.{already_done}
use native.Mathlib.Nat.{pow-le-pow_right, mod-eq_of_lt, le_refl}
use native.Mathlib.Numerals.{towards_suc}
use delta_updates_for_embedd.Detools.Chunk.{Chunk, unpack_loop, unpack_from}
use delta_updates_for_embedd.Detools.Chunk.{chunk_unpack_header_size}

abbrev pub IsByte : ℕ → Type 0
IsByte b = b < 256

pub pow_le : {j k : ℕ} → j ≤ k → 2 ^ j ≤ 2 ^ k
pow_le h = pow-le-pow_right (omega arith) h

mul_le : (x y m n : ℕ) → x ≤ m → y ≤ n → x * y ≤ m * n
mul_le x y m n p q = grind arith

pub pow-add_seven : (o : ℕ) → 2 ^ (o + 7) ≡ 128 * 2 ^ o
pow-add_seven o = simp towards_suc (omega arith)

-- A group of seven bits is added above the bits that are there, where `is_overflow` lets it pass.
pub or_group :
    (o v b : ℕ)
    → IsByte b
    → o ≤ 25
    → v < 2 ^ o
    → bit_or v (shl32 (bit_and b 0x7f) o) ≡ v + b % 128 * 2 ^ o
or_group o v b hb ho hv =
    rw (bit_and_0x7f b hb, mod-eq_of_lt fits) (bit_or_shifted o v (b % 128) hv)
  where
    fits : b % 128 * 2 ^ o < 2 ^ 32
    fits = omega (arith, mul_le (b % 128) (2 ^ o) 127 (2 ^ 25) (omega arith) (pow_le ho))

pub group_bound : (o v b : ℕ) → v < 2 ^ o → v + b % 128 * 2 ^ o < 2 ^ (o + 7)
group_bound o v b h =
    omega (arith, pow-add_seven o, mul_le (b % 128) (2 ^ o) 127 (2 ^ o) (omega arith) (le_refl _))

-- The loop, entered at `at` with `j` groups read after the first byte.
loop_bounds :
    (left : List ℕ) (at byte size offset j : ℕ) (c : Chunk) (v : ℕ)
    → All IsByte left
    → offset ≡ 6 + 7 * j
    → j ≤ 3
    → size < 2 ^ offset
    → unpack_loop left at byte size offset ≡ (c, pos 0, v)
    → (v < 2 ^ 27)
      × All IsByte c.left
      × (length c.left + c.offset ≡ length left + at)
      × (at ≤ c.offset)
      × (c.offset + j ≤ at + 3)
unfolding unpack_loop
loop_bounds [] at byte size offset j c v hl ho hj hs e =
    ground (arith, pow_le {j = offset} {k = 27})
loop_bounds (b ∷ left) at byte size offset j c v hl ho hj hs e = ground (
  arith,
  pow_le {j = offset} {k = 27},
  or_group offset size b,
  group_bound offset size b,
  loop_bounds left (at + 1) b (bit_or size (shl32 (bit_and b 0x7f) offset)) (offset + 7) (j + 1) c
      v,
)

from_bounds :
    (left : List ℕ) (at : ℕ) (c : Chunk) (old v : ℕ)
    → All IsByte left
    → unpack_from left at old ≡ (c, pos 0, v)
    → (v < 2 ^ 27)
      × All IsByte c.left
      × (length c.left + c.offset ≡ length left + at)
      × (at < c.offset)
      × (c.offset ≤ at + 4)
unfolding unpack_from
from_bounds [] at c old v hl e = cc
from_bounds (b ∷ left) at c old v hl e =
    ground (arith, bit_and_0x3f b, loop_bounds left (at + 1) b (bit_and b 0x3f) 6 0 c v)

-- What `chunk_unpack_header_size` returns when it succeeds on a chunk of bytes: a size of at most
-- 27 bits, read from one to four bytes; the offset moves by the bytes that are gone, and the bytes
-- that remain are bytes still.
pub chunk_unpack_header_size_bounds :
    (c c' : Chunk) (old v : ℕ)
    → All IsByte c.left
    → chunk_unpack_header_size c old ≡ (c', pos 0, v)
    → (v < 2 ^ 27)
      × All IsByte c'.left
      × (length c'.left + c'.offset ≡ length c.left + c.offset)
      × (c.offset < c'.offset)
      × (c'.offset ≤ c.offset + 4)
unfolding chunk_unpack_header_size
chunk_unpack_header_size_bounds c c' old v hl e = from_bounds c.left c.offset c' old v hl e

loop_res :
    (left : List ℕ) (at byte size offset : ℕ)
    → let (c, res, v) = unpack_loop left at byte size offset in
      ((res ≡ pos 0) ⊎ (is_neg res ≡ true)) × (length c.left ≤ length left)
unfolding unpack_loop
loop_res [] at byte size offset = ground arith
loop_res (b ∷ left) at byte size offset =
    ground
      (arith, loop_res left (at + 1) b (bit_or size (shl32 (bit_and b 0x7f) offset)) (offset + 7))

from_res :
    (left : List ℕ) (at old : ℕ)
    → let (c, res, v) = unpack_from left at old in
      ((res ≡ pos 0) ⊎ (is_neg res ≡ true)) × (length c.left ≤ length left)
unfolding unpack_from
from_res [] at old = ground arith
from_res (b ∷ left) at old = ground (arith, loop_res left (at + 1) b (bit_and b 0x3f) 6)

-- The result is 0 or negative, and the chunk does not grow.
pub chunk_unpack_header_size-res :
    (c : Chunk) (old : ℕ)
    → let (c', res, v) = chunk_unpack_header_size c old in
      ((res ≡ pos 0) ⊎ (is_neg res ≡ true)) × (length c'.left ≤ length c.left)
unfolding chunk_unpack_header_size
chunk_unpack_header_size-res c old = from_res c.left c.offset old

loop-ne-done :
    (left : List ℕ) (at byte size offset : ℕ)
    → (unpack_loop left at byte size offset).1 ≢ neg already_done
unfolding unpack_loop
loop-ne-done [] at byte size offset = ground arith
loop-ne-done (b ∷ left) at byte size offset =
    ground (
      arith,
      loop-ne-done left (at + 1) b (bit_or size (shl32 (bit_and b 0x7f) offset)) (offset + 7),
    )

from-ne-done : (left : List ℕ) (at old : ℕ) → (unpack_from left at old).1 ≢ neg already_done
unfolding unpack_from
from-ne-done [] at old = ground arith
from-ne-done (b ∷ left) at old = ground (arith, loop-ne-done left (at + 1) b (bit_and b 0x3f) 6)

-- The result is not the one of a patch that is done.
pub chunk_unpack_header_size-ne-done :
    (c : Chunk) (old : ℕ) → (chunk_unpack_header_size c old).1 ≢ neg already_done
unfolding chunk_unpack_header_size
chunk_unpack_header_size-ne-done c old = from-ne-done c.left c.offset old
