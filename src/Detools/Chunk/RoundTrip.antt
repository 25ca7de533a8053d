-- ===== src/Detools/Chunk/RoundTrip.antt =====
-- `chunk_unpack_header_size` against the format of a size in the patch header.
use delta_updates_for_embedd.Common.{ℕ, zero, suc, ◌+◌, ◌*◌, ◌/◌, ◌%◌, ◌^◌, ◌≤◌, ◌<◌, arith}
use delta_updates_for_embedd.Common.{◌≡◌, ap, List, [], ◌∷◌, ◌++◌}
use delta_updates_for_embedd.Common.{ltb, if◌then◌else◌, length}
use delta_updates_for_embedd.Common.{bit_and_0x80, bit_and_0x3f}
use delta_updates_for_embedd.Common.{pos}
use native.Mathlib.Nat.{div-add-mod}
use delta_updates_for_embedd.Detools.Chunk.{chunk_at, unpack_loop}
use delta_updates_for_embedd.Detools.Chunk.{chunk_unpack_header_size}
use delta_updates_for_embedd.Detools.Chunk.Header.{IsByte, or_group, group_bound, pow-add_seven}

-- The groups of seven bits of `v`, lowest first, for `v` below 128 ^ (k + 1).
unfoldable pub tail_groups : ℕ → ℕ → List ℕ
tail_groups zero v = v ∷ []
tail_groups (suc k) v =
    let rest = tail_groups k (v / 128) in if ltb v 128 then v ∷ [] else (v % 128 + 128) ∷ rest

-- The format of a size in the patch header: six bits, then groups of seven.
unfoldable pub pack_header_size : ℕ → List ℕ
unfolding tail_groups
pack_header_size v = if ltb v 64 then v ∷ [] else (v % 64 + 128) ∷ tail_groups 2 (v / 64)

loop_stop :
    (left : List ℕ) (at byte size offset : ℕ)
    → byte < 128
    → unpack_loop left at byte size offset ≡ (chunk_at left at, pos 0, size)
unfolding unpack_loop
loop_stop [] at byte size offset h = ground (arith, bit_and_0x80 byte)
loop_stop (b ∷ left) at byte size offset h = ground (arith, bit_and_0x80 byte)

loop_next :
    (b : ℕ) (left : List ℕ) (at byte size offset : ℕ)
    → 128 ≤ byte
    → IsByte byte
    → IsByte b
    → offset ≤ 25
    → size < 2 ^ offset
    → unpack_loop (b ∷ left) at byte size offset
      ≡ unpack_loop left (at + 1) b (size + b % 128 * 2 ^ offset) (offset + 7)
unfolding unpack_loop
loop_next b left at byte size offset h hy hb ho hs =
    ground (arith, bit_and_0x80 byte, or_group offset size b)

-- The groups above the lowest, shifted, make up the whole with it.
pub split_group : (v o : ℕ) → v / 128 * 2 ^ (o + 7) + v % 128 * 2 ^ o ≡ v * 2 ^ o
split_group v o =
    let shifted = ap (λ (p : ℕ). v / 128 * p) (pow-add_seven o) in
    let whole = ap (λ (q : ℕ). q * 2 ^ o) (div-add-mod v 128) in omega (arith, shifted, whole)

-- `w` is what is still to be read, and it counts from bit `offset` on.
loop-tail_groups :
    (k w at byte size offset : ℕ) (rest : List ℕ)
    → w < 128 ^ suc k
    → 128 ≤ byte
    → IsByte byte
    → offset + 7 * k ≤ 25
    → size < 2 ^ offset
    → unpack_loop (tail_groups k w ++ rest) at byte size offset
      ≡ (chunk_at rest (at + length (tail_groups k w)), pos 0, size + w * 2 ^ offset)
unfolding tail_groups
loop-tail_groups zero w at byte size offset rest hw h hy ho hs = ground (
  arith,
  loop_next w rest at byte size offset,
  loop_stop rest (at + 1) w (size + w % 128 * 2 ^ offset) (offset + 7),
)
loop-tail_groups (suc k) w at byte size offset rest hw h hy ho hs = ground (
  arith,
  split_group w offset,
  group_bound offset size w,
  loop_next w rest at byte size offset,
  loop_stop rest (at + 1) w (size + w % 128 * 2 ^ offset) (offset + 7),
  loop_next (w % 128 + 128) (tail_groups k (w / 128) ++ rest) at byte size offset,
  loop-tail_groups k (w / 128) (at + 1) (w % 128 + 128) (size + w % 128 * 2 ^ offset) (offset + 7)
      rest,
)

-- `chunk_unpack_header_size` reads back every size below 2 ^ 27 that the format writes, whatever
-- `*size_p` held before, leaves the bytes that follow, and moves the offset past those of the size.
pub unpack-pack_header_size :
    (v old at : ℕ) (rest : List ℕ)
    → v < 2 ^ 27
    → chunk_unpack_header_size (chunk_at (pack_header_size v ++ rest) at) old
      ≡ (chunk_at rest (at + length (pack_header_size v)), pos 0, v)
unfolding chunk_unpack_header_size pack_header_size
unpack-pack_header_size v old at rest h = ground (
  arith,
  bit_and_0x3f v,
  bit_and_0x3f (v % 64 + 128),
  loop_stop rest (at + 1) v v 6,
  loop-tail_groups 2 (v / 64) (at + 1) (v % 64 + 128) (v % 64) 6 rest,
)
