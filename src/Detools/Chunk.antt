-- ===== src/Detools/Chunk.antt =====
-- The chunk of patch data of app/src/detools/detools.c, and the size field of the patch header,
-- which is read from it directly.
pub mod Header
pub mod RoundTrip
pub mod Short
use delta_updates_for_embedd.Common.{ℕ, ◌+◌, Bool, true, Option, none, some, List, [], ◌∷◌}
use delta_updates_for_embedd.Common.{ltb, ◌==◌, if◌then◌else◌, length, bit_and, bit_or, shl32}
use delta_updates_for_embedd.Common.{ℤ, pos, neg}
use delta_updates_for_embedd.Detools.Codes.{short_header, corrupt_patch_overflow}

-- `detools_apply_patch_chunk_t`: `left` holds the bytes of `buf_p` from `offset` up to `size`, so
-- that `size` is `offset` and the length of `left` together.
pub record Chunk : Type 0 where
  pub left : List ℕ
  pub offset : ℕ

abbrev pub chunk_at : List ℕ → ℕ → Chunk
chunk_at left at = record { left = left; offset = at }

abbrev pub chunk_left : Chunk → ℕ
chunk_left c = length c.left

abbrev pub chunk_available : Chunk → Bool
chunk_available c = ltb 0 (chunk_left c)

abbrev pub get_at : List ℕ → ℕ → Option (ℕ × Chunk)
get_at [] at = none
get_at (b ∷ left) at = some (b, chunk_at left (at + 1))

-- `none` is the result 1; otherwise the byte, and the chunk with its offset moved past it.
abbrev pub chunk_get : Chunk → Option (ℕ × Chunk)
chunk_get c = get_at c.left c.offset

-- An `int` has 8 * 4 bits.
abbrev pub is_overflow : ℕ → Bool
is_overflow value = ltb 32 (value + 7)

-- The next chunk, the result and `*size_p`.
abbrev pub Unpacked : Type 0
Unpacked = Chunk × ℤ × ℕ

-- The `while` loop of `chunk_unpack_header_size`, on the bytes left of the chunk.
unpack_loop : List ℕ → ℕ → ℕ → ℕ → ℕ → Unpacked
unpack_loop [] at byte size offset =
    if bit_and byte 0x80 == 0
    then (chunk_at [] at, pos 0, size)
    else (chunk_at [] at, neg short_header, size)
unpack_loop (b ∷ left) at byte size offset =
    let next = chunk_at left (at + 1) in
    let size' = bit_or size (shl32 (bit_and b 0x7f) offset) in
    let more = unpack_loop left (at + 1) b size' (offset + 7) in
    if bit_and byte 0x80 == 0
    then (chunk_at (b ∷ left) at, pos 0, size)
    else if is_overflow offset
    then (next, neg corrupt_patch_overflow, size)
    else more

unpack_from : List ℕ → ℕ → ℕ → Unpacked
unfolding unpack_loop
unpack_from [] at size = (chunk_at [] at, neg short_header, size)
unpack_from (b ∷ left) at size = unpack_loop left (at + 1) b (bit_and b 0x3f) 6

-- The second argument is what the caller's `*size_p` holds before the call.
unfoldable pub chunk_unpack_header_size : Chunk → ℕ → Unpacked
unfolding unpack_from
chunk_unpack_header_size c size = unpack_from c.left c.offset size
