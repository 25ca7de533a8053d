-- ===== src/Detools/Chunk/Short.antt =====
-- `chunk_unpack_header_size` of app/src/detools/detools.c on a size that is cut short.
use delta_updates_for_embedd.Common.{
  ℕ, zero, suc, ◌+◌, ◌*◌, ◌/◌, ◌≤◌, arith, ◌≡◌, ◌≢◌, refl, List, [], ◌∷◌, ◌++◌, neg, bit_and,
  bit_and_0x80, bit_or, shl32,
}
use delta_updates_for_embedd.Detools.Codes.{short_header}
use delta_updates_for_embedd.Detools.Chunk.{
  chunk_at, unpack_loop, unpack_from, chunk_unpack_header_size,
}
use delta_updates_for_embedd.Detools.Chunk.Header.{IsByte}
use delta_updates_for_embedd.Detools.Chunk.RoundTrip.{tail_groups, pack_header_size}

-- A front that is not the whole is not followed by nothing.
not_last : (front behind : List ℕ) (b c : ℕ) → b ∷ (front ++ behind) ≡ c ∷ [] → behind ≢ [] → ⊥
not_last [] behind b c e more = more (cc)
not_last (x ∷ front) behind b c e more = cc

-- Where the groups end early, the last byte says that one more is to come.
loop-short :
    (k w at byte size offset : ℕ) (front behind : List ℕ)
    → 128 ≤ byte
    → IsByte byte
    → offset + 7 * k ≤ 25
    → front ++ behind ≡ tail_groups k w
    → behind ≢ []
    → (unpack_loop front at byte size offset).1 ≡ neg short_header
unfolding unpack_loop tail_groups
loop-short k w at byte size offset [] behind h hy ho e more = ground (arith, bit_and_0x80 byte)
loop-short zero w at byte size offset (b ∷ front) behind h hy ho e more =
    absurd (not_last front behind b w e more)
loop-short (suc k) w at byte size offset (b ∷ front) behind h hy ho e more =
    let byte_left = bit_and_0x80 byte in
    ground (
      arith,
      byte_left,
      not_last front behind b w,
      loop-short k (w / 128) (at + 1) b (bit_or size (shl32 (bit_and b 0x7f) offset)) (offset + 7)
          front behind,
    )

-- Where the chunk ends inside a size that the format writes, `chunk_unpack_header_size` returns the error
-- of a short header.
pub unpack_header_size-short :
    (v old at : ℕ) (front behind : List ℕ)
    → front ++ behind ≡ pack_header_size v
    → behind ≢ []
    → (chunk_unpack_header_size (chunk_at front at) old).1 ≡ neg short_header
unfolding chunk_unpack_header_size unpack_from pack_header_size
unpack_header_size-short v old at [] behind e more = refl
unpack_header_size-short v old at (b ∷ front) behind e more = ground (
  arith,
  not_last front behind b v,
  loop-short 2 (v / 64) (at + 1) b (bit_and b 0x3f) 6 front behind,
)
