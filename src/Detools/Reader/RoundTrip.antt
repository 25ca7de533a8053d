-- ===== src/Detools/Reader/RoundTrip.antt =====
-- `patch_reader_unpack_size` against the format of a signed size in the decompressed stream.
use delta_updates_for_embedd.Common.{
  ℕ, zero, suc, ◌+◌, ◌*◌, ◌/◌, ◌%◌, ◌^◌, ◌≤◌, ◌<◌, arith, ◌≡◌, ◌⊎◌,
}
use delta_updates_for_embedd.Common.{
  inl, inr, Option, none, some, ◌∙◌, ap, ap₂, subst, ◌==◌, List, [], ◌∷◌, ◌++◌,
}
use delta_updates_for_embedd.Common.{bit_and, neg32, refl, false}
use delta_updates_for_embedd.Common.{bit_and_0x3f, bit_and_0x40, bit_and_0x80}
use delta_updates_for_embedd.Common.{pos, ltb, ltb→lt, Bool-cases, if◌then◌else◌, Bool}
use delta_updates_for_embedd.Detools.Chunk.{Chunk}
use delta_updates_for_embedd.Detools.Chunk.Header.{IsByte, or_group, group_bound}
use delta_updates_for_embedd.Detools.Chunk.RoundTrip.{split_group}
use delta_updates_for_embedd.Detools.Chunk.RoundTrip.{tail_groups}
use delta_updates_for_embedd.Detools.Decoder.{Decoder}
use delta_updates_for_embedd.Detools.Reader.{
  Reader, UsizeState, first, consecutive, Decompressed, Sized, next_byte, decompress, unpack_rounds,
  or_stuck, sized, fix_sign, overflows, patch_reader_unpack_size, max_rounds,
}
use delta_updates_for_embedd.Detools.Reader.Decompress.{KeepsSize, decompress-KeepsSize}
use delta_updates_for_embedd.Detools.Reader.Stream.{Yields, Yields-SameSource}

-- The format of a size in the stream, the sign first: a sign bit above six bits, then groups of
-- seven.
unfoldable pub pack_size : Bool → ℕ → List ℕ
unfolding tail_groups
pack_size s v =
    let sign = if s then 64 else 0 in
    if ltb v 64 then (v + sign) ∷ [] else (v % 64 + sign + 128) ∷ tail_groups 2 (v / 64)

-- The pattern of the `int` with that sign and magnitude.
abbrev pub signed_value : Bool → ℕ → ℕ
signed_value s v = if s then neg32 v else v

-- The sign bit of a first byte.
abbrev pub sign_bit : Bool → ℕ
sign_bit s = if s then 64 else 0

pub sign_bit-lt : (s : Bool) (x : ℕ) → x < 64 → x + sign_bit s < 128
sign_bit-lt s x h = ground arith

-- The sign and the six bits of a first byte, with or without the top bit.
pub sign_byte :
    (s : Bool) (x t : ℕ)
    → x < 64
    → (t ≡ 0) ⊎ (t ≡ 128)
    → let b = x + sign_bit s + t in (bit_and b 0x3f ≡ x) × ((bit_and b 0x40 == 0x40) ≡ s)
sign_byte s x t hx ht = let b = x + sign_bit s + t in ground (arith, bit_and_0x3f b, bit_and_0x40 b)

module _ (h : Decoder) where
  open h use {State, poll, sink}

  -- What is left when a size has been read: its value, and the stream behind it.
  abbrev Reads : ℕ → List ℕ → Option (Sized State) → Type 0
  Reads v rest none = ⊥
  Reads v rest (some u) =
      (u.res ≡ pos 0)
      × (u.size ≡ v)
      × (u.reader.size_state ≡ first)
      × Yields h u.reader u.chunk rest

  -- The reader behind the byte `b`, read in the state `st`.
  abbrev behind : UsizeState → Reader State → Chunk → ℕ → Reader State
  behind st r c b = next_byte h st (decompress h r c 1).reader b

  -- One round on the byte `b`, where no overflow stops it: the last one, and one that goes on.
  last_round :
      (n : ℕ) (st : UsizeState) (r : Reader State) (c : Chunk) (old b : ℕ) (rest : List ℕ)
      → r.size_state ≡ st
      → b < 128
      → overflows st r.offset ≡ false
      → Yields h r c (b ∷ rest)
      → let u = fix_sign h (behind st r c b) in
        unpack_rounds h (suc n) r c 1 old
        ≡ some (sized h u (decompress h r c 1).chunk (pos 0) u.value)
  unfolding unpack_rounds
  last_round n st r c old b rest e hb ho y =
      ground (arith, bit_and_0x80 b, decompress-KeepsSize h r c 1)

  inner_round :
      (n : ℕ) (st : UsizeState) (r : Reader State) (c : Chunk) (old b : ℕ) (rest : List ℕ)
      → r.size_state ≡ st
      → 128 ≤ b
      → IsByte b
      → overflows st r.offset ≡ false
      → Yields h r c (b ∷ rest)
      → unpack_rounds h (suc n) r c 1 old
        ≡ unpack_rounds h n (behind st r c b) (decompress h r c 1).chunk 1 old
  unfolding unpack_rounds
  inner_round n st r c old b rest e hb hb' ho y =
      ground (arith, bit_and_0x80 b, decompress-KeepsSize h r c 1)

  fix_sign-value :
      (r : Reader State) (s : Bool) (v : ℕ)
      → r.is_signed ≡ s
      → r.value ≡ v
      → (fix_sign h r).value ≡ signed_value s v
  fix_sign-value r s v e1 e2 = ground arith

  -- The last byte of a size, in the state `consecutive`.
  last-Reads :
      (n : ℕ) (r : Reader State) (c : Chunk) (old b : ℕ) (rest : List ℕ)
      → r.size_state ≡ consecutive
      → b < 128
      → r.offset ≤ 25
      → r.value < 2 ^ r.offset
      → Yields h r c (b ∷ rest)
      → Reads
          (signed_value r.is_signed (r.value + b * 2 ^ r.offset))
          rest
          (unpack_rounds h (suc n) r c 1 old)
  last-Reads n r c old b rest e hb ho hv y =
      rw (last_round n consecutive r c old b rest e hb (ground arith) y)
        (refl, fix_sign-value next r.is_signed _ k.sign_kept value, refl, behind_it)
    where
      d : Decompressed State
      d = decompress h r c 1

      next : Reader State
      next = behind consecutive r c b

      k : KeepsSize r d.reader
      k = decompress-KeepsSize h r c 1

      value : next.value ≡ r.value + b * 2 ^ r.offset
      value = ground (arith, k, or_group r.offset r.value b)

      behind_it : Yields h (fix_sign h next) d.chunk rest
      behind_it =
          Yields-SameSource h rest d.reader (fix_sign h next) d.chunk
            (record { same_window = refl; same_lookahead = refl; same_decoder = refl }) y.3

  -- A byte that goes on, in the state `consecutive`: the reader behind it.
  inner_next :
      (r : Reader State) (c : Chunk) (b : ℕ)
      → IsByte b
      → r.offset ≤ 25
      → r.value < 2 ^ r.offset
      → let next = behind consecutive r c b in
        (next.value ≡ r.value + b % 128 * 2 ^ r.offset)
        × (next.offset ≡ r.offset + 7)
        × (next.is_signed ≡ r.is_signed)
  inner_next r c b hb ho hv =
      ground (arith, decompress-KeepsSize h r c 1, or_group r.offset r.value b)

  behind-Yields :
      (st : UsizeState) (r : Reader State) (c : Chunk) (b : ℕ) (rest : List ℕ)
      → Yields h r c (b ∷ rest)
      → Yields h (behind st r c b) (decompress h r c 1).chunk rest
  behind-Yields first r c b rest y =
      Yields-SameSource h rest (decompress h r c 1).reader (behind first r c b)
        (decompress h r c 1).chunk
        (record { same_window = refl; same_lookahead = refl; same_decoder = refl }) y.3
  behind-Yields consecutive r c b rest y =
      Yields-SameSource h rest (decompress h r c 1).reader (behind consecutive r c b)
        (decompress h r c 1).chunk
        (record { same_window = refl; same_lookahead = refl; same_decoder = refl }) y.3

  groups_value :
      (r next : Reader State) (w : ℕ)
      → next.value ≡ r.value + (w % 128 + 128) % 128 * 2 ^ r.offset
      → next.offset ≡ r.offset + 7
      → next.is_signed ≡ r.is_signed
      → signed_value next.is_signed (next.value + w / 128 * 2 ^ next.offset)
        ≡ signed_value r.is_signed (r.value + w * 2 ^ r.offset)
  groups_value r next w e1 e2 e3 =
      rw (e3, e2) (ap (signed_value r.is_signed) (omega (arith, split_group w r.offset, low)))
    where
      low : (w % 128 + 128) % 128 * 2 ^ r.offset ≡ w % 128 * 2 ^ r.offset
      low = let e : (w % 128 + 128) % 128 ≡ w % 128 = omega arith in rw e

  -- `w` is what is still to be read, and it counts from bit `r.offset` on.
  tail-Reads :
      (k w m : ℕ) (r : Reader State) (c : Chunk) (old : ℕ) (rest : List ℕ)
      → r.size_state ≡ consecutive
      → w < 128 ^ suc k
      → k ≤ m
      → r.offset + 7 * k ≤ 25
      → r.value < 2 ^ r.offset
      → Yields h r c (tail_groups k w ++ rest)
      → Reads
          (signed_value r.is_signed (r.value + w * 2 ^ r.offset))
          rest
          (unpack_rounds h (suc m) r c 1 old)
  unfolding tail_groups
  tail-Reads zero w m r c old rest e hw hm ho hv y =
      last-Reads m r c old w rest e (omega arith) (omega arith) hv y
  tail-Reads (suc k) w zero r c old rest e hw hm ho hv y = absurd (omega arith)
  tail-Reads (suc k) w (suc m) r c old rest e hw hm ho hv y = elim (Bool-cases (ltb w 128)) [
    | inl small ↦
        last-Reads (suc m) r c old w rest e (ltb→lt w 128 small) (omega arith) hv (rw small at y)
    | inr large ↦
        let b = w % 128 + 128 in
        let next = behind consecutive r c b in
        let y' = rw large at y in
        let (value, offset, sign) = inner_next r c b (omega arith) (omega arith) hv in
        rw
          (inner_round (suc m) consecutive r c old b _ e (omega arith) (omega arith) (ground arith)
            y')
          (subst (λ v. Reads v rest (unpack_rounds h (suc m) next (decompress h r c 1).chunk 1 old))
            (groups_value r next w value offset sign)
            (tail-Reads k (w / 128) m next (decompress h r c 1).chunk old rest
              ((decompress-KeepsSize h r c 1).state_kept ∙ e) (ground arith) (omega arith)
              (omega arith) (rw (value, offset) (group_bound r.offset r.value b hv))
              (behind-Yields consecutive r c b _ y')))
  ]

  -- A size of one byte or more, read from the state `first`.
  first-Reads :
      (s : Bool) (v : ℕ) (r : Reader State) (c : Chunk) (old : ℕ) (rest : List ℕ)
      → r.size_state ≡ first
      → v < 2 ^ 27
      → Yields h r c (pack_size s v ++ rest)
      → Reads (signed_value s v) rest (unpack_rounds h max_rounds r c 1 old)
  unfolding pack_size
  first-Reads s v r c old rest e hv y = elim (Bool-cases (ltb v 64)) [
    | inl small ↦
        let b = v + sign_bit s in
        let y' = rw small at y in
        let (value, sign) = sign_byte s v 0 (ltb→lt v 64 small) (omega arith) in
        let plain : v + sign_bit s + 0 ≡ b = omega arith in
        let next = behind first r c b in
        rw (last_round 5 first r c old b rest e (sign_bit-lt s v (ltb→lt v 64 small)) refl y') (
          refl,
          fix_sign-value next s v (rw plain at sign) (rw plain at value),
          refl,
          Yields-SameSource h rest next (fix_sign h next) (decompress h r c 1).chunk
              (record { same_window = refl; same_lookahead = refl; same_decoder = refl })
              (behind-Yields first r c b rest y'),
        )
    | inr large ↦
        let b = v % 64 + sign_bit s + 128 in
        let y' = rw large at y in
        let (value, sign) = sign_byte s (v % 64) 128 (omega arith) (omega arith) in
        let next = behind first r c b in
        let total : next.value + v / 64 * 2 ^ next.offset ≡ v = omega (arith, value) in
        let low = sign_bit-lt s (v % 64) (omega arith) in
        rw (inner_round 5 first r c old b _ e (omega arith) (omega (arith, low)) refl y') (
          subst (λ x. Reads x rest (unpack_rounds h 5 next (decompress h r c 1).chunk 1 old))
            (ap₂ signed_value sign total)
            (tail-Reads 2 (v / 64) 4 next (decompress h r c 1).chunk old rest refl (omega arith)
              (omega arith) (omega arith) (omega (arith, value)) (behind-Yields first r c b _ y')))
  ]

  or_stuck-Reads :
      (v : ℕ) (rest : List ℕ) (r : Reader State) (c : Chunk) (old : ℕ) (o : Option (Sized State))
      → Reads v rest o
      → Reads v rest (some (or_stuck h r c old o))
  or_stuck-Reads v rest r c old none y = absurd y
  or_stuck-Reads v rest r c old (some u) y = y

  -- Where a reader stands at the start of a size, and the stream goes on with the format of a sign
  -- and a magnitude below 2 ^ 27 and then with `rest`, the size is read with result 0 as the
  -- pattern of that `int`, the reader stands at the start of a size again, and the stream goes on
  -- with `rest`.
  pub unpack_size-pack_size :
      (s : Bool) (v : ℕ) (r : Reader State) (c : Chunk) (old : ℕ) (rest : List ℕ)
      → r.size_state ≡ first
      → v < 2 ^ 27
      → Yields h r c (pack_size s v ++ rest)
      → let u = patch_reader_unpack_size h r c old in
        (u.res ≡ pos 0)
        × (u.size ≡ signed_value s v)
        × (u.reader.size_state ≡ first)
        × Yields h u.reader u.chunk rest
  unfolding patch_reader_unpack_size
  unpack_size-pack_size s v r c old rest e hv y =
      or_stuck-Reads (signed_value s v) rest r c old (unpack_rounds h max_rounds r c 1 old)
        (first-Reads s v r c old rest e hv y)
