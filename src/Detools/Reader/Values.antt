-- ===== src/Detools/Reader/Values.antt =====
-- The values that `patch_reader_unpack_size` returns: their range, and the round trip with the
-- format of a signed size.
use delta_updates_for_embedd.Common.{ℕ, zero, suc, ◌+◌, ◌%◌, ◌^◌, ◌≤◌, ◌<◌, arith, ◌≡◌, ◌⊎◌}
use delta_updates_for_embedd.Common.{Option, none, some, get_or, ◌≢◌}
use delta_updates_for_embedd.Common.{neg32, word, refl}
use delta_updates_for_embedd.Common.{false, bit_and_0x3f}
use delta_updates_for_embedd.Common.{pos}
use delta_updates_for_embedd.Detools.Chunk.{Chunk}
use delta_updates_for_embedd.Detools.Chunk.Header.{IsByte, or_group, group_bound, pow_le}
use delta_updates_for_embedd.Detools.Decoder.{Decoder, PollLaws}
use delta_updates_for_embedd.Detools.Reader.{
  Reader, UsizeState, first, consecutive, Sized, next_byte, overflows, decompress, unpack_rounds,
  or_stuck, patch_reader_unpack_size, max_rounds,
}
use delta_updates_for_embedd.Detools.Reader.Decompress.{
  KeepsSize, decompress-KeepsSize, decompress-bytes,
}
use delta_updates_for_embedd.Detools.Reader.Sizes.{first_elem-lt, unpack_rounds-ne-none}

-- A size that is being read: its offset is that of a group, and its bits lie below it.
abbrev pub HalfRead : UsizeState → ℕ → ℕ → Type 0
HalfRead first offset value = Unit
HalfRead consecutive offset value = (offset % 7 ≡ 6) × (offset ≤ 27) × (value < 2 ^ offset)

abbrev pub IsHalfRead : {S : Type 0} → Reader S → Type 0
IsHalfRead r = HalfRead r.size_state r.offset r.value

-- The pattern of an `int` between -2 ^ 27 and 2 ^ 27, both excluded.
abbrev pub IsSmall : ℕ → Type 0
IsSmall v = (v < 2 ^ 27) ⊎ ((word < v + 2 ^ 27) × (v < word))

module _ (h : Decoder) where
  open h use {State}

  next_byte-HalfRead :
      (st : UsizeState) (r : Reader State) (b : ℕ)
      → HalfRead st r.offset r.value
      → IsByte b
      → overflows st r.offset ≡ false
      → let r' = next_byte h st r b in HalfRead consecutive r'.offset r'.value
  next_byte-HalfRead first r b hr hb ov = ground (arith, bit_and_0x3f b)
  next_byte-HalfRead consecutive r b hr hb ov =
      ground (arith, or_group r.offset r.value b, group_bound r.offset r.value b)

  next_byte-state :
      (st : UsizeState) (r : Reader State) (b : ℕ)
      → r.size_state ≡ st
      → (next_byte h st r b).size_state ≡ consecutive
  next_byte-state first r b e = refl
  next_byte-state consecutive r b e = e

  KeepsSize-HalfRead :
      (st : UsizeState) {r r' : Reader State}
      → KeepsSize r r'
      → HalfRead st r.offset r.value
      → HalfRead st r'.offset r'.value
  KeepsSize-HalfRead first k hr = tt
  KeepsSize-HalfRead consecutive k hr = rw (k.offset_kept, k.value_kept) hr

  neg32-IsSmall : (o v : ℕ) → o ≤ 27 → v < 2 ^ o → (v < 2 ^ 27) × IsSmall (neg32 v)
  neg32-IsSmall o v ho hv = ground (arith, pow_le {j = o} {k = 27} ho)

  -- What a reading of a size guarantees of its result.
  abbrev pub Ranged : Sized State → Type 0
  Ranged u = IsHalfRead u.reader × (((u.res ≡ pos 0) × IsSmall u.size) ⊎ (u.res ≢ pos 0))

  rounds-Ranged :
      (l : PollLaws h) (n : ℕ) (r : Reader State) (c : Chunk) (size old : ℕ) (u : Sized State)
      → IsHalfRead r
      → unpack_rounds h n r c size old ≡ some u
      → Ranged u
  unfolding unpack_rounds
  rounds-Ranged l zero r c size old u hr e = cc
  rounds-Ranged l (suc n) r c size old u hr e =
      let d = decompress h r c size in
      let b = get_or d.out 0 0 in
      let next = next_byte h r.size_state d.reader b in
      let byte = first_elem-lt h d.out (decompress-bytes h l r c size) in
      ground (
        arith,
        decompress-KeepsSize h r c size,
        KeepsSize-HalfRead r.size_state (decompress-KeepsSize h r c size) hr,
        next_byte-HalfRead r.size_state d.reader b,
        next_byte-state r.size_state d.reader b,
        neg32-IsSmall next.offset next.value,
        rounds-Ranged l n next d.chunk d.size old u,
      )

  or_stuck-Ranged :
      (r : Reader State) (c : Chunk) (old : ℕ) (o : Option (Sized State))
      → o ≢ none
      → ((u : Sized State) → o ≡ some u → Ranged u)
      → Ranged (or_stuck h r c old o)
  or_stuck-Ranged r c old none ne all = absurd (ne refl)
  or_stuck-Ranged r c old (some u) ne all = all u refl

  -- For a decoder that keeps its promises, and a reader whose size is half read, if at all, with
  -- its bits below its offset: a size that is read lies between -2 ^ 27 and 2 ^ 27, both excluded,
  -- and a size that is half read when the input ends has its bits below its offset again, so that
  -- the reading can be resumed.
  pub unpack_size-Ranged :
      (l : PollLaws h) (r : Reader State) (c : Chunk) (old : ℕ)
      → IsHalfRead r
      → Ranged (patch_reader_unpack_size h r c old)
  unfolding patch_reader_unpack_size
  unpack_size-Ranged l r c old hr =
      or_stuck-Ranged r c old (unpack_rounds h max_rounds r c 1 old)
        (unpack_rounds-ne-none h r c old) (λ u e. rounds-Ranged l max_rounds r c 1 old u hr e)
