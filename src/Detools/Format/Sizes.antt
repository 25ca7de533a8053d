-- ===== src/Detools/Format/Sizes.antt =====
-- The reading of a size as a function of the bytes that are to come, and `patch_reader_unpack_size` of
-- app/src/detools/detools.c against it.
use delta_updates_for_embedd.Common.{
  ℕ, zero, suc, ◌+◌, ◌*◌, ◌/◌, ◌%◌, ◌^◌, ◌≤◌, ◌<◌, arith, ◌≡◌, ◌≢◌, refl, ◌⊎◌, Bool, true, false,
  Option, some, none, List, [], ◌∷◌, ◌++◌, length, get_or, ◌==◌, if◌then◌else◌, bit_and, bit_or,
  shl32, ltb, pos,
}
use delta_updates_for_embedd.Detools.Decoder.{Decoder}
use delta_updates_for_embedd.Detools.Chunk.{Chunk}
use delta_updates_for_embedd.Detools.Chunk.RoundTrip.{tail_groups, split_group}
use delta_updates_for_embedd.Detools.Chunk.Header.{or_group, group_bound}
use delta_updates_for_embedd.Common.{bit_and_0x80}
use delta_updates_for_embedd.Detools.Reader.{
  Reader, UsizeState, first, consecutive, Sized, next_byte, overflows, decompress, unpack_rounds,
  max_rounds, or_stuck, patch_reader_unpack_size,
}
use delta_updates_for_embedd.Detools.Reader.Decompress.{decompress-KeepsSize}
use delta_updates_for_embedd.Detools.Reader.Sizes.{unpack_rounds-ne-none}
use delta_updates_for_embedd.Detools.Reader.RoundTrip.{
  pack_size, signed_value, sign_byte, sign_bit, sign_bit-lt,
}
use delta_updates_for_embedd.Detools.Inflate.{InflateLaws, future, IsValid}
use delta_updates_for_embedd.Detools.Inflate.Supply.{decompress-Served}

-- The size that is read so far, behind a byte.
abbrev pub next_value : UsizeState → ℕ → ℕ → ℕ → ℕ
next_value first v o b = bit_and b 0x3f
next_value consecutive v o b = bit_or v (shl32 (bit_and b 0x7f) o)

abbrev pub next_offset : UsizeState → ℕ → ℕ
next_offset first o = 6
next_offset consecutive o = o + 7

abbrev pub next_sign : UsizeState → Bool → ℕ → Bool
next_sign first s b = bit_and b 0x40 == 0x40
next_sign consecutive s b = s

-- A group of seven bits from this bit on does not fit in 32 bits.
abbrev pub too_long : UsizeState → ℕ → Bool
too_long first o = false
too_long consecutive o = ltb 25 o

-- A size that is read from these bytes, in the state and with the value, the offset and the sign that
-- there are so far: the value, and the bytes behind it. `none` is an end of the bytes or an overflow.
unfoldable pub unsize : UsizeState → ℕ → ℕ → Bool → List ℕ → Option (ℕ × List ℕ)
unsize st v o s [] = none
unsize st v o s (b ∷ bytes) =
    let more =
      unsize consecutive (next_value st v o b) (next_offset st o) (next_sign st s b) bytes in
    if too_long st o
    then none
    else if bit_and b 0x80 == 0
    then some (signed_value (next_sign st s b) (next_value st v o b), bytes)
    else more

-- The reader, in front of these bytes, is to read this size, with those bytes behind it.
abbrev pub Unsizes : {S : Type 0} → Reader S → List ℕ → ℕ → List ℕ → Type 0
Unsizes r bytes v rest = unsize r.size_state r.value r.offset r.is_signed bytes ≡ some (v, rest)

unsize-ne-nil :
    (st : UsizeState) (v o : ℕ) (s : Bool) (bytes : List ℕ) (x : ℕ) (rest : List ℕ)
    → unsize st v o s bytes ≡ some (x, rest)
    → bytes ≢ []
unfolding unsize
unsize-ne-nil st v o s [] x rest e = cc
unsize-ne-nil st v o s (b ∷ bytes) x rest e = λ q. cc

one_byte : (out : List ℕ) → length out ≡ 1 → out ≡ get_or out 0 0 ∷ []
one_byte [] e = absurd (omega arith)
one_byte (b ∷ []) e = refl
one_byte (b ∷ b' ∷ out) e = absurd (omega arith)

unsize-cons :
    (st : UsizeState) (v o : ℕ) (s : Bool) (b : ℕ) (bytes : List ℕ) (x : ℕ) (rest : List ℕ)
    → unsize st v o s (b ∷ bytes) ≡ some (x, rest)
    → (too_long st o ≡ false)
      × (((bit_and b 0x80 == 0 ≡ true)
            × (signed_value (next_sign st s b) (next_value st v o b) ≡ x)
            × (bytes ≡ rest))
          ⊎ ((bit_and b 0x80 == 0 ≡ false)
              × (unsize consecutive
                    (next_value st v o b)
                    (next_offset st o)
                    (next_sign st s b)
                    bytes
                  ≡ some (x, rest))))
unfolding unsize
unsize-cons st v o s b bytes x rest e = ground arith

overflows-too_long : (st : UsizeState) (o : ℕ) → overflows st o ≡ too_long st o
overflows-too_long first o = refl
overflows-too_long consecutive o = ground arith

-- A reader that reads a byte, and the size behind it.
next_byte-value :
    (h : Decoder) (st : UsizeState) (r : Reader h.State) (b : ℕ)
    → let r' = next_byte h st r b in
      (r'.value ≡ next_value st r.value r.offset b)
      × (r'.offset ≡ next_offset st r.offset)
      × (r'.is_signed ≡ next_sign st r.is_signed b)
      × (r'.window_sz2 ≡ r.window_sz2)
      × (r'.decoder ≡ r.decoder)
next_byte-value h first r b = (refl, refl, refl, refl, refl)
next_byte-value h consecutive r b = (refl, refl, refl, refl, refl)

next_byte-consecutive :
    (h : Decoder) (st : UsizeState) (r : Reader h.State) (b : ℕ)
    → r.size_state ≡ st
    → (next_byte h st r b).size_state ≡ consecutive
next_byte-consecutive h first r b e = refl
next_byte-consecutive h consecutive r b e = e

module _ {h : Decoder} (l : InflateLaws h) (later : List ℕ) where
  open h use {State}

  -- How the reading of the size `v` in front of `rest` ends: it is read; or more input is to come, and
  -- the same size is still to be read.
  abbrev pub SizeRead : ℕ → List ℕ → Sized State → Type 0
  SizeRead v rest u =
      ((u.res ≡ pos 0)
        × (u.size ≡ v)
        × (u.reader.size_state ≡ first)
        × (future l u.reader (u.chunk.left ++ later) ≡ rest)
        × IsValid l u.reader (u.chunk.left ++ later))
      ⊎ ((u.res ≡ pos 1)
          × (u.chunk.left ≡ [])
          × (later ≢ [])
          × Unsizes u.reader (future l u.reader later) v rest
          × IsValid l u.reader later)

  rounds-SizeRead :
      (n : ℕ) (r : Reader State) (c : Chunk) (size old v : ℕ) (rest : List ℕ) (u : Sized State)
      → size ≡ 1
      → IsValid l r (c.left ++ later)
      → Unsizes r (future l r (c.left ++ later)) v rest
      → unpack_rounds h n r c size old ≡ some u
      → SizeRead v rest u
  unfolding unpack_rounds
  rounds-SizeRead zero r c size old v rest u e1 valid reads e = cc
  rounds-SizeRead (suc n) r c size old v rest u e1 valid reads e =
      let d = decompress h r c size in
      let b = get_or d.out 0 0 in
      let r' = next_byte h r.size_state d.reader b in
      let left = d.chunk.left ++ later in
      let serve =
        decompress-Served l r c later size (omega arith) (omega arith) valid
          (unsize-ne-nil r.size_state r.value r.offset r.is_signed _ v rest reads) in
      ground (
        arith,
        serve,
        one_byte d.out,
        decompress-KeepsSize h r c size,
        next_byte-value h r.size_state d.reader b,
        next_byte-consecutive h r.size_state d.reader b,
        overflows-too_long r.size_state r.offset,
        unsize-cons r.size_state r.value r.offset r.is_signed b (future l d.reader left) v rest,
        rounds-SizeRead n r' d.chunk d.size old v rest u,
      )

  or_stuck-SizeRead :
      (r : Reader State) (c : Chunk) (old v : ℕ) (rest : List ℕ) (o : Option (Sized State))
      → o ≢ none
      → ((u : Sized State) → o ≡ some u → SizeRead v rest u)
      → SizeRead v rest (or_stuck h r c old o)
  or_stuck-SizeRead r c old v rest none ne all = absurd (ne refl)
  or_stuck-SizeRead r c old v rest (some u) ne all = all u refl

  -- For a decoder that keeps the laws of an inflating one: where the bytes that the reader can still be
  -- asked for, from the chunk and from the input behind it together, hold the size `v` in front of
  -- `rest`, as the reference function `unsize` reads them, and that input is as the reader wants it,
  -- `patch_reader_unpack_size` returns 0 with that size, and is in front of `rest`; or it returns 1, the
  -- chunk is used up, more input is to come, and the same size in front of the same bytes is still to be
  -- read. So it does not matter in which chunks the bytes arrive.
  pub unpack_size-SizeRead :
      (r : Reader State) (c : Chunk) (old v : ℕ) (rest : List ℕ)
      → IsValid l r (c.left ++ later)
      → Unsizes r (future l r (c.left ++ later)) v rest
      → SizeRead v rest (patch_reader_unpack_size h r c old)
  unfolding patch_reader_unpack_size
  unpack_size-SizeRead r c old v rest valid reads =
      or_stuck-SizeRead r c old v rest (unpack_rounds h max_rounds r c 1 old)
        (unpack_rounds-ne-none h r c old)
        (λ u e. rounds-SizeRead max_rounds r c 1 old v rest u refl valid reads e)

unsize-tail_groups :
    (k w v o : ℕ) (s : Bool) (rest : List ℕ)
    → w < 128 ^ suc k
    → o + 7 * k ≤ 25
    → v < 2 ^ o
    → unsize consecutive v o s (tail_groups k w ++ rest)
      ≡ some (signed_value s (v + w * 2 ^ o), rest)
unfolding unsize tail_groups
unsize-tail_groups zero w v o s rest hw ho hv =
    ground (arith, or_group o v w, bit_and_0x80 w, split_group w o)
unsize-tail_groups (suc k) w v o s rest hw ho hv = ground (
  arith,
  or_group o v w,
  bit_and_0x80 w,
  split_group w o,
  group_bound o v w,
  or_group o v (w % 128 + 128),
  bit_and_0x80 (w % 128 + 128),
  unsize-tail_groups k (w / 128) (v + w % 128 * 2 ^ o) (o + 7) s rest,
)

-- A size of the format is read as the pattern of its value.
pub unsize-pack_size :
    (s : Bool) (x v o : ℕ) (t : Bool) (rest : List ℕ)
    → x < 2 ^ 27
    → unsize first v o t (pack_size s x ++ rest) ≡ some (signed_value s x, rest)
unfolding unsize pack_size
unsize-pack_size s x v o t rest h = ground (
  arith,
  sign_byte s x 0,
  sign_byte s (x % 64) 128,
  sign_bit-lt s x,
  sign_bit-lt s (x % 64),
  bit_and_0x80 (x + sign_bit s),
  bit_and_0x80 (x % 64 + sign_bit s + 128),
  unsize-tail_groups 2 (x / 64) (x % 64) 6 s rest,
)
