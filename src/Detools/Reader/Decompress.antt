-- ===== src/Detools/Reader/Decompress.antt =====
-- What `patch_reader_heatshrink_decompress` returns, for every decoder that keeps the promises of
-- heatshrink_decoder.h.
use delta_updates_for_embedd.Common.{ℕ, ◌+◌, ◌*◌, ◌≤◌, ◌<◌, arith, ◌≡◌, ◌⊎◌}
use delta_updates_for_embedd.Common.{
  List, [], ◌∷◌, ◌++◌, length, length-append, All, All-append, sub32, word,
}
use delta_updates_for_embedd.Common.{ℤ, pos, neg}
use delta_updates_for_embedd.Detools.Codes.{heatshrink_header, heatshrink_poll, heatshrink_sink}
use delta_updates_for_embedd.Detools.Chunk.{Chunk}
use delta_updates_for_embedd.Detools.Decoder.{Decoder, PollLaws, FiniteOutput}
use delta_updates_for_embedd.Detools.Reader.{
  Reader, Inflated, Decompressed, decompress_loop, decompress_header, decompress,
}
use delta_updates_for_embedd.Detools.Reader.{unpack_heatshrink_header}

-- The three ways in which a request for `n` bytes can end, by the result, the bytes left of the
-- chunk, `*size_p` and the bytes put in `buf_p`.
abbrev pub Outcome : ℕ → ℤ → List ℕ → ℕ → List ℕ → Type 0
Outcome n res left size out =
    ((res ≡ pos 0) × (1 ≤ size) × (size ≤ n) × (length out ≡ size))
    ⊎ (((res ≡ pos 1) × (left ≡ []) × (out ≡ []))
        ⊎ ((res ≡ neg heatshrink_poll)
            ⊎ ((res ≡ neg heatshrink_sink) ⊎ (res ≡ neg heatshrink_header))))

abbrev pub InflatedOutcome : {S : Type 0} → ℕ → Inflated S → Type 0
InflatedOutcome n d = Outcome n d.res d.chunk.left d.size d.out

abbrev pub DecompressedOutcome : {S : Type 0} → ℕ → Decompressed S → Type 0
DecompressedOutcome n d = Outcome n d.res d.chunk.left d.size d.out

-- The part of the reader that decompression does not touch.
pub record KeepsSize {S : Type 0} (r r' : Reader S) : Type 0 where
  pub state_kept : r'.size_state ≡ r.size_state
  pub value_kept : r'.value ≡ r.value
  pub offset_kept : r'.offset ≡ r.offset
  pub sign_kept : r'.is_signed ≡ r.is_signed
  pub destroy_kept : r'.destroy ≡ r.destroy

-- The reader behind the heatshrink header `b`.
abbrev pub header_read : {S : Type 0} → Reader S → ℕ → Reader S
header_read r b =
    let (window, lookahead) = unpack_heatshrink_header b in
    record r { window_sz2 = window; lookahead_sz2 = lookahead }

module _ (h : Decoder) where
  open h use {State, reset, sink, poll, finish}

  nil_of_length : (xs : List ℕ) → length xs ≡ 0 → xs ≡ []
  nil_of_length [] e = cc
  nil_of_length (x ∷ xs) e = absurd (omega arith)

  loop-Outcome :
      (l : PollLaws h) (bytes : List ℕ) (at : ℕ) (s : State) (size left : ℕ) (out : List ℕ)
      → length out + left ≡ size
      → 1 ≤ left
      → size < word
      → InflatedOutcome size (decompress_loop h bytes at s size left out)
  unfolding decompress_loop
  loop-Outcome l [] at s size left out e h1 h2 = ground (
    arith,
    l.poll_size s left,
    length-append out (poll s left).2,
    nil_of_length (out ++ (poll s left).2),
  )
  loop-Outcome l (b ∷ bytes) at s size left out e h1 h2 =
      let got = (poll s left).2 in
      ground (
        arith,
        l.poll_size s left,
        length-append out got,
        loop-Outcome l bytes (at + 1) (sink (poll s left).0 b).0 size (sub32 left (length got))
            (out ++ got),
      )

  header-Outcome :
      (l : PollLaws h) (r : Reader State) (bytes : List ℕ) (at n : ℕ)
      → 1 ≤ n
      → n < word
      → DecompressedOutcome n (decompress_header h r bytes at n)
  unfolding decompress_header
  header-Outcome l r [] at n h1 h2 = ground arith
  header-Outcome l r (b ∷ bytes) at n h1 h2 =
      ground (arith, loop-Outcome l bytes (at + 1) r.decoder n n [])

  -- For a decoder that keeps its promises: a request for `n` bytes, of at least one and less than 2
  -- ^ 32, yields one to `n` bytes with result 0, or nothing with result 1 and the chunk used up, or
  -- one of the three heatshrink errors.
  pub decompress-Outcome :
      (l : PollLaws h) (r : Reader State) (c : Chunk) (n : ℕ)
      → 1 ≤ n
      → n < word
      → DecompressedOutcome n (decompress h r c n)
  unfolding decompress
  decompress-Outcome l r c n h1 h2 =
      ground (
        arith,
        header-Outcome l r c.left c.offset n,
        loop-Outcome l c.left c.offset r.decoder n n [],
      )

  header-KeepsSize :
      (r : Reader State) (bytes : List ℕ) (at n : ℕ)
      → KeepsSize r (decompress_header h r bytes at n).reader
  unfolding decompress_header
  header-KeepsSize r [] at n = ground arith
  header-KeepsSize r (b ∷ bytes) at n = ground arith

  -- A request for bytes leaves the size that is being read as it is.
  pub decompress-KeepsSize :
      (r : Reader State) (c : Chunk) (n : ℕ) → KeepsSize r (decompress h r c n).reader
  unfolding decompress
  decompress-KeepsSize r c n = ground (arith, header-KeepsSize r c.left c.offset n)

  loop-bytes :
      (l : PollLaws h) (bytes : List ℕ) (at : ℕ) (s : State) (size left : ℕ) (out : List ℕ)
      → All (λ b. b < 256) out
      → All (λ b. b < 256) (decompress_loop h bytes at s size left out).out
  unfolding decompress_loop
  loop-bytes l [] at s size left out e =
      ground (arith, All-append (λ b. b < 256) out (poll s left).2 e (l.poll_bytes s left))
  loop-bytes l (b ∷ bytes) at s size left out e =
      let got = (poll s left).2 in
      let all = All-append (λ b. b < 256) out got e (l.poll_bytes s left) in
      ground (
        arith,
        loop-bytes l bytes (at + 1) (sink (poll s left).0 b).0 size (sub32 left (length got))
            (out ++ got) all,
      )

  header-bytes :
      (l : PollLaws h) (r : Reader State) (bytes : List ℕ) (at n : ℕ)
      → All (λ b. b < 256) (decompress_header h r bytes at n).out
  unfolding decompress_header
  header-bytes l r [] at n = tt
  header-bytes l r (b ∷ bytes) at n =
      ground (arith, loop-bytes l bytes (at + 1) r.decoder n n [] tt)

  -- What a request for bytes yields are bytes.
  pub decompress-bytes :
      (l : PollLaws h) (r : Reader State) (c : Chunk) (n : ℕ)
      → All (λ b. b < 256) (decompress h r c n).out
  unfolding decompress
  decompress-bytes l r c n =
      ground (
        arith,
        header-bytes l r c.left c.offset n,
        loop-bytes l c.left c.offset r.decoder n n [] tt,
      )

  -- What the reader can still yield: from the decoder, and from the chunk.
  module _ (f : FiniteOutput h) where
    abbrev pub potential : Reader State → Chunk → ℕ
    potential r c = f.pending r.decoder + f.gain * length c.left

    loop-potential :
        (bytes : List ℕ) (at : ℕ) (s : State) (size left : ℕ) (out : List ℕ)
        → let d = decompress_loop h bytes at s size left out in
          f.pending d.decoder + f.gain * length d.chunk.left + length d.out
          ≤ f.pending s + f.gain * length bytes + length out
    unfolding decompress_loop
    loop-potential [] at s size left out =
        ground (arith, f.pending_poll s left, length-append out (poll s left).2)
    loop-potential (b ∷ bytes) at s size left out =
        let s' = (poll s left).0 in
        let got = (poll s left).2 in
        ground (
          arith,
          f.pending_poll s left,
          f.pending_sink s' b,
          length-append out got,
          loop-potential bytes (at + 1) (sink s' b).0 size (sub32 left (length got)) (out ++ got),
        )

    header-potential :
        (r : Reader State) (bytes : List ℕ) (at n : ℕ)
        → let d = decompress_header h r bytes at n in
          potential d.reader d.chunk + length d.out ≤ f.pending r.decoder + f.gain * length bytes
    unfolding decompress_header
    header-potential r [] at n = omega arith
    header-potential r (b ∷ bytes) at n =
        ground (arith, loop-potential bytes (at + 1) r.decoder n n [])

    -- For a decoder that holds finitely many bytes of output: every byte that a request yields is
    -- taken from what the reader could yield before.
    pub decompress-potential :
        (r : Reader State) (c : Chunk) (n : ℕ)
        → let d = decompress h r c n in potential d.reader d.chunk + length d.out ≤ potential r c
    unfolding decompress
    decompress-potential r c n = ground (
      arith,
      header-potential r c.left c.offset n,
      loop-potential c.left c.offset r.decoder n n [],
    )
