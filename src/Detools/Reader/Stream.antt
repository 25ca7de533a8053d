-- ===== src/Detools/Reader/Stream.antt =====
-- The decompressed stream, byte by byte, does not depend on the size that is being read.
use delta_updates_for_embedd.Common.{ℕ, arith, ◌≡◌}
use delta_updates_for_embedd.Common.{◌∙◌, List, [], ◌∷◌}
use delta_updates_for_embedd.Common.{pos}
use delta_updates_for_embedd.Detools.Chunk.{Chunk}
use delta_updates_for_embedd.Detools.Decoder.{Decoder}
use delta_updates_for_embedd.Detools.Reader.{Reader, Decompressed, decompress_header, decompress}

-- Two readers that stand at the same place of the stream.
pub record SameSource {S : Type 0} (r r' : Reader S) : Type 0 where
  pub same_window : r'.window_sz2 ≡ r.window_sz2
  pub same_lookahead : r'.lookahead_sz2 ≡ r.lookahead_sz2
  pub same_decoder : r'.decoder ≡ r.decoder

-- Two results that differ in the size that their readers are reading only.
pub record SameRun {S : Type 0} (d d' : Decompressed S) : Type 0 where
  pub readers : SameSource d.reader d'.reader
  pub same_chunk : d'.chunk ≡ d.chunk
  pub same_res : d'.res ≡ d.res
  pub same_size : d'.size ≡ d.size
  pub same_out : d'.out ≡ d.out

module _ (h : Decoder) where
  open h use {State, poll, sink}

  -- The next bytes of the stream are `bs`, when they are asked for one by one.
  abbrev pub Yields : Reader State → Chunk → List ℕ → Type 0
  Yields r c [] = Unit
  Yields r c (b ∷ bs) =
      let d = decompress h r c 1 in
      (d.res ≡ pos 0) × (d.size ≡ 1) × (d.out ≡ b ∷ []) × Yields d.reader d.chunk bs

  header-SameRun :
      (r r' : Reader State) (bytes : List ℕ) (at n : ℕ)
      → SameSource r r'
      → SameRun (decompress_header h r bytes at n) (decompress_header h r' bytes at n)
  unfolding decompress_header
  header-SameRun r r' [] at n e = ground arith
  header-SameRun r r' (b ∷ bytes) at n e = ground arith

  pub decompress-SameRun :
      (r r' : Reader State) (c : Chunk) (n : ℕ)
      → SameSource r r'
      → SameRun (decompress h r c n) (decompress h r' c n)
  unfolding decompress
  decompress-SameRun r r' c n e = ground (arith, header-SameRun r r' c.left c.offset n e)

  pub Yields-SameSource :
      (bs : List ℕ) (r r' : Reader State) (c : Chunk)
      → SameSource r r'
      → Yields r c bs
      → Yields r' c bs
  Yields-SameSource [] r r' c e y = tt
  Yields-SameSource (b ∷ bs) r r' c e y =
      let k = decompress-SameRun r r' c 1 e in
      (
        k.same_res ∙ y.0,
        k.same_size ∙ y.1,
        k.same_out ∙ y.2,
        rw (k.same_chunk) (
            Yields-SameSource bs (decompress h r c 1).reader (decompress h r' c 1).reader
              (decompress h r c 1).chunk k.readers y.3),
      )
