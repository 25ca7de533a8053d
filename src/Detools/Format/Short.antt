-- ===== src/Detools/Format/Short.antt =====
-- A first chunk of a patch that ends inside the header, as app/src/detools/detools.c takes it.
use delta_updates_for_embedd.Common.{
  ℕ, zero, suc, ◌+◌, ◌<◌, arith, ◌≡◌, ◌≢◌, refl, List, [], ◌∷◌, ◌++◌, some, true, ℤ, neg, is_neg,
}
use delta_updates_for_embedd.Detools.Codes.{short_header}
use delta_updates_for_embedd.Detools.Decoder.{Decoder}
use delta_updates_for_embedd.Detools.Chunk.Short.{unpack_header_size-short}
use delta_updates_for_embedd.Detools.Apply.{
  init, failed, ApplyPatch, Callbacks, Stepped, stepped, init_with, process_init, dispatch,
  process_once,
}
use delta_updates_for_embedd.Detools.Run.{process_loop, load_chunk, process}
use delta_updates_for_embedd.Detools.Format.{patch_header}
use delta_updates_for_embedd.Detools.Format.Start.{no_type}

module _ (h : Decoder) {A : Type 0} (cb : Callbacks A) where
  open h use {State}

  once-short :
      (self : ApplyPatch State) (arg : A) (compression size b : ℕ) (front behind : List ℕ)
      → self.state ≡ init
      → self.chunk.left ≡ b ∷ front
      → (b ∷ front) ++ behind ≡ patch_header compression size
      → behind ≢ []
      → compression < 16
      → let t = process_once h cb self arg in
        (t.res ≡ neg short_header) × (t.self.state ≡ failed) × (t.arg ≡ arg)
  unfolding process_once dispatch process_init init_with
  once-short self arg compression size b front behind e1 e2 e3 more low = ground (
    arith,
    no_type compression,
    unpack_header_size-short size 0 (self.chunk.offset + 1) front behind,
  )

  -- A negative result ends the loop.
  process_loop-stop :
      (n : ℕ) (self : ApplyPatch State) (arg : A) (res : ℤ)
      → is_neg res ≡ true
      → process_loop h cb n self arg res ≡ some (stepped self arg res)
  unfolding process_loop
  process_loop-stop zero self arg res e = ground arith
  process_loop-stop (suc n) self arg res e = ground arith

  -- Where the first chunk of a patch, one byte or more, ends inside the header,
  -- `detools_apply_patch_process` returns the error -18 of a short header, whatever fuel there is behind
  -- the first call, the machine has failed for good, and no callback has been called. The patch has a
  -- compression below 16.
  pub process-short :
      (fuel : ℕ) (self : ApplyPatch State) (arg : A) (compression size n b : ℕ)
      (front behind : List ℕ)
      → self.state ≡ init
      → (b ∷ front) ++ behind ≡ patch_header compression size
      → behind ≢ []
      → compression < 16
      → (t : Stepped State A) × (process h cb (suc fuel) self arg (b ∷ front) n ≡ some t)
        × (t.res ≡ neg short_header)
        × (t.self.state ≡ failed)
        × (t.arg ≡ arg)
  unfolding process process_loop
  process-short fuel self arg compression size n b front behind e1 e2 more low =
      let machine = load_chunk h cb self (b ∷ front) n in
      let t = process_once h cb machine arg in
      let (res, state, same) =
        once-short machine arg compression size b front behind e1 refl e2 more low in
      (
        stepped t.self t.arg (neg short_header),
        ground (arith, res, process_loop-stop fuel t.self t.arg t.res),
        refl,
        state,
        same,
      )
