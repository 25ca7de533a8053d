-- ===== src/Detools/Run/Restore.antt =====
-- A machine that is dumped, and restored into another one, goes on as the first.
use delta_updates_for_embedd.Common.{ℕ, arith, false, ◌≡◌, ◌≢◌, refl, sym, ap, List}
use delta_updates_for_embedd.Common.{ℤ, pos, signed32}
use delta_updates_for_embedd.Detools.Decoder.{Decoder}
use delta_updates_for_embedd.Detools.Chunk.{Chunk}
use delta_updates_for_embedd.Detools.Reader.{heatshrink_destroy}
use delta_updates_for_embedd.Detools.Apply.{ApplyPatch, ApplyState, init, Callbacks, stepped}
use delta_updates_for_embedd.Detools.Run.{
  apply_patch_dump, apply_patch_restore, process, finalize, is_init,
}

module _ (h : Decoder) {A : Type 0} (cb : Callbacks A)
    (state_write : A → ApplyPatch h.State → A × ℤ)
    (state_read : A → A × ℤ × ApplyPatch h.State) where
  open h use {State}

  not_init : (s : ApplyState) → s ≢ init → is_init s ≡ false
  not_init s e = ground arith

  -- The restored machine has everything of the dumped one but the chunk.
  restored :
      (self other : ApplyPatch State) (arg arg1 arg2 arg3 : A)
      → self.state ≢ init
      → self.patch_reader.destroy ≡ heatshrink_destroy
      → apply_patch_dump self state_write arg ≡ (arg1, pos 0)
      → state_read arg1 ≡ (arg2, pos 0, self)
      → cb.from_seek arg2 (signed32 self.from_offset) ≡ (arg3, pos 0)
      → apply_patch_restore cb other state_read (apply_patch_dump self state_write arg).0
        ≡ stepped (record self { chunk = other.chunk }) arg3 (pos 0)
  unfolding apply_patch_restore
  restored self other arg arg1 arg2 arg3 ne destroy dumped read seek =
      rw (dumped, read, not_init self.state ne, seek)
        (ap
          (λ d.
            stepped
              (record self {
                chunk = other.chunk;
                patch_reader = record self.patch_reader { destroy = d };
              })
              arg3 (pos 0))
          (sym destroy))

  -- The entry points set the chunk.
  process-chunk :
      (self : ApplyPatch State) (c : Chunk) (patch : List ℕ) (size fuel : ℕ) (a : A)
      → process h cb fuel (record self { chunk = c }) a patch size
        ≡ process h cb fuel self a patch size
  unfolding process
  process-chunk self c patch size fuel a = refl

  finalize-chunk :
      (self : ApplyPatch State) (c : Chunk) (fuel : ℕ) (a : A)
      → finalize h cb fuel (record self { chunk = c }) a ≡ finalize h cb fuel self a
  unfolding finalize
  finalize-chunk self c fuel a = refl

  -- Behind the header, a machine that is dumped with result 0 and read back as it was, where the
  -- reading and the seek in the source succeed, is restored with result 0 into whatever machine: the
  -- next chunk of the patch, and the end of it, take the restored machine where they would have taken
  -- the dumped one.
  pub restore-dump :
      (self other : ApplyPatch State) (arg arg1 arg2 arg3 a : A) (patch : List ℕ) (size fuel : ℕ)
      → self.state ≢ init
      → self.patch_reader.destroy ≡ heatshrink_destroy
      → apply_patch_dump self state_write arg ≡ (arg1, pos 0)
      → state_read arg1 ≡ (arg2, pos 0, self)
      → cb.from_seek arg2 (signed32 self.from_offset) ≡ (arg3, pos 0)
      → let t = apply_patch_restore cb other state_read (apply_patch_dump self state_write arg).0 in
        (t.res ≡ pos 0)
        × (t.arg ≡ arg3)
        × (process h cb fuel t.self a patch size ≡ process h cb fuel self a patch size)
        × (finalize h cb fuel t.self a ≡ finalize h cb fuel self a)
  restore-dump self other arg arg1 arg2 arg3 a patch size fuel ne destroy dumped read seek =
      rw (restored self other arg arg1 arg2 arg3 ne destroy dumped read seek) (
        refl,
        refl,
        process-chunk self other.chunk patch size fuel a,
        finalize-chunk self other.chunk fuel a,
      )
