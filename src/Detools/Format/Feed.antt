-- ===== src/Detools/Format/Feed.antt =====
-- The patch applier of app/src/detools/detools.c as detools.h says to drive it without the callback for
-- the patch: `detools_apply_patch_process` on one chunk after another, and `detools_apply_patch_finalize`.
use delta_updates_for_embedd.Common.{
  ℕ, ◌+◌, ◌*◌, ◌≤◌, arith, ◌≡◌, refl, sym, Option, some, List, [], ◌∷◌, ◌++◌, append_assoc, length,
  length-append, is_zero, pos, if◌then◌else◌,
}
use delta_updates_for_embedd.Detools.Decoder.{Decoder, FiniteOutput}
use delta_updates_for_embedd.Detools.Inflate.{InflateLaws}
use delta_updates_for_embedd.Detools.Apply.{ApplyPatch, Callbacks, Stepped, stepped}
use delta_updates_for_embedd.Detools.Apply.Progress.{busy, busy-le, mul_mono}
use delta_updates_for_embedd.Detools.Run.{process, finalize, and_then}
use delta_updates_for_embedd.Detools.Run.Chain.{some_of}
use delta_updates_for_embedd.Detools.Run.Ends.{process-ne-none, finalize-ne-none}
use delta_updates_for_embedd.Detools.Run.Rounds.{
  reserve, reserve_of_budget, process-budget, load_chunk-budget, loaded_measure, mul_add,
}
use delta_updates_for_embedd.Detools.Format.Images.{ImageLaws}
use delta_updates_for_embedd.Detools.Format.Once.{Going}
use delta_updates_for_embedd.Detools.Format.Loops.{process-UsedUp, load-Going}

-- The chunks behind one another.
abbrev pub joined : List (List ℕ) → List ℕ
joined [] = []
joined (chunk ∷ chunks) = chunk ++ joined chunks

module _ (h : Decoder) {A : Type 0} (cb : Callbacks A) where
  open h use {State}

  -- The calls on the chunks, up to an error.
  unfoldable pub process_all : ℕ → ApplyPatch State → A → List (List ℕ) → Option (Stepped State A)
  unfolding process
  process_all fuel self arg [] = some (stepped self arg (pos 0))
  process_all fuel self arg (chunk ∷ chunks) =
      and_then h cb (process h cb fuel self arg chunk (length chunk)) λ t.
        let rest = process_all fuel t.self t.arg chunks in if is_zero t.res then rest else some t

  -- The last call, behind calls without an error.
  abbrev pub finish : ℕ → Stepped State A → Option (Stepped State A)
  finish fuel t = let end = finalize h cb fuel t.self t.arg in if is_zero t.res then end else some t

  unfoldable pub feed : ℕ → ApplyPatch State → A → List (List ℕ) → Option (Stepped State A)
  unfolding process_all finalize
  feed fuel self arg chunks = and_then h cb (process_all fuel self arg chunks) (finish fuel)

module _ {h : Decoder} (f : FiniteOutput h) (l : InflateLaws h) {A : Type 0} {cb : Callbacks A}
    (i : ImageLaws cb) (fuel size : ℕ) (enough : 2 * (f.gain * size) + 2 ≤ fuel) where
  open h use {State}

  -- A call on a chunk ends, from a machine that can still read what `off` bytes of patch yield.
  pub process_ends :
      (self : ApplyPatch State) (arg : A) (chunk : List ℕ) (off : ℕ)
      → reserve h f l.polls cb self ≤ f.gain * off
      → off + length chunk ≤ size
      → (t : Stepped State A) × (process h cb fuel self arg chunk (length chunk) ≡ some t)
        × (reserve h f l.polls cb t.self ≤ f.gain * (off + length chunk))
  process_ends self arg chunk off b fits =
      let grown : f.gain * off + f.gain * length chunk ≤ f.gain * size = omega (
        arith,
        mul_add f.gain off (length chunk),
        mul_mono f.gain (off + length chunk) size fits,
      ) in
      let run = some_of (process h cb fuel self arg chunk (length chunk)) (
        process-ne-none h f l.polls cb fuel self arg chunk (length chunk) (
          loaded_measure (reserve h f l.polls cb self) (f.gain * off) _ (f.gain * length chunk)
            (busy h f self.state) (f.gain * size) fuel
            (load_chunk-budget h f l.polls cb self chunk (length chunk)) b (busy-le h f self.state)
            grown enough)) in
      let t = run.0 in
      (
        t,
        run.1,
        reserve_of_budget h f l.polls cb t.self (
            omega (
              arith,
              b,
              process-budget h f l.polls cb fuel self arg chunk (length chunk) t run.1,
              mul_add f.gain off (length chunk),
            )),
      )

  -- The last call ends.
  pub finalize_ends :
      (self : ApplyPatch State) (arg : A) (off : ℕ)
      → reserve h f l.polls cb self ≤ f.gain * off
      → off ≤ size
      → (t : Stepped State A) × (finalize h cb fuel self arg ≡ some t)
  finalize_ends self arg off b fits = some_of (finalize h cb fuel self arg) (
      finalize-ne-none h f l.polls cb fuel self arg
        (omega (arith, b, mul_mono f.gain off size fits, busy-le h f self.state)))

  module _ (whole : List ℕ) (total start : ℕ) (missing : List ℕ) where
    -- Behind the chunks the machine is where they end in the patch.
    pub process_all_follows :
        (chunks : List (List ℕ)) (self : ApplyPatch State) (arg : A) (off : ℕ)
        → Going l i whole total start (joined chunks ++ missing) self arg
        → self.chunk.left ≡ []
        → reserve h f l.polls cb self ≤ f.gain * off
        → off + length (joined chunks) ≤ size
        → (t : Stepped State A) × (process_all h cb fuel self arg chunks ≡ some t)
          × (t.res ≡ pos 0)
          × (t.self.chunk.left ≡ [])
          × Going l i whole total start missing t.self t.arg
          × (reserve h f l.polls cb t.self ≤ f.gain * (off + length (joined chunks)))
    unfolding process_all
    process_all_follows [] self arg off g empty b fits =
        (stepped self arg (pos 0), refl, refl, empty, g, omega (arith, b))
    process_all_follows (chunk ∷ chunks) self arg off g empty b fits =
        let later = joined chunks ++ missing in
        let sizes = length-append chunk (joined chunks) in
        let (u, ends, b') = process_ends self arg chunk off b (omega (arith, sizes)) in
        let used =
          process-UsedUp l i whole total start later fuel self arg chunk (length chunk) u
            (load-Going l i whole total start _ later self arg chunk (length chunk) g empty
              (sym (append_assoc chunk (joined chunks) missing)))
            ends in
        let (t, fed, res, none_left, g', b'') =
          process_all_follows chunks u.self u.arg (off + length chunk) used.1.3 used.1.1 b'
            (omega (arith, sizes)) in
        let total : off + length chunk + length (joined chunks)
            ≡ off + length (chunk ++ joined chunks) =
          omega (arith, sizes) in
        (t, rw (ends, used.0) fed, res, none_left, g', rw total at b'')
