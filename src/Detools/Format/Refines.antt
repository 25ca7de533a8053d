-- ===== src/Detools/Format/Refines.antt =====
-- `detools_apply_patch_callbacks` of app/src/detools/detools.c against the format of a patch.
use delta_updates_for_embedd.Common.{
  ℕ, ◌*◌, ◌+◌, ◌≤◌, ◌<◌, ◌^◌, arith, ◌≡◌, ◌≢◌, refl, ap, some, List, [], ◌∷◌, ◌++◌, length, word,
  pos, neg,
}
use delta_updates_for_embedd.Detools.Codes.{not_enough_patch_data}
use delta_updates_for_embedd.Detools.Decoder.{Decoder, FiniteOutput}
use delta_updates_for_embedd.Detools.Inflate.{InflateLaws, inflate, IsNeeded}
use delta_updates_for_embedd.Detools.Apply.{ApplyPatch, Callbacks, Stepped}
use delta_updates_for_embedd.Detools.Run.{apply_patch_init, apply_patch_callbacks}
use delta_updates_for_embedd.Detools.Run.Chain.{some_of}
use delta_updates_for_embedd.Detools.Run.Rounds.{apply_patch_callbacks-ne-none}
use delta_updates_for_embedd.Detools.Format.{
  Segment, stream, patch_header, patch_bytes, target, Fits,
}
use delta_updates_for_embedd.Detools.Format.Images.{ImageLaws}
use delta_updates_for_embedd.Detools.Format.Processed.{
  callbacks_process-target, callbacks_process-cut,
}

-- On a patch of the format, for a decoder and callbacks that keep their laws and a `patch_read` that
-- gives no more than it is asked for, with rounds for the chunks of the patch and fuel for what they
-- yield, whatever the structure holds before: `detools_apply_patch_callbacks` returns the size of the
-- target that the patch describes, and has written that target, behind what was written before. The
-- patch is the header with a compression below 16 and the size of the target, the heatshrink header for
-- the sizes that are compiled in, and input of which every byte is needed and that inflates to the
-- stream of the rounds. The rounds fit the source from its position on, the target holds one byte or
-- more, fewer than 2 ^ 27, and fits in the capacity behind what is written, and the patch has fewer than
-- 2 ^ 32 bytes. What the callbacks rely on in the images holds at the end as at the start.
pub apply_patch_callbacks-target :
    (h : Decoder) (f : FiniteOutput h) (l : InflateLaws h) {A : Type 0} (cb : Callbacks A)
    (i : ImageLaws cb) (rounds fuel : ℕ) (memory : ApplyPatch h.State) (arg : A)
    (compression offset : ℕ) (segments : List Segment) (z : List ℕ)
    → let whole_target = target i.source segments offset in
      let patch = patch_bytes compression (length whole_target) z in
      i.patch_left arg ≡ patch
      → i.IsSound arg
      → i.position arg ≡ pos offset
      → compression < 16
      → inflate l l.initial z ≡ stream segments
      → IsNeeded l l.initial z
      → Fits i.source i.limit segments offset
      → 0 < length whole_target
      → length whole_target < 2 ^ 27
      → length (i.written arg ++ whole_target) ≤ i.capacity
      → length patch < word
      → length patch ≤ 512 * rounds
      → 2 * (f.gain * length patch) + 2 ≤ fuel
      → ((a : A) (n : ℕ) → length (cb.patch_read a n).2 ≤ n)
      → (t : Stepped h.State A) × (apply_patch_callbacks h cb rounds fuel memory (length patch) arg
          ≡ some t)
        × (t.res ≡ pos (length whole_target))
        × (i.written t.arg ≡ i.written arg ++ whole_target)
        × i.IsSound t.arg
unfolding apply_patch_callbacks apply_patch_init
apply_patch_callbacks-target h f l cb i rounds fuel memory arg compression offset [] z e1 sound e2
      low inflates needed fits some_target bounded room small chunks enough reads =
    absurd (omega arith)
apply_patch_callbacks-target h f l cb i rounds fuel memory arg compression offset (s ∷ segments) z
      e1 sound e2 low inflates needed fits some_target bounded room small chunks enough reads =
    let patch = patch_bytes compression (length (target i.source (s ∷ segments) offset)) z in
    let run = some_of (apply_patch_callbacks h cb rounds fuel memory (length patch) arg) (
      apply_patch_callbacks-ne-none h f l.polls cb rounds fuel memory (length patch) arg reads small
        chunks enough) in
    let t = run.0 in
    let (result, written, sound') =
      callbacks_process-target l i compression offset s segments z low some_target bounded inflates
        needed fits rounds fuel (apply_patch_init memory (length patch)) arg t refl refl e1 sound e2
        room (rw e1 small) (rw (ap length e1) run.1) in
    (t, run.1, result, written, sound')

-- A patch of the format that is cut short behind its header, for a decoder and callbacks that keep their
-- laws and a `patch_read` that gives no more than it is asked for, with rounds for the chunks of what is
-- there and fuel for what they yield, whatever the structure holds before:
-- `detools_apply_patch_callbacks` returns the error -19 that patch data is missing, for whatever is
-- missing, and what it has written behind what was written before is a front of the target that the whole
-- patch describes. The patch is as in the theorem on a whole patch, of which the bytes that can be read
-- hold the header and lack one byte or more. What the callbacks rely on in the images holds at the end as at
-- the start.
pub apply_patch_callbacks-cut :
    (h : Decoder) (f : FiniteOutput h) (l : InflateLaws h) {A : Type 0} (cb : Callbacks A)
    (i : ImageLaws cb) (rounds fuel : ℕ) (memory : ApplyPatch h.State) (arg : A)
    (compression offset : ℕ) (segments : List Segment) (z missing : List ℕ)
    → let whole_target = target i.source segments offset in
      let there = i.patch_left arg in
      there ++ missing ≡ patch_bytes compression (length whole_target) z
      → length (patch_header compression (length whole_target)) ≤ length there
      → missing ≢ []
      → i.IsSound arg
      → i.position arg ≡ pos offset
      → compression < 16
      → inflate l l.initial z ≡ stream segments
      → IsNeeded l l.initial z
      → Fits i.source i.limit segments offset
      → 0 < length whole_target
      → length whole_target < 2 ^ 27
      → length (i.written arg ++ whole_target) ≤ i.capacity
      → length there < word
      → length there ≤ 512 * rounds
      → 2 * (f.gain * length there) + 2 ≤ fuel
      → ((a : A) (n : ℕ) → length (cb.patch_read a n).2 ≤ n)
      → (t : Stepped h.State A) × (apply_patch_callbacks h cb rounds fuel memory (length there) arg
          ≡ some t)
        × (t.res ≡ neg not_enough_patch_data)
        × i.IsSound t.arg
        × (rest : List ℕ) × (i.written t.arg ++ rest ≡ i.written arg ++ whole_target)
unfolding apply_patch_callbacks apply_patch_init
apply_patch_callbacks-cut h f l cb i rounds fuel memory arg compression offset [] z missing e1 holds
      more sound e2 low inflates needed fits some_target bounded room small chunks enough reads =
    absurd (omega arith)
apply_patch_callbacks-cut h f l cb i rounds fuel memory arg compression offset (s ∷ segments) z
      missing e1 holds more sound e2 low inflates needed fits some_target bounded room small chunks
      enough reads =
    let size = length (i.patch_left arg) in
    let run = some_of (apply_patch_callbacks h cb rounds fuel memory size arg) (
      apply_patch_callbacks-ne-none h f l.polls cb rounds fuel memory size arg reads small chunks
        enough) in
    let (result, sound', rest, front) =
      callbacks_process-cut l i compression offset s segments z low some_target bounded inflates
        needed fits rounds fuel (apply_patch_init memory size) arg missing run.0 more refl refl e1
        holds sound e2 room small run.1 in
    (run.0, run.1, result, sound', rest, front)
