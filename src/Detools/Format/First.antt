-- ===== src/Detools/Format/First.antt =====
-- The first chunk of `callbacks_process` in app/src/detools/detools.c, with the header of the patch in it,
-- and the loop from there on.
use delta_updates_for_embedd.Common.{
  ℕ, zero, suc, ◌+◌, ◌-◌, ◌/◌, ◌≤◌, ◌<◌, ◌^◌, arith, ◌≡◌, ap, ◌∙◌, sym, some, List, [], ◌∷◌, ◌++◌,
  append_assoc, length, take, drop, length-take, length-drop, min, word, add32, pos,
}
use delta_updates_for_embedd.Detools.Decoder.{Decoder}
use delta_updates_for_embedd.Detools.Chunk.RoundTrip.{tail_groups, pack_header_size}
use delta_updates_for_embedd.Detools.Inflate.{InflateLaws, inflate, IsNeeded}
use delta_updates_for_embedd.Detools.Inflate.Supply.{take-drop}
use delta_updates_for_embedd.Detools.Apply.{init, ApplyPatch, Callbacks, Stepped}
use delta_updates_for_embedd.Detools.Run.{process_loop, load_chunk, process, callbacks_loop}
use delta_updates_for_embedd.Detools.Format.{
  Segment, stream, patch_header, patch_bytes, target, Fits,
}
use delta_updates_for_embedd.Detools.Format.Images.{ImageLaws}
use delta_updates_for_embedd.Detools.Format.Bytes.{split_front}
use delta_updates_for_embedd.Detools.Format.Start.{header-Going}
use delta_updates_for_embedd.Detools.Format.Loops.{UsedUp, with_result-UsedUp}
use delta_updates_for_embedd.Detools.Format.Reads.{callbacks_loop-UsedUp}
use delta_updates_for_embedd.Detools.Format.Ends.{started-UsedUp, callbacks_loop-inv}

length-tail_groups : (k v : ℕ) → length (tail_groups k v) ≤ suc k
unfolding tail_groups
length-tail_groups zero v = omega arith
length-tail_groups (suc k) v = ground (arith, length-tail_groups k (v / 128))

pub length-patch_header : (compression size : ℕ) → length (patch_header compression size) ≤ 5
unfolding pack_header_size
length-patch_header compression size = ground (arith, length-tail_groups 2 (size / 64))

some_header : (compression size : ℕ) → 0 < length (patch_header compression size)
some_header compression size = omega arith

module _ {h : Decoder} (l : InflateLaws h) {A : Type 0} {cb : Callbacks A} (i : ImageLaws cb)
    (compression offset : ℕ) (s : Segment) (segments : List Segment) (z missing : List ℕ)
    (low : compression < 16) (some_target : 0 < length (target i.source (s ∷ segments) offset))
    (bounded : length (target i.source (s ∷ segments) offset) < 2 ^ 27)
    (inflates : inflate l l.initial z ≡ stream (s ∷ segments)) (needed : IsNeeded l l.initial z)
    (fits : Fits i.source i.limit (s ∷ segments) offset) where
  open h use {State}

  abbrev whole_target : List ℕ
  whole_target = target i.source (s ∷ segments) offset

  abbrev total : ℕ
  total = length whole_target

  abbrev header : List ℕ
  header = patch_header compression total

  -- A chunk that holds the header, and the front of what is behind it.
  pub header-UsedUp :
      (fuel : ℕ) (self : ApplyPatch State) (arg : A) (chunk later : List ℕ) (n : ℕ)
      (t : Stepped State A)
      → self.state ≡ init
      → self.from_offset ≡ 0
      → chunk ++ later ≡ patch_bytes compression total z
      → length header ≤ length chunk
      → i.IsSound arg
      → i.position arg ≡ pos offset
      → length (i.written arg ++ whole_target) ≤ i.capacity
      → process h cb fuel self arg chunk n ≡ some t
      → (t.res ≡ pos 0)
        × UsedUp l i (i.written arg ++ whole_target) total offset later (i.patch_left arg) t
  unfolding process
  header-UsedUp fuel self arg chunk later n t e1 e0 e2 holds sound at room e =
      let whole = i.written arg ++ whole_target in
      let machine = load_chunk h cb self chunk n in
      let front = drop (length header) chunk in
      let (split, behind, size) = split_front header (0x44 ∷ z) chunk later (sym e2) holds in
      let (res, kept, g) =
        header-Going l i machine arg compression offset s segments z front later e1 e0 split
          (sym behind) low some_target bounded inflates needed fits sound at room in
      with_result-UsedUp l i whole total offset later (i.patch_left arg)
        (process_loop h cb fuel machine arg (pos 0)) t
        (λ u eu.
          started-UsedUp l i whole total offset later fuel machine arg u (rw split (ground arith))
            res g kept eu)
        e

  -- The loop from the first chunk of a patch on, of which the end can be missing.
  pub begun-UsedUp :
      (rounds fuel : ℕ) (self : ApplyPatch State) (arg : A) (v : Stepped State A)
      → self.state ≡ init
      → self.from_offset ≡ 0
      → i.patch_left arg ++ missing ≡ patch_bytes compression total z
      → length header ≤ length (i.patch_left arg)
      → i.IsSound arg
      → i.position arg ≡ pos offset
      → length (i.written arg ++ whole_target) ≤ i.capacity
      → length (i.patch_left arg) < word
      → callbacks_loop h cb rounds fuel self arg 0 (length (i.patch_left arg)) (pos 0) ≡ some v
      → (v.res ≡ pos 0) × UsedUp l i (i.written arg ++ whole_target) total offset missing [] v
  begun-UsedUp rounds fuel self arg v e1 e0 e2 holds sound at room bound e =
      let left = i.patch_left arg in
      let k = min (length left - 0) 512 in
      let sizes = length-patch_header compression total in
      let within : length header ≤ k = omega (arith, sizes) in
      let some_chunk : 0 < k = omega (arith, some_header compression total, holds) in
      let in_patch : k ≤ length left = omega arith in
      let small : add32 0 k ≡ 0 + k = omega arith in
      let (read, bytes, same_position, same, behind, sound') =
        i.patch_ok arg k sound some_chunk in_patch in
      let arg' = (cb.patch_read arg k).0 in
      let chunk : length (take k left) ≡ k = rw (length-take k left) (omega arith) in
      let split : (cb.patch_read arg k).2 ++ (drop k left ++ missing)
          ≡ patch_bytes compression total z =
        rw bytes (
          sym (append_assoc (take k left) (drop k left) missing)
          ∙ ap (λ ys. ys ++ missing) (take-drop k left)
          ∙ e2) in
      let start =
        callbacks_loop-inv l i (i.written arg ++ whole_target) total offset rounds fuel self arg
          (length left) v (omega (arith, some_chunk)) read e in
      let w = start.1 in
      let first =
        header-UsedUp fuel self arg' (cb.patch_read arg k).2 (drop k left ++ missing) k w e1 e0
          split (rw (bytes, chunk) within) sound' (same_position ∙ at) (rw same room) start.2 in
      let left' : i.patch_left w.arg ≡ drop k left = first.1.2 ∙ behind in
      let going = rw same at first.1.3 in
      callbacks_loop-UsedUp l i (i.written arg ++ whole_target) total offset missing start.0 fuel
        w.self w.arg (add32 0 k) (length left) w.res v first.0 (rw left' going) first.1.1
        (rw (left', small) (omega (arith, length-drop k left))) bound start.3
