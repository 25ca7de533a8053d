-- ===== src/Detools/Format/Processed.antt =====
-- `callbacks_process` of app/src/detools/detools.c on a patch of the format, whole or cut short.
use delta_updates_for_embedd.Common.{
  ℕ, ◌≤◌, ◌<◌, ◌^◌, arith, ◌≡◌, ◌≢◌, ap, ◌∙◌, some, List, [], ◌∷◌, ◌++◌, append-nil, length,
  length-append, word, pos, neg,
}
use delta_updates_for_embedd.Detools.Codes.{not_enough_patch_data}
use delta_updates_for_embedd.Detools.Decoder.{Decoder}
use delta_updates_for_embedd.Detools.Chunk.{chunk_at}
use delta_updates_for_embedd.Detools.Inflate.{InflateLaws, inflate, IsNeeded}
use delta_updates_for_embedd.Detools.Apply.{init, ApplyPatch, Callbacks, Stepped}
use delta_updates_for_embedd.Detools.Run.{finalize, callbacks_process}
use delta_updates_for_embedd.Detools.Run.Chain.{and_then-inv}
use delta_updates_for_embedd.Detools.Format.{
  Segment, stream, patch_header, patch_bytes, target, Fits,
}
use delta_updates_for_embedd.Detools.Format.Images.{ImageLaws}
use delta_updates_for_embedd.Detools.Format.Matches.{remaining}
use delta_updates_for_embedd.Detools.Format.Once.{Going}
use delta_updates_for_embedd.Detools.Format.First.{begun-UsedUp}
use delta_updates_for_embedd.Detools.Format.Ends.{
  finalize-whole, finalize-missing, emptied-Going, kept,
}

module _ {h : Decoder} (l : InflateLaws h) {A : Type 0} {cb : Callbacks A} (i : ImageLaws cb)
    (compression offset : ℕ) (s : Segment) (segments : List Segment) (z : List ℕ)
    (low : compression < 16) (some_target : 0 < length (target i.source (s ∷ segments) offset))
    (bounded : length (target i.source (s ∷ segments) offset) < 2 ^ 27)
    (inflates : inflate l l.initial z ≡ stream (s ∷ segments)) (needed : IsNeeded l l.initial z)
    (fits : Fits i.source i.limit (s ∷ segments) offset) where
  open h use {State}

  abbrev whole_target : List ℕ
  whole_target = target i.source (s ∷ segments) offset

  abbrev total : ℕ
  total = length whole_target

  -- `callbacks_process` on a patch of which this is missing: its loop comes to the end of what is there.
  loop_ends :
      (rounds fuel : ℕ) (self : ApplyPatch State) (arg : A) (missing : List ℕ) (t : Stepped State A)
      → self.state ≡ init
      → self.from_offset ≡ 0
      → i.patch_left arg ++ missing ≡ patch_bytes compression total z
      → length (patch_header compression total) ≤ length (i.patch_left arg)
      → i.IsSound arg
      → i.position arg ≡ pos offset
      → length (i.written arg ++ whole_target) ≤ i.capacity
      → length (i.patch_left arg) < word
      → callbacks_process h cb rounds fuel self arg (length (i.patch_left arg)) ≡ some t
      → (v : Stepped State A) × (i.patch_left v.arg ≡ [])
        × Going l i
            (i.written arg ++ whole_target)
            total
            offset
            missing
            (record v.self { chunk = chunk_at [] 0 })
            v.arg
        × (finalize h cb fuel v.self v.arg ≡ some t)
  unfolding callbacks_process
  loop_ends rounds fuel self arg missing t e1 e0 e2 holds sound at room bound e =
      let whole = i.written arg ++ whole_target in
      let outer = and_then-inv h cb _ _ t e in
      let v = outer.0 in
      let inner = and_then-inv h cb _ _ t outer.2 in
      let used =
        begun-UsedUp l i compression offset s segments z missing low some_target bounded inflates
          needed fits rounds fuel self arg v e1 e0 e2 holds sound at room bound outer.1 in
      (
        v,
        used.1.2,
        emptied-Going l i whole total offset missing v.self v.arg used.1.1 used.1.3,
        inner.1 ∙ ap (λ u. some u) (kept l i whole total offset v.res inner.0 t used.0 inner.2),
      )

  pub callbacks_process-target :
      (rounds fuel : ℕ) (self : ApplyPatch State) (arg : A) (t : Stepped State A)
      → self.state ≡ init
      → self.from_offset ≡ 0
      → i.patch_left arg ≡ patch_bytes compression total z
      → i.IsSound arg
      → i.position arg ≡ pos offset
      → length (i.written arg ++ whole_target) ≤ i.capacity
      → length (i.patch_left arg) < word
      → callbacks_process h cb rounds fuel self arg (length (i.patch_left arg)) ≡ some t
      → (t.res ≡ pos total) × (i.written t.arg ≡ i.written arg ++ whole_target) × i.IsSound t.arg
  callbacks_process-target rounds fuel self arg t e1 e0 e2 sound at room bound e =
      let holds : length (patch_header compression total) ≤ length (i.patch_left arg) =
        rw e2 (omega (arith, length-append (patch_header compression total) (0x44 ∷ z))) in
      let end =
        loop_ends rounds fuel self arg [] t e1 e0 (append-nil (i.patch_left arg) ∙ e2) holds sound
          at room bound e in
      let v = end.0 in
      finalize-whole l i (i.written arg ++ whole_target) total offset fuel v.self v.arg t bounded
        end.2 end.3

  pub callbacks_process-cut :
      (rounds fuel : ℕ) (self : ApplyPatch State) (arg : A) (missing : List ℕ) (t : Stepped State A)
      → missing ≢ []
      → self.state ≡ init
      → self.from_offset ≡ 0
      → i.patch_left arg ++ missing ≡ patch_bytes compression total z
      → length (patch_header compression total) ≤ length (i.patch_left arg)
      → i.IsSound arg
      → i.position arg ≡ pos offset
      → length (i.written arg ++ whole_target) ≤ i.capacity
      → length (i.patch_left arg) < word
      → callbacks_process h cb rounds fuel self arg (length (i.patch_left arg)) ≡ some t
      → (t.res ≡ neg not_enough_patch_data)
        × i.IsSound t.arg
        × (rest : List ℕ) × (i.written t.arg ++ rest ≡ i.written arg ++ whole_target)
  callbacks_process-cut rounds fuel self arg missing t more e1 e0 e2 holds sound at room bound e =
      let end = loop_ends rounds fuel self arg missing t e1 e0 e2 holds sound at room bound e in
      let v = end.0 in
      let (res, g) =
        finalize-missing l i (i.written arg ++ whole_target) total offset missing fuel v.self v.arg
          t more end.2 end.3 in
      (res, g.matches.sound, remaining i.source i.limit g.todo g.offset, g.matches.written)
