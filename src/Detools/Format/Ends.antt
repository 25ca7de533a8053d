-- ===== src/Detools/Format/Ends.antt =====
-- The two ends of `callbacks_process` in app/src/detools/detools.c on a patch of the format: the loops
-- from the first chunk, and the result behind the last.
use delta_updates_for_embedd.Common.{
  ℕ, zero, suc, ◌-◌, ◌<◌, ◌^◌, arith, ◌≡◌, ◌≢◌, refl, true, Option, some, none, List, [], min,
  add32, ltb, ℤ, pos, neg,
}
use delta_updates_for_embedd.Detools.Codes.{already_done, not_enough_patch_data}
use delta_updates_for_embedd.Detools.Decoder.{Decoder}
use delta_updates_for_embedd.Detools.Chunk.{chunk_at, chunk_available}
use delta_updates_for_embedd.Detools.Inflate.{InflateLaws}
use delta_updates_for_embedd.Detools.Reader.{destroy_reader}
use delta_updates_for_embedd.Detools.Apply.{ApplyPatch, Callbacks, Stepped, process_once}
use delta_updates_for_embedd.Detools.Run.{
  process_loop, process, finalize_loop, common_finalize, settle, finalize, callbacks_loop,
  keep_result,
}
use delta_updates_for_embedd.Detools.Run.Chain.{and_then-inv}
use delta_updates_for_embedd.Detools.Format.Images.{ImageLaws}
use delta_updates_for_embedd.Detools.Format.Once.{Going}
use delta_updates_for_embedd.Detools.Format.Loops.{
  UsedUp, process_loop-UsedUp, finalize_loop-whole, finalize_loop-missing,
}

module _ {h : Decoder} (l : InflateLaws h) {A : Type 0} {cb : Callbacks A} (i : ImageLaws cb)
    (whole : List ℕ) (total start : ℕ) where
  open h use {State}

  common_finalize-whole :
      (res : ℤ) (t : Stepped State A)
      → (t.res ≡ neg already_done)
        × (i.written t.arg ≡ whole)
        × (t.self.to_size ≡ total)
        × (l.pending t.self.patch_reader.decoder ≡ [])
        × i.IsSound t.arg
      → total < 2 ^ 27
      → common_finalize h cb t.res t.self.patch_reader t.self.to_size ≡ pos total
  unfolding common_finalize destroy_reader
  common_finalize-whole res t e bound = ground (arith, e, l.finished t.self.patch_reader.decoder)

  settle-whole :
      (o : Option (Stepped State A)) (t : Stepped State A)
      → ((u : Stepped State A)
          → o ≡ some u
          → (u.res ≡ neg already_done)
            × (i.written u.arg ≡ whole)
            × (u.self.to_size ≡ total)
            × (l.pending u.self.patch_reader.decoder ≡ [])
            × i.IsSound u.arg)
      → total < 2 ^ 27
      → settle h cb o ≡ some t
      → (t.res ≡ pos total) × (i.written t.arg ≡ whole) × i.IsSound t.arg
  settle-whole none t all bound e = cc
  settle-whole (some u) t all bound e =
      ground (arith, all u refl, common_finalize-whole u.res u (all u refl) bound)

  -- The end, behind the patch.
  pub finalize-whole :
      (fuel : ℕ) (self : ApplyPatch State) (arg : A) (t : Stepped State A)
      → total < 2 ^ 27
      → Going l i whole total start [] (record self { chunk = chunk_at [] 0 }) arg
      → finalize h cb fuel self arg ≡ some t
      → (t.res ≡ pos total) × (i.written t.arg ≡ whole) × i.IsSound t.arg
  unfolding finalize
  finalize-whole fuel self arg t bound g e =
      let empty = record self { chunk = chunk_at [] 0 } in
      settle-whole (finalize_loop h cb fuel empty arg) t
        (λ u eu. finalize_loop-whole l i whole total start fuel empty arg u g eu) bound e

  settle-missing :
      (missing : List ℕ) (o : Option (Stepped State A)) (t : Stepped State A)
      → ((u : Stepped State A)
          → o ≡ some u
          → (u.res ≡ pos 1) × Going l i whole total start missing u.self u.arg)
      → settle h cb o ≡ some t
      → (t.res ≡ neg not_enough_patch_data) × Going l i whole total start missing t.self t.arg
  unfolding common_finalize
  settle-missing missing none t all e = cc
  settle-missing missing (some u) t all e = ground (arith, all u refl)

  -- The end, where input is missing.
  pub finalize-missing :
      (missing : List ℕ) (fuel : ℕ) (self : ApplyPatch State) (arg : A) (t : Stepped State A)
      → missing ≢ []
      → Going l i whole total start missing (record self { chunk = chunk_at [] 0 }) arg
      → finalize h cb fuel self arg ≡ some t
      → (t.res ≡ neg not_enough_patch_data) × Going l i whole total start missing t.self t.arg
  unfolding finalize
  finalize-missing missing fuel self arg t more g e =
      let empty = record self { chunk = chunk_at [] 0 } in
      settle-missing missing (finalize_loop h cb fuel empty arg) t
        (λ u eu. finalize_loop-missing l i whole total start missing fuel empty arg u more g eu) e

  -- A machine that has used its chunk up has none.
  pub emptied-Going :
      (later : List ℕ) (self : ApplyPatch State) (arg : A)
      → self.chunk.left ≡ []
      → Going l i whole total start later self arg
      → Going l i whole total start later (record self { chunk = chunk_at [] 0 }) arg
  emptied-Going later self arg empty g =
      let m = g.matches in
      record {
        todo = g.todo;
        offset = g.offset;
        matches = record {
          state = m.state;
          valid = rw empty at m.valid;
          awaits = rw empty at m.awaits;
          fits = m.fits;
          sound = m.sound;
          position = m.position;
          tracked = m.tracked;
          counted = m.counted;
          sized = m.sized;
          bounded = m.bounded;
          written = m.written;
          room = m.room;
        };
      }

  -- A loop that starts with a call that comes into the patch.
  pub started-UsedUp :
      (later : List ℕ) (fuel : ℕ) (self : ApplyPatch State) (arg : A) (t : Stepped State A)
      → chunk_available self.chunk ≡ true
      → (process_once h cb self arg).res ≡ pos 0
      → Going l i whole total start later
          (process_once h cb self arg).self
          (process_once h cb self arg).arg
      → i.patch_left (process_once h cb self arg).arg ≡ i.patch_left arg
      → process_loop h cb fuel self arg (pos 0) ≡ some t
      → UsedUp l i whole total start later (i.patch_left arg) t
  unfolding process_loop
  started-UsedUp later zero self arg t more res g same e = ground arith
  started-UsedUp later (suc n) self arg t more res g same e =
      let u = process_once h cb self arg in
      ground (arith, g, process_loop-UsedUp l i whole total start later n u.self u.arg u.res t)

  -- `callbacks_process` behind its loop.
  pub kept :
      (res : ℤ) (u t : Stepped State A)
      → res ≡ pos 0
      → some (keep_result h cb res u) ≡ some t
      → u ≡ t
  kept res u t r e = ground arith

  -- `callbacks_loop` in front of a chunk.
  pub callbacks_loop-inv :
      (n fuel : ℕ) (self : ApplyPatch State) (arg : A) (size : ℕ) (t : Stepped State A)
      → 0 < size
      → let k = min (size - 0) 512 in
        (cb.patch_read arg k).1 ≡ pos 0
        → callbacks_loop h cb n fuel self arg 0 size (pos 0) ≡ some t
        → (m : ℕ) × (u : Stepped State A) × (process h cb fuel self
              (cb.patch_read arg k).0
              (cb.patch_read arg k).2
              k
            ≡ some u)
          × (callbacks_loop h cb m fuel u.self u.arg (add32 0 k) size u.res ≡ some t)
  unfolding callbacks_loop
  callbacks_loop-inv zero fuel self arg size t h1 r e = ground arith
  callbacks_loop-inv (suc n) fuel self arg size t h1 r e =
      let first : ltb 0 size ≡ true = ground arith in
      let next = and_then-inv h cb _ _ t (rw (first, r) at e) in (n, next.0, next.1, next.2)
