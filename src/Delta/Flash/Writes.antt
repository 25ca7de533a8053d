-- ===== src/Delta/Flash/Writes.antt =====
-- A sequence of flash writes that respects the pages stores its bytes one behind the other.
use delta_updates_for_embedd.Common.{ℕ, suc, ◌+◌, ◌-◌, ◌%◌, ◌≤◌, ◌<◌, arith, ◌≡◌, subst, ap, ◌∙◌}
use delta_updates_for_embedd.Common.{List, [], ◌∷◌, ◌++◌, length, get_or, pos}
use delta_updates_for_embedd.Delta.Codes.{page_size}
use delta_updates_for_embedd.Delta.Platform.{Platform, FlashLaws}
use delta_updates_for_embedd.Delta.Flash.{FlashMem, delta_flash_write}
use delta_updates_for_embedd.Delta.Flash.Pages.{
  IsErasedAhead, write_stores, write_keeps, write_moves, write_counts, write_ahead,
}

module _ {p : Platform} (l : FlashLaws p) where
  open p use {Device}
  open l use {peek}

  -- The flash holds these bytes from this address on.
  abbrev pub Holds : Device → ℕ → List ℕ → Type 0
  Holds d off [] = Unit
  Holds d off (b ∷ bytes) = (peek d off ≡ b) × Holds d (suc off) bytes

  Holds-peek :
      (d : Device) (off : ℕ) (bytes : List ℕ)
      → ((a : ℕ) → off ≤ a → a < off + length bytes → peek d a ≡ get_or bytes (a - off) 0)
      → Holds d off bytes
  Holds-peek d off [] h = tt
  Holds-peek d off (b ∷ bytes) h = (
    (let e : off - off ≡ 0 = omega arith in
        h off (omega arith) (omega arith) ∙ ap (λ i. get_or (b ∷ bytes) i 0) e),
    Holds-peek d (suc off) bytes (λ a h1 h2.
        let e : a - off ≡ suc (a - suc off) = omega arith in
        h a (omega arith) (omega arith) ∙ ap (λ i. get_or (b ∷ bytes) i 0) e),
  )

  Holds-append :
      (d d' : Device) (off : ℕ) (xs ys : List ℕ)
      → ((a : ℕ) → a < off + length xs → peek d' a ≡ peek d a)
      → Holds d off xs
      → Holds d' (off + length xs) ys
      → Holds d' off (xs ++ ys)
  Holds-append d d' off [] ys same hx hy =
      let e : off + 0 ≡ off = omega arith in subst (λ o. Holds d' o ys) e hy
  Holds-append d d' off (x ∷ xs) ys same hx hy = (
    same off (omega arith) ∙ hx.0,
    Holds-append d d' (suc off) xs ys (λ a h. same a (omega arith)) hx.1
        (let e : off + suc (length xs) ≡ suc off + length xs = omega arith in
          subst (λ o. Holds d' o ys) e hy),
  )

  -- For a write that succeeds, starts in an erased rest of a page, with `write_buf` the number of
  -- bytes that are written in that page (`to_current` modulo the size of a page), and does not leave
  -- the page: behind the bytes that the flash holds from `start` on it holds those of the buffer, the
  -- offset has moved past them, and the rest of the page that it then stands in is erased again and
  -- `write_buf` is again the number of bytes written in it, so that the next write can follow.
  pub delta_flash_write-Holds :
      (flash : FlashMem Device) (buf written : List ℕ) (start : ℕ)
      → IsErasedAhead l flash
      → flash.to_current % page_size + length buf ≤ page_size
      → (delta_flash_write p flash buf).1 ≡ pos 0
      → start + length written ≡ flash.to_current
      → Holds flash.device start written
      → let flash' = (delta_flash_write p flash buf).0 in
        Holds flash'.device start (written ++ buf)
        × (flash'.to_current ≡ flash.to_current + length buf)
        × IsErasedAhead l flash'
  delta_flash_write-Holds flash buf written start ahead fits ok at holds =
      let flash' = (delta_flash_write p flash buf).0 in
      (
        Holds-append flash.device flash'.device start written buf
            (λ a h. write_keeps p l flash buf ahead fits ok a (omega arith)) holds
            (rw at (
              Holds-peek flash'.device flash.to_current buf
                (write_stores p l flash buf ahead fits ok))),
        write_moves p l flash buf ahead fits ok,
        record {
          counted = write_counts p l flash buf ahead fits ok;
          erased = write_ahead p l flash buf ahead fits ok;
        },
      )
