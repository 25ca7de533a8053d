-- ===== src/Detools/Format/Images.antt =====
-- What the patch applier relies on in its callbacks: a source that is read by offsets, a target that
-- is written behind what is there, and a patch that is read from the front. detools.h says this of
-- `detools_read_t`, `detools_seek_t` and `detools_write_t`.
use delta_updates_for_embedd.Common.{
  ℕ, ◌+◌, ◌≤◌, ◌<◌, ◌≡◌, List, All, ◌++◌, length, take, drop, ℤ, pos, ◌+ℤ◌,
}
use delta_updates_for_embedd.Detools.Apply.{Callbacks}
use delta_updates_for_embedd.Detools.Format.{bytes_of}

-- `position` is the offset in the source, `written` the target so far, `patch_left` what is still to be
-- read of the patch, and `IsSound` what else holds of the images. A read and a seek succeed within the
-- `limit` bytes of the source, a write of 128 bytes at most within
-- `capacity`, and a read of the patch as far as there is one.
pub record ImageLaws {A : Type 0} (cb : Callbacks A) : Type 1 where
  pub source : ℕ → ℕ
  pub limit : ℕ
  pub capacity : ℕ
  pub position : A → ℤ
  pub written : A → List ℕ
  pub patch_left : A → List ℕ
  pub IsSound : A → Type 0
  pub read_ok :
      (a : A) (offset n : ℕ)
      → IsSound a
      → position a ≡ pos offset
      → 0 < n
      → offset + n ≤ limit
      → let (a', res, bytes) = cb.from_read a n in
        (res ≡ pos 0)
        × (bytes ≡ bytes_of source offset n)
        × (position a' ≡ pos (offset + n))
        × (written a' ≡ written a)
        × (patch_left a' ≡ patch_left a)
        × IsSound a'
  pub seek_ok :
      (a : A) (step : ℤ) (offset : ℕ)
      → IsSound a
      → position a +ℤ step ≡ pos offset
      → offset ≤ limit
      → let (a', res) = cb.from_seek a step in
        (res ≡ pos 0)
        × (position a' ≡ pos offset)
        × (written a' ≡ written a)
        × (patch_left a' ≡ patch_left a)
        × IsSound a'
  pub write_ok :
      (a : A) (bytes : List ℕ)
      → IsSound a
      → All (λ b. b < 256) bytes
      → length bytes ≤ 128
      → length (written a) + length bytes ≤ capacity
      → let (a', res) = cb.to_write a bytes in
        (res ≡ pos 0)
        × (position a' ≡ position a)
        × (written a' ≡ written a ++ bytes)
        × (patch_left a' ≡ patch_left a)
        × IsSound a'
  pub patch_ok :
      (a : A) (n : ℕ)
      → IsSound a
      → 0 < n
      → n ≤ length (patch_left a)
      → let (a', res, bytes) = cb.patch_read a n in
        (res ≡ pos 0)
        × (bytes ≡ take n (patch_left a))
        × (position a' ≡ position a)
        × (written a' ≡ written a)
        × (patch_left a' ≡ drop n (patch_left a))
        × IsSound a'
