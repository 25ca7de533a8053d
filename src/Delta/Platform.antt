-- ===== src/Delta/Platform.antt =====
-- What app/src/delta takes from Zephyr and MCUboot: the flash driver, the bootloader's request, and
-- the partitions of the devicetree. They are parameters, with the documented behaviour of the
-- driver as laws.
use delta_updates_for_embedd.Common.{
  ℕ, ◌+◌, ◌-◌, ◌%◌, ◌≤◌, ◌<◌, ◌≡◌, ◌⊎◌, List, length, get_or, All,
}
use delta_updates_for_embedd.Common.{ℤ, pos}
use delta_updates_for_embedd.Delta.Codes.{page_size}
use delta_updates_for_embedd.Detools.Format.{bytes_of}

-- `flash_read`, `flash_write`, `flash_erase` and `boot_request_upgrade`: each result is 0 on
-- success. A read returns the bytes that it puts in the buffer.
pub record Platform : Type 1 where
  pub Device : Type 0
  pub flash_read : Device → ℤ → ℕ → ℤ × List ℕ
  pub flash_write : Device → ℕ → List ℕ → Device × ℤ
  pub flash_erase : Device → ℕ → ℕ → Device × ℤ
  pub boot_request_upgrade : Device → Device × ℤ

-- The offsets and sizes of `slot0_partition`, `slot1_partition` and `storage_partition`.
pub record Layout : Type 0 where
  pub primary_offset : ℕ
  pub primary_size : ℕ
  pub secondary_offset : ℕ
  pub secondary_size : ℕ
  pub storage_offset : ℕ
  pub storage_size : ℕ

abbrev pub erased_byte : ℕ
erased_byte = 0xff

-- The driver on success: `peek` is the byte that the flash holds at an address. An erase sets its
-- range and touches nothing else; a write sets what is erased in its range to the bytes given, and
-- touches nothing outside of it; a read returns what is there.
pub record FlashLaws (p : Platform) : Type 0 where
  pub peek : p.Device → ℕ → ℕ
  pub erase_in :
      (d : p.Device) (off n a : ℕ)
      → (p.flash_erase d off n).1 ≡ pos 0
      → off ≤ a
      → a < off + n
      → peek (p.flash_erase d off n).0 a ≡ erased_byte
  pub erase_out :
      (d : p.Device) (off n a : ℕ)
      → (p.flash_erase d off n).1 ≡ pos 0
      → (a < off) ⊎ (off + n ≤ a)
      → peek (p.flash_erase d off n).0 a ≡ peek d a
  pub write_in :
      (d : p.Device) (off : ℕ) (bytes : List ℕ) (a : ℕ)
      → (p.flash_write d off bytes).1 ≡ pos 0
      → off ≤ a
      → a < off + length bytes
      → peek d a ≡ erased_byte
      → peek (p.flash_write d off bytes).0 a ≡ get_or bytes (a - off) 0
  pub write_out :
      (d : p.Device) (off : ℕ) (bytes : List ℕ) (a : ℕ)
      → (p.flash_write d off bytes).1 ≡ pos 0
      → (a < off) ⊎ (off + length bytes ≤ a)
      → peek (p.flash_write d off bytes).0 a ≡ peek d a

-- A write of zeros clears its range, whatever it held: a flash cell can always be programmed to 0.
pub record ClearLaws {p : Platform} (l : FlashLaws p) : Type 0 where
  pub clear_in :
      (d : p.Device) (off : ℕ) (bytes : List ℕ) (a : ℕ)
      → (p.flash_write d off bytes).1 ≡ pos 0
      → off ≤ a
      → a < off + length bytes
      → get_or bytes (a - off) 0 ≡ 0
      → l.peek (p.flash_write d off bytes).0 a ≡ 0
  pub read_in :
      (d : p.Device) (off n i : ℕ)
      → (p.flash_read d (pos off) n).0 ≡ pos 0
      → i < n
      → get_or (p.flash_read d (pos off) n).1 i 0 ≡ l.peek d (off + i)

-- A read fills its buffer with bytes, and with no more than it is asked for.
pub record ReadLaws (p : Platform) : Type 0 where
  pub read_size : (d : p.Device) (off : ℤ) (n : ℕ) → length (p.flash_read d off n).1 ≤ n
  pub read_bytes : (d : p.Device) (off : ℤ) (n : ℕ) → All (λ b. b < 256) (p.flash_read d off n).1

-- The driver works on a flash of `size` bytes: a read and a write within it succeed, and so does an
-- erase of a page of it. A write is one of bytes, of any number from any address: app/prj.conf turns on
-- write access by single bytes.
pub record WorkingLaws {p : Platform} (l : FlashLaws p) (size : ℕ) : Type 0 where
  pub read_works :
      (d : p.Device) (off n : ℕ)
      → off + n ≤ size
      → ((p.flash_read d (pos off) n).0 ≡ pos 0)
        × ((p.flash_read d (pos off) n).1 ≡ bytes_of (l.peek d) off n)
  pub write_works :
      (d : p.Device) (off : ℕ) (bytes : List ℕ)
      → All (λ b. b < 256) bytes
      → off + length bytes ≤ size
      → (p.flash_write d off bytes).1 ≡ pos 0
  pub erase_works :
      (d : p.Device) (off : ℕ)
      → off % page_size ≡ 0
      → off + page_size ≤ size
      → (p.flash_erase d off page_size).1 ≡ pos 0

-- An erase and a write touch nothing outside of their range, whatever their results.
pub record BoundLaws {p : Platform} (l : FlashLaws p) : Type 0 where
  pub erase_bound :
      (d : p.Device) (off n a : ℕ)
      → (a < off) ⊎ (off + n ≤ a)
      → l.peek (p.flash_erase d off n).0 a ≡ l.peek d a
  pub write_bound :
      (d : p.Device) (off : ℕ) (bytes : List ℕ) (a : ℕ)
      → (a < off) ⊎ (off + length bytes ≤ a)
      → l.peek (p.flash_write d off bytes).0 a ≡ l.peek d a
