-- ===== src/Delta/Ram.antt =====
-- A platform for examples, which keeps every promise that the code relies on: the flash is a
-- function from addresses to bytes, and every operation on it succeeds, but for a read in front of
-- it and for a write of what are no bytes.
use delta_updates_for_embedd.Common.{
  ℕ, zero, suc, ◌+◌, ◌-◌, ◌%◌, ◌≤◌, ◌<◌, arith, ◌≡◌, ◌⊎◌, refl, ◌∙◌,
}
use delta_updates_for_embedd.Common.{Bool, true, ◌&&◌, ltb, leb, if◌then◌else◌, List, [], ◌∷◌}
use delta_updates_for_embedd.Common.{length, get_or, All, ℤ, pos, neg, negsuc, ap}
use delta_updates_for_embedd.Delta.Platform.{
  Platform, erased_byte, FlashLaws, ClearLaws, ReadLaws, WorkingLaws, BoundLaws,
}
use delta_updates_for_embedd.Detools.Format.{bytes_of}

-- `upgrades` counts the upgrades that are requested.
pub record Ram : Type 0 where
  pub byte_at : ℕ → ℕ
  pub upgrades : ℕ

abbrev pub ram_peek : Ram → ℕ → ℕ
ram_peek d a = d.byte_at a % 256

-- The `n` bytes from an address on.
abbrev pub bytes_from : Ram → ℕ → ℕ → List ℕ
bytes_from d off zero = []
bytes_from d off (suc n) = ram_peek d off ∷ bytes_from d (suc off) n

abbrev pub ram_read : Ram → ℤ → ℕ → ℤ × List ℕ
ram_read d (pos off) n = (pos 0, bytes_from d off n)
ram_read d (negsuc off) n = (neg 22, [])

abbrev pub within : ℕ → ℕ → ℕ → Bool
within off n a = leb off a && ltb a (off + n)

abbrev pub all_bytes : List ℕ → Bool
all_bytes [] = true
all_bytes (b ∷ bytes) = ltb b 256 && all_bytes bytes

abbrev pub ram_write : Ram → ℕ → List ℕ → Ram × ℤ
ram_write d off bytes =
    if all_bytes bytes
    then (
      record d {
        byte_at =
            λ a. if within off (length bytes) a then get_or bytes (a - off) 0 else d.byte_at a;
      },
      pos 0,
    )
    else (d, neg 22)

abbrev pub ram_erase : Ram → ℕ → ℕ → Ram × ℤ
ram_erase d off n =
    (record d { byte_at = λ a. if within off n a then erased_byte else d.byte_at a }, pos 0)

abbrev pub ram : Platform
ram = record {
  Device = Ram;
  flash_read = ram_read;
  flash_write = ram_write;
  flash_erase = ram_erase;
  boot_request_upgrade = λ d. (record d { upgrades = suc d.upgrades }, pos 0);
}

pub get_or-byte : (bytes : List ℕ) (i : ℕ) → all_bytes bytes ≡ true → get_or bytes i 0 < 256
get_or-byte [] i e = omega arith
get_or-byte (b ∷ bytes) zero e = ground arith
get_or-byte (b ∷ bytes) (suc i) e = ground (arith, get_or-byte bytes i)

pub get_or-bytes_from :
    (d : Ram) (off n i : ℕ) → i < n → get_or (bytes_from d off n) i 0 ≡ ram_peek d (off + i)
get_or-bytes_from d off zero i h = absurd (omega arith)
get_or-bytes_from d off (suc n) zero h = let e : off ≡ off + 0 = omega arith in ap (ram_peek d) e
get_or-bytes_from d off (suc n) (suc i) h =
    let e : suc off + i ≡ off + suc i = omega arith in
    get_or-bytes_from d (suc off) n i (omega arith) ∙ ap (ram_peek d) e

pub length-bytes_from : (d : Ram) (off n : ℕ) → length (bytes_from d off n) ≡ n
length-bytes_from d off zero = refl
length-bytes_from d off (suc n) = omega (arith, length-bytes_from d (suc off) n)

pub bytes_from-All : (d : Ram) (off n : ℕ) → All (λ b. b < 256) (bytes_from d off n)
bytes_from-All d off zero = tt
bytes_from-All d off (suc n) = (omega arith, bytes_from-All d (suc off) n)

pub ram_erase_in :
    (d : Ram) (off n a : ℕ)
    → (ram_erase d off n).1 ≡ pos 0
    → off ≤ a
    → a < off + n
    → ram_peek (ram_erase d off n).0 a ≡ erased_byte
ram_erase_in d off n a e h1 h2 = ground arith

pub ram_erase_out :
    (d : Ram) (off n a : ℕ)
    → (ram_erase d off n).1 ≡ pos 0
    → (a < off) ⊎ (off + n ≤ a)
    → ram_peek (ram_erase d off n).0 a ≡ ram_peek d a
ram_erase_out d off n a e h = ground arith

pub ram_write_in :
    (d : Ram) (off : ℕ) (bytes : List ℕ) (a : ℕ)
    → (ram_write d off bytes).1 ≡ pos 0
    → off ≤ a
    → a < off + length bytes
    → ram_peek (ram_write d off bytes).0 a ≡ get_or bytes (a - off) 0
ram_write_in d off bytes a e h1 h2 = ground (arith, get_or-byte bytes (a - off))

pub ram_write_out :
    (d : Ram) (off : ℕ) (bytes : List ℕ) (a : ℕ)
    → (ram_write d off bytes).1 ≡ pos 0
    → (a < off) ⊎ (off + length bytes ≤ a)
    → ram_peek (ram_write d off bytes).0 a ≡ ram_peek d a
ram_write_out d off bytes a e h = ground arith

abbrev pub ram-FlashLaws : FlashLaws ram
ram-FlashLaws = record {
  peek = ram_peek;
  erase_in = ram_erase_in;
  erase_out = ram_erase_out;
  write_in = λ d off bytes a e h1 h2 h. ram_write_in d off bytes a e h1 h2;
  write_out = ram_write_out;
}

pub ram-ClearLaws : ClearLaws ram-FlashLaws
ram-ClearLaws = record {
  clear_in = λ d off bytes a e h1 h2 h. ram_write_in d off bytes a e h1 h2 ∙ h;
  read_in = λ d off n i e h. get_or-bytes_from d off n i h;
}

ram_read-size : (d : Ram) (off : ℤ) (n : ℕ) → length (ram_read d off n).1 ≤ n
ram_read-size d (pos off) n = omega (arith, length-bytes_from d off n)
ram_read-size d (negsuc off) n = omega arith

ram_read-All : (d : Ram) (off : ℤ) (n : ℕ) → All (λ b. b < 256) (ram_read d off n).1
ram_read-All d (pos off) n = bytes_from-All d off n
ram_read-All d (negsuc off) n = tt

pub ram-ReadLaws : ReadLaws ram
ram-ReadLaws = record { read_size = ram_read-size; read_bytes = ram_read-All }

pub bytes_from-bytes_of : (d : Ram) (off n : ℕ) → bytes_from d off n ≡ bytes_of (ram_peek d) off n
bytes_from-bytes_of d off zero = refl
bytes_from-bytes_of d off (suc n) =
    ap (λ xs. ram_peek d off ∷ xs) (bytes_from-bytes_of d (suc off) n)

all_bytes-All : (bytes : List ℕ) → All (λ b. b < 256) bytes → all_bytes bytes ≡ true
all_bytes-All [] h = refl
all_bytes-All (b ∷ bytes) h = ground (arith, h.0, all_bytes-All bytes h.1)

ram_write_works :
    (d : Ram) (off : ℕ) (bytes : List ℕ)
    → All (λ b. b < 256) bytes
    → (ram_write d off bytes).1 ≡ pos 0
ram_write_works d off bytes h = rw (all_bytes-All bytes h) refl

pub ram-WorkingLaws : (size : ℕ) → WorkingLaws ram-FlashLaws size
ram-WorkingLaws size = record {
  read_works = λ d off n h. (refl, bytes_from-bytes_of d off n);
  write_works = λ d off bytes all h. ram_write_works d off bytes all;
  erase_works = λ d off e h. refl;
}

ram_write_bound :
    (d : Ram) (off : ℕ) (bytes : List ℕ) (a : ℕ)
    → (a < off) ⊎ (off + length bytes ≤ a)
    → ram_peek (ram_write d off bytes).0 a ≡ ram_peek d a
ram_write_bound d off bytes a h = ground arith

pub ram-BoundLaws : BoundLaws ram-FlashLaws
ram-BoundLaws = record {
  erase_bound = λ d off n a h. ram_erase_out d off n a refl h;
  write_bound = ram_write_bound;
}
