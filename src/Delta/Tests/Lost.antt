-- ===== src/Delta/Tests/Lost.antt =====
-- A run of writes of up to 128 bytes from the start of the secondary slot that loses bytes in the third
-- page: a write crosses into it before the count reaches a page, and the next one erases it.
use delta_updates_for_embedd.Common.{
  ℕ, zero, suc, ◌+◌, ◌≡◌, refl, Bool, true, ◌&&◌, is_zero, List, [], ◌∷◌, ◌++◌,
}
use delta_updates_for_embedd.Delta.Platform.{erased_byte}
use delta_updates_for_embedd.Delta.Ram.{Ram, ram, ram_peek}
use delta_updates_for_embedd.Delta.Flash.{
  FlashMem, erase_page, delta_flash_write, delta_init_flash_mem, delta_init,
}
use delta_updates_for_embedd.Delta.Tests.{flash_mem, blank}
use delta_updates_for_embedd.Delta.Tests.Wholes.{wide_layout}

abbrev sevens : ℕ → List ℕ
sevens zero = []
sevens (suc n) = 7 ∷ sevens n

abbrev times : ℕ → ℕ → List ℕ
times zero n = []
times (suc k) n = n ∷ times k n

-- The flash behind the writes, and whether each of them succeeds.
abbrev write_all : FlashMem Ram → List ℕ → FlashMem Ram × Bool
write_all flash [] = (flash, true)
write_all flash (n ∷ sizes) =
    let (flash', res) = delta_flash_write ram flash (sevens n) in
    let (flash'', rest) = write_all flash' sizes in (flash'', is_zero res && rest)

abbrev sizes : List ℕ
sizes = times 31 128 ++ (100 ∷ times 32 128 ++ (60 ∷ 128 ∷ []))

abbrev written_to : FlashMem Ram × Bool
written_to = write_all (delta_init ram wide_layout (flash_mem blank)).0 sizes

-- Every write succeeds. The byte in front of the third page is there, the first one in it is lost, and the writes have gone
-- past both.
lost_run :
    (written_to.1 ≡ true)
    × (written_to.0.to_current ≡ 0x2000 + 8352)
    × (ram_peek written_to.0.device (0x2000 + 8191) ≡ 7)
    × (ram_peek written_to.0.device (0x2000 + 8192) ≡ erased_byte)
unfolding delta_init delta_init_flash_mem erase_page delta_flash_write
lost_run = (refl, refl, refl, refl)
