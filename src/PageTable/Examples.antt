-- ===== src/PageTable/Examples.antt =====
-- The page table at concrete values.
use tpce2drv.Prelude.{
  ℕ, ◌≡◌, ◌<◌, ◌==◌, if◌then◌else◌, refl, arith, pos, negsuc, true, false, all_below,
  all_below_sound,
}
use tpce2drv.PageTable.{
  PageTable, is_used, pcie_page_alloc, pcie_page_free_by_channel_id, pcie_translate_addr_64,
}
use tpce2drv.PageTable.Slots.{IsValid, entry}
use tpce2drv.PageTable.Laws.{
  without, Allocated, alloc-Allocated, alloc-full, free_by_channel-entries,
}
use tpce2drv.PageTable.Translate.{bridge, bridge-translate_64}

-- Two pages of channel 0 and one of channel 2.
abbrev three_pages : PageTable
three_pages = record {
  pages = λ s. if s == 0 then 0x40000 else if s == 1 then 0x100000000 else 0x80000;
  active_channel = λ s. if s == 2 then 2 else 0;
  used_mask = 7;
  out_of_bounds = false;
}

abbrev full_table : PageTable
full_table = record three_pages { used_mask = 0xffff }

three_pages-IsValid : IsValid three_pages
three_pages-IsValid = record { mask16 = omega arith; in_bounds = refl }

full_table-IsValid : IsValid full_table
full_table-IsValid = record { mask16 = omega arith; in_bounds = refl }

slot_3_is_free : is_used three_pages 3 ≡ false
unfolding is_used
slot_3_is_free = refl

all_used : (j : ℕ) → j < 16 → is_used full_table j ≡ true
unfolding is_used all_below
all_used j h = all_below_sound 16 (λ j. is_used full_table j) j refl h

alloc-Allocated_example :
    let (t', r) = pcie_page_alloc three_pages 0xc0000 1 in
    (s : ℕ) × Allocated three_pages 0xc0000 1 t' r s
alloc-Allocated_example =
    alloc-Allocated three_pages 0xc0000 1 3 three_pages-IsValid (omega arith) slot_3_is_free

alloc-full_example :
    ((pcie_page_alloc full_table 0xc0000 1).1 ≡ negsuc 0)
    × ((pcie_page_alloc full_table 0xc0000 1).0.out_of_bounds ≡ true)
alloc-full_example = alloc-full full_table 0xc0000 1 full_table-IsValid all_used

free_by_channel-entries_example :
    IsValid (pcie_page_free_by_channel_id three_pages 2)
    × ((j : ℕ)
        → j < 16
        → entry (pcie_page_free_by_channel_id three_pages 2) j ≡ without 2 (entry three_pages j))
free_by_channel-entries_example = free_by_channel-entries three_pages 2 three_pages-IsValid

bridge-translate_64_example :
    (bridge three_pages (pcie_translate_addr_64 0x100012340 (pos 1)) ≡ 0x100012340)
    × (pcie_translate_addr_64 0x100012340 (pos 1) < 0x400000)
bridge-translate_64_example =
    bridge-translate_64 three_pages 0x100012340 1 (omega arith) (omega arith) refl
