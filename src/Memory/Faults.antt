-- ===== src/Memory/Faults.antt =====
-- The page faults of kernel/irq/irq.c. `none` is a failed assertion, a wrong pointer, or a use of the
-- page address that the C code has not set.
use Prim.Native.Nat.{bit_and}
use oslab_riscv.Prelude.{ℕ, ◌+◌, ◌-◌, not, Option, none, some, ◌>>=◌, ◌==◌, if◌then◌else◌}
use oslab_riscv.Memory.{
  swapable, copy_on_write, eq_page_status, SdCard, Memory, kva2pa, pa2kva, get_pa, set_attribute,
  clean_attribute, in_sd, change_word, set_page,
}
use oslab_riscv.Memory.Pages.{page_present, do_swap, swap_to_mem, alloc_pagetable}
use oslab_riscv.Memory.Tables.{share_pgtable, alloc_page_helper, build_page_helper, pte_checker}
use oslab_riscv.Memory.Shared.{page_write, find_kva}

-- `_PAGE_ACCESSED` and `_PAGE_DIRTY`
abbrev pub page_accessed : ℕ
page_accessed = 64

abbrev pub page_dirty : ℕ
page_dirty = 128

abbrev pub set_bits : {D : Type 0} → ℕ → ℕ → Memory D → Memory D
set_bits p bits m = change_word p (λ e. set_attribute e bits) m

-- A fault on an address without an entry.
abbrev pub fault_absent : (sd : SdCard) → ℕ → Memory sd.Disk → Option (Memory sd.Disk)
fault_absent sd va m = do (kva, m1) ← alloc_page_helper sd va swapable m; some m1

-- A fault on a page that is on the card.
abbrev pub fault_swapped : (sd : SdCard) → ℕ → ℕ → Memory sd.Disk → Option (Memory sd.Disk)
fault_swapped sd p va m =
    if m.pagenum == m.upbound
    then (do (kva, m1) ← do_swap sd m; swap_to_mem sd p va kva m1)
    else none

-- A fault for an attribute: the entry must not have been accessed.
abbrev pub fault_first : (sd : SdCard) → ℕ → ℕ → Memory sd.Disk → Option (Memory sd.Disk)
fault_first sd p bits m =
    if bit_and (m.words p) page_accessed == 0 then some (set_bits p bits m) else none

pub handle_load_page_fault : (sd : SdCard) → ℕ → Memory sd.Disk → Option (Memory sd.Disk)
handle_load_page_fault sd va m = elim (pte_checker va m.pgdir m) [
  | none ↦ fault_absent sd va m
  | some p ↦ if in_sd (m.words p) then fault_swapped sd p va m else fault_first sd p page_accessed m
]

-- A write to page `i`, which several addresses share: the last one gets it, another a new page. Such a
-- page counts at least one address, so the subtraction does not stop at 0.
abbrev pub fault_shared : (sd : SdCard) → ℕ → ℕ → ℕ → Memory sd.Disk → Option (Memory sd.Disk)
fault_shared sd p va i m =
    let page = m.page_manager i in
    let kva = pa2kva (get_pa (m.words p)) in
    if page.read_member == 1
    then some
        (set_page i (record page { read_member = 0; status = swapable }) (set_bits p page_write m))
    else (do
      let m1 = set_page i (record page { read_member = page.read_member - 1 }) m
      (j, m2) ← alloc_pagetable sd swapable (change_word p (λ e. clean_attribute e page_present) m1)
      m3 ← build_page_helper sd va (kva2pa (m2.page_manager j).kva) m2
      some (share_pgtable kva (m3.page_manager i).kva m3))

pub handle_store_page_fault : (sd : SdCard) → ℕ → Memory sd.Disk → Option (Memory sd.Disk)
handle_store_page_fault sd va m = elim (pte_checker va m.pgdir m) [
  | none ↦ fault_absent sd va m
  | some p ↦
      if in_sd (m.words p)
      then fault_swapped sd p va m
      else if not (bit_and (m.words p) page_write == 0)
      then fault_first sd p (page_accessed + page_dirty) m
      else (do
        i ← find_kva m.page_manager (pa2kva (get_pa (m.words p))) m.pagehead
        if eq_page_status (m.page_manager i).status copy_on_write
            then fault_shared sd p va i m
            else none)
]

-- Without an entry `handle_other` reports the fault and stops: `none`.
pub handle_inst_pagefault : {D : Type 0} → ℕ → Memory D → Option (Memory D)
handle_inst_pagefault va m = elim (pte_checker va m.pgdir m) [
  | none ↦ none
  | some p ↦ some (set_bits p (page_accessed + page_dirty) m)
]
