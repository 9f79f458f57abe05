-- ===== src/Memory/Shared.antt =====
-- Shared pages: shm_page_get, shm_page_dt and do_snapshot of kernel/mm/mm.c.
pub mod Slots
use oslab_riscv.Prelude.{
  ℕ, zero, suc, ◌+◌, ◌-◌, ◌*◌, ◌%◌, ◌^◌, Bool, true, false, not, ◌&&◌, Option, none, some, ◌>>=◌,
  List, [], ◌∷◌, update, ◌==◌, if◌then◌else◌, find_from,
}
use oslab_riscv.Memory.{
  copy_on_write, unswapable, eq_page_status, PageInfo, ShmPage, SdCard, Memory, page_size, shl, shr,
  kva2pa, pa2kva, get_pa, clean_attribute, store_word, change_word, clear_pgdir, set_page,
}
use oslab_riscv.Memory.Pages.{num_max_shm, alloc_pagetable}
use oslab_riscv.Memory.Tables.{build_page_helper, pte_checker}

-- `USER_STACK_ADDR`
abbrev pub user_stack_addr : ℕ
user_stack_addr = 0xf00010000

abbrev pub set_shm : {D : Type 0} → ℕ → ShmPage → Memory D → Memory D
set_shm i s m = record m { shm_page_table = update m.shm_page_table i s }

-- The slot with the key, or else the first one that is free; with none the assertion fails.
unfoldable pub find_shm : ℕ → (ℕ → ShmPage) → ℕ
unfolding find_from
find_shm key table =
    let i = find_from num_max_shm 0 (λ j. (table j).key == key && (table j).valid) in
    if i == num_max_shm then find_from num_max_shm 0 (λ j. not (table j).valid) else i

-- One more page below the stack, at `pa`: its user address.
abbrev pub map_below_stack : (sd : SdCard) → ℕ → Memory sd.Disk → Option (ℕ × Memory sd.Disk)
map_below_stack sd pa m = do
  let m1 = record m { shm_page_num = m.shm_page_num + 1 }
  let vaddr = user_stack_addr - (m1.shm_page_num + 1) * page_size
  m2 ← build_page_helper sd vaddr pa m1
  some (vaddr, m2)

-- The first use of a slot allocates and clears its page.
abbrev pub first_use : (sd : SdCard) → ℕ → Memory sd.Disk → Option (ℕ × Memory sd.Disk)
first_use sd i m = do
  (j, m1) ← alloc_pagetable sd unswapable m
  let pa = kva2pa (m1.page_manager j).kva
  (vaddr, m2) ← map_below_stack sd pa (set_shm i (record (m1.shm_page_table i) { pa = pa }) m1)
  let m3 = clear_pgdir (pa2kva pa) m2
  let slot = m3.shm_page_table i
  some (vaddr, set_shm i (record slot { num = (slot.num + 1) % 2 ^ 32; valid = true }) m3)

abbrev pub next_use : (sd : SdCard) → ℕ → Memory sd.Disk → Option (ℕ × Memory sd.Disk)
next_use sd i m = do
  (vaddr, m1) ← map_below_stack sd (m.shm_page_table i).pa m
  let slot = m1.shm_page_table i
  some (vaddr, set_shm i (record slot { num = (slot.num + 1) % 2 ^ 32 }) m1)

-- A slot found by its key is valid; a free one first gets the key.
pub shm_page_get : (sd : SdCard) → ℕ → Memory sd.Disk → Option (ℕ × Memory sd.Disk)
unfolding find_shm
shm_page_get sd key m =
    let i = find_shm key m.shm_page_table in
    let slot = m.shm_page_table i in
    if i == num_max_shm
    then none
    else if slot.valid
    then next_use sd i m
    else first_use sd i (set_shm i (record slot { key = key % 2 ^ 16 }) m)

-- The slot that `shm_page_dt` takes: the first whose page is not the one given.
unfoldable pub detach_slot : (ℕ → ShmPage) → ℕ → ℕ
detach_slot table pa = find_from num_max_shm 0 (λ i. not ((table i).pa == pa))

-- One user fewer, and the slot is free when none is left.
unfoldable pub detach : ShmPage → ShmPage
detach slot =
    let n = (slot.num + (2 ^ 32 - 1)) % 2 ^ 32 in
    record slot { num = n; valid = not (n == 0) && slot.valid }

pub shm_page_dt : {D : Type 0} → ℕ → Memory D → Option (Memory D)
unfolding detach_slot detach
shm_page_dt addr m = do
  p ← pte_checker addr m.pgdir m
  let i = detach_slot m.shm_page_table (shl (shr (m.words p) 10) 12)
  some (if i == num_max_shm then m else store_word p 0 (set_shm i (detach (m.shm_page_table i)) m))

-- The page of the process at the address, or else the last one.
unfoldable pub find_kva : (ℕ → PageInfo) → ℕ → List ℕ → Option ℕ
find_kva pages kva [] = none
find_kva pages kva (i ∷ []) = some i
find_kva pages kva (i ∷ j ∷ is) =
    let rest = find_kva pages kva (j ∷ is) in if (pages i).kva == kva then some i else rest

-- The first page after `va` that has no entry, on fuel.
unfoldable pub free_va : {D : Type 0} → ℕ → ℕ → Memory D → Option ℕ
free_va zero va m = none
free_va (suc n) va m = elim (pte_checker (va + page_size) m.pgdir m) [
  | none ↦ some (va + page_size)
  | some p ↦ free_va n (va + page_size) m
]

-- `_PAGE_WRITE`
abbrev pub page_write : ℕ
page_write = 4

-- The page is shared from now on: at first by two.
abbrev pub share : {D : Type 0} → ℕ → ℕ → Memory D → Memory D
share p i m =
    let page = m.page_manager i in
    if eq_page_status page.status copy_on_write
    then set_page i (record page { read_member = page.read_member + 1 }) m
    else set_page i (record page { status = copy_on_write; read_member = 2 })
        (change_word p (λ e. clean_attribute e page_write) m)

-- With the fuel for the search of an address. Without an entry for `va` the C code reads address 0.
pub do_snapshot : (sd : SdCard) → ℕ → ℕ → Memory sd.Disk → Option (ℕ × Memory sd.Disk)
unfolding free_va
do_snapshot sd fuel va m = do
  p ← pte_checker va m.pgdir m
  i ← find_kva m.page_manager (pa2kva (get_pa (m.words p))) m.pagehead
  new_va ← free_va fuel va m
  m1 ← build_page_helper sd new_va (kva2pa (m.page_manager i).kva) (share p i m)
  q ← pte_checker new_va m1.pgdir m1
  some (new_va, change_word q (λ e. clean_attribute e page_write) m1)
