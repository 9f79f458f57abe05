-- ===== src/Memory/Tables.antt =====
-- The three levels of page tables: pte_checker, alloc_page_helper, build_page_helper, do_getpa and
-- share_pgtable of kernel/mm/mm.c.
pub mod Walk
pub mod Copy
pub mod Writes
use Prim.Native.Nat.{bit_and, bit_or}
use oslab_riscv.Prelude.{
  ℕ, zero, suc, ◌+◌, Bool, true, false, ◌||◌, Option, none, some, ◌>>=◌, update, if◌then◌else◌,
  for_range, ◌*◌,
}
use oslab_riscv.Memory.{
  PageStatus, unswapable, SdCard, Memory, shr, kva2pa, pa2kva, vpn, get_pa, set_pfn, set_attribute,
  page_valid, in_sd, store_word, change_word, clear_pgdir, set_page, entry_at,
}
use oslab_riscv.Memory.Pages.{alloc_pagetable}

-- `share_pgtable`: the words of a page are copied in order.
unfoldable pub share_pgtable : {D : Type 0} → ℕ → ℕ → Memory D → Memory D
share_pgtable dest src m =
    for_range 512 0 (λ i s. store_word (entry_at dest i) (s.words (entry_at src i)) s) m

-- The attributes of an entry that leads to a table, `_PAGE_PRESENT | _PAGE_USER`, and of one that
-- leads to a page, all but `_PAGE_GLOBAL`.
abbrev pub table_bits : ℕ
table_bits = 0x11

abbrev pub page_bits : ℕ
page_bits = 0xdf

-- `set_pfn(&dir[i], GetPFN(pa)); set_attribute(&dir[i], bits);`
abbrev pub link : {D : Type 0} → ℕ → ℕ → ℕ → Memory D → Memory D
link p pa bits m =
    change_word p (λ e. set_attribute e bits) (change_word p (λ e. set_pfn e (shr pa 12)) m)

-- The table that the entry at `p` leads to; without one a page is allocated, cleared and linked.
unfoldable pub next_table : (sd : SdCard) → ℕ → Memory sd.Disk → Option (ℕ × Memory sd.Disk)
next_table sd p m = if page_valid (m.words p) then some (pa2kva (get_pa (m.words p)), m) else (do
  (i, m1) ← alloc_pagetable sd unswapable m
  let dir = (m1.page_manager i).kva
  some (dir, link p (kva2pa dir) table_bits (clear_pgdir dir m1)))

-- The address of the last entry for `va`.
pub last_entry : (sd : SdCard) → ℕ → Memory sd.Disk → Option (ℕ × Memory sd.Disk)
unfolding next_table
last_entry sd va m = do
  (second, m1) ← next_table sd (entry_at m.pgdir (vpn 2 va)) m
  (third, m2) ← next_table sd (entry_at second (vpn 1 va)) m1
  some (entry_at third (vpn 0 va), m2)

-- The page that `alloc_page_helper` takes for `va`.
unfoldable pub new_page :
    (sd : SdCard) → ℕ → PageStatus → ℕ → Memory sd.Disk → Option (ℕ × Memory sd.Disk)
new_page sd va s p m = do
  (i, m1) ← alloc_pagetable sd s m
  let page = m1.page_manager i
  let m2 = set_page i (record page { uva = va; pte = p }) m1
  some (page.kva, link p (kva2pa page.kva) page_bits m2)

-- `alloc_page_helper`: the page's kernel address.
unfoldable pub alloc_page_helper :
    (sd : SdCard) → ℕ → PageStatus → Memory sd.Disk → Option (ℕ × Memory sd.Disk)
unfolding last_entry new_page
alloc_page_helper sd va s m = do
  (p, m1) ← last_entry sd va m
  if page_valid (m1.words p) then some (pa2kva (get_pa (m1.words p)), m1) else new_page sd va s p m1

-- `build_page_helper`: the page at `pa` becomes that of `va`, unless it has one.
unfoldable pub build_page_helper : (sd : SdCard) → ℕ → ℕ → Memory sd.Disk → Option (Memory sd.Disk)
unfolding last_entry
build_page_helper sd va pa m = do
  (p, m1) ← last_entry sd va m
  some (if page_valid (m1.words p) then m1 else link p pa page_bits m1)

-- `pte_checker`: the address of the entry of `va`; a C result of 0 is `none`.
unfoldable pub pte_checker : {D : Type 0} → ℕ → ℕ → Memory D → Option ℕ
pte_checker va pgdir m =
    let e2 = m.words (entry_at pgdir (vpn 2 va)) in
    let e1 = m.words (entry_at (pa2kva (get_pa e2)) (vpn 1 va)) in
    let p0 = entry_at (pa2kva (get_pa e1)) (vpn 0 va) in
    if page_valid e2
    then if page_valid e1
      then if page_valid (m.words p0) || in_sd (m.words p0) then some p0 else none
      else none
    else none

-- `do_getpa`. Without an entry the C code reads address 0: `none`.
pub do_getpa : {D : Type 0} → ℕ → Memory D → Option ℕ
unfolding pte_checker
do_getpa va m = do
  p ← pte_checker va m.pgdir m
  some (bit_or (get_pa (m.words p)) (bit_and va 0xfff))
