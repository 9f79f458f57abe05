-- ===== src/Memory/Pages.antt =====
-- Pages of kernel/mm/mm.c: they are taken from the free memory, listed with their process and swapped.
pub mod Fresh
use oslab_riscv.Prelude.{
  ℕ, zero, suc, ◌+◌, ◌-◌, ◌*◌, ◌/◌, Bool, true, false, ◌&&◌, Option, none, some, ◌>>=◌, List, [],
  ◌∷◌, ◌++◌, remove, update, ◌==◌, leb, ltb, if◌then◌else◌, for_range,
}
use oslab_riscv.Memory.{
  PageStatus, unused, swapable, not_in_mem, eq_page_status, PageInfo, ShmPage, SdCard, Memory,
  page_size, shr, kva2pa, pa2kva, vpn, get_pfn, get_pa, set_pfn, set_attribute, clean_attribute,
  page_valid, store_word, change_word, clear_pgdir, set_page, entry_at,
}

-- `PAGE_NUM` and `NUM_MAX_SHM`
abbrev pub page_num : ℕ
page_num = 300

abbrev pub num_max_shm : ℕ
num_max_shm = 16

-- `ROUND(a, PAGE_SIZE)`: the addresses are far below 2 ^ 64 - 4096.
abbrev pub round_page : ℕ → ℕ
round_page a = (a + page_size - 1) / page_size * page_size

-- `allocPage`
unfoldable pub alloc_page : {D : Type 0} → ℕ → Memory D → ℕ × Memory D
alloc_page num_page m =
    let ret = round_page m.kern_mem_curr in
    (ret, record m { kern_mem_curr = ret + num_page * page_size })

abbrev pub blank_page : PageInfo → PageInfo
blank_page p = record p { pte = 0; status = unused; read_member = 0 }

abbrev pub blank_shm : ShmPage
blank_shm = record { valid = false; key = 0; num = 0; pa = 0 }

pub init_pagetable : {D : Type 0} → Memory D → Memory D
init_pagetable m =
    let m1 = for_range page_num 0 (λ i s. set_page i (blank_page (s.page_manager i)) s) m in
    for_range num_max_shm 0
      (λ i s. record s { shm_page_table = update s.shm_page_table i blank_shm }) m1

-- `get_swap_page`: the first swapable page of the list; with none the assertion fails.
unfoldable pub get_swap_page : (ℕ → PageInfo) → List ℕ → Option ℕ
get_swap_page pages [] = none
get_swap_page pages (i ∷ is) =
    if eq_page_status (pages i).status swapable then some i else get_swap_page pages is

abbrev pub get_sector : {D : Type 0} → Memory D → ℕ × Memory D
get_sector m = (m.sector, record m { sector = m.sector + 8 })

-- `get_pte`: the address of the entry of the page's user address; on a missing table the assertion
-- fails.
unfoldable pub get_pte : {D : Type 0} → ℕ → Memory D → Option ℕ
get_pte va m =
    let e2 = m.words (entry_at m.pgdir (vpn 2 va)) in
    let e1 = m.words (entry_at (pa2kva (get_pa e2)) (vpn 1 va)) in
    let p0 = entry_at (pa2kva (get_pa e1)) (vpn 0 va) in
    if page_valid e2
    then if page_valid e1 then if page_valid (m.words p0) then some p0 else none else none
    else none

-- `_PAGE_INSD` and `_PAGE_PRESENT`
abbrev pub page_insd : ℕ
page_insd = 512

abbrev pub page_present : ℕ
page_present = 1

-- `swap_to_sd` of page `i`: the page's address, free now.
pub swap_to_sd : (sd : SdCard) → ℕ → Memory sd.Disk → Option (ℕ × Memory sd.Disk)
unfolding get_pte
swap_to_sd sd i m0 = do
  let (sector_id, m1) = get_sector m0
  let kva = (m1.page_manager i).kva
  pte ← get_pte (m1.page_manager i).uva m1
  let m2 = change_word pte (λ e. clean_attribute (set_attribute e page_insd) page_present) m1
  let pa = get_pa (m2.words pte)
  let m3 = record m2 { disk = sd.sd_write m2.words pa 8 sector_id m2.disk }
  let m4 = change_word pte (λ e. set_pfn e sector_id) (clear_pgdir (pa2kva pa) m3)
  let page = record (m4.page_manager i) { pte = pte; status = not_in_mem; kva = 0 }
  some (kva, set_page i page m4)

pub do_swap : (sd : SdCard) → Memory sd.Disk → Option (ℕ × Memory sd.Disk)
unfolding swap_to_sd
do_swap sd m = do i ← get_swap_page m.page_manager m.pagehead; swap_to_sd sd i m

-- The search of `allocPagetable` for an unused page, on fuel: the page and the next `page_id`. The C
-- code starts again at 0 only after a page that is in use: an index out of range is `none`.
unfoldable pub find_unused : ℕ → (ℕ → PageInfo) → ℕ → Option (ℕ × ℕ)
find_unused zero pages page_id = none
find_unused (suc n) pages page_id =
    let rest = find_unused n pages (if page_id + 1 == page_num then 0 else page_id + 1) in
    if leb page_num page_id
    then none
    else if eq_page_status (pages page_id).status unused
    then some (page_id, page_id + 1)
    else rest

-- `allocPagetable` once the page's address is known.
abbrev pub take_page : {D : Type 0} → PageStatus → ℕ → Memory D → Option (ℕ × Memory D)
take_page s kva m = do
  (i, next) ← find_unused (page_num + 1) m.page_manager m.page_id
  let page = record (m.page_manager i) { status = s; kva = kva }
  some (i, record (set_page i page m) { page_id = next; pagehead = m.pagehead ++ (i ∷ []) })

-- `allocPagetable`; the pages in use are at most `upbound`, else one is swapped out.
unfoldable pub alloc_pagetable :
    (sd : SdCard) → PageStatus → Memory sd.Disk → Option (ℕ × Memory sd.Disk)
unfolding do_swap
alloc_pagetable sd s m =
    if m.pagenum == m.upbound
    then (do (kva, m1) ← do_swap sd m; take_page s kva m1)
    else (let (kva, m1) = alloc_page 1 m in
        take_page s kva (record m1 { pagenum = m1.pagenum + 1 }))

-- `get_first_page`: an empty list is `none`.
abbrev pub get_first_page : {D : Type 0} → Memory D → Option (ℕ × Memory D)
get_first_page m = elim m.pagehead [
  | [] ↦ none
  | i ∷ is ↦ some (i, record m { pagehead = remove i m.pagehead; free_list = remove i m.free_list })
]

-- `freePage`: without an address the assertion fails.
pub free_page : {D : Type 0} → ℕ → Memory D → Option (Memory D)
free_page i m =
    let page = record (m.page_manager i) { status = unused; uva = 0 } in
    let m1 = set_page i page m in
    if page.kva == 0
    then none
    else some (record m1 {
      pagehead = remove i m1.pagehead;
      free_list = remove i m1.free_list ++ (i ∷ []);
    })

-- The page of the process whose entry is at `pte`, or else the last one.
unfoldable pub find_entry : (ℕ → PageInfo) → ℕ → List ℕ → Option ℕ
find_entry pages pte [] = none
find_entry pages pte (i ∷ []) = some i
find_entry pages pte (i ∷ j ∷ is) =
    let rest = find_entry pages pte (j ∷ is) in if (pages i).pte == pte then some i else rest

-- `swap_to_mem`: it fails its assertions on a page that is in memory or has an address.
pub swap_to_mem : (sd : SdCard) → ℕ → ℕ → ℕ → Memory sd.Disk → Option (Memory sd.Disk)
swap_to_mem sd pte va kva m = do
  let sector_id = get_pfn (m.words pte)
  i ← find_entry m.page_manager pte m.pagehead
  let page = m.page_manager i
  let page' = record page { status = swapable; uva = va; kva = kva }
  let m1 = set_page i page' m
  let m2 = record m1 { words = sd.sd_read m1.disk (kva2pa kva) 8 sector_id m1.words }
  let m3 = change_word pte (λ e. set_attribute (clean_attribute e page_insd) page_present) m2
  let m4 = change_word pte (λ e. set_pfn e (shr (kva2pa kva) 12)) m3
  if eq_page_status page.status not_in_mem && (page.kva == 0) then some m4 else none
