-- ===== src/Memory/Tests.antt =====
-- The theorems about pages and page tables at one state: pages 0 and 1 are in use, and the page
-- tables at 0x1000, 0x2000 and 0x3000 above the offset map address 0.
use oslab_riscv.Prelude.{
  ℕ, ◌+◌, ◌%◌, ◌≤◌, ◌≡◌, refl, none, some, [], ◌∷◌, ◌++◌, ◌==◌, if◌then◌else◌, arith,
}
use oslab_riscv.Memory.{
  unused, swapable, unswapable, PageInfo, ShmPage, SdCard, Memory, page_size, kva_offset, pa2kva,
  get_pa,
}
use oslab_riscv.Memory.Pages.{find_unused, alloc_pagetable, get_pte}
use oslab_riscv.Memory.Pages.Fresh.{find_unused-past_end, alloc_pagetable-takes}
use oslab_riscv.Memory.Tables.{alloc_page_helper, build_page_helper, pte_checker}
use oslab_riscv.Memory.Tables.Walk.{walks-agree}

-- A card that holds nothing.
abbrev blank_card : SdCard
blank_card = record { Disk = ℕ; sd_write = λ w pa n s d. d; sd_read = λ d n s pa w. w }

abbrev pages : ℕ → PageInfo
pages i = record {
  status = if i == 0 then unswapable else if i == 1 then swapable else unused;
  read_member = 0;
  kva = 0;
  uva = 0;
  pte = 0;
}

abbrev slots : ℕ → ShmPage
slots i = record { valid = i == 2; key = 7; num = 1; pa = 0x5000 }

-- An entry names the page number in the bits from 10 on.
abbrev tables : ℕ → ℕ
tables p =
    if p == kva_offset + 0x1000
    then 0x811
    else if p == kva_offset + 0x2000
    then 0xc11
    else if p == kva_offset + 0x3000
    then 0x10df
    else 0

abbrev memory : Memory ℕ
memory = record {
  words = tables;
  disk = 0;
  kern_mem_curr = 0xffffffc052003008;
  page_manager = pages;
  page_id = 1;
  free_list = [];
  shm_page_table = slots;
  sector = 2048;
  pgdir = kva_offset + 0x1000;
  pagehead = 0 ∷ 1 ∷ [];
  pagenum = 2;
  upbound = 8;
  shm_page_num = 0;
}

last_found : find_unused 1 pages 299 ≡ some (299, 300)
unfolding find_unused
last_found = refl

find_unused-past_end_example : find_unused 301 pages 300 ≡ none
find_unused-past_end_example =
    find_unused-past_end 1 299 300 300 pages pages (omega arith) last_found

alloc_pagetable-takes_example :
    (i : ℕ) × (m' : Memory ℕ) × (alloc_pagetable blank_card swapable memory ≡ some (i, m'))
    × ((memory.page_manager i).status ≡ unused)
    × ((m'.page_manager i).status ≡ swapable)
    × ((m'.page_manager i).kva % page_size ≡ 0)
    × (memory.kern_mem_curr ≤ (m'.page_manager i).kva)
    × (m'.kern_mem_curr ≡ (m'.page_manager i).kva + page_size)
    × (m'.pagehead ≡ memory.pagehead ++ (i ∷ []))
    × (m'.pagenum ≡ memory.pagenum + 1)
alloc_pagetable-takes_example =
    alloc_pagetable-takes blank_card swapable memory 2 (omega arith) (omega arith) (omega arith)
      refl

checked : pte_checker 0 memory.pgdir memory ≡ some (kva_offset + 0x3000)
unfolding pte_checker
checked = refl

walks-agree_example :
    (alloc_page_helper blank_card 0 swapable memory
      ≡ some (pa2kva (get_pa (memory.words (kva_offset + 0x3000))), memory))
    × (build_page_helper blank_card 0 0x9000 memory ≡ some memory)
    × (get_pte 0 memory ≡ some (kva_offset + 0x3000))
walks-agree_example =
    walks-agree blank_card 0 (kva_offset + 0x3000) 0x9000 swapable memory checked refl
