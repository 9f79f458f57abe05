-- ===== src/Loader/Tests.antt =====
-- The theorems about the loader at a task of 700 bytes that takes two pages of memory.
use oslab_riscv.Prelude.{
  ℕ, ◌+◌, ◌-◌, ◌*◌, ◌%◌, ◌≤◌, ◌≡◌, ◌≢◌, ap, inl, refl, ◌&&◌, false, Option, none, some, [], ◌∷◌,
  ◌==◌, leb, ltb, if◌then◌else◌, find_from, arith,
}
use oslab_riscv.Strings.{strcmp}
use oslab_riscv.Memory.Tables.{alloc_page_helper}
use oslab_riscv.Memory.Pages.{alloc_page, alloc_pagetable, find_unused}
use oslab_riscv.Memory.Tables.Walk.{IsMapped}
use oslab_riscv.Memory.Tables.Writes.{alloc_page_helper-words}
use oslab_riscv.Memory.{
  unused, unswapable, PageInfo, ShmPage, SdCard, Memory, kva_offset, pa2kva, clear_pgdir,
}
use oslab_riscv.Memory.Bytes.{
  load_byte, store_byte, copy_mem, fill_mem, put_bytes, put_bytes-in, put_bytes-out,
}
use oslab_riscv.Loader.{TaskInfo, find_task, load_sectors, load_pages, load_task_img}
use oslab_riscv.Loader.Page.{IsSdCard}
use oslab_riscv.Loader.Pages.{AllClear, loaded_pages}
use oslab_riscv.Loader.Final.{Undisturbed}
use oslab_riscv.Loader.Image.{IsImage, IsLoaded, load_task_img-IsLoaded}

-- A card that is an array of bytes.
abbrev pub card : SdCard
card = record {
  Disk = ℕ → ℕ;
  sd_write = λ w pa n s d p.
      if leb (512 * s) p && ltb p (512 * (s + n))
      then load_byte w (pa2kva pa + (p - 512 * s))
      else d p;
  sd_read = λ d pa n s w. put_bytes (pa2kva pa) (512 * n) (λ j. d (512 * s + j)) w;
}

card-IsSdCard : IsSdCard card
card-IsSdCard = record {
  byte_of = λ d p. d p % 256;
  read_in = λ d pa n s w j l. put_bytes-in (pa2kva pa) (512 * n) (λ i. d (512 * s + i)) w j l;
  read_out = λ d pa n s w p o. put_bytes-out (pa2kva pa) (512 * n) (λ i. d (512 * s + i)) w p o;
}

abbrev pages : ℕ → PageInfo
pages i = record { status = unused; read_member = 0; kva = 0; uva = 0; pte = 0 }

abbrev slots : ℕ → ShmPage
slots i = record { valid = false; key = 0; num = 0; pa = 0 }

abbrev pub memory : Memory (ℕ → ℕ)
memory = record {
  words = λ p. 0;
  disk = λ p. p;
  kern_mem_curr = kva_offset + 0x52000000;
  page_manager = pages;
  page_id = 0;
  free_list = [];
  shm_page_table = slots;
  sector = 2048;
  pgdir = kva_offset + 0x51000000;
  pagehead = [];
  pagenum = 0;
  upbound = 24;
  shm_page_num = 0;
}

abbrev pub buffer : ℕ
buffer = kva_offset + 0x50300000

-- Task 1 is called "t", the others have no name.
abbrev pub tasks : ℕ → TaskInfo
tasks i = record {
  begin_block = 3;
  end_block = 4;
  begin_offset = 100;
  end_offset = 288;
  memsz = 5000;
  entry_addr = 0x10000;
  name = λ j. if i == 1 then (if j == 0 then 116 else 0) else 0;
}

abbrev name_t : ℕ → ℕ
name_t j = if j == 0 then 116 else 0

abbrev name_u : ℕ → ℕ
name_u j = if j == 0 then 117 else 0

found : find_task tasks name_t 0 ≡ 1
unfolding find_from strcmp
found = refl

abbrev loaded : Option (ℕ × Memory (ℕ → ℕ))
loaded = load_task_img card buffer tasks name_t 0 memory

abbrev after : Memory (ℕ → ℕ)
after = elim loaded [ none ↦ memory | some (e, m) ↦ m ]

returns : load_task_img card buffer tasks name_t 0 memory ≡ some (0x10000, after)
unfolding load_task_img load_pages alloc_page_helper find_from strcmp alloc_page find_unused
    alloc_pagetable clear_pgdir fill_mem store_byte copy_mem put_bytes
returns = refl

task-IsImage : IsImage (tasks 1)
task-IsImage = record { inside = omega arith; order = omega arith; range = omega arith }

taken :
    loaded_pages card buffer 0x10000 700 100 2 0 3 memory
    ≡ ((kva_offset + 0x52002000) ∷ (kva_offset + 0x52003000) ∷ [])
unfolding load_sectors alloc_page_helper alloc_page find_unused alloc_pagetable clear_pgdir fill_mem
    store_byte copy_mem put_bytes
taken = refl

taken-AllClear : AllClear buffer (loaded_pages card buffer 0x10000 700 100 2 0 3 memory)
taken-AllClear = rw taken (refl, inl (omega arith), (refl, inl (omega arith), tt))

-- The memory after each of both pages is taken, and after the first is filled.
abbrev taken_in : Option (ℕ × Memory (ℕ → ℕ)) → Memory (ℕ → ℕ)
taken_in r = elim r [ none ↦ memory | some (kva, m) ↦ m ]

abbrev first_taken : Memory (ℕ → ℕ)
first_taken = taken_in (alloc_page_helper card 0x10000 unswapable memory)

abbrev first_filled : Memory (ℕ → ℕ)
first_filled = load_sectors card buffer (kva_offset + 0x52002000) 3 100 8 0 700 first_taken

abbrev second_taken : Memory (ℕ → ℕ)
second_taken = taken_in (alloc_page_helper card 0x11000 unswapable first_filled)

takes_first :
    alloc_page_helper card 0x10000 unswapable memory ≡ some (kva_offset + 0x52002000, first_taken)
unfolding alloc_page_helper alloc_page find_unused alloc_pagetable clear_pgdir
takes_first = refl

first_disk : first_taken.disk ≡ memory.disk
unfolding alloc_page_helper alloc_page find_unused alloc_pagetable clear_pgdir
first_disk = refl

takes_second :
    alloc_page_helper card 0x11000 unswapable first_filled
    ≡ some (kva_offset + 0x52003000, second_taken)
unfolding load_sectors alloc_page_helper alloc_page find_unused alloc_pagetable clear_pgdir fill_mem
    store_byte copy_mem put_bytes
takes_second = refl

first_filled-IsMapped : IsMapped 0x11000 (kva_offset + 0x52001088) first_filled
unfolding load_sectors alloc_page_helper alloc_page find_unused alloc_pagetable clear_pgdir fill_mem
    store_byte copy_mem put_bytes
first_filled-IsMapped = record { upper = refl; middle = refl; entry = refl }

below_bound : first_filled.pagenum ≢ first_filled.upbound
unfolding load_sectors alloc_page_helper alloc_page find_unused alloc_pagetable clear_pgdir fill_mem
    store_byte copy_mem put_bytes
below_bound = λ e. cc e

past_entry : (q : ℕ) → kva_offset + 0x52002000 ≤ q → q ≢ kva_offset + 0x52001088
past_entry q l = omega (arith, l)

taken-Undisturbed : Undisturbed card card-IsSdCard buffer 0x10000 700 1636 [] 100 2 0 3 memory
taken-Undisturbed =
    let (words, disk) =
      alloc_page_helper-words card 0x11000 (kva_offset + 0x52001088) (kva_offset + 0x52003000)
        unswapable first_filled second_taken first_filled-IsMapped below_bound takes_second in
    rw (takes_first, Undisturbed)
      (
        tt,
        (λ j l. ap (λ d. card-IsSdCard.byte_of d (1636 + j)) first_disk),
        (rw (takes_second, Undisturbed)
            (
              (inl (omega arith), (λ q a b. words q (past_entry q a)), tt),
              (λ j l. ap (λ d. card-IsSdCard.byte_of d (1636 + j)) disk),
              tt,
            )),
      )

load_task_img-IsLoaded_example :
    IsLoaded card card-IsSdCard buffer tasks name_t 0 memory 1 0x10000 after
load_task_img-IsLoaded_example =
    load_task_img-IsLoaded card card-IsSdCard buffer tasks name_t 0 1 0x10000 memory after found
      refl task-IsImage taken-AllClear taken-Undisturbed returns
