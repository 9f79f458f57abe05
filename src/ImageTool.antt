-- ===== src/ImageTool.antt =====
-- tools/createimage.c: the image of the card, made of the boot block, the kernel and the tasks. The
-- headers of the input files, which `read_ehdr` and `read_phdr` take from them, are given.
pub mod Writing
pub mod Tasks
pub mod Placing
pub mod Whole
pub mod Tests
use oslab_riscv.Prelude.{
  ℕ, zero, suc, ◌+◌, ◌-◌, ◌*◌, ◌/◌, ◌%◌, ◌^◌, ◌≤◌, max, Bool, true, false, not, ◌&&◌, List, [], ◌∷◌,
  length, get_or, update, ◌==◌, leb, if◌then◌else◌,
}
use oslab_riscv.Loader.{TaskInfo}

-- The fields of `Elf64_Phdr` that the tool uses.
pub record Phdr : Type 0 where
  pub p_type : ℕ
  pub p_offset : ℕ
  pub p_vaddr : ℕ
  pub p_filesz : ℕ
  pub p_memsz : ℕ

-- An input file; `byte` is what `fgetc` returns at a position.
pub record InputFile : Type 0 where
  pub name : List ℕ
  pub phdrs : List Phdr
  pub byte : ℕ → ℕ

-- The image file, with the place of the next byte.
pub record ImageFile : Type 0 where
  pub bytes : ℕ → ℕ
  pub place : ℕ
  pub size : ℕ

-- The variables of `create_image`.
pub record Build : Type 0 where
  pub img : ImageFile
  pub phyaddr : ℕ
  pub taskinfo : ℕ → TaskInfo
  pub nbytes_kernel : ℕ

abbrev pub sector_size : ℕ
sector_size = 512

-- `NBYTES2SEC`
abbrev pub nbytes2sec : ℕ → ℕ
nbytes2sec n = n / sector_size + (if n % sector_size == 0 then 0 else 1)

-- `PT_LOAD`
abbrev pub pt_load : ℕ
pt_load = 1

abbrev pub fputc : ℕ → ImageFile → ImageFile
fputc c f = record {
  bytes = update f.bytes f.place (c % 256);
  place = f.place + 1;
  size = max f.size (f.place + 1);
}

abbrev pub fseek : ℕ → ImageFile → ImageFile
fseek p f = record f { place = p }

-- `fputc(c, img); (*phyaddr)++;`
abbrev pub put_next : ℕ → Build → Build
put_next c b = record b { img = fputc c b.img; phyaddr = b.phyaddr + 1 }

-- The loop of `write_segment`.
unfoldable pub copy_segment : (left place : ℕ) → InputFile → Build → Build
copy_segment zero place f b = b
copy_segment (suc n) place f b = copy_segment n (place + 1) f (put_next (f.byte place) b)

abbrev pub is_written : Phdr → Bool
is_written h = not (h.p_memsz == 0) && (h.p_type == pt_load)

unfoldable pub write_segment : Phdr → InputFile → Build → Build
unfolding copy_segment
write_segment h f b = if is_written h then copy_segment h.p_filesz h.p_offset f b else b

-- The loop of `write_padding`.
unfoldable pub pad : ℕ → Build → Build
pad zero b = b
pad (suc n) b = pad n (put_next 0 b)

unfoldable pub write_padding : ℕ → Build → Build
unfolding pad
write_padding new_phyaddr b = pad (new_phyaddr - b.phyaddr) b

-- `strcmp` of two names.
abbrev pub eq_name : List ℕ → List ℕ → Bool
eq_name [] [] = true
eq_name (c ∷ cs) (d ∷ ds) = c == d && eq_name cs ds
eq_name _ _ = false

-- "bootblock" and "main"
abbrev pub bootblock : List ℕ
bootblock = 98 ∷ 111 ∷ 111 ∷ 116 ∷ 98 ∷ 108 ∷ 111 ∷ 99 ∷ 107 ∷ []

abbrev pub main_name : List ℕ
main_name = 109 ∷ 97 ∷ 105 ∷ 110 ∷ []

abbrev pub set_task : ℕ → TaskInfo → Build → Build
set_task i t b = record b { taskinfo = update b.taskinfo i t }

-- The name, and where the task begins: `begin_block` has 16 bits.
abbrev pub begin_task : ℕ → InputFile → Build → Build
begin_task i f b =
    let block = b.phyaddr / 512 in
    set_task i
      (record (b.taskinfo i) {
        name = λ j. get_or f.name j 0;
        begin_block = block % 2 ^ 16;
        begin_offset = b.phyaddr - block * 512;
      })
      b

-- Its size in memory and its entry.
abbrev pub note_segment : ℕ → Phdr → Build → Build
note_segment i h b =
    set_task i (record (b.taskinfo i) { memsz = h.p_memsz % 2 ^ 32; entry_addr = h.p_vaddr }) b

-- Where it ends.
abbrev pub end_task : ℕ → Build → Build
end_task i b =
    let block = b.phyaddr / 512 % 2 ^ 16 in
    set_task i (record (b.taskinfo i) { end_block = block; end_offset = b.phyaddr - block * 512 }) b

-- The loop over the program headers of file number `fidx`; the tasks are the files from 2 on.
unfoldable pub add_segments : (fidx : ℕ) → InputFile → List Phdr → Build → Build
unfolding write_segment
add_segments fidx f [] b = b
add_segments fidx f (h ∷ hs) b =
    let b1 = write_segment h f b in
    let size = if eq_name f.name main_name then h.p_filesz % 2 ^ 32 else 0 in
    let b2 = record b1 { nbytes_kernel = b1.nbytes_kernel + size } in
    add_segments fidx f hs
      (if leb 2 fidx && (h.p_type == pt_load) then note_segment (fidx - 2) h b2 else b2)

unfoldable pub add_file : (fidx : ℕ) → InputFile → Build → Build
unfolding add_segments write_padding
add_file fidx f b =
    let b1 = if leb 2 fidx then begin_task (fidx - 2) f b else b in
    let b2 = add_segments fidx f f.phdrs b1 in
    let b3 = if eq_name f.name bootblock then write_padding sector_size b2 else b2 in
    if leb 2 fidx then end_task (fidx - 2) b3 else b3

unfoldable pub add_files : (fidx : ℕ) → List InputFile → Build → Build
unfolding add_file
add_files fidx [] b = b
add_files fidx (f ∷ fs) b = add_files (fidx + 1) fs (add_file fidx f b)

-- `fwrite` of a number of `n` bytes, the low byte first.
abbrev pub put_number : (n v : ℕ) → ImageFile → ImageFile
put_number zero v f = f
put_number (suc n) v f = put_number n (v / 256) (fputc v f)

-- `fwrite` of a name's 18 bytes and of the 6 that pad the structure.
abbrev pub put_name : (n j : ℕ) → (ℕ → ℕ) → ImageFile → ImageFile
put_name zero j name f = f
put_name (suc n) j name f = put_name n (j + 1) name (fputc (name j) f)

abbrev pub put_task : TaskInfo → ImageFile → ImageFile
put_task t f =
    let f1 =
      put_number 4 t.begin_offset (put_number 2 t.end_block (put_number 2 t.begin_block f)) in
    let f2 = put_number 4 t.memsz (put_number 4 t.end_offset f1) in
    put_number 6 0 (put_name 18 0 t.name (put_number 8 t.entry_addr f2))

abbrev pub put_tasks : (n i : ℕ) → (ℕ → TaskInfo) → ImageFile → ImageFile
put_tasks zero i tasks f = f
put_tasks (suc n) i tasks f = put_tasks n (i + 1) tasks (put_task (tasks i) f)

-- The end of `create_image`, and `write_img_info`: the number of tasks and the place of their table in
-- the first sector, the table at the end, and the kernel's sectors with the signature.
abbrev pub put_info : (tasknum : ℕ) → Build → ImageFile
put_info tasknum b =
    let f1 = put_number 4 b.phyaddr (fputc tasknum (fseek 0x1f7 b.img)) in
    let f2 = put_tasks tasknum 0 b.taskinfo (fseek f1.size f1) in
    let sectors = nbytes2sec b.nbytes_kernel in
    fputc 0xaa (fputc 0x55 (fputc (sectors / 256) (fputc sectors (fseek 0x1fc f2))))

abbrev pub no_task : TaskInfo
no_task = record {
  begin_block = 0;
  end_block = 0;
  begin_offset = 0;
  end_offset = 0;
  memsz = 0;
  entry_addr = 0;
  name = λ j. 0;
}

abbrev pub empty_build : Build
empty_build = record {
  img = record { bytes = λ p. 0; place = 0; size = 0 };
  phyaddr = 0;
  taskinfo = λ i. no_task;
  nbytes_kernel = 0;
}

unfoldable pub create_image : List InputFile → ImageFile
unfolding add_files
create_image files = put_info (length files - 2) (add_files 0 files empty_build)
