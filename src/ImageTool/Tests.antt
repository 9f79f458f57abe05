-- ===== src/ImageTool/Tests.antt =====
-- The theorem about the image at a boot block, a kernel without segments and a task of two segments.
use oslab_riscv.Prelude.{ℕ, ◌+◌, ◌≡◌, refl, [], ◌∷◌, arith}
use oslab_riscv.ImageTool.{
  Phdr, InputFile, bootblock, main_name, copy_segment, write_segment, pad, write_padding, add_files,
  empty_build, create_image,
}
use oslab_riscv.ImageTool.Placing.{IsTaskAt}
use oslab_riscv.ImageTool.Whole.{create_image-IsTaskAt}

abbrev segment : (offset size memsz : ℕ) → Phdr
segment offset size memsz = record {
  p_type = 1;
  p_offset = offset;
  p_vaddr = 0x10000;
  p_filesz = size;
  p_memsz = memsz;
}

abbrev boot : InputFile
boot = record { name = bootblock; phdrs = segment 5 3 3 ∷ []; byte = λ p. p }

abbrev kernel : InputFile
kernel = record { name = main_name; phdrs = []; byte = λ p. p }

abbrev task : InputFile
task = record { name = 116 ∷ []; phdrs = segment 10 4 4 ∷ segment 20 2 100 ∷ []; byte = λ p. p + 1 }

image_end : (add_files 0 (boot ∷ kernel ∷ task ∷ []) empty_build).phyaddr ≡ 518
unfolding add_files pad write_padding write_segment copy_segment
image_end = refl

create_image-IsTaskAt_example :
    let b = add_files 0 (boot ∷ kernel ∷ task ∷ []) empty_build in
    IsTaskAt task 512 (b.taskinfo 0) (create_image (boot ∷ kernel ∷ task ∷ [])).bytes b.phyaddr
create_image-IsTaskAt_example =
    create_image-IsTaskAt 0 boot task (kernel ∷ task ∷ []) refl refl refl (omega (arith, image_end))
