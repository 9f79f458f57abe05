-- ===== src/ImageTool/Whole.antt =====
-- The finished image of tools/createimage.c.
use oslab_riscv.Prelude.{
  ℕ, zero, suc, ◌+◌, ◌-◌, ◌/◌, ◌^◌, ◌≤◌, ◌<◌, ◌≡◌, refl, subst, ◌∙◌, some, true, false, List, ◌∷◌,
  length, arith,
}
use oslab_riscv.Loader.{TaskInfo}
use oslab_riscv.ImageTool.{
  InputFile, ImageFile, Build, bootblock, eq_name, add_file, add_files, fputc, fseek, put_number,
  put_name, put_task, put_tasks, put_info, empty_build, create_image,
}
use oslab_riscv.ImageTool.Writing.{AtEnd}
use oslab_riscv.ImageTool.Placing.{
  IsTaskAt, file_at, add_files-later, add_files-IsTaskAt, add_file-IsAdded, add_file-bootblock,
}

-- The bytes before the next one stay, and the next one is later.
record GoesOn (f f' : ImageFile) : Type 0 where
  pub later : f.place ≤ f'.place
  pub size : f.size ≤ f'.size
  pub kept : (p : ℕ) → p < f.place → f'.bytes p ≡ f.bytes p

GoesOn-trans : (f f' f'' : ImageFile) → GoesOn f f' → GoesOn f' f'' → GoesOn f f''
GoesOn-trans f f' f'' a b = record {
  later = omega (arith, a.later, b.later);
  size = omega (arith, a.size, b.size);
  kept = λ p l. b.kept p (omega (arith, a.later, l)) ∙ a.kept p l;
}

fputc-GoesOn : (c : ℕ) (f : ImageFile) → GoesOn f (fputc c f)
fputc-GoesOn c f = record {
  later = omega arith;
  size = omega arith;
  kept = λ p l. ground (arith, l);
}

put_number-GoesOn : (n v : ℕ) (f : ImageFile) → GoesOn f (put_number n v f)
put_number-GoesOn zero v f = record { later = omega arith; size = omega arith; kept = λ p l. refl }
put_number-GoesOn (suc n) v f =
    GoesOn-trans f (fputc v f) (put_number n (v / 256) (fputc v f)) (fputc-GoesOn v f)
      (put_number-GoesOn n (v / 256) (fputc v f))

put_name-GoesOn : (n j : ℕ) (name : ℕ → ℕ) (f : ImageFile) → GoesOn f (put_name n j name f)
put_name-GoesOn zero j name f = record {
  later = omega arith;
  size = omega arith;
  kept = λ p l. refl;
}
put_name-GoesOn (suc n) j name f =
    GoesOn-trans f (fputc (name j) f) (put_name n (j + 1) name (fputc (name j) f))
      (fputc-GoesOn (name j) f) (put_name-GoesOn n (j + 1) name (fputc (name j) f))

then_number : (n v : ℕ) {f f' : ImageFile} → GoesOn f f' → GoesOn f (put_number n v f')
then_number n v {f} {f'} g = GoesOn-trans f f' (put_number n v f') g (put_number-GoesOn n v f')

goes_on : (f : ImageFile) → GoesOn f f
goes_on f = record { later = omega arith; size = omega arith; kept = λ p l. refl }

put_task-GoesOn : (t : TaskInfo) (f : ImageFile) → GoesOn f (put_task t f)
put_task-GoesOn t f =
    let g = then_number 2 t.end_block (then_number 2 t.begin_block (goes_on f)) in
    let g1 = then_number 4 t.memsz (then_number 4 t.end_offset (then_number 4 t.begin_offset g)) in
    then_number 6 0
      (GoesOn-trans f _ _ (then_number 8 t.entry_addr g1) (put_name-GoesOn 18 0 t.name _))

put_tasks-GoesOn :
    (n i : ℕ) (tasks : ℕ → TaskInfo) (f : ImageFile) → GoesOn f (put_tasks n i tasks f)
put_tasks-GoesOn zero i tasks f = goes_on f
put_tasks-GoesOn (suc n) i tasks f =
    GoesOn-trans f (put_task (tasks i) f) _ (put_task-GoesOn (tasks i) f)
      (put_tasks-GoesOn n (i + 1) tasks (put_task (tasks i) f))

-- The last writes leave the bytes from the second sector to the end of the tasks.
put_info-kept :
    (n : ℕ) (b : Build) (p : ℕ)
    → AtEnd b
    → 512 ≤ p
    → p < b.phyaddr
    → (put_info n b).bytes p ≡ b.img.bytes p
put_info-kept n b p e a l =
    let f1 = put_number 4 b.phyaddr (fputc n (fseek 0x1f7 b.img)) in
    let g = put_tasks-GoesOn n 0 b.taskinfo (fseek f1.size f1) in
    let long : b.phyaddr ≤ f1.size = omega (arith, e.size) in
    let first : f1.bytes p ≡ b.img.bytes p = ground (arith, a) in
    let second : (put_tasks n 0 b.taskinfo (fseek f1.size f1)).bytes p ≡ f1.bytes p =
      g.kept p (omega (arith, long, l)) in
    let both = second ∙ first in ground (arith, a, both)

-- When the first file is the boot block, the image is shorter than 2 ^ 25 bytes and file `k + 2` is not
-- another boot block, then its segments stand in the finished image, one after another, at the place
-- that the entry of task `k` names, after the first sector.
pub create_image-IsTaskAt :
    (k : ℕ) (boot f : InputFile) (fs : List InputFile)
    → let b = add_files 0 (boot ∷ fs) empty_build in
      eq_name boot.name bootblock ≡ true
      → file_at (boot ∷ fs) (k + 2) ≡ some f
      → eq_name f.name bootblock ≡ false
      → b.phyaddr < 2 ^ 25
      → IsTaskAt f 512 (b.taskinfo k) (create_image (boot ∷ fs)).bytes b.phyaddr
unfolding create_image add_files
create_image-IsTaskAt k boot f fs x at n m =
    let e : AtEnd empty_build = record { place = refl; size = refl } in
    let a = add_file-IsAdded 0 boot empty_build e in
    let b1 = add_file 0 boot empty_build in
    let b = add_files 1 fs b1 in
    let (e', grown) = add_files-later 1 fs b1 a.at_end in
    let next : k + 2 ≡ suc (k + 1) = omega arith in
    let r = add_files-IsTaskAt 1 (k + 1) fs f b1 a.at_end (omega arith) (rw next at at) n m in
    let here : 1 + (k + 1) - 2 ≡ k = omega arith in
    let r' = subst (λ q. IsTaskAt f b1.phyaddr (b.taskinfo q) b.img.bytes b.phyaddr) here r in
    let sector = add_file-bootblock boot empty_build e x in
    record {
      first = r'.first;
      last = r'.last;
      low_bound = omega (arith, r'.low_bound, sector);
      high_bound = r'.high_bound;
      task = record {
        is_image = r'.task.is_image;
        starts = r'.task.starts;
        ends = r'.task.ends;
        size = r'.task.size;
        there = λ j g.
            put_info-kept (length (boot ∷ fs) - 2) b (r'.first + j) e'
              (omega (arith, r'.low_bound, sector)) (omega (arith, g, r'.task.size, r'.high_bound))
            ∙ r'.task.there j g;
      };
    }
