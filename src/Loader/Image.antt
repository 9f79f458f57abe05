-- ===== src/Loader/Image.antt =====
-- What load_task_img of kernel/loader/loader.c loads, page by page.
use oslab_riscv.Prelude.{
  ℕ, ◌+◌, ◌-◌, ◌*◌, ◌/◌, ◌^◌, ◌≤◌, ◌<◌, ◌≡◌, refl, sym, ◌∙◌, inl, inr, Option-cases, true, false,
  none, some, [], ◌>>=◌, ◌==◌, find_from-cases, find_from-below, arith,
}
use oslab_riscv.Memory.{SdCard, Memory, kva2pa, pa2kva}
use oslab_riscv.Loader.{
  TaskInfo, task_maxnum, is_named, find_task, image_size, load_pages, load_task_img,
}
use oslab_riscv.Loader.Page.{IsSdCard}
use oslab_riscv.Loader.Pages.{Loads, AllClear, loaded_pages, load_pages_from}
use oslab_riscv.Loader.Final.{Undisturbed, Holds, load_pages-Holds}

-- Where the image starts and ends on the card, in bytes.
abbrev pub starts_at : TaskInfo → ℕ
starts_at t = 512 * t.begin_block + t.begin_offset

abbrev pub ends_at : TaskInfo → ℕ
ends_at t = 512 * t.end_block + t.end_offset

-- The task's place is that of an image.
pub record IsImage (t : TaskInfo) : Type 0 where
  pub inside : t.begin_offset < 512
  pub order : starts_at t ≤ ends_at t
  pub range : ends_at t < 2 ^ 32

image_size-IsImage : (t : TaskInfo) → IsImage t → image_size t ≡ ends_at t - starts_at t
image_size-IsImage t v = omega (arith, v.order, v.range)

abbrev pub page_count : TaskInfo → ℕ
page_count t = (t.memsz + 4095) / 4096

-- What a call that returns has done: task `i` is the first with the name, the result is its entry, and
-- its image is in the pages from there on.
pub record IsLoaded (sd : SdCard) (c : IsSdCard sd) (buffer : ℕ) (tasks : ℕ → TaskInfo)
    (mem : ℕ → ℕ) (taskname : ℕ) (m : Memory sd.Disk) (i e : ℕ) (m' : Memory sd.Disk) : Type 0 where
  pub range : i < task_maxnum
  pub named : is_named mem taskname (tasks i) ≡ true
  pub first : (j : ℕ) → j < i → is_named mem taskname (tasks j) ≡ false
  pub entry : e ≡ (tasks i).entry_addr
  pub pages :
      Loads sd c buffer
        (tasks i).entry_addr
        (ends_at (tasks i) - starts_at (tasks i))
        (starts_at (tasks i))
        (page_count (tasks i))
        0
        m
        m'
  pub holds :
      let t = tasks i in
      Holds sd c buffer t.entry_addr
        (ends_at t - starts_at t)
        (starts_at t)
        (c.byte_of m.disk)
        (loaded_pages sd buffer t.entry_addr
          (ends_at t - starts_at t)
          t.begin_offset
          (page_count t)
          0
          t.begin_block
          m)
        0
        m'.words

split_load :
    (sd : SdCard) (buffer : ℕ) (t : TaskInfo) (e : ℕ) (m m' : Memory sd.Disk)
    → image_size t ≡ ends_at t - starts_at t
    → ◌>>=◌ {B = ℕ × Memory sd.Disk}
        (load_pages sd buffer t.entry_addr
          (image_size t)
          t.begin_offset
          (page_count t)
          0
          t.begin_block
          m)
        (λ m1. some (t.entry_addr, m1))
      ≡ some (e, m')
    → (e ≡ t.entry_addr)
      × (load_pages sd buffer t.entry_addr
            (ends_at t - starts_at t)
            t.begin_offset
            (page_count t)
            0
            t.begin_block
            m
          ≡ some m')
split_load sd buffer t e m m' size r =
    elim (Option-cases (
      load_pages sd buffer t.entry_addr (image_size t) t.begin_offset (page_count t) 0 t.begin_block
        m)) [
          | inl x ↦ absurd (cc (rw x at r))
          | inr (m1, x) ↦ let r' = rw x at r in (cc r', rw (sym size) (x ∙ cc r'))
        ]

-- When the call returns and the place of the task is that of an image, the pages it took are aligned
-- and apart from the loader's buffer and from each other, that buffer is in the kernel's map, and to
-- take a page writes neither to the pages taken before nor to the image on the card, then the task is
-- the first with the name, the result is its entry address, and when the call has returned the pages
-- of the process from there on hold the image's bytes; the rest of the last page of the image is zero
-- unless the image's size is a multiple of 512 bytes, and then it is what the memory held when the
-- page was taken; the pages after it are zero up to the task's size in memory.
pub load_task_img-IsLoaded :
    (sd : SdCard) (c : IsSdCard sd) (buffer : ℕ) (tasks : ℕ → TaskInfo) (mem : ℕ → ℕ)
    (taskname i e : ℕ) (m m' : Memory sd.Disk)
    → let t = tasks i in
      find_task tasks mem taskname ≡ i
      → pa2kva (kva2pa buffer) ≡ buffer
      → IsImage t
      → AllClear buffer (
          loaded_pages sd buffer t.entry_addr
            (ends_at t - starts_at t)
            t.begin_offset
            (page_count t)
            0
            t.begin_block
            m)
      → Undisturbed sd c buffer t.entry_addr
          (ends_at t - starts_at t)
          (starts_at t)
          []
          t.begin_offset
          (page_count t)
          0
          t.begin_block
          m
      → load_task_img sd buffer tasks mem taskname m ≡ some (e, m')
      → IsLoaded sd c buffer tasks mem taskname m i e m'
unfolding load_task_img
load_task_img-IsLoaded sd c buffer tasks mem taskname i e m m' f b v a u r =
    let t = tasks i in
    elim (find_from-cases task_maxnum (λ j. is_named mem taskname (tasks j))) [
      | inr (x, _) ↦ absurd (ground (arith, x, r))
      | inl (l, y) ↦
          let here : (i == task_maxnum) ≡ false = ground (arith, l, f) in
          let r' = rw (here, load_task_img) at (rw (f, load_task_img) at r) in
          let (same, run) = split_load sd buffer t e m m' (image_size-IsImage t v) r' in
          record {
            range = rw (sym f) l;
            named = rw (sym f) y;
            first = λ j g.
                find_from-below task_maxnum 0 (λ n. is_named mem taskname (tasks n)) j (omega arith)
                  (rw f g);
            entry = same;
            pages =
                load_pages_from sd c buffer t.entry_addr (ends_at t - starts_at t) (starts_at t)
                  t.begin_offset (page_count t) 0 t.begin_block m m' b v.inside
                  (omega (arith, v.order, v.range)) (λ g. omega arith) a run;
            holds =
                (load_pages-Holds sd c buffer t.entry_addr (ends_at t - starts_at t) (starts_at t)
                  (c.byte_of m.disk) [] t.begin_offset (page_count t) 0 t.begin_block m m' b
                  v.inside (omega (arith, v.order, v.range)) refl (λ g. omega arith) tt a u
                  (λ j l. refl) run).0;
          }
    ]

-- Without a task of the name the call finds none.
pub load_task_img-missing :
    (sd : SdCard) (buffer : ℕ) (tasks : ℕ → TaskInfo) (mem : ℕ → ℕ) (taskname : ℕ)
    (m : Memory sd.Disk)
    → ((j : ℕ) → j < task_maxnum → is_named mem taskname (tasks j) ≡ false)
    → load_task_img sd buffer tasks mem taskname m ≡ none
unfolding load_task_img
load_task_img-missing sd buffer tasks mem taskname m h =
    elim (find_from-cases task_maxnum (λ j. is_named mem taskname (tasks j))) [
      | inl (l, y) ↦ absurd (ground (arith, y, h _ l))
      | inr (x, _) ↦ ground (arith, x)
    ]
