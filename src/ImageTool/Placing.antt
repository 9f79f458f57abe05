-- ===== src/ImageTool/Placing.antt =====
-- The image that tools/createimage.c makes, and the table of its tasks.
use oslab_riscv.Prelude.{
  ℕ, zero, suc, ◌+◌, ◌-◌, ◌*◌, ◌/◌, ◌%◌, ◌^◌, ◌≤◌, ◌<◌, ◌≡◌, ◌≢◌, refl, ◌∙◌, inl, inr, Bool-cases,
  Option, none, some, true, false, List, [], ◌∷◌, ◌==◌, leb, if◌then◌else◌, arith,
}
use oslab_riscv.Loader.{TaskInfo}
use oslab_riscv.Loader.Image.{starts_at, ends_at, IsImage}
use oslab_riscv.ImageTool.{
  InputFile, Build, bootblock, eq_name, begin_task, pad, write_padding, add_segments, add_file,
  add_files,
}
use oslab_riscv.ImageTool.Writing.{AtEnd, Appends, Appends-trans, joined, pad-Appends}
use oslab_riscv.ImageTool.Tasks.{content_size, content, add_segments-Appends}

-- What a file that is added leaves alone.
pub record IsAdded (fidx : ℕ) (b b' : Build) : Type 0 where
  pub at_end : AtEnd b'
  pub grown : b.phyaddr ≤ b'.phyaddr
  pub kept : (p : ℕ) → p < b.phyaddr → b'.img.bytes p ≡ b.img.bytes p
  pub others : (i : ℕ) → i + 2 ≢ fidx → b'.taskinfo i ≡ b.taskinfo i

-- The task's place in the image holds the file's segments, between `first` and `last`.
pub record HasTask (f : InputFile) (first last : ℕ) (t : TaskInfo) (bytes : ℕ → ℕ) : Type 0 where
  pub is_image : IsImage t
  pub starts : starts_at t ≡ first
  pub ends : ends_at t ≡ last
  pub size : last ≡ first + content_size f.phdrs
  pub there : (j : ℕ) → j < content_size f.phdrs → bytes (first + j) ≡ content f f.phdrs j % 256

-- The file number `fidx`, its segments and the padding.
middle : (fidx : ℕ) → InputFile → Build → Build
middle fidx f b =
    let b2 = add_segments fidx f f.phdrs b in
    if eq_name f.name bootblock then write_padding 512 b2 else b2

middle-Appends :
    (t fidx : ℕ) (f : InputFile) (b : Build)
    → (2 ≤ fidx → t ≡ fidx - 2)
    → AtEnd b
    → (n : ℕ) × (g : ℕ → ℕ) × Appends t n g b (middle fidx f b)
unfolding middle write_padding
middle-Appends t fidx f b q e =
    let r = add_segments-Appends t fidx f f.phdrs b q e in
    let b2 = add_segments fidx f f.phdrs b in
    let p = pad-Appends t (512 - b2.phyaddr) b2 r.at_end in
    let both =
      Appends-trans t (content_size f.phdrs) (512 - b2.phyaddr) (content f f.phdrs) (λ j. 0) b b2
        (pad (512 - b2.phyaddr) b2) r p in
    elim (Bool-cases (eq_name f.name bootblock)) [
      | inl y ↦ (
        content_size f.phdrs + (512 - b2.phyaddr),
        joined (content_size f.phdrs) (content f f.phdrs) (λ j. 0),
        rw y both,
      )
      | inr n ↦ (content_size f.phdrs, content f f.phdrs, rw n r)
    ]

begin-AtEnd : (i : ℕ) (f : InputFile) (b : Build) → AtEnd b → AtEnd (begin_task i f b)
begin-AtEnd i f b e = record { place = e.place; size = e.size }

pub add_file-IsAdded :
    (fidx : ℕ) (f : InputFile) (b : Build) → AtEnd b → IsAdded fidx b (add_file fidx f b)
unfolding add_file middle
add_file-IsAdded fidx f b e = elim (Bool-cases (leb 2 fidx)) [
  | inl l ↦
      let b1 = begin_task (fidx - 2) f b in
      let (n, g, r) =
        middle-Appends (fidx - 2) fidx f b1 (λ x. refl) (begin-AtEnd (fidx - 2) f b e) in
      rw (l, add_file)
        (record {
          at_end = record { place = r.at_end.place; size = r.at_end.size };
          grown = omega (arith, r.grown);
          kept = r.kept;
          others = λ i ne.
              let apart : i ≢ fidx - 2 = λ x. ne (ground (arith, l, x)) in
              ground (arith, ne, l, r.others i apart);
        })
  | inr h ↦
      let few : fidx < 2 = ground (arith, h) in
      let (n, g, r) = middle-Appends 0 fidx f b (λ x. absurd (omega (arith, few, x))) e in
      rw (h, add_file)
        (record {
          at_end = r.at_end;
          grown = omega (arith, r.grown);
          kept = r.kept;
          others = λ i ne.
              let (n', g', r') =
                middle-Appends (i + 1) fidx f b (λ x. absurd (omega (arith, few, x))) e in
              r'.others i (omega arith);
        })
]

-- A task's file gets its place at the end of the image.
add_file-HasTask :
    (fidx : ℕ) (f : InputFile) (b : Build)
    → AtEnd b
    → 2 ≤ fidx
    → eq_name f.name bootblock ≡ false
    → (add_file fidx f b).phyaddr < 2 ^ 25
    → let b' = add_file fidx f b in
      HasTask f b.phyaddr b'.phyaddr (b'.taskinfo (fidx - 2)) b'.img.bytes
unfolding add_file middle
add_file-HasTask fidx f b e l n m =
    let b1 = begin_task (fidx - 2) f b in
    let r =
      add_segments-Appends (fidx - 2) fidx f f.phdrs b1 (λ x. refl)
        (begin-AtEnd (fidx - 2) f b e) in
    let y : leb 2 fidx ≡ true = ground (arith, l) in
    let m' : (add_segments fidx f f.phdrs b1).phyaddr < 2 ^ 25 = rw n at (rw (y, add_file) at m) in
    let own : (fidx - 2 == fidx - 2) ≡ true = ground arith in
    let task = (add_segments fidx f f.phdrs b1).taskinfo (fidx - 2) in
    let block : task.begin_block ≡ b.phyaddr / 512 % 2 ^ 16 = r.block ∙ ground arith in
    let offset : task.begin_offset ≡ b.phyaddr - b.phyaddr / 512 * 512 = r.offset ∙ ground arith in
    rw (y, add_file)
      (rw n (
        rw own (record {
          is_image = record {
            inside = omega (arith, offset);
            order = omega (arith, block, offset, r.grown, m');
            range = omega (arith, m');
          };
          starts = omega (arith, block, offset, r.grown, m');
          ends = omega (arith, m');
          size = r.grown;
          there = r.added;
        })))

HasTask-later :
    (fidx k : ℕ) (f : InputFile) (first last : ℕ) (b b' : Build)
    → IsAdded fidx b b'
    → k + 2 ≢ fidx
    → last ≤ b.phyaddr
    → HasTask f first last (b.taskinfo k) b.img.bytes
    → HasTask f first last (b'.taskinfo k) b'.img.bytes
HasTask-later fidx k f first last b b' a ne l t = rw (a.others k ne) (record {
  is_image = t.is_image;
  starts = t.starts;
  ends = t.ends;
  size = t.size;
  there = λ j g. a.kept (first + j) (omega (arith, t.size, l, g)) ∙ t.there j g;
})

-- File number `i` of the list, if there is one.
abbrev pub file_at : List InputFile → ℕ → Option InputFile
file_at [] i = none
file_at (f ∷ fs) zero = some f
file_at (f ∷ fs) (suc i) = file_at fs i

-- Some place in the image holds task `k`.
pub record IsTaskAt (f : InputFile) (low : ℕ) (t : TaskInfo) (bytes : ℕ → ℕ) (high : ℕ)
    : Type 0 where
  pub first : ℕ
  pub last : ℕ
  pub low_bound : low ≤ first
  pub high_bound : last ≤ high
  pub task : HasTask f first last t bytes

pub add_files-later :
    (fidx : ℕ) (fs : List InputFile) (b : Build)
    → AtEnd b
    → AtEnd (add_files fidx fs b) × (b.phyaddr ≤ (add_files fidx fs b).phyaddr)
unfolding add_files
add_files-later fidx [] b e = (e, omega arith)
add_files-later fidx (f ∷ fs) b e =
    let a = add_file-IsAdded fidx f b e in
    let (e', l) = add_files-later (fidx + 1) fs (add_file fidx f b) a.at_end in
    (e', omega (arith, a.grown, l))

HasTask-add_files :
    (fidx k : ℕ) (fs : List InputFile) (f : InputFile) (first last : ℕ) (b : Build)
    → AtEnd b
    → k + 2 < fidx
    → last ≤ b.phyaddr
    → HasTask f first last (b.taskinfo k) b.img.bytes
    → let b' = add_files fidx fs b in HasTask f first last (b'.taskinfo k) b'.img.bytes
unfolding add_files
HasTask-add_files fidx k [] f first last b e o l t = t
HasTask-add_files fidx k (g ∷ fs) f first last b e o l t =
    let a = add_file-IsAdded fidx g b e in
    HasTask-add_files (fidx + 1) k fs f first last (add_file fidx g b) a.at_end (omega (arith, o))
      (omega (arith, l, a.grown))
      (HasTask-later fidx k f first last b (add_file fidx g b) a (λ x. absurd (omega (arith, x, o)))
        l t)

-- Task `k` is file number `k + 2 - fidx` of those that are still to be added.
pub add_files-IsTaskAt :
    (fidx i : ℕ) (fs : List InputFile) (f : InputFile) (b : Build)
    → AtEnd b
    → 2 ≤ fidx + i
    → file_at fs i ≡ some f
    → eq_name f.name bootblock ≡ false
    → (add_files fidx fs b).phyaddr < 2 ^ 25
    → let b' = add_files fidx fs b in
      IsTaskAt f b.phyaddr (b'.taskinfo (fidx + i - 2)) b'.img.bytes b'.phyaddr
unfolding add_files
add_files-IsTaskAt fidx i [] f b e l at n m = absurd (cc at)
add_files-IsTaskAt fidx zero (g ∷ fs) f b e l at n m =
    let same : g ≡ f = cc at in
    let b1 = add_file fidx f b in
    let a = add_file-IsAdded fidx f b e in
    let (e', grown) = add_files-later (fidx + 1) fs b1 a.at_end in
    let m' : (add_files (fidx + 1) fs b1).phyaddr < 2 ^ 25 = rw same at m in
    let here : fidx + 0 - 2 ≡ fidx - 2 = omega arith in
    rw (same, here)
      (record {
        first = b.phyaddr;
        last = b1.phyaddr;
        low_bound = omega arith;
        high_bound = grown;
        task =
            HasTask-add_files (fidx + 1) (fidx - 2) fs f b.phyaddr b1.phyaddr b1 a.at_end
              (omega (arith, l)) (omega arith)
              (add_file-HasTask fidx f b e (omega (arith, l)) n (omega (arith, grown, m')));
      })
add_files-IsTaskAt fidx (suc i) (g ∷ fs) f b e l at n m =
    let a = add_file-IsAdded fidx g b e in
    let r =
      add_files-IsTaskAt (fidx + 1) i fs f (add_file fidx g b) a.at_end (omega (arith, l)) at n m in
    let here : fidx + suc i - 2 ≡ fidx + 1 + i - 2 = omega arith in
    rw here (record {
      first = r.first;
      last = r.last;
      low_bound = omega (arith, r.low_bound, a.grown);
      high_bound = r.high_bound;
      task = r.task;
    })

-- The boot block fills the first sector.
pub add_file-bootblock :
    (f : InputFile) (b : Build)
    → AtEnd b
    → eq_name f.name bootblock ≡ true
    → 512 ≤ (add_file 0 f b).phyaddr
unfolding add_file write_padding
add_file-bootblock f b e x =
    let b2 = add_segments 0 f f.phdrs b in
    let r = add_segments-Appends 0 0 f f.phdrs b (λ y. absurd (omega (arith, y))) e in
    rw (x, add_file) (omega (arith, (pad-Appends 0 (512 - b2.phyaddr) b2 r.at_end).grown))
