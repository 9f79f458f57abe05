-- ===== src/ImageTool/Tasks.antt =====
-- Where tools/createimage.c puts each task.
use oslab_riscv.Prelude.{
  ℕ, ◌+◌, ◌-◌, ◌%◌, ◌^◌, ◌≤◌, ◌≡◌, inl, inr, Bool-cases, ◌&&◌, List, [], ◌∷◌, ◌==◌, leb,
  if◌then◌else◌, arith,
}
use oslab_riscv.ImageTool.{
  Phdr, InputFile, Build, pt_load, main_name, eq_name, is_written, write_segment, note_segment,
  add_segments,
}
use oslab_riscv.ImageTool.Writing.{
  AtEnd, Appends, Appends-none, Appends-trans, joined, copy_segment-Appends,
}

-- The bytes of the segments that the tool copies, one segment after another.
abbrev pub segment_size : Phdr → ℕ
segment_size h = if is_written h then h.p_filesz else 0

unfoldable pub content_size : List Phdr → ℕ
content_size [] = 0
content_size (h ∷ hs) = segment_size h + content_size hs

unfoldable pub content : InputFile → List Phdr → ℕ → ℕ
content f [] j = 0
content f (h ∷ hs) j = joined (segment_size h) (λ i. f.byte (h.p_offset + i)) (content f hs) j

write_segment-Appends :
    (t : ℕ) (h : Phdr) (f : InputFile) (b : Build)
    → AtEnd b
    → Appends t (segment_size h) (λ i. f.byte (h.p_offset + i)) b (write_segment h f b)
unfolding write_segment
write_segment-Appends t h f b e = elim (Bool-cases (is_written h)) [
  | inl w ↦ rw (w, write_segment) (copy_segment-Appends t h.p_filesz h.p_offset f b e)
  | inr n ↦ rw (n, write_segment) (Appends-none t (λ i. f.byte (h.p_offset + i)) b e)
]

-- Changes to the kernel's size and to the noted size and entry of the task.
note-Appends :
    (t fidx n size : ℕ) (g : ℕ → ℕ) (h : Phdr) (b b' : Build)
    → (2 ≤ fidx → t ≡ fidx - 2)
    → Appends t n g b b'
    → let b2 = record b' { nbytes_kernel = b'.nbytes_kernel + size } in
      Appends t n g b
        (if leb 2 fidx && (h.p_type == pt_load) then note_segment (fidx - 2) h b2 else b2)
note-Appends t fidx n size g h b b' q a = elim (Bool-cases (leb 2 fidx && (h.p_type == pt_load))) [
  | inl l ↦
      let same = q (ground (arith, l)) in
      rw l (record {
        at_end = record { place = a.at_end.place; size = a.at_end.size };
        grown = a.grown;
        added = a.added;
        kept = a.kept;
        others = λ i ne. ground (arith, ne, same, a.others i ne);
        block = ground (arith, same, a.block);
        offset = ground (arith, same, a.offset);
      })
  | inr f ↦ rw f (record {
    at_end = record { place = a.at_end.place; size = a.at_end.size };
    grown = a.grown;
    added = a.added;
    kept = a.kept;
    others = a.others;
    block = a.block;
    offset = a.offset;
  })
]

-- `t` is the file's task, if it has one.
pub add_segments-Appends :
    (t fidx : ℕ) (f : InputFile) (hs : List Phdr) (b : Build)
    → (2 ≤ fidx → t ≡ fidx - 2)
    → AtEnd b
    → Appends t (content_size hs) (content f hs) b (add_segments fidx f hs b)
unfolding add_segments content_size content
add_segments-Appends t fidx f [] b q e = Appends-none t (λ j. 0) b e
add_segments-Appends t fidx f (h ∷ hs) b q e =
    let w = write_segment-Appends t h f b e in
    let size = if eq_name f.name main_name then h.p_filesz % 2 ^ 32 else 0 in
    let n =
      note-Appends t fidx (segment_size h) size (λ i. f.byte (h.p_offset + i)) h b
        (write_segment h f b) q w in
    Appends-trans t (segment_size h) (content_size hs) (λ i. f.byte (h.p_offset + i)) (content f hs)
      b _ _ n (add_segments-Appends t fidx f hs _ q n.at_end)
