-- ===== src/FileSystem/Sectors/Maps.antt =====
-- The maps of inodes and of blocks on the card: alloc_inode, free_inode_map and alloc_block of
-- kernel/fs/fs.c.
use oslab_riscv.Prelude.{
  ℕ, ◌+◌, ◌-◌, ◌*◌, ◌≤◌, ◌<◌, ◌≡◌, ◌≢◌, refl, sym, ap, ◌∙◌, ◌⊎◌, inl, inr, Bool-cases, ◌&&◌, none,
  some, update, ◌==◌, leb, ltb, find_from, arith,
}
use oslab_riscv.FileSystem.{Card, IsCard, Fs, fs_start, inode_map_offset, block_map_offset}
use oslab_riscv.FileSystem.Sectors.First.{test-ne, test-eq, FirstFree, first_free}
use oslab_riscv.FileSystem.Sectors.{
  get_inode_map, sync_inode_map, mark_inode, alloc_inode, free_inode_map, get_block_map,
  sync_block_map, mark_block, alloc_block,
}

-- The bytes of two cards are the same but for the one at `p`, which is `x` on the second.
pub record OnlyAt {c : Card} (v : IsCard c) (p x : ℕ) (d d' : c.Disk) : Type 0 where
  pub here : v.byte_at d' p ≡ x
  pub elsewhere : (j : ℕ) → j ≢ p → v.byte_at d' j ≡ v.byte_at d j

-- `n` sectors from `s` on are read, one byte is changed, and they are written back.
mark-OnlyAt :
    {c : Card} (v : IsCard c) (n s i x : ℕ) (d : c.Disk) (b : ℕ → ℕ)
    → i < 512 * n
    → OnlyAt v (512 * s + i) x d (c.sd_write (update (c.sd_read d n s b) i x) n s d)
mark-OnlyAt {c} v n s i x d b l =
    let m = update (c.sd_read d n s b) i x in
    let outside = λ (j : ℕ) (o : (j < 512 * s) ⊎ (512 * (s + n) ≤ j)). v.write_out m n s d j o in
    record {
      here = v.write_in m n s d i l ∙ ground arith;
      elsewhere = λ j ne. elim (Bool-cases (leb (512 * s) j && ltb j (512 * (s + n)))) [
        | inr o ↦ outside j (ground (arith, o))
        | inl o ↦
            let k = j - 512 * s in
            let same : 512 * s + k ≡ j = ground (arith, o) in
            let inside : k < 512 * n = ground (arith, o) in
            let apart : i ≢ k = λ e. ne (ground (arith, e, same)) in
            let other : m k ≡ c.sd_read d n s b k = ground (arith, apart) in
            sym (ap (v.byte_at (c.sd_write m n s d)) same)
            ∙ v.write_in m n s d k inside
            ∙ other
            ∙ v.read_in d n s b k inside
            ∙ ap (v.byte_at d) same
      ];
    }

-- The marks on the card: the first byte of the map, and the mark of inode or block `i`.
abbrev pub inode_mark_at : ℕ → ℕ
inode_mark_at i = 512 * (fs_start + inode_map_offset) + i

abbrev pub block_mark_at : ℕ → ℕ
block_mark_at i = 512 * (fs_start + block_map_offset) + i

abbrev pub inode_mark : {c : Card} → IsCard c → Fs c → ℕ → ℕ
inode_mark v s i = v.byte_at s.disk (inode_mark_at i)

abbrev pub block_mark : {c : Card} → IsCard c → Fs c → ℕ → ℕ
block_mark v s i = v.byte_at s.disk (block_mark_at i)

-- `alloc_inode` fails exactly if all 512 inodes are marked on the card; else it returns the first that
-- is not and marks it there, and no other byte of the card changes.
pub alloc_inode_lem :
    {c : Card} (v : IsCard c) (s : Fs c)
    → ((alloc_inode s ≡ none) × ((j : ℕ) → j < 512 → inode_mark v s j ≢ 0))
      ⊎ ((i : ℕ) × (s' : Fs c) × (alloc_inode s ≡ some (i, s'))
          × FirstFree 512 (inode_mark v s) i
          × OnlyAt v (inode_mark_at i) 1 s.disk s'.disk)
unfolding alloc_inode get_inode_map sync_inode_map
alloc_inode_lem {c} v s =
    let sct = fs_start + inode_map_offset in
    let m = c.sd_read s.disk 1 sct s.inode_map in
    let i = find_from 512 0 (λ j. m j == 0) in
    elim (first_free 512 m (inode_mark v s)
      (λ j l. v.read_in s.disk 1 sct s.inode_map j (omega arith))) [
        | inl (e, taken) ↦ inl (rw (e, alloc_inode) refl, taken)
        | inr (e, f) ↦ inr (
          i,
          sync_inode_map (mark_inode i 1 (get_inode_map s)),
          rw (e, alloc_inode) refl,
          f,
          mark-OnlyAt v 1 sct i 1 s.disk s.inode_map (omega (arith, f.range)),
        )
      ]

-- `alloc_block` does the same with the first 4096 of the 131072 blocks, the only ones that it ever
-- gives out.
pub alloc_block_lem :
    {c : Card} (v : IsCard c) (s : Fs c)
    → ((alloc_block s ≡ none) × ((j : ℕ) → j < 4096 → block_mark v s j ≢ 0))
      ⊎ ((i : ℕ) × (s' : Fs c) × (alloc_block s ≡ some (i, s'))
          × FirstFree 4096 (block_mark v s) i
          × OnlyAt v (block_mark_at i) 1 s.disk s'.disk)
unfolding alloc_block get_block_map sync_block_map
alloc_block_lem {c} v s =
    let sct = fs_start + block_map_offset in
    let m = c.sd_read s.disk 8 sct s.block_map in
    let i = find_from 4096 0 (λ j. m j == 0) in
    elim (first_free 4096 m (block_mark v s)
      (λ j l. v.read_in s.disk 8 sct s.block_map j (omega arith))) [
        | inl (e, taken) ↦ inl (rw (e, alloc_block) refl, taken)
        | inr (e, f) ↦ inr (
          i,
          sync_block_map (mark_block i 1 (get_block_map s)),
          rw (e, alloc_block) refl,
          f,
          mark-OnlyAt v 8 sct i 1 s.disk s.block_map (omega (arith, f.range)),
        )
      ]

-- `free_inode_map` of an inode that is marked on the card succeeds, and clears that mark alone.
pub free_inode_map_lem :
    {c : Card} (v : IsCard c) (i : ℕ) (s : Fs c)
    → i < 512
    → inode_mark v s i ≡ 1
    → (s' : Fs c) × (free_inode_map i s ≡ some s') × OnlyAt v (inode_mark_at i) 0 s.disk s'.disk
unfolding free_inode_map get_inode_map sync_inode_map
free_inode_map_lem {c} v i s l e =
    let sct = fs_start + inode_map_offset in
    let m = c.sd_read s.disk 1 sct s.inode_map in
    let marked : m i ≡ 1 = v.read_in s.disk 1 sct s.inode_map i (omega arith) ∙ e in
    (
      sync_inode_map (mark_inode i 0 (get_inode_map s)),
      rw (marked, free_inode_map) refl,
      mark-OnlyAt v 1 sct i 0 s.disk s.inode_map (omega arith),
    )

-- Giving back the inode that `alloc_inode` returned succeeds, and the card is as it was.
pub free_inode_map-alloc_inode :
    {c : Card} (v : IsCard c) (i : ℕ) (s s' : Fs c)
    → alloc_inode s ≡ some (i, s')
    → (s'' : Fs c) × (free_inode_map i s' ≡ some s'')
      × ((j : ℕ) → v.byte_at s''.disk j ≡ v.byte_at s.disk j)
free_inode_map-alloc_inode {c} v i s s' e = elim (alloc_inode_lem v s) [
  | inl (n, taken) ↦ cc
  | inr (k, t, r, f, o) ↦
      let same : k ≡ i = cc in let state : t ≡ s' = cc in restored same state f o
]
  where
    restored :
        {k : ℕ} {t : Fs c}
        → k ≡ i
        → t ≡ s'
        → FirstFree 512 (inode_mark v s) k
        → OnlyAt v (inode_mark_at k) 1 s.disk t.disk
        → (s'' : Fs c) × (free_inode_map i s' ≡ some s'')
          × ((j : ℕ) → v.byte_at s''.disk j ≡ v.byte_at s.disk j)
    restored p q f o =
        let f' = rw p at f in
        let o' = rw (p, q) at o in
        let (u, r, w) = free_inode_map_lem v i s' (f'.range) (o'.here) in
        (
          u,
          r,
          λ j. elim (Bool-cases (j == inode_mark_at i)) [
            | inl x ↦ rw (test-eq _ _ x) (w.here ∙ sym (f'.free))
            | inr x ↦ w.elsewhere j (test-ne _ _ x) ∙ o'.elsewhere j (test-ne _ _ x)
          ],
        )
