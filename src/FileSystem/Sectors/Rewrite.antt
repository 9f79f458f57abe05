-- ===== src/FileSystem/Sectors/Rewrite.antt =====
-- Sectors of the card that are read into a buffer, changed in a part of it, and written back, as
-- kernel/fs/fs.c does with inodes, maps and blocks.
use oslab_riscv.Prelude.{
  ℕ, ◌+◌, ◌-◌, ◌*◌, ◌≤◌, ◌<◌, ◌≡◌, sym, ap, ◌∙◌, ◌⊎◌, inl, inr, Bool-cases, ◌&&◌, leb, ltb, arith,
}
use oslab_riscv.FileSystem.{Card, IsCard, get32}
use oslab_riscv.FileSystem.Sectors.Bytes.{get32-congr}

-- Outside of the part that was changed the card is as it was.
pub rewrite-outside :
    {c : Card} (v : IsCard c) (n s lo hi : ℕ) (d : c.Disk) (b m : ℕ → ℕ)
    → ((j : ℕ) → j < 512 * n → (j < lo) ⊎ (hi ≤ j) → m j ≡ c.sd_read d n s b j)
    → (j : ℕ) → (j < 512 * s + lo) ⊎ (512 * s + hi ≤ j)
    → v.byte_at (c.sd_write m n s d) j ≡ v.byte_at d j
rewrite-outside {c} v n s lo hi d b m same j o =
    elim (Bool-cases (leb (512 * s) j && ltb j (512 * (s + n)))) [
      | inr e ↦ v.write_out m n s d j (ground (arith, e))
      | inl e ↦
          let k = j - 512 * s in
          let at_k : 512 * s + k ≡ j = ground (arith, e) in
          let inside : k < 512 * n = ground (arith, e) in
          let kept = same k inside (ground (arith, e, o)) in
          sym (ap (v.byte_at (c.sd_write m n s d)) at_k)
          ∙ v.write_in m n s d k inside
          ∙ kept
          ∙ v.read_in d n s b k inside
          ∙ ap (v.byte_at d) at_k
    ]

-- A word of the buffer that was written is the word of the card.
pub get32-write :
    {c : Card} (v : IsCard c) (n s o : ℕ) (d : c.Disk) (m : ℕ → ℕ)
    → o + 4 ≤ 512 * n
    → get32 (v.byte_at (c.sd_write m n s d)) (512 * s + o) ≡ get32 m o
get32-write {c} v n s o d m l =
    get32-congr (v.byte_at (c.sd_write m n s d)) m (512 * s + o) o λ j k.
      let there : 512 * s + o + j ≡ 512 * s + (o + j) = omega arith in
      ap (v.byte_at (c.sd_write m n s d)) there ∙ v.write_in m n s d (o + j) (omega arith)

-- A word of a buffer that was read is the word of the card.
pub get32-read :
    {c : Card} (v : IsCard c) (n s o : ℕ) (d : c.Disk) (b : ℕ → ℕ)
    → o + 4 ≤ 512 * n
    → get32 (c.sd_read d n s b) o ≡ get32 (v.byte_at d) (512 * s + o)
get32-read {c} v n s o d b l = get32-congr (c.sd_read d n s b) (v.byte_at d) o (512 * s + o) λ j k.
    let there : 512 * s + (o + j) ≡ 512 * s + o + j = omega arith in
    v.read_in d n s b (o + j) (omega arith) ∙ ap (v.byte_at d) there

-- The same, where the buffer is known to agree with the card.
pub store-outside :
    {c : Card} (v : IsCard c) (n s lo hi : ℕ) (d : c.Disk) (m : ℕ → ℕ)
    → ((j : ℕ) → j < 512 * n → (j < lo) ⊎ (hi ≤ j) → m j ≡ v.byte_at d (512 * s + j))
    → (j : ℕ) → (j < 512 * s + lo) ⊎ (512 * s + hi ≤ j)
    → v.byte_at (c.sd_write m n s d) j ≡ v.byte_at d j
store-outside {c} v n s lo hi d m same =
    rewrite-outside v n s lo hi d m m λ j l o. same j l o ∙ sym (v.read_in d n s m j l)
