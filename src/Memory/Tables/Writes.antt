-- ===== src/Memory/Tables/Writes.antt =====
-- What alloc_page_helper of kernel/mm/mm.c writes where the tables for the address are there: the last
-- entry, and no other word of the memory.
use oslab_riscv.Prelude.{
  ℕ, ◌+◌, ◌≡◌, ◌≢◌, refl, inl, inr, Bool-cases, Option-cases, false, some, ◌==◌, arith,
}
use oslab_riscv.Memory.{PageStatus, SdCard, Memory, page_valid}
use oslab_riscv.Memory.Pages.{page_num, find_unused, alloc_page, alloc_pagetable}
use oslab_riscv.Memory.Tables.{new_page, alloc_page_helper}
use oslab_riscv.Memory.Tables.Walk.{IsMapped, last_entry-IsMapped}

-- The process is below its bound, so nothing is swapped out.
alloc_pagetable-words :
    (sd : SdCard) (s : PageStatus) (i : ℕ) (m m' : Memory sd.Disk)
    → m.pagenum ≢ m.upbound
    → alloc_pagetable sd s m ≡ some (i, m')
    → (m'.words ≡ m.words) × (m'.disk ≡ m.disk)
unfolding alloc_pagetable alloc_page
alloc_pagetable-words sd s i m m' ne e =
    let full : (m.pagenum == m.upbound) ≡ false = ground arith in
    elim (Option-cases (find_unused (page_num + 1) m.page_manager m.page_id)) [
      | inl x ↦ absurd (cc (rw x at (rw (full, alloc_pagetable) at e)))
      | inr ((j, next), x) ↦
          let f = rw x at (rw (full, alloc_pagetable) at e) in
          (ground (arith, f), ground (arith, f))
    ]

pub alloc_page_helper-words :
    (sd : SdCard) (va p k : ℕ) (s : PageStatus) (m m' : Memory sd.Disk)
    → IsMapped va p m
    → m.pagenum ≢ m.upbound
    → alloc_page_helper sd va s m ≡ some (k, m')
    → ((q : ℕ) → q ≢ p → m'.words q ≡ m.words q) × (m'.disk ≡ m.disk)
unfolding alloc_page_helper new_page
alloc_page_helper-words sd va p k s m m' t ne e =
    let e1 = rw (last_entry-IsMapped sd va p m t, alloc_page_helper) at e in
    elim (Bool-cases (page_valid (m.words p))) [
      | inl v ↦ let same : m ≡ m' = cc (rw v at e1) in (λ q n. rw same refl, rw same refl)
      | inr v ↦ elim (Option-cases (alloc_pagetable sd s m)) [
        | inl x ↦ absurd (cc (rw x at (rw v at e1)))
        | inr ((i, m1), x) ↦
            let f = rw x at (rw v at e1) in
            let (w, d) = alloc_pagetable-words sd s i m m1 ne x in
            (λ q n. ground (arith, f, w, n), ground (arith, f, d))
      ]
    ]
