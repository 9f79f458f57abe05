-- ===== src/Memory/Tables/Walk.antt =====
-- The walks of kernel/mm/mm.c agree: pte_checker, get_pte, alloc_page_helper and build_page_helper.
use oslab_riscv.Prelude.{ℕ, ◌≡◌, refl, ap, true, some, arith}
use oslab_riscv.Memory.{PageStatus, SdCard, Memory, pa2kva, vpn, get_pa, page_valid, entry_at}
use oslab_riscv.Memory.Pages.{get_pte}
use oslab_riscv.Memory.Tables.{
  next_table, last_entry, alloc_page_helper, build_page_helper, pte_checker,
}

-- The tables that the upper entries lead to.
abbrev second_of : {D : Type 0} → ℕ → Memory D → ℕ
second_of va m = pa2kva (get_pa (m.words (entry_at m.pgdir (vpn 2 va))))

abbrev third_of : {D : Type 0} → ℕ → Memory D → ℕ
third_of va m = pa2kva (get_pa (m.words (entry_at (second_of va m) (vpn 1 va))))

pub record IsMapped {D : Type 0} (va p : ℕ) (m : Memory D) : Type 0 where
  pub upper : page_valid (m.words (entry_at m.pgdir (vpn 2 va))) ≡ true
  pub middle : page_valid (m.words (entry_at (second_of va m) (vpn 1 va))) ≡ true
  pub entry : entry_at (third_of va m) (vpn 0 va) ≡ p

pte_checker-IsMapped :
    {D : Type 0} (va p : ℕ) (m : Memory D) → pte_checker va m.pgdir m ≡ some p → IsMapped va p m
unfolding pte_checker
pte_checker-IsMapped va p m e = record {
  upper = ground (arith, e);
  middle = ground (arith, e);
  entry = ground (arith, e);
}

pub last_entry-IsMapped :
    (sd : SdCard) (va p : ℕ) (m : Memory sd.Disk)
    → IsMapped va p m
    → last_entry sd va m ≡ some (p, m)
unfolding last_entry next_table
last_entry-IsMapped sd va p m v =
    rw (v.upper, last_entry, next_table) (rw (v.middle, next_table) (ap (λ q. some (q, m)) v.entry))

-- On an address whose entry `pte_checker` finds and that is in memory, `alloc_page_helper` returns
-- the kernel address of the page that the entry names and `build_page_helper` does nothing; neither
-- changes the state, and `get_pte` finds the same entry.
pub walks-agree :
    (sd : SdCard) (va p pa : ℕ) (s : PageStatus) (m : Memory sd.Disk)
    → pte_checker va m.pgdir m ≡ some p
    → page_valid (m.words p) ≡ true
    → (alloc_page_helper sd va s m ≡ some (pa2kva (get_pa (m.words p)), m))
      × (build_page_helper sd va pa m ≡ some m)
      × (get_pte va m ≡ some p)
unfolding alloc_page_helper build_page_helper get_pte
walks-agree sd va p pa s m e v =
    let w = pte_checker-IsMapped va p m e in
    let l = last_entry-IsMapped sd va p m w in
    (
      rw (l, alloc_page_helper) (rw v refl),
      rw (l, build_page_helper) (rw v refl),
      ground (arith, w.upper, w.middle, w.entry, v),
    )
