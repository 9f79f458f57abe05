-- ===== src/Memory/Pages/Fresh.antt =====
-- What allocPage and the search of allocPagetable in kernel/mm/mm.c give out.
use oslab_riscv.Prelude.{
  ℕ, zero, suc, ◌+◌, ◌-◌, ◌*◌, ◌%◌, ◌≤◌, ◌<◌, ◌≡◌, ◌≢◌, refl, inl, inr, Bool-cases, true, false,
  none, some, [], ◌∷◌, ◌++◌, ◌==◌, leb, if◌then◌else◌, arith,
}
use oslab_riscv.Memory.{
  PageStatus, unused, eq_page_status, PageInfo, SdCard, Memory, page_size, set_page,
}
use oslab_riscv.Memory.Pages.{page_num, alloc_page, round_page, find_unused, alloc_pagetable}

-- `allocPage` gives page-aligned memory that starts at or after the end of all it gave before, by
-- less than a page, and the next call gives memory after it.
pub alloc_page_lem :
    {D : Type 0} (n : ℕ) (m : Memory D)
    → let (ret, m') = alloc_page n m in
      (ret % page_size ≡ 0)
      × (m.kern_mem_curr ≤ ret)
      × (ret < m.kern_mem_curr + page_size)
      × (m'.kern_mem_curr ≡ ret + n * page_size)
unfolding alloc_page
alloc_page_lem n m = (omega arith, omega arith, omega arith, refl)

-- What a search of the page table finds.
pub record IsUnused (pages : ℕ → PageInfo) (found : ℕ × ℕ) : Type 0 where
  pub range : found.0 < page_num
  pub status : (pages found.0).status ≡ unused
  pub next : found.1 ≡ found.0 + 1

-- With `n` rounds the search sees the pages from `page_id` on.
search_up :
    (n i j : ℕ) (pages : ℕ → PageInfo)
    → i ≤ j
    → j < i + n
    → j < page_num
    → eq_page_status (pages j).status unused ≡ true
    → (found : ℕ × ℕ) × (find_unused n pages i ≡ some found) × IsUnused pages found
unfolding find_unused
search_up zero i j pages a b c u = absurd (omega arith)
search_up (suc n) i j pages a b c u = elim (Bool-cases (eq_page_status (pages i).status unused)) [
  | inl e ↦ (
    (i, i + 1),
    ground (arith, e),
    record { range = omega arith; status = ground (arith, e); next = refl },
  )
  | inr f ↦
      let (found, r, v) = search_up n (i + 1) j pages (ground (arith, u, f)) (omega arith) c u in
      (found, ground (arith, r, f), v)
]

-- From a page after `j` the search comes round to `j`.
search_round :
    (n i j : ℕ) (pages : ℕ → PageInfo)
    → j < i
    → i < page_num
    → page_num + suc j ≤ i + n
    → eq_page_status (pages j).status unused ≡ true
    → (found : ℕ × ℕ) × (find_unused n pages i ≡ some found) × IsUnused pages found
unfolding find_unused
search_round zero i j pages a b c u = absurd (omega arith)
search_round (suc n) i j pages a b c u =
    elim (Bool-cases (eq_page_status (pages i).status unused)) [
      | inl e ↦ (
        (i, i + 1),
        ground (arith, e),
        record { range = omega arith; status = ground (arith, e); next = refl },
      )
      | inr f ↦ elim (Bool-cases (i + 1 == page_num)) [
        | inl l ↦
            let (found, r, v) =
              search_up n 0 j pages (omega arith) (ground (arith, l)) (omega arith) u in
            (found, ground (arith, r, f, l), v)
        | inr l ↦
            let (found, r, v) =
              search_round n (i + 1) j pages (omega arith) (ground (arith, l)) (omega arith) u in
            (found, ground (arith, r, f, l), v)
      ]
    ]

-- From a page in range the search of `allocPagetable` finds an unused page if there is one.
pub find_unused-IsUnused :
    (i j : ℕ) (pages : ℕ → PageInfo)
    → i < page_num
    → j < page_num
    → (pages j).status ≡ unused
    → (found : ℕ × ℕ) × (find_unused (page_num + 1) pages i ≡ some found) × IsUnused pages found
find_unused-IsUnused i j pages a b u = elim (Bool-cases (leb i j)) [
  | inl l ↦ search_up (page_num + 1) i j pages (ground (arith, l)) (omega arith) b (rw u refl)
  | inr l ↦
      search_round (page_num + 1) i j pages (ground (arith, l)) a (ground (arith, l)) (rw u refl)
]

-- Once the last page of the table has been given out, the next search of `allocPagetable` reads
-- past the end of the table, whatever pages are unused then.
pub find_unused-past_end :
    (n i j k : ℕ) (pages pages' : ℕ → PageInfo)
    → i < page_num
    → find_unused n pages i ≡ some (page_num - 1, j)
    → find_unused (suc k) pages' j ≡ none
unfolding find_unused
find_unused-past_end zero i j k pages pages' l e = cc
find_unused-past_end (suc n) i j k pages pages' l e =
    ground (arith, find_unused-past_end n (if i + 1 == page_num then 0 else i + 1) j k pages pages')

-- The process below its bound, with the search in range and a page unused, `allocPagetable` returns
-- an unused page, with the status asked for and page-aligned memory that nobody has, at the end of
-- the process's list, and counts it.
pub alloc_pagetable-takes :
    (sd : SdCard) (s : PageStatus) (m : Memory sd.Disk) (j : ℕ)
    → m.pagenum ≢ m.upbound
    → m.page_id < page_num
    → j < page_num
    → (m.page_manager j).status ≡ unused
    → (i : ℕ) × (m' : Memory sd.Disk) × (alloc_pagetable sd s m ≡ some (i, m'))
      × ((m.page_manager i).status ≡ unused)
      × ((m'.page_manager i).status ≡ s)
      × ((m'.page_manager i).kva % page_size ≡ 0)
      × (m.kern_mem_curr ≤ (m'.page_manager i).kva)
      × (m'.kern_mem_curr ≡ (m'.page_manager i).kva + page_size)
      × (m'.pagehead ≡ m.pagehead ++ (i ∷ []))
      × (m'.pagenum ≡ m.pagenum + 1)
unfolding alloc_pagetable alloc_page
alloc_pagetable-takes sd s m j ne p l u =
    let (found, r, v) = find_unused-IsUnused m.page_id j m.page_manager p l u in
    let i = found.0 in
    let kva = round_page m.kern_mem_curr in
    let page = record (m.page_manager i) { status = s; kva = kva } in
    let m1 : Memory sd.Disk = record m {
      kern_mem_curr = kva + 1 * page_size;
      pagenum = m.pagenum + 1;
    } in
    let m' = record (set_page i page m1) { page_id = found.1; pagehead = m.pagehead ++ (i ∷ []) } in
    let full : (m.pagenum == m.upbound) ≡ false = ground arith in
    (
      i,
      m',
      rw (full, alloc_pagetable) (rw r refl),
      v.status,
      ground arith,
      ground arith,
      ground arith,
      ground arith,
      refl,
      refl,
    )
