-- ===== src/Memory/Tables/Copy.antt =====
-- share_pgtable of kernel/mm/mm.c, and so `memcpy` of a page, from a page to itself.
use oslab_riscv.Prelude.{ℕ, zero, suc, ◌+◌, ◌≡◌, refl, ◌∙◌, for_range, arith}
use oslab_riscv.Memory.{Memory, store_word, entry_at}
use oslab_riscv.Memory.Tables.{share_pgtable}

store-same :
    {D : Type 0} (p q : ℕ) (m : Memory D) → (store_word p (m.words p) m).words q ≡ m.words q
store-same p q m = ground arith

copy-same :
    {D : Type 0} (n i p q : ℕ) (m : Memory D)
    → (for_range n i (λ j s. store_word (entry_at p j) (s.words (entry_at p j)) s) m).words q
      ≡ m.words q
unfolding for_range
copy-same zero i p q m = refl
copy-same (suc n) i p q m = copy-same n (i + 1) p q _ ∙ store-same (entry_at p i) q m

-- Copying a page onto itself changes no word of the memory.
pub share_pgtable_self :
    {D : Type 0} (p q : ℕ) (m : Memory D) → (share_pgtable p p m).words q ≡ m.words q
unfolding share_pgtable
share_pgtable_self p q m = copy-same 512 0 p q m
