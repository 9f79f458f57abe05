-- ===== src/FileSystem/Dentries/Search.antt =====
-- What search_dentry of kernel/fs/fs.c finds in the block of a directory.
use Prim.Native.Nat.{bit_and, bit_and-bitwise}
use oslab_riscv.Prelude.{
  sym, subst, ℕ, zero, suc, ◌+◌, ◌≤◌, ◌<◌, ◌≡◌, ◌≢◌, refl, inl, inr, Bool-cases, false, some, List,
  length, ◌==◌, if◌then◌else◌, arith,
}
use oslab_riscv.Prelude.Int.{ℤ, pos, eq_ℤ, eq_ℤ_iff}
use oslab_riscv.Strings.Copy.{IsString}
use oslab_riscv.Strings.Compare.{strcmp-IsString}
use oslab_riscv.FileSystem.{Card, Fs, get32, none_id, inode_get}
use oslab_riscv.FileSystem.Inode
use oslab_riscv.FileSystem.Sectors.{inode_ptr, get_inode, read_block}
use oslab_riscv.FileSystem.Dentry
use oslab_riscv.FileSystem.Dentries.{search_from, search_dentry}

-- The block of a directory: each entry's name, which ends in the entry or later.
pub record IsDirectory (fuel : ℕ) (names : ℕ → List ℕ) (blk : ℕ → ℕ) : Type 0 where
  pub name : (i : ℕ) → i < 128 → IsString (Dentry.name i) (names i) blk
  pub short : (i : ℕ) → i < 128 → length (names i) < fuel

abbrev pub entry_type : (ℕ → ℕ) → ℕ → ℕ
entry_type blk i = get32 blk (Dentry.type i)

-- How many of the `n` entries from `i` on are in use.
unfoldable pub used : (n i : ℕ) → (ℕ → ℕ) → ℕ
used zero i blk = 0
used (suc n) i blk = (if entry_type blk i == 0 then 0 else 1) + used n (i + 1) blk

-- Entry `i` is of the type asked for and has the name.
pub record Matches (names : ℕ → List ℕ) (blk : ℕ → ℕ) (type : ℕ) (name : List ℕ) (i : ℕ)
    : Type 0 where
  pub of_type : bit_and (entry_type blk i) type ≢ 0
  pub named : names i ≡ name

-- The result `id` among the entries from `i` to 127: the first that matches, or -1 if none does.
pub data Result (names : ℕ → List ℕ) (blk : ℕ → ℕ) (type : ℕ) (name : List ℕ) (i id : ℕ)
    : Type 0 where
  found :
      (k : ℕ)
      → i ≤ k
      → k < 128
      → Matches names blk type name k
      → ((j : ℕ) → i ≤ j → j < k → Matches names blk type name j → ⊥)
      → id ≡ get32 blk (Dentry.inode_id k)
      → Result names blk type name i id
  absent :
      ((j : ℕ) → i ≤ j → j < 128 → Matches names blk type name j → ⊥)
      → id ≡ none_id
      → Result names blk type name i id

used-zero :
    (n i : ℕ) (blk : ℕ → ℕ) → used n i blk ≡ 0 → (j : ℕ) → i ≤ j → j < i + n → entry_type blk j ≡ 0
unfolding used
used-zero zero i blk e j a b = absurd (omega arith)
used-zero (suc n) i blk e j a b = elim (Bool-cases (i == j)) [
  | inl x ↦ ground (arith, x, e)
  | inr x ↦ used-zero n (i + 1) blk (ground (arith, e)) j (ground (arith, x)) (omega arith)
]

zero-bit_and : (b : ℕ) → bit_and 0 b ≡ 0
zero-bit_and b = bit_and-bitwise 0 b

unused-Matches :
    (names : ℕ → List ℕ) (blk : ℕ → ℕ) (type : ℕ) (name : List ℕ) (j : ℕ)
    → entry_type blk j ≡ 0
    → Matches names blk type name j
    → ⊥
unused-Matches names blk type name j e m = m.of_type (rw e (zero-bit_and type))

from_next : (P : ℕ → Type 0) (i j : ℕ) → i ≤ j → (P i → ⊥) → (i + 1 ≤ j → P j → ⊥) → P j → ⊥
from_next P i j l ne f p = elim (Bool-cases (i == j)) [
  | inl e ↦ let same : j ≡ i = ground (arith, e) in ne (subst P same p)
  | inr e ↦ f (ground (arith, e)) p
]

-- An entry that does not match adds nothing to what is found after it.
skip-Result :
    (names : ℕ → List ℕ) (blk : ℕ → ℕ) (type : ℕ) (name : List ℕ) (i id : ℕ)
    → (Matches names blk type name i → ⊥)
    → Result names blk type name (i + 1) id
    → Result names blk type name i id
skip-Result names blk type name i id ne (found k a b m f e) =
    found k (omega arith) b m
      (λ j x y. from_next (Matches names blk type name) i j x ne (λ l. f j l y)) e
skip-Result names blk type name i id ne (absent f e) =
    absent (λ j x y. from_next (Matches names blk type name) i j x ne (λ l. f j l y)) e

module _ (fuel file_num type p : ℕ) (names : ℕ → List ℕ) (name : List ℕ) (blk mem : ℕ → ℕ) where
  -- The search from entry `i` on, when `find` entries in use come before it.
  search_from-Result :
      IsDirectory fuel names blk
      → IsString p name mem
      → (n i find : ℕ) → i + n ≡ 128
      → find + used n i blk ≡ file_num
      → (id : ℕ) × (search_from fuel n i find file_num type p blk mem ≡ some id)
        × Result names blk type name i id
  unfolding search_from used
  search_from-Result dir path zero i find a u =
      (none_id, refl, absent (λ j x y. absurd (omega arith)) refl)
  search_from-Result dir path (suc n) i find a u =
      let seen = if entry_type blk i == 0 then find else find + 1 in
      let next : (id : ℕ) × ((if seen == file_num
              then some none_id
              else search_from fuel n (i + 1) seen file_num type p blk mem)
            ≡ some id)
          × Result names blk type name (i + 1) id =
        after seen (ground (arith, u))
          (search_from-Result dir path n (i + 1) seen (omega arith) (ground (arith, u))) in
      let (id, e, r) = next in
      elim (Bool-cases (bit_and (entry_type blk i) type == 0)) [
        | inl z ↦ (
          id,
          rw (z, search_from) e,
          skip-Result names blk type name i id (λ m. m.of_type (ground (arith, z))) r,
        )
        | inr z ↦
            let (d, f, h) =
              strcmp-IsString fuel (Dentry.name i) p (names i) name blk mem
                (dir.name i (omega arith)) path (dir.short i (omega arith)) in
            elim (Bool-cases (eq_ℤ d (pos 0))) [
              | inl y ↦ (
                get32 blk (Dentry.inode_id i),
                rw (z, search_from) (rw (f, search_from) (rw y refl)),
                found i (omega arith) (omega arith)
                    (record { of_type = ground (arith, z); named = h.0 ((eq_ℤ_iff d (pos 0)).0 y) })
                    (λ j k l. absurd (omega arith)) refl,
              )
              | inr y ↦ (
                id,
                rw (z, search_from) (rw (f, search_from) (rw y e)),
                skip-Result names blk type name i id (λ m. differs d y (h.1 m.named)) r,
              )
            ]
      ]
    where
      differs : (d : ℤ) → eq_ℤ d (pos 0) ≡ false → d ≡ pos 0 → ⊥
      differs d y e = ground (arith, y, e, eq_ℤ_iff d (pos 0))

      after :
          (seen : ℕ)
          → seen + used n (i + 1) blk ≡ file_num
          → ((id : ℕ) × (search_from fuel n (i + 1) seen file_num type p blk mem ≡ some id)
              × Result names blk type name (i + 1) id)
          → (id : ℕ) × ((if seen == file_num
                then some none_id
                else search_from fuel n (i + 1) seen file_num type p blk mem)
              ≡ some id)
            × Result names blk type name (i + 1) id
      after seen w (id, e, r) = elim (Bool-cases (seen == file_num)) [
        | inr x ↦ (id, rw x e, r)
        | inl x ↦ (
          none_id,
          rw x refl,
          absent
              (λ j l k m.
                unused-Matches names blk type name j
                  (used-zero n (i + 1) blk (ground (arith, x, w)) j l (omega arith)) m)
              refl,
        )
      ]

-- The state in which `search_dentry` looks through a directory: its inode and its block are read.
abbrev pub opened : {c : Card} → ℕ → Fs c → Fs c
opened dir_id s0 =
    let s = get_inode dir_id s0 in
    read_block (inode_get (inode_ptr dir_id + Inode.direct_block 0) s) s

opened-mem : {c : Card} (d : ℕ) (s : Fs c) → (opened d s).mem ≡ s.mem
unfolding read_block get_inode
opened-mem d s = refl

-- In a directory whose inode counts the entries in use, and whose names are shorter than the fuel,
-- `search_dentry` returns the inode of the first entry of the type that has the name, or -1 if there
-- is none; it reads the inode and the block into their buffers and changes nothing else.
pub search_dentry-Result :
    {c : Card} (fuel dir_id p type : ℕ) (names : ℕ → List ℕ) (name : List ℕ) (s : Fs c)
    → IsDirectory fuel names (opened dir_id s).blk_buffer
    → IsString p name s.mem
    → used 128 0 (opened dir_id s).blk_buffer
      ≡ inode_get (inode_ptr dir_id + Inode.file_num) (opened dir_id s)
    → (id : ℕ) × (search_dentry fuel dir_id p type s ≡ some (id, opened dir_id s))
      × Result names (opened dir_id s).blk_buffer type name 0 id
unfolding search_dentry
search_dentry-Result fuel dir_id p type names name s dir path u =
    let s2 = opened dir_id s in
    let (id, e, r) =
      search_from-Result fuel (inode_get (inode_ptr dir_id + Inode.file_num) s2) type p names name
        s2.blk_buffer s2.mem dir (subst (IsString p name) (sym (opened-mem dir_id s)) path) 128 0 0
        refl (omega (arith, u)) in
    (id, rw (e, search_dentry) refl, r)
