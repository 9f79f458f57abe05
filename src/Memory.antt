-- ===== src/Memory.antt =====
-- Page tables and pages: kernel/mm/mm.c, include/os/mm.h and arch/riscv/include/pgtable.h. Memory is
-- the 64-bit words by their kernel address. The fields of the process's own control block that the
-- code uses (`pgdir`, the page list, `shm_page_num`) stand in the same state. What the BIOS does to the
-- SD card is a parameter. A page is named by its index in `page_manager`.
pub mod Pages
pub mod Tables
pub mod Shared
pub mod Faults
pub mod Bytes
pub mod Tests
use Prim.Native.Nat.{bit_and, bit_or, bit_xor}
use oslab_riscv.Prelude.{
  ℕ, zero, suc, ◌+◌, ◌-◌, ◌*◌, ◌/◌, ◌%◌, ◌^◌, Bool, not, List, update, ◌==◌, if◌then◌else◌, arith,
}

-- `page_status_t`
pub data PageStatus : Type 0 where
  unused swapable unswapable copy_on_write not_in_mem : PageStatus

abbrev pub page_status_code : PageStatus → ℕ
page_status_code unused = 0
page_status_code swapable = 1
page_status_code unswapable = 2
page_status_code copy_on_write = 3
page_status_code not_in_mem = 4

abbrev pub eq_page_status : PageStatus → PageStatus → Bool
eq_page_status a b = page_status_code a == page_status_code b

-- `page_info_t`; `list` is in the page lists, and `pte` is the address of the entry.
pub record PageInfo : Type 0 where
  pub status : PageStatus
  pub read_member : ℕ
  pub kva : ℕ
  pub uva : ℕ
  pub pte : ℕ

-- `shm_t`
pub record ShmPage : Type 0 where
  pub valid : Bool
  pub key : ℕ
  pub num : ℕ
  pub pa : ℕ

-- `sd_write(pa, count, sector)` and `sd_read(pa, count, sector)` on the card and the memory.
pub record SdCard : Type 1 where
  pub Disk : Type 0
  pub sd_write : (ℕ → ℕ) → ℕ → ℕ → ℕ → Disk → Disk
  pub sd_read : Disk → ℕ → ℕ → ℕ → (ℕ → ℕ) → ℕ → ℕ

pub record Memory (D : Type 0) : Type 0 where
  pub words : ℕ → ℕ
  pub disk : D
  pub kern_mem_curr : ℕ
  pub page_manager : ℕ → PageInfo
  pub page_id : ℕ
  pub free_list : List ℕ
  pub shm_page_table : ℕ → ShmPage
  pub sector : ℕ
  pub pgdir : ℕ
  pub pagehead : List ℕ
  pub pagenum : ℕ
  pub upbound : ℕ
  pub shm_page_num : ℕ

abbrev pub page_size : ℕ
page_size = 4096

-- `x << n` and `x >> n` on 64-bit words
abbrev pub shl : ℕ → ℕ → ℕ
shl x n = (x * 2 ^ n) % 2 ^ 64

abbrev pub shr : ℕ → ℕ → ℕ
shr x n = x / 2 ^ n

-- `KVA_OFFSET`, `kva2pa` and `pa2kva`
abbrev pub kva_offset : ℕ
kva_offset = 0xffffffc000000000

abbrev pub kva2pa : ℕ → ℕ
kva2pa kva = (kva + (2 ^ 64 - kva_offset)) % 2 ^ 64

abbrev pub pa2kva : ℕ → ℕ
pa2kva pa = (pa + kva_offset) % 2 ^ 64

-- `GetVPN2`, `GetVPN1` and `GetVPN0`: 9 bits each above the 12 of the page offset.
abbrev pub vpn : ℕ → ℕ → ℕ
vpn level va = bit_and (shr va (12 + 9 * level)) 0x1ff

-- `PA_MASK`
abbrev pub pa_mask : ℕ
pa_mask = 0x3fffffffffffff

abbrev pub get_pfn : ℕ → ℕ
get_pfn entry = shr (bit_and entry pa_mask) 10

abbrev pub get_pa : ℕ → ℕ
get_pa entry = shl (shr (bit_and entry pa_mask) 10) 12

-- The new value of the entry.
abbrev pub set_pfn : ℕ → ℕ → ℕ
set_pfn entry pfn = bit_or (shl pfn 10) (bit_and entry 0x3ff)

abbrev pub set_attribute : ℕ → ℕ → ℕ
set_attribute entry bits = bit_or entry bits

-- It flips the bits.
abbrev pub clean_attribute : ℕ → ℕ → ℕ
clean_attribute entry bits = bit_xor entry bits

-- `PageValid` and `inSD`
abbrev pub page_valid : ℕ → Bool
page_valid entry = not (bit_and entry 1 == 0)

abbrev pub in_sd : ℕ → Bool
in_sd entry = not (bit_and entry 512 == 0)

-- `*p = w`
abbrev pub store_word : {D : Type 0} → ℕ → ℕ → Memory D → Memory D
store_word p w m = record m { words = update m.words p w }

-- `*p = f(*p)`
abbrev pub change_word : {D : Type 0} → ℕ → (ℕ → ℕ) → Memory D → Memory D
change_word p f m = store_word p (f (m.words p)) m

-- The words of `n` consecutive addresses, 8 bytes apart, set to 0.
abbrev pub clear_words : {D : Type 0} → ℕ → ℕ → Memory D → Memory D
clear_words zero p m = m
clear_words (suc n) p m = clear_words n (p + 8) (store_word p 0 m)

unfoldable pub clear_pgdir : {D : Type 0} → ℕ → Memory D → Memory D
clear_pgdir p m = clear_words 512 p m

abbrev pub set_page : {D : Type 0} → ℕ → PageInfo → Memory D → Memory D
set_page i p m = record m { page_manager = update m.page_manager i p }

-- The address of entry number `i` of the table at `dir`: `&dir[i]`
abbrev pub entry_at : ℕ → ℕ → ℕ
entry_at dir i = dir + 8 * i
