-- ===== src/Strings.antt =====
-- libs/string.c on a memory of bytes: a pointer is an address, and a loop that looks for the final
-- NUL runs on fuel. Characters are unsigned, as they are on RISC-V.
pub mod Copy
pub mod Compare
pub mod Blocks
pub mod Tests
use oslab_riscv.Prelude.{
  ℕ, zero, suc, ◌+◌, ◌-◌, Bool, true, false, not, ◌||◌, ◌&&◌, Option, none, some, ◌>>=◌, update,
  ◌==◌, leb, if◌then◌else◌,
}
use oslab_riscv.Prelude.Int.{ℤ, pos, negsuc}

unfoldable pub memcpy : (dest src len : ℕ) → (ℕ → ℕ) → ℕ → ℕ
memcpy dest src zero m = m
memcpy dest src (suc len) m = memcpy (dest + 1) (src + 1) len (update m dest (m src))

-- `memcpy` from one array to another.
unfoldable pub copy_bytes : (dest src len : ℕ) → (ℕ → ℕ) → (ℕ → ℕ) → ℕ → ℕ
copy_bytes dest src zero from m = m
copy_bytes dest src (suc len) from m =
    copy_bytes (dest + 1) (src + 1) len from (update m dest (from src))

unfoldable pub memset : (dest val len : ℕ) → (ℕ → ℕ) → ℕ → ℕ
memset dest val zero m = m
memset dest val (suc len) m = memset (dest + 1) val len (update m dest val)

pub bzero : (dest len : ℕ) → (ℕ → ℕ) → ℕ → ℕ
unfolding memset
bzero dest len m = memset dest 0 len m

-- The loop of `strlen` from index `i` on.
unfoldable pub strlen_from : (fuel src i : ℕ) → (ℕ → ℕ) → Option ℕ
strlen_from zero src i m = none
strlen_from (suc n) src i m =
    let rest = strlen_from n src (i + 1) m in if m (src + i) == 0 then some i else rest

unfoldable pub strlen : (fuel src : ℕ) → (ℕ → ℕ) → Option ℕ
unfolding strlen_from
strlen fuel src m = strlen_from fuel src 0 m

-- `a - b` of two characters
abbrev pub char_diff : ℕ → ℕ → ℤ
char_diff a b = if leb b a then pos (a - b) else negsuc (b - a - 1)

-- The strings may stand in two arrays.
unfoldable pub strcmp : (fuel str1 str2 : ℕ) → (ℕ → ℕ) → (ℕ → ℕ) → Option ℤ
strcmp zero p q m k = none
strcmp (suc n) p q m k =
    let rest = strcmp n (p + 1) (q + 1) m k in
    if m p == 0 || k q == 0
    then some (char_diff (m p) (k q))
    else if m p == k q
    then rest
    else some (char_diff (m p) (k q))

-- Where it stops by `n` it returns the difference of the next two characters.
unfoldable pub strncmp : (str1 str2 n : ℕ) → (ℕ → ℕ) → ℤ
strncmp p q zero m = char_diff (m p) (m q)
strncmp p q (suc n) m =
    let rest = strncmp (p + 1) (q + 1) n m in
    if m p == 0 || m q == 0
    then char_diff (m p) (m q)
    else if m p == m q
    then rest
    else char_diff (m p) (m q)

unfoldable pub strcpy : (fuel dest src : ℕ) → (ℕ → ℕ) → Option (ℕ → ℕ)
strcpy zero dest src m = none
strcpy (suc n) dest src m =
    let rest = strcpy n (dest + 1) (src + 1) (update m dest (m src)) in
    if m src == 0 then some (update m dest 0) else rest

-- Where the source ends, the second loop fills the rest with NULs.
unfoldable pub strncpy : (dest src n : ℕ) → (ℕ → ℕ) → ℕ → ℕ
unfolding memset
strncpy dest src zero m = m
strncpy dest src (suc n) m =
    let rest = strncpy (dest + 1) (src + 1) n (update m dest (m src)) in
    if m src == 0 then memset dest 0 (suc n) m else rest

-- The first loop of `strcat`: where the string at `dest` ends.
unfoldable pub find_end : (fuel dest : ℕ) → (ℕ → ℕ) → Option ℕ
find_end zero dest m = none
find_end (suc n) dest m =
    let rest = find_end n (dest + 1) m in if m dest == 0 then some dest else rest

unfoldable pub strcat : (fuel dest src : ℕ) → (ℕ → ℕ) → Option (ℕ → ℕ)
unfolding find_end strcpy
strcat fuel dest src m = do p ← find_end fuel dest m; strcpy fuel p src m
