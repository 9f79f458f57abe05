-- ===== src/Memory/Bytes.antt =====
-- Bytes in the memory of 64-bit words, the low byte first, and the loops of libs/string.c on them.
use oslab_riscv.Prelude.{
  ℕ, zero, suc, ◌+◌, ◌-◌, ◌*◌, ◌/◌, ◌%◌, ◌≤◌, ◌<◌, ◌≡◌, ◌≢◌, refl, ap, ◌∙◌, ◌⊎◌, inl, inr,
  Bool-cases, update, ◌==◌, arith,
}

-- Byte `i` of a word.
unfoldable pub get_byte : ℕ → ℕ → ℕ
get_byte zero w = w % 256
get_byte (suc i) w = get_byte i (w / 256)

unfoldable pub put_byte : ℕ → ℕ → ℕ → ℕ
put_byte zero v w = w / 256 * 256 + v % 256
put_byte (suc i) v w = put_byte i v (w / 256) * 256 + w % 256

-- `*p` and `*p = v` of a `char *p`.
unfoldable pub load_byte : (ℕ → ℕ) → ℕ → ℕ
load_byte words p = get_byte (p % 8) (words (p - p % 8))

unfoldable pub store_byte : ℕ → ℕ → (ℕ → ℕ) → ℕ → ℕ
store_byte p v words = update words (p - p % 8) (put_byte (p % 8) v (words (p - p % 8)))

-- `memcpy` and `memset`
unfoldable pub copy_mem : (dest src len : ℕ) → (ℕ → ℕ) → ℕ → ℕ
copy_mem dest src zero words = words
copy_mem dest src (suc len) words =
    copy_mem (dest + 1) (src + 1) len (store_byte dest (load_byte words src) words)

unfoldable pub fill_mem : (dest val len : ℕ) → (ℕ → ℕ) → ℕ → ℕ
fill_mem dest val zero words = words
fill_mem dest val (suc len) words = fill_mem (dest + 1) val len (store_byte dest val words)

get_byte-put_byte : (i v w : ℕ) → get_byte i (put_byte i v w) ≡ v % 256
unfolding get_byte put_byte
get_byte-put_byte zero v w = omega arith
get_byte-put_byte (suc i) v w =
    let low : (put_byte i v (w / 256) * 256 + w % 256) / 256 ≡ put_byte i v (w / 256) =
      omega arith in
    ap (get_byte i) low ∙ get_byte-put_byte i v (w / 256)

get_byte-put_other : (i j v w : ℕ) → i ≢ j → get_byte j (put_byte i v w) ≡ get_byte j w
unfolding get_byte put_byte
get_byte-put_other zero zero v w ne = absurd (ne refl)
get_byte-put_other zero (suc j) v w ne =
    let high : (w / 256 * 256 + v % 256) / 256 ≡ w / 256 = omega arith in ap (get_byte j) high
get_byte-put_other (suc i) zero v w ne = omega arith
get_byte-put_other (suc i) (suc j) v w ne =
    let low : (put_byte i v (w / 256) * 256 + w % 256) / 256 ≡ put_byte i v (w / 256) =
      omega arith in
    ap (get_byte j) low ∙ get_byte-put_other i j v (w / 256) (λ e. ne (ap suc e))

pub load-store : (p v : ℕ) (w : ℕ → ℕ) → load_byte (store_byte p v w) p ≡ v % 256
unfolding load_byte store_byte
load-store p v w =
    let q = p - p % 8 in
    let here : update w q (put_byte (p % 8) v (w q)) q ≡ put_byte (p % 8) v (w q) = ground arith in
    ap (get_byte (p % 8)) here ∙ get_byte-put_byte (p % 8) v (w q)

pub load-store_other :
    (p q v : ℕ) (w : ℕ → ℕ) → p ≢ q → load_byte (store_byte p v w) q ≡ load_byte w q
unfolding load_byte store_byte
load-store_other p q v w ne = elim (Bool-cases (p - p % 8 == q - q % 8)) [
  | inl t ↦
      let same : p - p % 8 ≡ q - q % 8 = ground arith in
      let apart : p % 8 ≢ q % 8 = λ e. ne (omega (arith, same, e)) in
      rw t (
        get_byte-put_other (p % 8) (q % 8) v (w (p - p % 8)) apart
        ∙ ap (λ r. get_byte (q % 8) (w r)) same)
  | inr f ↦ rw f refl
]

get_byte-lt : (i w : ℕ) → get_byte i w < 256
unfolding get_byte
get_byte-lt zero w = omega arith
get_byte-lt (suc i) w = get_byte-lt i (w / 256)

load_byte-lt : (w : ℕ → ℕ) (p : ℕ) → load_byte w p < 256
unfolding load_byte
load_byte-lt w p = get_byte-lt (p % 8) (w (p - p % 8))

pub fill_mem-out :
    (p v n : ℕ) (w : ℕ → ℕ) (j : ℕ)
    → (j < p) ⊎ (p + n ≤ j)
    → load_byte (fill_mem p v n w) j ≡ load_byte w j
unfolding fill_mem
fill_mem-out p v zero w j o = refl
fill_mem-out p v (suc n) w j o =
    fill_mem-out (p + 1) v n (store_byte p v w) j (ground arith)
    ∙ load-store_other p j v w (ground arith)

pub fill_mem-in :
    (p v n : ℕ) (w : ℕ → ℕ) (j : ℕ) → j < n → load_byte (fill_mem p v n w) (p + j) ≡ v % 256
unfolding fill_mem
fill_mem-in p v zero w j l = absurd (omega arith)
fill_mem-in p v (suc n) w zero l =
    let here : p + 0 ≡ p = omega arith in
    rw here (fill_mem-out (p + 1) v n (store_byte p v w) p (ground arith) ∙ load-store p v w)
fill_mem-in p v (suc n) w (suc j) l =
    let step : p + suc j ≡ p + 1 + j = omega arith in
    rw step (fill_mem-in (p + 1) v n (store_byte p v w) j (omega arith))

pub copy_mem-out :
    (d s n : ℕ) (w : ℕ → ℕ) (j : ℕ)
    → (j < d) ⊎ (d + n ≤ j)
    → load_byte (copy_mem d s n w) j ≡ load_byte w j
unfolding copy_mem
copy_mem-out d s zero w j o = refl
copy_mem-out d s (suc n) w j o =
    copy_mem-out (d + 1) (s + 1) n (store_byte d (load_byte w s) w) j (ground arith)
    ∙ load-store_other d j (load_byte w s) w (ground arith)

-- The source ends before the destination, or starts after it.
pub copy_mem-in :
    (d s n : ℕ) (w : ℕ → ℕ) (j : ℕ)
    → (s + n ≤ d) ⊎ (d + n ≤ s)
    → j < n
    → load_byte (copy_mem d s n w) (d + j) ≡ load_byte w (s + j)
unfolding copy_mem
copy_mem-in d s zero w j o l = absurd (omega arith)
copy_mem-in d s (suc n) w zero o l =
    let here : d + 0 ≡ d = omega arith in
    let there : s + 0 ≡ s = omega arith in
    let v = load_byte w s in
    let same : v % 256 ≡ v = omega (arith, load_byte-lt w s) in
    rw (here, there)
      (copy_mem-out (d + 1) (s + 1) n (store_byte d v w) d (ground arith) ∙ load-store d v w ∙ same)
copy_mem-in d s (suc n) w (suc j) o l =
    let step : d + suc j ≡ d + 1 + j = omega arith in
    let step' : s + suc j ≡ s + 1 + j = omega arith in
    let v = load_byte w s in
    rw (step, step')
      (copy_mem-in (d + 1) (s + 1) n (store_byte d v w) j (ground arith) (omega arith)
        ∙ load-store_other d (s + 1 + j) v w (ground arith))

-- The bytes `f 0`, `f 1` and so on at `dest`.
unfoldable pub put_bytes : (dest len : ℕ) → (ℕ → ℕ) → (ℕ → ℕ) → ℕ → ℕ
put_bytes dest zero f words = words
put_bytes dest (suc len) f words =
    put_bytes (dest + 1) len (λ j. f (j + 1)) (store_byte dest (f 0) words)

pub put_bytes-out :
    (d n : ℕ) (f w : ℕ → ℕ) (j : ℕ)
    → (j < d) ⊎ (d + n ≤ j)
    → load_byte (put_bytes d n f w) j ≡ load_byte w j
unfolding put_bytes
put_bytes-out d zero f w j o = refl
put_bytes-out d (suc n) f w j o =
    put_bytes-out (d + 1) n (λ i. f (i + 1)) (store_byte d (f 0) w) j (ground arith)
    ∙ load-store_other d j (f 0) w (ground arith)

pub put_bytes-in :
    (d n : ℕ) (f w : ℕ → ℕ) (j : ℕ) → j < n → load_byte (put_bytes d n f w) (d + j) ≡ f j % 256
unfolding put_bytes
put_bytes-in d zero f w j l = absurd (omega arith)
put_bytes-in d (suc n) f w zero l =
    let here : d + 0 ≡ d = omega arith in
    rw here (
      put_bytes-out (d + 1) n (λ i. f (i + 1)) (store_byte d (f 0) w) d (ground arith)
      ∙ load-store d (f 0) w)
put_bytes-in d (suc n) f w (suc j) l =
    let step : d + suc j ≡ d + 1 + j = omega arith in
    let next : suc j ≡ j + 1 = omega arith in
    rw (step, next) (put_bytes-in (d + 1) n (λ i. f (i + 1)) (store_byte d (f 0) w) j (omega arith))
