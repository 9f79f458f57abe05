-- ===== src/Creation/Arguments.antt =====
-- The arguments of a new process: the end of do_exec in kernel/sched/sched.c.
use oslab_riscv.Prelude.{
  ℕ, zero, suc, ◌+◌, ◌%◌, ◌≤◌, ◌<◌, ◌≡◌, refl, ◌∙◌, ◌⊎◌, inl, inr, Bool-cases, false, List, [], ◌∷◌,
  length, ◌==◌, arith,
}
use oslab_riscv.Strings.Copy.{IsString}
use oslab_riscv.Memory.Bytes.{
  load_byte, store_byte, fill_mem, load-store, load-store_other, fill_mem-out,
}
use oslab_riscv.Creation.{put_word, strncpy_from}

pub IsString-same :
    (p : ℕ) (s : List ℕ) (m m' : ℕ → ℕ)
    → ((j : ℕ) → p ≤ j → j ≤ p + length s → m' j ≡ m j)
    → IsString p s m
    → IsString p s m'
IsString-same p [] m m' same e = same p (omega arith) (omega arith) ∙ e
IsString-same p (c ∷ cs) m m' same (e, ne, v) = (
  same p (omega arith) (omega arith) ∙ e,
  ne,
  IsString-same (p + 1) cs m m' (λ j a b. same j (omega (arith, a)) (omega (arith, b))) v,
)

-- A store of a byte changes no word that starts after it or ends before it.
store_byte-word : (p v q : ℕ) (w : ℕ → ℕ) → (p < q) ⊎ (q + 8 ≤ p) → store_byte p v w q ≡ w q
unfolding store_byte
store_byte-word p v q w o = ground (arith, o)

fill_mem-word : (p v n q : ℕ) (w : ℕ → ℕ) → (p + n ≤ q) ⊎ (q + 8 ≤ p) → fill_mem p v n w q ≡ w q
unfolding fill_mem
fill_mem-word p v zero q w l = refl
fill_mem-word p v (suc n) q w l =
    fill_mem-word (p + 1) v n q (store_byte p v w) (ground arith)
    ∙ store_byte-word p v q w (ground arith)

-- A store of a word changes no byte outside of it.
pub put_word-byte :
    (q v j : ℕ) (w : ℕ → ℕ)
    → q % 8 ≡ 0
    → (j < q) ⊎ (q + 8 ≤ j)
    → load_byte (put_word q v w) j ≡ load_byte w j
unfolding load_byte
put_word-byte q v j w a o = ground (arith, a, o)

pub strncpy_from-out :
    (d s n : ℕ) (mem w : ℕ → ℕ) (j : ℕ)
    → (j < d) ⊎ (d + n ≤ j)
    → load_byte (strncpy_from d s n mem w) j ≡ load_byte w j
unfolding strncpy_from
strncpy_from-out d s zero mem w j o = refl
strncpy_from-out d s (suc n) mem w j o = elim (Bool-cases (mem s == 0)) [
  | inl t ↦ rw (t, strncpy_from) (fill_mem-out d 0 (suc n) w j o)
  | inr f ↦
      rw (f, strncpy_from)
        (strncpy_from-out (d + 1) (s + 1) n mem (store_byte d (mem s) w) j (ground arith)
          ∙ load-store_other d j (mem s) w (ground arith))
]

pub strncpy_from-word :
    (d s n q : ℕ) (mem w : ℕ → ℕ) → (d + n ≤ q) ⊎ (q + 8 ≤ d) → strncpy_from d s n mem w q ≡ w q
unfolding strncpy_from
strncpy_from-word d s zero q mem w l = refl
strncpy_from-word d s (suc n) q mem w l = elim (Bool-cases (mem s == 0)) [
  | inl t ↦ rw (t, strncpy_from) (fill_mem-word d 0 (suc n) q w l)
  | inr f ↦
      rw (f, strncpy_from)
        (strncpy_from-word (d + 1) (s + 1) n q mem (store_byte d (mem s) w) (ground arith)
          ∙ store_byte-word d (mem s) q w (ground arith))
]

-- With the length of the string and its NUL it makes a copy of it.
pub strncpy_from-IsString :
    (d src : ℕ) (s : List ℕ) (mem w : ℕ → ℕ)
    → ((p : ℕ) → mem p < 256)
    → IsString src s mem
    → IsString d s (load_byte (strncpy_from d src (length s + 1) mem w))
unfolding strncpy_from fill_mem
strncpy_from-IsString d src [] mem w b e = rw (e, strncpy_from) (load-store d 0 w)
strncpy_from-IsString d src (c ∷ cs) mem w b (e, ne, v) =
    let live : (mem src == 0) ≡ false = ground (arith, e, ne) in
    let n : length (c ∷ cs) + 1 ≡ suc (length cs + 1) = omega arith in
    let w1 = store_byte d (mem src) w in
    let first : load_byte (strncpy_from (d + 1) (src + 1) (length cs + 1) mem w1) d ≡ c =
      strncpy_from-out (d + 1) (src + 1) (length cs + 1) mem w1 d (inl (omega arith))
      ∙ load-store d (mem src) w
      ∙ omega (arith, e, b src) in
    rw n
      (rw (live, strncpy_from) (first, ne, strncpy_from-IsString (d + 1) (src + 1) cs mem w1 b v))
