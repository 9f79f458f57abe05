-- ===== src/Kernel/Mailboxes/Content.antt =====
-- The content of a mailbox of kernel/locking/lock.c as a first-in first-out sequence of bytes.
use oslab_riscv.Prelude.{
  ℕ, zero, suc, ◌+◌, ◌-◌, ◌%◌, ◌≤◌, ◌<◌, ◌≡◌, ◌≢◌, refl, sym, ap, ◌∙◌, List, [], ◌∷◌, ◌++◌, length,
  length-append, update, arith,
}
use mathlib.Core.List.{append-nil, append_assoc}
use oslab_riscv.Kernel.{Mailbox}
use oslab_riscv.Kernel.Mailboxes.{max_mbox_length, put_bytes, get_bytes}

-- The `n` bytes from index `i` on, going round.
abbrev pub bytes_from : ℕ → ℕ → (ℕ → ℕ) → List ℕ
bytes_from zero i c = []
bytes_from (suc n) i c = c (i % 64) ∷ bytes_from n (i + 1) c

-- What the mailbox holds, oldest first.
abbrev pub stored : Mailbox → List ℕ
stored b = bytes_from (b.tail - b.head) b.head b.content

-- `head` and `tail` count the bytes taken and put; at most `MAX_MBOX_LENGTH` lie between.
pub record IsRing (b : Mailbox) : Type 0 where
  pub ordered : b.head ≤ b.tail
  pub room : b.tail ≤ b.head + 64

bytes_from-update :
    (n i j x : ℕ) (c : ℕ → ℕ)
    → i + n ≤ j
    → j < i + 64
    → bytes_from n i (update c (j % 64) x) ≡ bytes_from n i c
bytes_from-update zero i j x c a b = refl
bytes_from-update (suc n) i j x c a b =
    let ne : j % 64 ≢ i % 64 = omega arith in ground (arith, bytes_from-update n (i + 1) j x c)

bytes_from-snoc :
    (n i : ℕ) (c : ℕ → ℕ) → bytes_from (suc n) i c ≡ bytes_from n i c ++ (c ((i + n) % 64) ∷ [])
bytes_from-snoc zero i c = ap (λ j. c (j % 64) ∷ []) (omega arith)
bytes_from-snoc (suc n) i c =
    ap (λ xs. c (i % 64) ∷ xs)
      (bytes_from-snoc n (i + 1) c
        ∙ ap (λ j. bytes_from n (i + 1) c ++ (c (j % 64) ∷ [])) (omega arith))

put_byte : ℕ → Mailbox → Mailbox
put_byte x b = record b {
  content = update b.content (b.tail % max_mbox_length) x;
  tail = b.tail + 1;
}

put_byte-stored :
    (x : ℕ) (b : Mailbox)
    → IsRing b
    → b.tail < b.head + 64
    → stored (put_byte x b) ≡ stored b ++ (x ∷ [])
unfolding put_byte
put_byte-stored x b v l =
    let n = b.tail - b.head in
    let c = update b.content (b.tail % 64) x in
    let m : b.tail + 1 - b.head ≡ suc n = omega arith in
    let t : b.head + n ≡ b.tail = omega arith in
    rw
      (
        m,
        bytes_from-snoc n b.head c,
        bytes_from-update n b.head b.tail x b.content (omega arith) l,
        t,
      )
      (ground arith)

-- Where there is room, sending appends the message to what the mailbox holds.
pub put_bytes-stored :
    (msg : List ℕ) (b : Mailbox)
    → IsRing b
    → length msg + b.tail ≤ 64 + b.head
    → (stored (put_bytes msg b) ≡ stored b ++ msg)
      × IsRing (put_bytes msg b)
      × ((put_bytes msg b).head ≡ b.head)
      × ((put_bytes msg b).tail ≡ length msg + b.tail)
unfolding put_bytes put_byte
put_bytes-stored [] b v l = (sym (append-nil _), v, refl, omega arith)
put_bytes-stored (x ∷ msg) b v l =
    let b' = put_byte x b in
    let (s, r, h, t) = put_bytes-stored msg b' (omega arith) (omega arith) in
    (
      s
          ∙ (ap (λ xs. xs ++ msg) (put_byte-stored x b v (omega arith))
              ∙ append_assoc (stored b) (x ∷ []) msg),
      r,
      h,
      omega (arith, t),
    )

-- Receiving takes the oldest bytes out, in order.
pub get_bytes-stored :
    (n : ℕ) (b : Mailbox)
    → IsRing b
    → n + b.head ≤ b.tail
    → let (xs, b') = get_bytes n b in (stored b ≡ xs ++ stored b') × (length xs ≡ n) × IsRing b'
unfolding get_bytes
get_bytes-stored zero b v l = (refl, refl, v)
get_bytes-stored (suc n) b v l =
    let b1 = record b { head = b.head + 1 } in
    let (s, m, r) = get_bytes-stored n b1 (omega arith) (omega arith) in
    let e : b.tail - b.head ≡ suc (b.tail - (b.head + 1)) = omega arith in
    (rw e (ap (λ xs. b.content (b.head % 64) ∷ xs) s), ap suc m, r)

pub length-bytes_from : (n i : ℕ) (c : ℕ → ℕ) → length (bytes_from n i c) ≡ n
length-bytes_from zero i c = refl
length-bytes_from (suc n) i c = ap suc (length-bytes_from n (i + 1) c)

eq_of_length : (xs ys zs : List ℕ) → zs ≡ xs ++ ys → length xs ≡ length zs → xs ≡ zs
eq_of_length xs [] zs e l = sym (append-nil xs) ∙ sym e
eq_of_length xs (y ∷ ys) zs e l = absurd (omega (arith, ap length e, length-append xs (y ∷ ys)))

stored-nil : (b : Mailbox) → b.head ≡ b.tail → stored b ≡ []
stored-nil b e = let z : b.tail - b.head ≡ 0 = omega arith in rw z refl

-- A message sent into an empty mailbox is received unchanged, and leaves it empty.
pub get_bytes-put_bytes :
    (msg : List ℕ) (b : Mailbox)
    → b.head ≡ b.tail
    → length msg ≤ 64
    → let (xs, b') = get_bytes (length msg) (put_bytes msg b) in (xs ≡ msg) × (b'.head ≡ b'.tail)
get_bytes-put_bytes msg b e l =
    let (s, r, h, t) =
      put_bytes-stored msg b (record { ordered = omega arith; room = omega arith }) (omega arith) in
    let (g, m, r') = get_bytes-stored (length msg) (put_bytes msg b) r (omega arith) in
    let b' = (get_bytes (length msg) (put_bytes msg b)).1 in
    let xs = (get_bytes (length msg) (put_bytes msg b)).0 in
    let w : msg ≡ xs ++ stored b' = sym (s ∙ rw (stored-nil b e) refl) ∙ g in
    (
      eq_of_length xs (stored b') msg w m,
      omega (
        arith,
        ap length w,
        length-append xs (stored b'),
        length-bytes_from (b'.tail - b'.head) b'.head b'.content,
        r'.ordered,
      ),
    )
