-- ===== src/Kernel/Mutexes/Init.antt =====
-- do_mutex_lock_init of kernel/locking/lock.c: which slot a key gets.
use oslab_riscv.Prelude.{
  ℕ, ◌<◌, ◌≡◌, ◌≢◌, refl, ==_iff, Bool, ◌⊎◌, inl, inr, Bool-cases, true, false, Option, none, some,
  [], ◌==◌, if◌then◌else◌, find_from, find_from-le, find_from-below, find_from-holds,
  find_from-first, arith,
}
use oslab_riscv.Prelude.Int.{ℤ, pos, minus_one, eq_ℤ, eq_ℤ_iff}
use oslab_riscv.Kernel.{unlocked, Mutex, mlock_queue, Kernel}
use oslab_riscv.Kernel.Mutexes.{
  lock_num, set_mutex, set_owner, spin_lock_release, stops_at, do_mutex_lock_init,
  do_mutex_lock_release,
}

-- The slot that a new key is written to.
abbrev pub fresh_lock : ℤ → Mutex
fresh_lock key = record { lock = unlocked; owner = pos 0; key = key }

some-if :
    (b : Bool) (i : ℕ) (x y : Kernel)
    → ◌≡◌ {A = Option (ℕ × Kernel)}
        (if b then some (i, x) else some (i, y))
        (some (i, if b then x else y))
some-if true i x y = refl
some-if false i x y = refl

-- Where the loop stops.
do_mutex_lock_init_cases :
    (key : ℤ) (k : Kernel)
    → ((do_mutex_lock_init key k ≡ none) × ((j : ℕ) → j < lock_num → stops_at key k j ≡ false))
      ⊎ ((i : ℕ) × (i < lock_num)
          × ((j : ℕ) → j < i → stops_at key k j ≡ false)
          × (stops_at key k i ≡ true)
          × (do_mutex_lock_init key k
              ≡ some (i, if eq_ℤ (k.mlocks i).key key then k else set_mutex i (fresh_lock key) k)))
unfolding do_mutex_lock_init
do_mutex_lock_init_cases key k =
    let test = stops_at key k in
    let i = find_from lock_num 0 test in
    let le = find_from-le lock_num 0 test in
    elim (Bool-cases (i == lock_num)) [
      | inl e ↦
          let all : i ≡ lock_num = (==_iff i lock_num).0 e in
          inl (rw e refl, λ j l. find_from-below lock_num 0 test j (omega arith) (rw all l))
      | inr e ↦
          let ne : i ≢ lock_num = λ p. cc ((==_iff i lock_num).1 p) in
          let lt : i < lock_num = omega arith in
          inr (
            i,
            lt,
            λ j l. find_from-below lock_num 0 test j (omega arith) l,
            find_from-holds lock_num 0 test (omega arith),
            rw e (some-if (eq_ℤ (k.mlocks i).key key) i k (set_mutex i (fresh_lock key) k)),
          )
    ]

-- The slot has another key, and an owner.
pub record IsTaken (key : ℤ) (m : Mutex) : Type 0 where
  pub other_key : m.key ≢ key
  pub owned : m.owner ≢ minus_one

stops_at-IsTaken :
    (key : ℤ) (k : Kernel) (j : ℕ) → stops_at key k j ≡ false → IsTaken key (k.mlocks j)
stops_at-IsTaken key k j e = record {
  other_key = λ p. ground (arith, (eq_ℤ_iff (k.mlocks j).key key).1 p, e);
  owned = λ p. ground (arith, (eq_ℤ_iff (k.mlocks j).owner minus_one).1 p, e);
}

-- `do_mutex_lock_init` of a key hangs exactly where each of the 16 slots has another key and an owner.
-- Else it returns the first slot that has the key or whose owner is -1: if it has the key, nothing
-- changes; if not, its owner is -1, and it becomes a lock that is free, with the key and the owner 0.
pub do_mutex_lock_init-finds :
    (key : ℤ) (k : Kernel)
    → ((do_mutex_lock_init key k ≡ none) × ((j : ℕ) → j < 16 → IsTaken key (k.mlocks j)))
      ⊎ ((i : ℕ) × (i < 16)
          × ((j : ℕ) → j < i → IsTaken key (k.mlocks j))
          × ((((k.mlocks i).key ≡ key) × (do_mutex_lock_init key k ≡ some (i, k)))
              ⊎ (((k.mlocks i).key ≢ key)
                  × ((k.mlocks i).owner ≡ minus_one)
                  × (do_mutex_lock_init key k
                      ≡ some (
                        i,
                        set_mutex i (record { lock = unlocked; owner = pos 0; key = key }) k,
                      )))))
do_mutex_lock_init-finds key k = elim (do_mutex_lock_init_cases key k) [
  | inl (r, f) ↦ inl (r, λ j l. stops_at-IsTaken key k j (f j l))
  | inr (i, l, f, t, r) ↦ inr (
    i,
    l,
    λ j n. stops_at-IsTaken key k j (f j n),
    elim (Bool-cases (eq_ℤ (k.mlocks i).key key)) [
      | inl e ↦ inl ((eq_ℤ_iff (k.mlocks i).key key).0 e, rw e at r)
      | inr e ↦ inr (
        λ p. cc (e, (eq_ℤ_iff (k.mlocks i).key key).1 p),
        (eq_ℤ_iff (k.mlocks i).owner minus_one).0 (ground (arith, e, t)),
        rw e at r,
      )
    ],
  )
]

rekeyed :
    (i : ℕ) (key : ℤ) (k : Kernel)
    → i < lock_num
    → ((j : ℕ) → j < i → stops_at key k j ≡ false)
    → (k.mlocks i).key ≢ key
    → let k' = set_owner i minus_one (spin_lock_release i k) in
      do_mutex_lock_init key k' ≡ some (i, set_mutex i (fresh_lock key) k')
unfolding do_mutex_lock_init
rekeyed i key k l f ne =
    let k' = set_owner i minus_one (spin_lock_release i k) in
    let found : find_from lock_num 0 (stops_at key k') ≡ i =
      find_from-first lock_num 0 i (stops_at key k') (omega arith) (omega arith)
        (λ j _ b. ground (arith, f j b)) (ground arith) in
    let other : eq_ℤ (k.mlocks i).key key ≡ false = ground (arith, eq_ℤ_iff (k.mlocks i).key key) in
    rw found (ground (arith, other))

-- A lock that is released while nobody waits for it counts as a free slot: for a key that neither
-- it nor an earlier slot has, with no free slot before it, `do_mutex_lock_init` makes the slot a
-- fresh lock of that key, though the first key's users still hold its index.
pub released-rekeyed :
    (i : ℕ) (key : ℤ) (k k' : Kernel)
    → i < lock_num
    → k.queue (mlock_queue i) ≡ []
    → ((j : ℕ) → j < i → stops_at key k j ≡ false)
    → (k.mlocks i).key ≢ key
    → do_mutex_lock_release i k ≡ some k'
    → do_mutex_lock_init key k' ≡ some (i, set_mutex i (fresh_lock key) k')
unfolding do_mutex_lock_release
released-rekeyed i key k k' l e f ne r =
    let p : k' ≡ set_owner i minus_one (spin_lock_release i k) = ground (arith, e) in
    rw p (rekeyed i key k l f ne)
