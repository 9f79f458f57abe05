-- ===== src/Links/Ring.antt =====
-- The rings of include/os/list.h stand for lists: what the operations do to the list.
use oslab_riscv.Prelude.{
  ℕ, ◌≤◌, ◌<◌, ◌≡◌, ◌≢◌, ◌↔◌, refl, true, List, [], ◌∷◌, ◌++◌, count, count-append, arith,
}
use oslab_riscv.Links.{Links, list_add_between, list_add_tail, list_is_empty}

-- From `a` the pointers lead along `xs` to `b`, and back.
abbrev pub Chain : ℕ → List ℕ → ℕ → Links → Type 0
Chain a [] b l = (l.next a ≡ b) × (l.prev b ≡ a)
Chain a (x ∷ xs) b l = (l.next a ≡ x) × (l.prev x ≡ a) × Chain x xs b l

-- The ring of `head` holds `xs`, each node once.
pub record IsRing (head : ℕ) (xs : List ℕ) (l : Links) : Type 0 where
  pub chain : Chain head xs head l
  pub once : (x : ℕ) → count x (head ∷ xs) ≤ 1

-- The last node stands before `b`.
prev-Chain :
    (a : ℕ) (xs : List ℕ) (b : ℕ) (l : Links) → Chain a xs b l → 0 < count (l.prev b) (a ∷ xs)
prev-Chain a [] b l (n, p) = ground arith
prev-Chain a (x ∷ xs) b l (n, p, c) = ground (arith, prev-Chain x xs b l c)

-- A node that stands before `b` is not `a`, if `a` is not in the rest of the chain.
prev-ne :
    (a : ℕ) (xs : List ℕ) (b : ℕ) (l : Links)
    → 0 < count (l.prev b) xs
    → count a xs ≡ 0
    → l.prev b ≢ a
prev-ne a xs b l n z e = let m : count (l.prev b) xs ≡ 0 = rw e z in omega arith

Chain-list_add_between :
    (a : ℕ) (xs : List ℕ) (b node : ℕ) (l : Links)
    → Chain a xs b l
    → ((x : ℕ) → count x (a ∷ xs) ≤ 1)
    → count b xs ≡ 0
    → count node (a ∷ xs) ≡ 0
    → node ≢ b
    → Chain a (xs ++ (node ∷ [])) b (list_add_between (l.prev b) node b l)
Chain-list_add_between a [] b node l (n, p) o z f ne =
    (ground (arith, p), ground (arith, p), (ground (arith, p), ground (arith, p)))
Chain-list_add_between a (x ∷ xs) b node l (n, p, c) o z f ne =
    let last = prev-Chain x xs b l c in
    let apart = prev-ne a (x ∷ xs) b l last (ground (arith, o a)) in
    (
      ground (arith, apart),
      ground (arith, apart),
      Chain-list_add_between x xs b node l c (λ y. ground (arith, o y)) (ground arith)
          (ground arith) ne,
    )

-- `_list_add_tail` of a node that is not in the ring puts it at the end of the ring's list.
pub list_add_tail-IsRing :
    (node head : ℕ) (xs : List ℕ) (l : Links)
    → IsRing head xs l
    → count node (head ∷ xs) ≡ 0
    → IsRing head (xs ++ (node ∷ [])) (list_add_tail node head l)
unfolding list_add_tail
list_add_tail-IsRing node head xs l v z = record {
  chain =
      Chain-list_add_between head xs head node l v.chain v.once (ground (arith, v.once head)) z
        (ground arith);
  once = λ x. ground (arith, v.once x, count-append x xs (node ∷ []));
}

-- `list_is_empty` tells of a ring whether it is empty.
pub list_is_empty-IsRing :
    (head : ℕ) (xs : List ℕ) (l : Links)
    → IsRing head xs l
    → (list_is_empty head l ≡ true) ↔ (xs ≡ [])
unfolding list_is_empty
list_is_empty-IsRing head [] l v = let (n, p) = v.chain in (λ e. refl, λ e. ground (arith, n))
list_is_empty-IsRing head (x ∷ xs) l v =
    let (n, p, c) = v.chain in (λ e. ground (arith, n, v.once head), λ e. cc)
