-- ===== src/Links/Tests.antt =====
-- The theorems about rings at one ring: head 1, then 5 and 9.
use oslab_riscv.Prelude.{ℕ, refl, List, [], ◌∷◌, ◌++◌, ◌==◌, if◌then◌else◌, arith}
use oslab_riscv.Links.{Links, list_add_tail}
use oslab_riscv.Links.Ring.{IsRing, list_add_tail-IsRing}

abbrev two_nodes : List ℕ
two_nodes = 5 ∷ 9 ∷ []

abbrev links : Links
links = record {
  next = λ p. if p == 1 then 5 else if p == 5 then 9 else if p == 9 then 1 else 0;
  prev = λ p. if p == 1 then 9 else if p == 5 then 1 else if p == 9 then 5 else 0;
}

links-IsRing : IsRing 1 two_nodes links
links-IsRing = record { chain = (refl, refl, (refl, refl, (refl, refl))); once = λ x. ground arith }

list_add_tail-IsRing_example : IsRing 1 (two_nodes ++ (7 ∷ [])) (list_add_tail 7 1 links)
list_add_tail-IsRing_example = list_add_tail-IsRing 7 1 two_nodes links links-IsRing (ground arith)
