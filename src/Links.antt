-- ===== src/Links.antt =====
-- The doubly linked rings of include/os/list.h: a node is an address, 0 is NULL, and the fields of
-- all the nodes are two arrays.
pub mod Ring
pub mod Tests
use oslab_riscv.Prelude.{ℕ, Bool, not, ◌&&◌, update, ◌==◌, if◌then◌else◌}

-- `list_node_t`
pub record Links : Type 0 where
  pub next : ℕ → ℕ
  pub prev : ℕ → ℕ

-- `p->next = q` and `p->prev = q`
abbrev pub set_next : ℕ → ℕ → Links → Links
set_next p q l = record l { next = update l.next p q }

abbrev pub set_prev : ℕ → ℕ → Links → Links
set_prev p q l = record l { prev = update l.prev p q }

-- `__list_add`
abbrev pub list_add_between : (prev node next : ℕ) → Links → Links
list_add_between p node q l =
    set_prev q node (set_next p node (set_prev node p (set_next node q l)))

-- `_list_add_tail`
unfoldable pub list_add_tail : (node head : ℕ) → Links → Links
list_add_tail node head l = list_add_between (l.prev head) node head l

-- `__list_del`
abbrev pub list_join : (prev next : ℕ) → Links → Links
list_join p q l = set_prev q p (set_next p q l)

unfoldable pub list_del : ℕ → Links → Links
list_del node l =
    if not (l.prev node == 0) && not (l.next node == 0)
    then set_next node 0 (set_prev node 0 (list_join (l.prev node) (l.next node) l))
    else l

unfoldable pub init_list_head : ℕ → Links → Links
init_list_head head l = set_prev head head (set_next head head l)

unfoldable pub list_is_empty : ℕ → Links → Bool
list_is_empty head l = l.next head == head
