-- ===== src/Links.antt =====
-- libs/list.h of Mooc_OS_Lab/lab1 (the other labs hold the same file), the doubly linked list under
-- the kernel's queues: an entry is a number, and the memory of all entries a function for each field.
pub mod Chain
pub mod Insert
pub mod Delete
pub mod RunList
mod Tests
use algorithms_prepare.Prelude.{ℕ, Bool, ◌==◌, if◌then◌else◌}

pub record Links : Type 0 where
  pub prev : ℕ → ℕ
  pub next : ℕ → ℕ

abbrev put : (ℕ → ℕ) → ℕ → ℕ → ℕ → ℕ
put f a b x = if x == a then b else f x

abbrev pub set_prev : ℕ → ℕ → Links → Links
set_prev elm v l = record l { prev = put l.prev elm v }

abbrev pub set_next : ℕ → ℕ → Links → Links
set_next elm v l = record l { next = put l.next elm v }

unfoldable pub list_init : ℕ → Links → Links
list_init elm l = set_prev elm elm (set_next elm elm l)

unfoldable pub __list_add : ℕ → ℕ → ℕ → Links → Links
__list_add elm prev next l =
    set_prev elm prev (set_next elm next (set_next prev elm (set_prev next elm l)))

unfoldable pub __list_del : ℕ → ℕ → Links → Links
__list_del prev next l = set_prev next prev (set_next prev next l)

unfoldable pub list_add_before : ℕ → ℕ → Links → Links
list_add_before listelm elm l = __list_add elm (l.prev listelm) listelm l

unfoldable pub list_add_after : ℕ → ℕ → Links → Links
list_add_after listelm elm l = __list_add elm listelm (l.next listelm) l

unfoldable pub list_add : ℕ → ℕ → Links → Links
unfolding list_add_after
list_add listelm elm l = list_add_after listelm elm l

unfoldable pub list_del : ℕ → Links → Links
list_del listelm l = __list_del (l.prev listelm) (l.next listelm) l

unfoldable pub list_del_init : ℕ → Links → Links
unfolding list_del
list_del_init listelm l = list_init listelm (list_del listelm l)

abbrev pub list_next : ℕ → Links → ℕ
list_next listelm l = l.next listelm

abbrev pub list_prev : ℕ → Links → ℕ
list_prev listelm l = l.prev listelm

abbrev pub list_empty : ℕ → Links → Bool
list_empty list l = list_next list l == list
