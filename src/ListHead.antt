-- ===== src/ListHead.antt =====
-- list.h: circular doubly linked lists whose links are embedded in the nodes. The links of all
-- nodes are two functions of the address of a `struct list_head`; address 0 is `NULL`.
pub mod Chain
pub mod Insert
pub mod Delete
pub mod Walk
use freepacket.Base.{
  ℕ, zero, suc, List, [], ◌∷◌, Option, none, some, Bool, true, false, ◌==◌, if◌then◌else◌,
}

-- The `next` and `prev` of every `struct list_head`.
pub record Links : Type 0 where
  pub next : ℕ → ℕ
  pub prev : ℕ → ℕ

-- The function after a store at one address.
abbrev pub assign : (ℕ → ℕ) → ℕ → ℕ → ℕ → ℕ
assign f a v x = if x == a then v else f x

-- `p->next = v` and `p->prev = v`
abbrev pub set_next : ℕ → ℕ → Links → Links
set_next p v s = record s { next = assign s.next p v }

abbrev pub set_prev : ℕ → ℕ → Links → Links
set_prev p v s = record s { prev = assign s.prev p v }

-- `INIT_LIST_HEAD(list)`
unfoldable pub init_list_head : ℕ → Links → Links
init_list_head list s = set_prev list list (set_next list list s)

-- `__list_add(new, prev, next)`
unfoldable pub list_add_between : ℕ → ℕ → ℕ → Links → Links
list_add_between new prev next s =
    let s₁ = set_prev next new s in
    let s₂ = set_next new next s₁ in let s₃ = set_prev new prev s₂ in set_next prev new s₃

unfoldable pub list_add : ℕ → ℕ → Links → Links
list_add new head s = list_add_between new head (s.next head) s

unfoldable pub list_add_tail : ℕ → ℕ → Links → Links
list_add_tail new head s = list_add_between new (s.prev head) head s

-- `__list_del(prev, next)`
unfoldable pub list_del_between : ℕ → ℕ → Links → Links
list_del_between prev next s = set_next prev next (set_prev next prev s)

unfoldable pub list_del : ℕ → Links → Links
list_del entry s =
    let s₁ = list_del_between (s.prev entry) (s.next entry) s in
    set_prev entry 0 (set_next entry 0 s₁)

unfoldable pub list_move_tail : ℕ → ℕ → Links → Links
list_move_tail list head s =
    list_add_tail list head (list_del_between (s.prev list) (s.next list) s)

unfoldable pub list_empty : ℕ → Links → Bool
list_empty head s = s.next head == head

-- `list_for_each(pos, head)` from `pos` on: the nodes that the body is run for. `none` is a loop
-- that still runs when the fuel is used up.
unfoldable pub walk : ℕ → ℕ → ℕ → Links → Option (List ℕ)
walk zero head pos s = none
walk (suc fuel) head pos s = elim (pos == head) [
  | true ↦ some []
  | false ↦ elim (walk fuel head (s.next pos) s) [
    | none ↦ none
    | some visited ↦ some (pos ∷ visited)
  ]
]

unfoldable pub list_for_each : ℕ → ℕ → Links → Option (List ℕ)
list_for_each fuel head s = walk fuel head (s.next head) s

-- `list_for_each_safe(pos, n, head)` from `pos` and `n` on, with a body that takes out the nodes
-- that pass the test: those nodes in order, and the links after the loop.
unfoldable pub walk_safe : (ℕ → Bool) → ℕ → ℕ → ℕ → ℕ → Links → Option (List ℕ × Links)
walk_safe test zero head pos n s = none
walk_safe test (suc fuel) head pos n s = elim (pos == head) [
  | true ↦ some ([], s)
  | false ↦ elim (test pos) [
    | true ↦
        let s' = list_del pos s in
        elim (walk_safe test fuel head n (s'.next n) s') [
          | none ↦ none
          | some (removed, s'') ↦ some (pos ∷ removed, s'')
        ]
    | false ↦ walk_safe test fuel head n (s.next n) s
  ]
]

unfoldable pub delete_where : (ℕ → Bool) → ℕ → ℕ → Links → Option (List ℕ × Links)
delete_where test fuel head s = walk_safe test fuel head (s.next head) (s.next (s.next head)) s
