-- ===== src/Pool/IdleList.antt =====
-- pool/pool.go: `idleList`, a doubly linked list of `poolConn`s. Pointers are addresses on a heap,
-- and `none` as the result of a method is the panic of following a nil pointer.
pub mod Links
pub mod Refines
use framego.Prelude.{ℕ, suc, Bool, true, false, Option, none, some, ◌==◌, if◌then◌else◌}
use framego.Prelude.Int.{ℤ, pos, negsuc}

pub record Node : Type 0 where
  pub c : ℕ
  pub t : ℕ
  pub created : ℕ
  pub next : Option ℕ
  pub prev : Option ℕ

pub record IdleList : Type 0 where
  pub count : ℤ
  pub front : Option ℕ
  pub back : Option ℕ

abbrev pub Heap : Type 0
Heap = ℕ → Node

abbrev pub update : Heap → ℕ → Node → Heap
update h p n q = if p == q then n else h q

abbrev pub increment : ℤ → ℤ
increment (pos n) = pos (suc n)
increment (negsuc ℕ.zero) = pos 0
increment (negsuc (suc n)) = negsuc n

abbrev pub decrement : ℤ → ℤ
decrement (pos ℕ.zero) = negsuc 0
decrement (pos (suc n)) = pos n
decrement (negsuc n) = negsuc (suc n)

abbrev pub is_zero : ℤ → Bool
is_zero (pos ℕ.zero) = true
is_zero _ = false

-- `p.next = q` and `p.prev = q`.
abbrev pub set_next : Heap → ℕ → Option ℕ → Heap
set_next h p q = update h p (record (h p) { next = q })

abbrev pub set_prev : Heap → ℕ → Option ℕ → Heap
set_prev h p q = update h p (record (h p) { prev = q })

-- The neighbour's link, or the whole list where there is none left.
link_front : Bool → Heap → IdleList → ℕ → Option (Heap × IdleList)
link_front true h l pc =
    some (h, record { count = increment l.count; front = some pc; back = some pc })
link_front false h l pc = elim l.front [
  | none ↦ none
  | some f ↦ some (set_prev h f (some pc), record l { count = increment l.count; front = some pc })
]

pub push_front : Heap → IdleList → ℕ → Option (Heap × IdleList)
unfolding link_front
push_front h l pc = link_front (is_zero l.count) (set_prev (set_next h pc l.front) pc none) l pc

clear : Heap → ℕ → Heap
clear h pc = set_prev (set_next h pc none) pc none

drop_front : Bool → Heap → IdleList → ℕ → Option (Heap × IdleList)
unfolding clear
drop_front true h l pc =
    some (clear h pc, record { count = decrement l.count; front = none; back = none })
drop_front false h l pc = elim (h pc).next [
  | none ↦ none
  | some n ↦
      some
        (clear (set_prev h n none) pc, record l { count = decrement l.count; front = (h pc).next })
]

pub pop_front : Heap → IdleList → Option (Heap × IdleList)
unfolding drop_front
pop_front h l = elim l.front [
  | none ↦ none
  | some pc ↦ drop_front (is_zero (decrement l.count)) h l pc
]

drop_back : Bool → Heap → IdleList → ℕ → Option (Heap × IdleList)
unfolding clear
drop_back true h l pc =
    some (clear h pc, record { count = decrement l.count; front = none; back = none })
drop_back false h l pc = elim (h pc).prev [
  | none ↦ none
  | some n ↦
      some
        (clear (set_next h n none) pc, record l { count = decrement l.count; back = (h pc).prev })
]

pub pop_back : Heap → IdleList → Option (Heap × IdleList)
unfolding drop_back
pop_back h l = elim l.back [
  | none ↦ none
  | some pc ↦ drop_back (is_zero (decrement l.count)) h l pc
]
