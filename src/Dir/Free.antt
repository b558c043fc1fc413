-- ===== src/Dir/Free.antt =====
-- `dirFreeLinkedList` of src/dir.c, on a heap of nodes and names.
pub mod Freed
use ext2p.Prelude.{ℕ, zero, suc, ◌==◌, if◌then◌else◌, Bool, true, false, Option, none, some}
use ext2p.Machine.{Run, ok, fault, out_of_fuel, and_then}

-- The members of a `Dir` that are followed here: two pointers, of which `next` may be null.
pub record Node : Type 0 where
  pub filename : ℕ
  pub next : Option ℕ

-- What `malloc` has given out and `free` has not taken back: nodes by their address, and the addresses
-- of names.
pub record Heap : Type 0 where
  pub node : ℕ → Option Node
  pub has_name : ℕ → Bool

abbrev pub load : Heap → ℕ → Run Node
load h a = elim (h.node a) [ none ↦ fault | some n ↦ ok n ]

abbrev pub without_name : ℕ → Heap → Heap
without_name a h = record h { has_name = λ b. if b == a then false else h.has_name b }

abbrev pub without_node : ℕ → Heap → Heap
without_node a h = record h { node = λ b. if b == a then none else h.node b }

-- `free`: a second one of the same block is a fault
abbrev pub free_name : ℕ → Heap → Run Heap
free_name a h = if h.has_name a then ok (without_name a h) else fault

abbrev pub free_node : ℕ → Heap → Run Heap
free_node a h = and_then (load h a) λ _. ok (without_node a h)

-- the loop, a round for each unit of fuel
unfoldable pub free_loop : (fuel dir : ℕ) → (next : Option ℕ) → Heap → Run Heap
free_loop zero dir next h = out_of_fuel
free_loop (suc fuel) dir next h = and_then (load h dir) λ node.
    and_then (free_name node.filename h) λ h1. and_then (free_node dir h1) λ h2. elim next [
      | none ↦ ok h2
      | some dir' ↦ and_then (load h2 dir') λ node'. free_loop fuel dir' node'.next h2
    ]

-- The caller's node is not on the heap.
unfoldable pub dir_free_linked_list : (fuel : ℕ) → Node → Heap → Run Heap
dir_free_linked_list fuel dir h = and_then (free_name dir.filename h) λ h1. elim dir.next [
  | none ↦ ok h1
  | some dir' ↦ and_then (load h1 dir') λ node'. free_loop fuel dir' node'.next h1
]
