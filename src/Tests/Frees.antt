-- ===== src/Tests/Frees.antt =====
-- The theorem on freed lists, at a list of two nodes behind the caller's.
use ext2p.Prelude.{ℕ, ◌≡◌, refl, arith, [], ◌∷◌, ◌==◌, if◌then◌else◌, false, none, some, ◌||◌, List}
use ext2p.Machine.{ok}
use ext2p.Dir.Free.{Heap, dir_free_linked_list}
use ext2p.Dir.Free.Freed.{Cell, is_addr, is_name, dir_free_linked_list-Chain}

abbrev two_cells : List Cell
two_cells = record { addr = 10; name = 20 } ∷ record { addr = 11; name = 21 } ∷ []

abbrev held : Heap
held = record {
  node = λ a.
      if a == 10
      then some (record { filename = 20; next = some 11 })
      else if a == 11
      then some (record { filename = 21; next = none })
      else none;
  has_name = λ a. (a == 20) || (a == 21) || (a == 22) || (a == 23);
}

dir_free_linked_list-Chain_example :
    (h' : Heap) × (dir_free_linked_list 2 (record { filename = 22; next = some 10 }) held ≡ ok h')
    × ((a : ℕ) → h'.node a ≡ (if is_addr a two_cells then none else held.node a))
    × ((a : ℕ)
        → h'.has_name a ≡ (if (a == 22) || is_name a two_cells then false else held.has_name a))
dir_free_linked_list-Chain_example =
    dir_free_linked_list-Chain 2 22 two_cells held (omega arith)
      ((λ e. absurd (omega arith)), ((λ e. absurd (omega arith)), tt))
      (((λ e. absurd (omega arith)), tt), ((λ e. absurd (omega arith)), tt), (tt, tt, tt)) refl
      (refl, refl, (refl, refl, tt))
