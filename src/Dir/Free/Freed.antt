-- ===== src/Dir/Free/Freed.antt =====
-- The list is freed, and nothing else.
use ext2p.Prelude.{
  ℕ, zero, suc, ◌<◌, ◌≤◌, ◌≡◌, ◌≢◌, refl, arith, List, [], ◌∷◌, length, ◌==◌, ==-ne, if◌then◌else◌,
  Bool, true, false, Option, none, some, ◌||◌, ◌∙◌,
}
use ext2p.Machine.{ok, and_then-ok}
use ext2p.Dir.Free.{
  Node, Heap, load, without_name, without_node, free_name, free_node, free_loop,
  dir_free_linked_list,
}

-- a node of the list by its address, and its name's
pub record Cell : Type 0 where
  pub addr : ℕ
  pub name : ℕ

abbrev pub link : List Cell → Option ℕ
link [] = none
link (c ∷ cs) = some c.addr

-- The heap holds a list: each node has its name and the address of the next.
abbrev pub Chain : Heap → List Cell → Type 0
Chain h [] = Unit
Chain h (c ∷ cs) =
    (h.node c.addr ≡ some (record { filename = c.name; next = link cs }))
    × (h.has_name c.name ≡ true)
    × Chain h cs

-- a name that no node of a list has, an address that none has, and a list without repetitions
abbrev pub NewName : ℕ → List Cell → Type 0
NewName name [] = Unit
NewName name (c ∷ cs) = (c.name ≢ name) × NewName name cs

abbrev pub NewAddr : ℕ → List Cell → Type 0
NewAddr addr [] = Unit
NewAddr addr (c ∷ cs) = (c.addr ≢ addr) × NewAddr addr cs

abbrev pub Distinct : List Cell → Type 0
Distinct [] = Unit
Distinct (c ∷ cs) = NewName c.name cs × NewAddr c.addr cs × Distinct cs

abbrev pub freed : List Cell → Heap → Heap
freed [] h = h
freed (c ∷ cs) h = freed cs (without_node c.addr (without_name c.name h))

Chain-without_name :
    (h : Heap) (name : ℕ) (cs : List Cell)
    → NewName name cs
    → Chain h cs
    → Chain (without_name name h) cs
Chain-without_name h name [] new held = tt
Chain-without_name h name (c ∷ cs) new held =
    (held.0, rw (==-ne new.0) held.1, Chain-without_name h name cs new.1 held.2)

Chain-without_node :
    (h : Heap) (addr : ℕ) (cs : List Cell)
    → NewAddr addr cs
    → Chain h cs
    → Chain (without_node addr h) cs
Chain-without_node h addr [] new held = tt
Chain-without_node h addr (c ∷ cs) new held =
    (rw (==-ne new.0) held.0, held.1, Chain-without_node h addr cs new.1 held.2)

load-ok : (h : Heap) (a : ℕ) (n : Node) → h.node a ≡ some n → load h a ≡ ok n
load-ok h a n held = rw (load, held) refl

free_name-ok : (h : Heap) (a : ℕ) → h.has_name a ≡ true → free_name a h ≡ ok (without_name a h)
free_name-ok h a held = rw held refl

free_node-ok :
    (h : Heap) (a : ℕ) (n : Node) → h.node a ≡ some n → free_node a h ≡ ok (without_node a h)
free_node-ok h a n held = and_then-ok _ (load-ok h a n held)

free_loop_lem :
    (fuel : ℕ) (c : Cell) (cs : List Cell) (h : Heap)
    → length cs < fuel
    → Distinct (c ∷ cs)
    → Chain h (c ∷ cs)
    → free_loop fuel c.addr (link cs) h ≡ ok (freed (c ∷ cs) h)
unfolding free_loop
free_loop_lem zero c cs h enough distinct held = absurd (omega arith)
free_loop_lem (suc fuel) c [] h enough distinct held =
    let node : Node = record { filename = c.name; next = none } in
    and_then-ok _ (load-ok h c.addr node held.0)
    ∙ and_then-ok _ (free_name-ok h c.name held.1)
    ∙ and_then-ok _ (free_node-ok (without_name c.name h) c.addr node held.0)
free_loop_lem (suc fuel) c (d ∷ ds) h enough distinct held =
    let node : Node = record { filename = c.name; next = some d.addr } in
    let node' : Node = record { filename = d.name; next = link ds } in
    let h2 = freed (c ∷ []) h in
    let rest : Chain h2 (d ∷ ds) =
      Chain-without_node (without_name c.name h) c.addr (d ∷ ds) distinct.1
        (Chain-without_name h c.name (d ∷ ds) distinct.0 held.2) in
    and_then-ok _ (load-ok h c.addr node held.0)
    ∙ and_then-ok _ (free_name-ok h c.name held.1)
    ∙ and_then-ok _ (free_node-ok (without_name c.name h) c.addr node held.0)
    ∙ and_then-ok _ (load-ok h2 d.addr node' rest.0)
    ∙ free_loop_lem fuel d ds h2 (omega arith) distinct.2 rest

freed_all :
    (fuel : ℕ) (name : ℕ) (cs : List Cell) (h : Heap)
    → length cs ≤ fuel
    → NewName name cs
    → Distinct cs
    → h.has_name name ≡ true
    → Chain h cs
    → dir_free_linked_list fuel (record { filename = name; next = link cs }) h
      ≡ ok (freed cs (without_name name h))
unfolding dir_free_linked_list
freed_all fuel name [] h enough new distinct held chain = and_then-ok _ (free_name-ok h name held)
freed_all fuel name (c ∷ cs) h enough new distinct held chain =
    let rest = Chain-without_name h name (c ∷ cs) new chain in
    and_then-ok _ (free_name-ok h name held)
    ∙ and_then-ok _ (load-ok (without_name name h) c.addr _ rest.0)
    ∙ free_loop_lem fuel c cs (without_name name h) (omega arith) distinct rest

abbrev pub is_addr : ℕ → List Cell → Bool
is_addr a [] = false
is_addr a (c ∷ cs) = (a == c.addr) || is_addr a cs

abbrev pub is_name : ℕ → List Cell → Bool
is_name a [] = false
is_name a (c ∷ cs) = (a == c.name) || is_name a cs

if_or :
    {A : Type 0} (b b' : Bool) (x y : A)
    → (if b' then x else if b then x else y) ≡ (if b || b' then x else y)
if_or true true x y = refl
if_or true false x y = refl
if_or false true x y = refl
if_or false false x y = refl

freed-node :
    (cs : List Cell) (h : Heap) (a : ℕ)
    → (freed cs h).node a ≡ (if is_addr a cs then none else h.node a)
freed-node [] h a = refl
freed-node (c ∷ cs) h a =
    freed-node cs (without_node c.addr (without_name c.name h)) a
    ∙ if_or (a == c.addr) (is_addr a cs) none (h.node a)

freed-has_name :
    (cs : List Cell) (h : Heap) (a : ℕ)
    → (freed cs h).has_name a ≡ (if is_name a cs then false else h.has_name a)
freed-has_name [] h a = refl
freed-has_name (c ∷ cs) h a =
    freed-has_name cs (without_node c.addr (without_name c.name h)) a
    ∙ if_or (a == c.name) (is_name a cs) false (h.has_name a)

-- With as much fuel as the list has nodes, `dirFreeLinkedList` of a list that is on the heap, without
-- a node or a name that is there twice, returns: no freed block is accessed or freed again. Of the
-- nodes exactly those of the list are gone, and of the names exactly the caller's and theirs.
pub dir_free_linked_list-Chain :
    (fuel : ℕ) (name : ℕ) (cs : List Cell) (h : Heap)
    → length cs ≤ fuel
    → NewName name cs
    → Distinct cs
    → h.has_name name ≡ true
    → Chain h cs
    → (h' : Heap) × (dir_free_linked_list fuel (record { filename = name; next = link cs }) h
        ≡ ok h')
      × ((a : ℕ) → h'.node a ≡ (if is_addr a cs then none else h.node a))
      × ((a : ℕ) → h'.has_name a ≡ (if (a == name) || is_name a cs then false else h.has_name a))
dir_free_linked_list-Chain fuel name cs h enough new distinct held chain = (
  freed cs (without_name name h),
  freed_all fuel name cs h enough new distinct held chain,
  freed-node cs (without_name name h),
  (λ a.
      freed-has_name cs (without_name name h) a
      ∙ if_or (a == name) (is_name a cs) false (h.has_name a)),
)
