-- ===== src/Kalloc.antt =====
-- kalloc.c: the allocator of physical pages. The free pages form a list through their first words.
-- `words` is the memory by the address of a word; `finish` is the linker's `end`.
pub mod Chain
use operating_systems_assign.Base.{
  Bool, if◌then◌else◌, leb, ltb, not, suc, zero, ℕ, ◌%◌, ◌&&◌, ◌*◌, ◌+◌, ◌-◌, ◌/◌, ◌==◌, ◌||◌,
}
use operating_systems_assign.Kernel.{Cmd, and_then, done, panics}

abbrev pub pgsize : ℕ
pgsize = 4096

abbrev pub kernbase : ℕ
kernbase = 2147483648

abbrev pub phystop : ℕ
phystop = 234881024

-- struct kmem without its lock; `freelist` is an address, 0 for none
pub record Kmem : Type 0 where
  pub freelist : ℕ
  pub words : ℕ → ℕ

abbrev pub bad_page : ℕ → ℕ → Bool
bad_page finish v =
    not (v % pgsize == 0) || ltb v finish || leb phystop ((v + 4294967296 - kernbase) % 4294967296)

-- the page at `v` filled with the byte 1, and the address `next` put into its first word
abbrev pub link_page : ℕ → ℕ → (ℕ → ℕ) → ℕ → ℕ
link_page v next words a =
    if a == v then next else if leb v a && ltb a (v + pgsize) then 16843009 else words a

unfoldable pub kfree : ℕ → ℕ → Cmd Kmem (Unit {0})
kfree finish v s =
    if bad_page finish v
    then panics
    else done tt (record { freelist = v; words = link_page v s.freelist s.words })

-- the page's address, or 0
unfoldable pub kalloc : Cmd Kmem ℕ
kalloc s =
    if s.freelist == 0
    then done 0 s
    else done s.freelist (record s { freelist = s.words s.freelist })

-- the loop of `freerange` from the page `p` on; each round but the last frees a page
unfoldable pub free_from : ℕ → ℕ → ℕ → ℕ → Cmd Kmem (Unit {0})
unfolding kfree
free_from zero finish vend p s = panics
free_from (suc fuel) finish vend p s =
    if leb (p + pgsize) vend
    then and_then (kfree finish p s) (λ _ t. free_from fuel finish vend (p + pgsize) t)
    else done tt s

-- `freerange` of addresses below 2^32 - 2 * pgsize; there are at most `vend / pgsize` pages
unfoldable pub freerange : ℕ → ℕ → ℕ → Cmd Kmem (Unit {0})
unfolding free_from
freerange finish vstart vend =
    free_from (suc (vend / pgsize)) finish vend ((vstart + pgsize - 1) / pgsize * pgsize)
