-- ===== src/Kalloc/Chain.antt =====
-- kalloc.c: the list of free pages, as a stack of distinct pages.
use operating_systems_assign.Base.{
  List, [], arith, false, refl, ℕ, ◌%◌, ◌∷◌, ◌≡◌, ◌≢◌, ◌⊎◌, inl, inr, true, ◌==◌,
}
use operating_systems_assign.Kernel.Ends.{Ends, ends}
use operating_systems_assign.Kalloc.{Kmem, bad_page, kalloc, kfree, link_page, pgsize}

abbrev pub Apart : ℕ → List ℕ → Type 0
Apart v [] = Unit
Apart v (p ∷ ps) = (v ≢ p) × Apart v ps

-- The words of memory link the pages from `head` on.
abbrev pub Chain : (ℕ → ℕ) → ℕ → List ℕ → Type 0
Chain words head [] = head ≡ 0
Chain words head (p ∷ ps) =
    (head ≡ p) × (p ≢ 0) × (p % pgsize ≡ 0) × Apart p ps × Chain words (words p) ps

-- the pages that are free, the last freed first
abbrev pub Free : Kmem → List ℕ → Type 0
Free s ps = Chain s.words s.freelist ps

Chain-link :
    (words : ℕ → ℕ) (v next head : ℕ) (ps : List ℕ)
    → v % pgsize ≡ 0
    → Apart v ps
    → Chain words head ps
    → Chain (link_page v next words) head ps
Chain-link words v next head [] a h c = c
Chain-link words v next head (p ∷ ps) a (ne, h) (e, nz, al, ap_p, c) =
    let kept : link_page v next words p ≡ words p = ground arith in
    (e, nz, al, ap_p, simp (kept) (Chain-link words v next (words p) ps a h c))

-- A valid page that is not free yet goes on top of the stack; the other free pages stay linked,
-- although the freed page is overwritten.
pub kfree-Free :
    (finish v : ℕ) (s : Kmem) (ps : List ℕ)
    → Free s ps
    → Apart v ps
    → bad_page finish v ≡ false
    → v ≢ 0
    → Ends (λ _ t. Free t (v ∷ ps)) (kfree finish v s)
unfolding kfree
kfree-Free finish v s ps c h good nz =
    let al : v % pgsize ≡ 0 = ground arith in
    let own : link_page v s.freelist s.words v ≡ s.freelist = ground arith in
    simp (good)
      (ends (refl, nz, al, h, simp (own) (Chain-link s.words v s.freelist s.freelist ps al h c)))

-- what `kalloc` makes of the free pages `ps`
abbrev pub Given : List ℕ → ℕ → Kmem → Type 0
Given ps v t =
    ((v ≡ 0) × (ps ≡ []) × Free t [])
    ⊎ ((rest : List ℕ) × (ps ≡ v ∷ rest) × Free t rest × Apart v rest × (v ≢ 0))

-- `kalloc` gives the page on top of the stack and takes it off, so that no free page is given twice
-- before it is freed; with no page free it returns 0.
pub kalloc-Free : (s : Kmem) (ps : List ℕ) → Free s ps → Ends (λ v t. Given ps v t) (kalloc s)
unfolding kalloc
kalloc-Free s [] c =
    let z : (s.freelist == 0) ≡ true = ground arith in simp (z) (ends (inl (refl, refl, c)))
kalloc-Free s (p ∷ ps) (e, nz, al, h, c) =
    let z : (p == 0) ≡ false = ground arith in simp (e, z) (ends (inr (ps, refl, c, h, nz)))
