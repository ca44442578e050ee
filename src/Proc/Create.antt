-- ===== src/Proc/Create.antt =====
-- proc.c: `allocproc` and `fork` keep the invariant of the process table.
use operating_systems_assign.Kernel.{done, pure}
use operating_systems_assign.Base.Int.{negsuc}
use operating_systems_assign.Base.{
  Bool-cases, Option, arith, false, inl, inr, none, refl, some, true, ℕ, ◌<◌, ◌==◌, ◌≡◌, List, [],
  drop, ◌∷◌, ap, ◌∙◌, Bool, if◌then◌else◌,
}
use operating_systems_assign.Kernel.Ends.{Safe, returns, Safe-bind}
use operating_systems_assign.Proc.{
  Proc, ProcOps, ProcState, Procs, find_from, is_unused, nproc, parent_is, update,
}
use operating_systems_assign.Proc.Ops.{
  alloc_found, allocproc, set_stack, fork_child, dup_files, fork, fork_alloc, set_cwd, alloc_stack,
  fork_fill, fork_settle, take_entry,
}
use operating_systems_assign.Proc.Inv.{
  alloc-TableInv, fill-TableInv, give_up-TableInv, live, settle-TableInv,
}
use operating_systems_assign.Proc.Scan.{find_from-some}
use operating_systems_assign.Proc.Steps.{Good, ext_bind}

-- The process `np` is in creation, and `cur` can run.
pub record Creating {E : Type 0} (cur np : ℕ) (s : Procs E) : Type 0 where
  pub good : Good s
  pub np_in : np < nproc
  pub cur_in : cur < nproc
  pub embryo_ : (s.proc np).state ≡ ProcState.embryo
  pub runs : live (s.proc cur).state ≡ true

runs-update :
    (f : ℕ → Proc) (cur i : ℕ) (p : Proc)
    → live (f cur).state ≡ true
    → live (f i).state ≡ false
    → live (update f i p cur).state ≡ true
runs-update f cur i p a b = ground arith

update_self : (f : ℕ → Proc) (i : ℕ) (p : Proc) → update f i p i ≡ p
update_self f i p = ground arith

apart :
    (f : ℕ → Proc) (cur i : ℕ)
    → live (f cur).state ≡ true
    → (f i).state ≡ ProcState.embryo
    → (cur == i) ≡ false
apart f cur i a b = ground arith

is_unused-eq : (st : ProcState) → is_unused st ≡ true → st ≡ ProcState.unused
is_unused-eq st e = ground arith

module _ {E : Type 0} (ops : ProcOps E) (cur : ℕ) where
  abbrev put : Procs E → ℕ → Proc → Procs E
  put s np p = record s { proc = update s.proc np p }

  put-Creating :
      (s : Procs E) (np : ℕ) (p : Proc)
      → Creating cur np s
      → p.state ≡ ProcState.embryo
      → parent_is p.parent np ≡ false
      → Creating cur np (put s np p)
  put-Creating s np p c e o = record {
    good = fill-TableInv s.proc s.initproc c.good np p c.np_in c.embryo_ e o;
    np_in = c.np_in;
    cur_in = c.cur_in;
    embryo_ = ground arith;
    runs = ground (arith, c.runs, c.embryo_);
  }

  ext-Creating :
      (s : Procs E) (np : ℕ) (e : E) → Creating cur np s → Creating cur np (record s { ext = e })
  ext-Creating s np e c = record {
    good = c.good;
    np_in = c.np_in;
    cur_in = c.cur_in;
    embryo_ = c.embryo_;
    runs = c.runs;
  }

  -- giving the process in creation up
  drop-Good :
      (s : Procs E) (np : ℕ) (p : Proc)
      → Creating cur np s
      → p.state ≡ ProcState.unused
      → p.parent ≡ (s.proc np).parent
      → Good (put s np p)
  drop-Good s np p c e o = give_up-TableInv s.proc s.initproc c.good np p c.embryo_ e o

  -- A process in creation, if there is one.
  unfoldable pub Fresh : Option ℕ → Procs E → Type 0
  Fresh none t = Good t
  Fresh (some i) t = Creating cur i t

  -- The section of `allocproc` under ptable.lock takes a free entry.
  pub take_entry-Creating :
      (s : Procs E) (i : ℕ)
      → Good s
      → cur < nproc
      → live (s.proc cur).state ≡ true
      → i < nproc
      → (s.proc i).state ≡ ProcState.unused
      → Safe (λ _ t. Creating cur i t) (take_entry ops i s)
  take_entry-Creating s i v hc run hi t =
      let p1 = record (s.proc i) { state = ProcState.embryo; pid = s.nextpid } in
      returns (record {
        good = alloc-TableInv s.proc s.initproc v i p1 hi t refl refl;
        np_in = hi;
        cur_in = hc;
        embryo_ = ground arith;
        runs = runs-update s.proc cur i p1 run (ap live t);
      })

  -- The rest of `allocproc` keeps the invariant, with or without a kernel stack.
  pub alloc_stack-Fresh :
      (s : Procs E) (i : ℕ) → Creating cur i s → Safe Fresh (alloc_stack ops i s)
  unfolding Fresh
  alloc_stack-Fresh s1 i c1 = ext_bind (ops.kalloc s1.ext) _ s1 λ k x.
      let s2 : Procs E = record s1 { ext = x } in
      let p2 = record (s1.proc i) { kstack = k } in
      let c2 : Creating cur i (put s2 i p2) =
        put-Creating s2 i p2 (ext-Creating s1 i x c1) c1.embryo_ (c1.good.no_self i c1.np_in) in
      elim (Bool-cases (k == 0)) [
        | inl z ↦ simp z (
            returns (
              drop-Good (put s2 i p2) i (record ((put s2 i p2).proc i) { state = ProcState.unused })
                c2 refl refl))
        | inr z ↦ simp z (
            returns (
              put-Creating (put s2 i p2) i (set_stack ops k ((put s2 i p2).proc i)) c2 c2.embryo_
                (c2.good.no_self i c2.np_in)))
      ]

  allocproc-Fresh :
      (s : Procs E)
      → Good s
      → cur < nproc
      → live (s.proc cur).state ≡ true
      → Safe Fresh (allocproc ops s)
  unfolding allocproc Fresh
  allocproc-Fresh s v hc run = go (find_from (λ p. is_unused p.state) s.proc 0 nproc) refl
    where
      go :
          (o : Option ℕ)
          → find_from (λ p. is_unused p.state) s.proc 0 nproc ≡ o
          → Safe Fresh (alloc_found ops o s)
      go none e = returns v
      go (some i) e =
          let (_, lt, t, _) = find_from-some (λ p. is_unused p.state) s.proc 0 nproc i e in
          Safe-bind
            (take_entry-Creating s i v hc run (omega arith) (is_unused-eq (s.proc i).state t))
            (λ _ u c. alloc_stack-Fresh u i c)

  dup_files_ext :
      (fs own : List ℕ) (s : Procs E)
      → Safe (λ _ t. t ≡ record s { ext = t.ext }) (dup_files ops fs own s)
  unfolding dup_files
  dup_files_ext [] own s = returns refl
  dup_files_ext (f ∷ fs) own s = elim (Bool-cases (f == 0)) [
    | inl z ↦ simp z (Safe-bind (dup_files_ext fs (drop 1 own) s) λ gs t e. returns e)
    | inr z ↦ simp z (
        ext_bind (ops.filedup f s.ext) _ s λ g x.
          Safe-bind (dup_files_ext fs (drop 1 own) (record s { ext = x })) λ gs t e. returns e)
  ]

  abbrev child_of : Proc → Proc → Proc
  child_of q p = record p {
    uid = q.uid;
    sz = q.sz;
    parent = some cur;
    frame = record { eax = 0; others = q.frame.others };
  }

  -- The process `np` is in creation as a child of `cur`.
  unfoldable pub Filled : ℕ → Bool → Procs E → Type 0
  Filled np true t = Creating cur np t × ((t.proc np).parent ≡ some cur)
  Filled np false t = Good t

  set_cwd-Filled :
      (s : Procs E) (np : ℕ) (p : Proc) (y : E)
      → Creating cur np s
      → p.state ≡ (s.proc np).state
      → (s.proc np).parent ≡ some cur
      → p.parent ≡ (s.proc np).parent
      → Safe (Filled np) (done true (put (record s { ext = y }) np p))
  unfolding Filled
  set_cwd-Filled s np p y c e o o' = returns (
    put-Creating (record s { ext = y }) np p (ext-Creating s np y c) (e ∙ c.embryo_)
        (ap (λ o. parent_is o np) (o' ∙ o) ∙ apart s.proc cur np c.runs c.embryo_),
    ap (λ (p : Proc). p.parent) (update_self s.proc np p) ∙ o' ∙ o,
  )

  -- `fork` up to its last section keeps the invariant, and settles no process.
  pub fork_fill-Filled :
      (s : Procs E) (np : ℕ) → Creating cur np s → Safe (Filled np) (fork_fill ops cur np s)
  unfolding fork_fill Filled
  fork_fill-Filled s np c =
      ext_bind (ops.copyuvm (s.proc cur).pgdir (s.proc cur).sz s.ext) _ s λ d x.
        let s1 : Procs E = record s { ext = x } in
        let s2 : Procs E = put s1 np (record (s1.proc np) { pgdir = d }) in
        let c2 : Creating cur np s2 =
          put-Creating s1 np (record (s1.proc np) { pgdir = d }) (ext-Creating s np x c) c.embryo_
            (c.good.no_self np c.np_in) in
        elim (Bool-cases (d == 0)) [
          | inl z ↦ simp z (
              ext_bind (ops.kfree (s.proc np).kstack x) _ s2 λ _ y.
                let s3 : Procs E = record s2 { ext = y } in
                returns (
                  drop-Good s3 np (record (s3.proc np) { kstack = 0; state = ProcState.unused })
                    (ext-Creating s2 np y c2) refl refl))
          | inr z ↦ simp z (
              let p3 = child_of (s.proc cur) (s2.proc np) in
              let s3 : Procs E = put s2 np p3 in
              let c3 : Creating cur np s3 =
                put-Creating s2 np p3 c2 c2.embryo_ (apart s2.proc cur np c2.runs c2.embryo_) in
              Safe-bind (dup_files_ext (s.proc cur).ofile (s.proc np).ofile s3) λ files t e. rw e (
                let s4 : Procs E = record s3 { ext = t.ext } in
                let p5 = record (s4.proc np) { ofile = files } in
                let c5 : Creating cur np (put s4 np p5) =
                  put-Creating s4 np p5 (ext-Creating s3 np t.ext c3) c3.embryo_
                    (c3.good.no_self np c3.np_in) in
                ext_bind (ops.idup (s.proc cur).cwd t.ext) _ (put s4 np p5) λ cwd y.
                  set_cwd-Filled (put s4 np p5) np
                    (set_cwd ops cwd (s.proc cur).name ((put s4 np p5).proc np)) y c5 refl
                    (ap (λ (p : Proc). p.parent) (update_self s4.proc np p5)
                      ∙ ap (λ (p : Proc). p.parent) (update_self s2.proc np p3))
                    refl))
        ]

  -- The last section of `fork` settles the child.
  pub fork_settle-Good :
      (s : Procs E) (np : ℕ)
      → Creating cur np s
      → (s.proc np).parent ≡ some cur
      → Safe (λ _ t. Good t) (fork_settle ops np s)
  unfolding fork_settle
  fork_settle-Good s np c o = returns (
      settle-TableInv s.proc s.initproc c.good np
        (record (s.proc np) { state = ProcState.runnable }) cur c.np_in c.cur_in c.runs c.embryo_
        refl o)

  fork_child-Good :
      (s : Procs E) (np : ℕ) → Creating cur np s → Safe (λ _ t. Good t) (fork_child ops cur np s)
  unfolding fork_child Filled
  fork_child-Good s np c = Safe-bind (fork_fill-Filled s np c) go
    where
      go :
          (b : Bool) (t : Procs E)
          → Filled np b t
          → Safe (λ _ t. Good t) ((if b then fork_settle ops np else pure (negsuc 0)) t)
      go true t (c, o) = fork_settle-Good t np c o
      go false t v = returns v

  -- `fork` keeps the invariant, whether it makes a child or fails for want of an entry, a kernel stack
  -- or a page table.
  pub fork-Good :
      (s : Procs E)
      → Good s
      → cur < nproc
      → live (s.proc cur).state ≡ true
      → Safe (λ _ t. Good t) (fork ops cur s)
  unfolding fork Fresh
  fork-Good s v hc run = Safe-bind (allocproc-Fresh s v hc run) go
    where
      go : (o : Option ℕ) (t : Procs E) → Fresh o t → Safe (λ _ t. Good t) (fork_alloc ops cur o t)
      go none t h = returns h
      go (some np) t h = fork_child-Good t np h
