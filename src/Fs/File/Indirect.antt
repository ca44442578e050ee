-- ===== src/Fs/File/Indirect.antt =====
-- fs.c: a file that grows, and the step of `bmap` that gives it its indirect block.
use operating_systems_assign.CString.{Bytes}
use operating_systems_assign.Base.{
  arith, suc, ℕ, ◌+◌, ◌<◌, ◌≡◌, ◌≤◌, ap, inl, inr, refl, sym, ◌%◌, ◌*◌, ◌/◌, ◌∙◌, ◌≢◌,
}
use operating_systems_assign.Fs.{Disk, Super, maxfile, uint, bsize}
use operating_systems_assign.Fs.Alloc.Sound.{Allocated, Reserved}
use operating_systems_assign.Fs.Alloc.Room.{free_blocks}
use operating_systems_assign.Fs.File.{View}
use operating_systems_assign.Fs.File.Mapping.{
  Changes, Changes-bytes, Changes-refl, Changes-trans, Placed, Sound, byte_at, indirect_of, IsData,
  IsData-IsOther, addr_of, byte_at-absent, byte_at-there, free-behind, free-other, same_or_not,
}
use operating_systems_assign.Fs.File.Grow.{Placed-Changes, Placed-Sound}
use operating_systems_assign.Fs.File.Place.{indirect-addrs, indirect_view}

-- `t` comes of `s` by giving the file blocks: the same contents, at most `k` blocks fewer free.
pub record Grown (sb : Super) (s t : View) (k : ℕ) : Type 0 where
  pub sound : Sound sb t
  pub changes : Changes sb s t (byte_at s)
  pub taken : free_blocks sb s.disk ≤ free_blocks sb t.disk + k

pub Grown-refl : (sb : Super) (s : View) → Sound sb s → Grown sb s s 0
Grown-refl sb s h = record { sound = h; changes = Changes-refl sb s; taken = omega arith }

pub Grown-mono : (sb : Super) (s t : View) (k l : ℕ) → k ≤ l → Grown sb s t k → Grown sb s t l
Grown-mono sb s t k l m g =
    let a = g.taken in record { sound = g.sound; changes = g.changes; taken = omega arith }

pub Grown-trans :
    (sb : Super) (s t u : View) (k l : ℕ) → Grown sb s t k → Grown sb t u l → Grown sb s u (k + l)
Grown-trans sb s t u k l g h =
    let a = g.taken in
    let b = h.taken in
    record {
      sound = h.sound;
      changes =
          Changes-bytes sb s u (byte_at t) (byte_at s)
            (Changes-trans sb s t u (byte_at s) (byte_at t) g.changes h.changes) g.changes.contents;
      taken = omega arith;
    }

module _ (sb : Super) (big : sb.size < uint) (s : View) (sound : Sound sb s) where
  module _ (e : Disk) (b : ℕ) (al : Allocated sb s.disk e b)
      (one : suc (free_blocks sb e) ≡ free_blocks sb s.disk) where
    pub Placed-Grown :
        (t : View) (bn : ℕ)
        → bn < maxfile
        → Placed sb s t bn b
        → free_blocks sb t.disk ≡ free_blocks sb e
        → Grown sb s t 1
    Placed-Grown t bn l p f = record {
      sound = Placed-Sound sb s t bn b l sound p;
      changes = Placed-Changes sb s t bn b l sound p;
      taken = omega arith;
    }

    t : View
    t = indirect_view sb s sound e b al

    same_addr : indirect_of s ≡ 0 → (bm : ℕ) → bm < maxfile → addr_of t bm ≡ addr_of s bm
    unfolding t
    same_addr z bm m = indirect-addrs sb s sound e b al bm m z

    IsData-still : (x : ℕ) → IsData sb s.disk x → IsData sb e x
    IsData-still x h =
        let u = al.used x h.below in
        let k = h.held in record { below = h.below; behind = h.behind; held = ground (arith, u, k) }

    new-IsData : IsData sb e b
    new-IsData =
        let u = al.used b al.in_size in
        record {
          below = al.in_size;
          behind = free-behind sb s.disk sound.reserved b al.was_free;
          held = ground (arith, u);
        }

    Reserved-still : Reserved sb e
    Reserved-still x l =
        let v = free-behind sb s.disk sound.reserved b al.was_free in
        let w = al.in_size in
        let u = al.used x (omega arith) in let r = sound.reserved x l in ground (arith, u, r)

    block-new : (bm : ℕ) → bm < maxfile → addr_of s bm ≢ 0 → addr_of s bm ≢ b
    block-new bm m ne =
        free-other sb s.disk sound.reserved b al.was_free _ (sound.file.blocks bm m ne).held

    indirect-Sound : indirect_of s ≡ 0 → Sound sb t
    unfolding t
    indirect-Sound z =
        let same = same_addr z in
        record {
          reserved = Reserved-still;
          file = record {
            blocks = λ bm m ne.
                simp (same bm m)
                  (IsData-still _ (sound.file.blocks bm m (λ q. ne (same bm m ∙ q))));
            indirect = λ _. new-IsData;
            once = λ bm bk m k ne q.
                sound.file.once bm bk m k (λ r. ne (same bm m ∙ r))
                  (sym (same bm m) ∙ q ∙ same bk k);
            aside = λ bm m ne q. block-new bm m (λ r. ne (same bm m ∙ r)) (sym (same bm m) ∙ q);
          };
        }

    indirect-bytes :
        indirect_of s ≡ 0 → (off : ℕ) → off < maxfile * bsize → byte_at t off ≡ byte_at s off
    unfolding t
    indirect-bytes z off l =
        let bm = off / bsize in
        let m : bm < maxfile = omega arith in
        let same = same_addr z bm m in
        elim (same_or_not (addr_of s bm) 0) [
          | inl q ↦ byte_at-absent t off (same ∙ q) ∙ sym (byte_at-absent s off q)
          | inr ne ↦
              byte_at-there t off (λ q. ne (sym same ∙ q))
              ∙ ap (λ (c : ℕ). e c (off % bsize)) same
              ∙ ap (λ (c : Bytes). c (off % bsize))
                  (al.same _ (block-new bm m ne)
                    (IsData-IsOther sb s.disk _ (sound.file.blocks bm m ne)))
              ∙ sym (byte_at-there s off ne)
        ]

    indirect-Changes : indirect_of s ≡ 0 → Changes sb s t (byte_at s)
    unfolding t
    indirect-Changes z = record {
      contents = indirect-bytes z;
      fields = refl;
      keeps = λ bn l n q. n (sym (same_addr z bn l) ∙ q);
      others = λ x l u f.
          let ne = free-other sb s.disk sound.reserved b al.was_free x u in
          record {
            foreign = record {
              not_indirect = ne;
              not_block = λ bm m q. f.not_block bm m (q ∙ same_addr z bm m);
            };
            used = let q = al.used x l in ground (arith, q, u);
            same = al.same x ne;
          };
    }

    pub indirect-Grown : indirect_of s ≡ 0 → Grown sb s (indirect_view sb s sound e b al) 1
    unfolding t
    indirect-Grown z = record {
      sound = indirect-Sound z;
      changes = indirect-Changes z;
      taken = omega arith;
    }
