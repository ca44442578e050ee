-- ===== src/Fs/File/Freed.antt =====
-- fs.c: the blocks of a file freed one by one, as the loops of `itrunc` do it.

use operating_systems_assign.Base.{
  ap, arith, false, inl, inr, refl, suc, true, ℕ, ◌<◌, ◌∙◌, ◌≡◌, ◌≢◌,
}
use operating_systems_assign.Kernel.Ends.{Ends, Ends-mono}
use operating_systems_assign.Fs.{Disk, Super, maxfile}
use operating_systems_assign.Fs.Alloc.{bfree}
use operating_systems_assign.Fs.Alloc.Sound.{IsOther, bfree-Freed, in_use}
use operating_systems_assign.Fs.File.{View}
use operating_systems_assign.Fs.File.Mapping.{Sound, addr_of, if_at, if_off, same_or_not}

-- The disk `d` comes of that of `s` by freeing the blocks of the file below the number `i`.
pub record FreedTo (sb : Super) (s : View) (i : ℕ) (d : Disk) : Type 0 where
  pub freed : (bn : ℕ) → bn < i → addr_of s bn ≢ 0 → in_use sb d (addr_of s bn) ≡ false
  pub kept : (x : ℕ) → ((bn : ℕ) → bn < i → x ≢ addr_of s bn) → in_use sb d x ≡ in_use sb s.disk x
  pub same : (x : ℕ) → IsOther sb x → x < sb.size → d x ≡ s.disk x

module _ (sb : Super) (s : View) (sound : Sound sb s) where
  pub FreedTo-zero : FreedTo sb s 0 s.disk
  FreedTo-zero = record {
    freed = λ bn l. absurd (omega arith);
    kept = λ x h. refl;
    same = λ x o l. refl;
  }

  -- a block that is not there takes no round
  pub FreedTo-skip :
      (i : ℕ) (d : Disk) → addr_of s i ≡ 0 → FreedTo sb s i d → FreedTo sb s (suc i) d
  FreedTo-skip i d z f = record {
    freed = λ bn l ne. elim (same_or_not bn i) [
      | inl e ↦ absurd (ne (ap (addr_of s) e ∙ z))
      | inr o ↦ f.freed bn (omega arith) ne
    ];
    kept = λ x h. f.kept x (λ bn l. h bn (omega arith));
    same = f.same;
  }

  FreedTo-held :
      (i : ℕ) (d : Disk)
      → i < maxfile
      → addr_of s i ≢ 0
      → FreedTo sb s i d
      → in_use sb d (addr_of s i) ≡ true
  FreedTo-held i d l ne f =
      f.kept (addr_of s i)
        (λ bn m e. absurd (let q = sound.file.once i bn l (omega arith) ne e in omega arith))
      ∙ (sound.file.blocks i l ne).held

  pub FreedTo-next :
      (i : ℕ) (d : Disk)
      → i < maxfile
      → addr_of s i ≢ 0
      → FreedTo sb s i d
      → Ends (λ _ e. FreedTo sb s (suc i) e) (bfree sb (addr_of s i) d)
  FreedTo-next i d l ne f =
      let a = addr_of s i in
      Ends-mono (bfree-Freed sb d a (FreedTo-held i d l ne f)) (λ _ e (bits, disk). record {
        freed = λ bn m there. elim (same_or_not (addr_of s bn) a) [
          | inl q ↦ bits (addr_of s bn) ∙ if_at (addr_of s bn) a false _ q
          | inr q ↦
              bits (addr_of s bn)
              ∙ if_off (addr_of s bn) a false _ q
              ∙ f.freed bn
                  (elim (same_or_not bn i) [
                    | inl r ↦ absurd (q (ap (addr_of s) r))
                    | inr r ↦ omega arith
                  ])
                  there
        ];
        kept = λ x h.
            bits x ∙ if_off x a false _ (h i (omega arith)) ∙ f.kept x (λ bn m. h bn (omega arith));
        same = λ x o m.
            disk x (let b = (sound.file.blocks i l ne).below in λ z. omega arith) ∙ f.same x o m;
      })
