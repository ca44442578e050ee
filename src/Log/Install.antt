-- ===== src/Log/Install.antt =====
-- log.c: what `install_trans` and `write_log` leave in the cache and on the disk.
use operating_systems_assign.Base.{
  Bool, arith, false, if◌then◌else◌, refl, suc, zero, ℕ, ◌+◌, ◌-◌, ◌<◌, ◌==◌, ◌||◌, ◌∙◌, ◌≡◌, ◌≤◌,
  ◌⊎◌, inl, inr,
}
use operating_systems_assign.Log.{Block, Log, bwrite, fill, install_from, write_from}

-- `x` is one of the block numbers from `tail` on, among `m`
abbrev pub listed : (ℕ → ℕ) → ℕ → ℕ → ℕ → Bool
listed block x tail zero = false
listed block x tail (suc m) = x == block tail || listed block x (suc tail) m

-- The block lies outside the log at `start`, which has `k` slots.
abbrev pub IsHome : ℕ → ℕ → ℕ → Type 0
IsHome start k x = (x < start) ⊎ (start + k < x)

-- The block numbers from `tail` on, among `m`, lie outside the log.
abbrev pub Outside : (ℕ → ℕ) → ℕ → ℕ → ℕ → ℕ → Type 0
Outside block start k tail m = (t : ℕ) → tail ≤ t → t < tail + m → IsHome start k (block t)

-- A table of blocks holds, in the slots from `tail` on, the new contents of the blocks listed.
abbrev pub Slots : ℕ → (ℕ → ℕ) → (ℕ → Block) → (ℕ → Block) → ℕ → ℕ → Type 0
Slots start block new c tail m =
    (t : ℕ) → tail ≤ t → t < tail + m → c (start + t + 1) ≡ new (block t)

-- one round of the loop of `install_trans`
abbrev pub install_one : ℕ → Log → Log
install_one tail s = bwrite (s.block tail) (fill (s.block tail) (s.cache (s.start + tail + 1)) s)

pub not_listed :
    (block : ℕ → ℕ) (start k x : ℕ) (m tail : ℕ)
    → Outside block start k tail m
    → start ≤ x
    → x ≤ start + k
    → listed block x tail m ≡ false
not_listed block start k x zero tail o l h = refl
not_listed block start k x (suc m) tail o l h =
    let ih =
      not_listed block start k x m (suc tail) (λ t a b. o t (omega arith) (omega arith)) l h in
    let here = o tail (omega arith) (omega arith) in ground arith

-- What no power changes, and a block that is not listed.
pub install_from-frame :
    (m tail : ℕ) (s : Log)
    → ((install_from tail m s).start ≡ s.start)
      × ((install_from tail m s).block ≡ s.block)
      × ((install_from tail m s).power ≡ s.power - m)
unfolding install_from bwrite
install_from-frame zero tail s = (refl, refl, omega arith)
install_from-frame (suc m) tail s =
    let (a, b, c) = install_from-frame m (suc tail) (install_one tail s) in (a, b, c ∙ omega arith)

pub install_from-other :
    (m tail x : ℕ) (s : Log)
    → listed s.block x tail m ≡ false
    → ((install_from tail m s).disk x ≡ s.disk x) × ((install_from tail m s).cache x ≡ s.cache x)
unfolding install_from bwrite
install_from-other zero tail x s e = (refl, refl)
install_from-other (suc m) tail x s e =
    let (a, b) = install_from-other m (suc tail) x (install_one tail s) (ground arith) in
    (ground arith, ground arith)

-- With the slots right and power for all of the writes, each listed block has its new contents.
pub install_from-listed :
    (new : ℕ → Block) (k m tail x : ℕ) (s : Log)
    → Outside s.block s.start k tail m
    → tail + m ≤ k
    → m ≤ s.power
    → Slots s.start s.block new s.cache tail m
    → (install_from tail m s).disk x ≡ (if listed s.block x tail m then new x else s.disk x)
unfolding install_from bwrite
install_from-listed new k zero tail x s o l p c = refl
install_from-listed new k (suc m) tail x s o l p c =
    let ih =
      install_from-listed new k m (suc tail) x (install_one tail s)
        (λ t a b. o t (omega arith) (omega arith)) (omega arith) (omega arith)
        (λ t a b.
          let u = c t (omega arith) (omega arith) in
          let v = o tail (omega arith) (omega arith) in ground arith) in
    let here = c tail (omega arith) (omega arith) in ih ∙ ground arith

first_or_later : (tail t : ℕ) → tail ≤ t → (t ≡ tail) ⊎ (suc tail ≤ t)
first_or_later tail t h = omega arith

-- one round of the loop of `write_log`
abbrev pub write_one : ℕ → Log → Log
write_one tail s =
    bwrite (s.start + tail + 1) (fill (s.start + tail + 1) (s.cache (s.block tail)) s)

pub write_from-frame :
    (m tail : ℕ) (s : Log)
    → ((write_from tail m s).start ≡ s.start)
      × ((write_from tail m s).block ≡ s.block)
      × ((write_from tail m s).n ≡ s.n)
      × ((write_from tail m s).power ≡ s.power - m)
unfolding write_from bwrite
write_from-frame zero tail s = (refl, refl, refl, omega arith)
write_from-frame (suc m) tail s =
    let (a, b, c, d) = write_from-frame m (suc tail) (write_one tail s) in
    (a, b, c, d ∙ omega arith)

-- A block outside the slots written keeps its contents.
pub write_from-other :
    (m tail x : ℕ) (s : Log)
    → (x < s.start + tail + 1) ⊎ (s.start + tail + m < x)
    → ((write_from tail m s).disk x ≡ s.disk x) × ((write_from tail m s).cache x ≡ s.cache x)
unfolding write_from bwrite
write_from-other zero tail x s e = (refl, refl)
write_from-other (suc m) tail x s e =
    let (a, b) = write_from-other m (suc tail) x (write_one tail s) (ground arith) in
    (ground arith, ground arith)

-- The slots written get the contents of the blocks listed, on the disk if the power lasts.
pub write_from-Slots :
    (k m tail : ℕ) (s : Log)
    → Outside s.block s.start k tail m
    → tail + m ≤ k
    → Slots s.start s.block s.cache (write_from tail m s).cache tail m
      × (m ≤ s.power → Slots s.start s.block s.cache (write_from tail m s).disk tail m)
unfolding write_from bwrite
write_from-Slots k zero tail s o l = (λ t a b. ground arith, λ p t a b. ground arith)
write_from-Slots k (suc m) tail s o l =
    let (ih_c, ih_d) =
      write_from-Slots k m (suc tail) (write_one tail s) (λ t a b. o t (omega arith) (omega arith))
        (omega arith) in
    let (own_d, own_c) =
      write_from-other m (suc tail) (s.start + tail + 1) (write_one tail s) (inl (omega arith)) in
    let here = o tail (omega arith) (omega arith) in
    (
      λ t a b. elim (first_or_later tail t a) [
        | inl e ↦ ground arith
        | inr h ↦
            (let u = ih_c t h (omega arith) in
              let v = o t (omega arith) (omega arith) in ground arith)
      ],
      λ p t a b. elim (first_or_later tail t a) [
        | inl e ↦ ground arith
        | inr h ↦
            (let u = ih_d (omega arith) t h (omega arith) in
              let v = o t (omega arith) (omega arith) in ground arith)
      ],
    )
