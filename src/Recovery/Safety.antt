-- ===== src/Recovery/Safety.antt =====
-- The provisioning of src/tboot.c spares the first device of the volume with the update.
use tboot.Base.{
  ◌≢◌, inl, inr, Option, none, some, List, [], ◌∷◌, ◌++◌, Text, codes, text_eq, text_eq_refl,
  Bool-cases,
}
use tboot.Base.Int.{ℤ, is_zero}
use tboot.Aboot.Target.{Part, Target}
use tboot.Recovery.{
  ready, not_ready, process_died, Provisioned, ready_if, provision_device, provision_part,
  provision_partition, then_provision, provisioning_checks,
}

-- None of these devices is the source, the first device of the volume with the update.
unfoldable pub Spares : Text → List Text → Type 0
Spares source [] = Unit
Spares source (device ∷ formats) = (device ≢ source) × Spares source formats

abbrev SparesAll : Text → Provisioned → Type 0
SparesAll source (outcome, formats) = Spares source formats

pub append-Spares :
    (source : Text) (xs ys : List Text)
    → Spares source xs
    → Spares source ys
    → Spares source (xs ++ ys)
unfolding Spares
append-Spares source [] ys hx hy = hy
append-Spares source (x ∷ xs) ys hx hy = (hx.0, append-Spares source xs ys hx.1 hy)

then-Spares :
    (source : Text) (first next : Provisioned)
    → SparesAll source first
    → SparesAll source next
    → SparesAll source (then_provision first next)
unfolding then_provision
then-Spares source (ready, formats) (outcome, more) h k = append-Spares source formats more h k
then-Spares source (not_ready, formats) next h k = h
then-Spares source (process_died, formats) next h k = h

module _ (target : Target) (source : Text) where
  device-Spares :
      (ptn : Part) (device : Option Text)
      → SparesAll source (provision_device target ptn source device)
  unfolding provision_device Spares
  device-Spares ptn none = tt
  device-Spares ptn (some device) = elim (Bool-cases (text_eq source device)) [
    | inl same ↦ rw same tt
    | inr other ↦ rw other ((λ e. cc (other, text_eq_refl source, e)), tt)
  ]

  part-Spares : (ptn : Option Part) → SparesAll source (provision_part target source ptn)
  unfolding provision_part Spares
  part-Spares none = tt
  part-Spares (some ptn) = device-Spares ptn (target.find_part_device ptn.name)

  partition-Spares : (name : Text) → SparesAll source (provision_partition target name source)
  unfolding provision_partition
  partition-Spares name = part-Spares (target.find_part name)

  -- Preparing for an update never formats the first device of its volume, whatever the disk, the
  -- partitions and the checks say.
  pub provisioning_checks-Spares :
      (platform : ℤ) → Spares source (provisioning_checks target platform source).1
  unfolding provisioning_checks Spares
  provisioning_checks-Spares platform =
      then-Spares source (ready_if (is_zero platform), []) _ tt
        (then-Spares source (provision_partition target (codes "cache") source)
          (provision_partition target (codes "userdata") source) (partition-Spares (codes "cache"))
          (partition-Spares (codes "userdata")))
