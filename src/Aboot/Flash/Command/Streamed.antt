-- ===== src/Aboot/Flash/Command/Streamed.antt =====
-- A flash to a device: `cmd_stream_flash` of src/aboot.c from the node to the file system check.
use tboot.Base.{
  ℕ, min, ◌≡◌, refl, sym, ap, take, take-append, ◌⊎◌, inr, Bool, true, false, not, ◌||◌, Option,
  none, some, ◌++◌, Text, codes, text_eq, text_eq-eq, length,
}
use tboot.Fstab.{Volume, volume_for_device}
use tboot.Fastboot.{bouncebar}
use tboot.Fastboot.Online.{fastboot_fail-Online}
use tboot.Fastboot.Reply.{fastboot_fail}
use tboot.Aboot.Target.{Target, ext4_filesystem_checks}
use tboot.Aboot.Flow.Outcome.{
  Steps, bind-Steps, guard-Steps, or_abort-Steps, tell-Steps, without_thread-Steps, then-Steps,
  weaken-Steps,
}
use tboot.Aboot.Flash.{System, Node, buffer_size, command_line, ext4_volume, partition_node}
use tboot.Aboot.Flash.Filling.{SumsFit, Extends}
use tboot.Aboot.Flash.Outcome.{first_piece-Steps, all_pieces-Steps}
use tboot.Aboot.Flash.Command.{
  Flashed, by_function, streamed, reopen, has_superblock, check_filesystem, stream_to,
}

abbrev Ext4On : Target → Text → Type 0
Ext4On target device =
    (v : Volume) × (volume_for_device device target.volumes ≡ some v) × (v.fs_type ≡ codes "ext4")

-- Where a stream may go: to the whole disk, or to the device of a partition on an ext4 volume.
abbrev pub Allowed : Target → Text → Text → Type 0
Allowed target name device =
    ((name ≡ codes "disk") × (device ≡ target.disk_device))
    ⊎ ((target.find_part_device name ≡ some device) × Ext4On target device)

-- A streamed flash has received an image of the announced length, whose first piece has chosen the
-- command.
abbrev pub WholeImage : System → ℕ → Text → Flashed → Type 0
WholeImage system len device by_function = ⊥
WholeImage system len device (streamed line image) =
    (SumsFit len → length image ≡ len)
    × (line ≡ command_line (take (min len buffer_size) image ++ system.heap) device)

same_magic :
    (len : ℕ) (heap first image : Text)
    → length first ≡ min len buffer_size
    → Extends first image
    → first ++ heap ≡ take (min len buffer_size) image ++ heap
same_magic len heap first image full (more, e) = rw (sym full, e, take-append first more) refl

module _ (n : ℕ) (system : System) (target : Target) where
  ext4_volume-Steps :
      (stuck : Type 0) (device : Text) (o : Option Volume)
      → volume_for_device device target.volumes ≡ o
      → Steps {0} n stuck (λ _. Ext4On target device) (ext4_volume o)
  unfolding ext4_volume fastboot_fail
  ext4_volume-Steps stuck device none e =
      λ s on. (fastboot_fail-Online n (codes "invalid fstab or disk layout config") s on, refl)
  ext4_volume-Steps stuck device (some v) e =
      let is = text_eq v.fs_type (codes "ext4") in
      weaken-Steps {0} n stuck (λ _. is ≡ true) (λ _. Ext4On target device) _
        (λ _ same. (v, e, text_eq-eq v.fs_type (codes "ext4") same))
        (guard-Steps n stuck is (codes "unsupport filesystem type"))

  pub node-Steps :
      (stuck : Type 0) (name : Text)
      → Steps n stuck (λ node. Allowed target name node.device) (partition_node target name)
  unfolding partition_node
  node-Steps stuck name =
      let good = λ (node : Node). Allowed target name node.device in
      bind-Steps n stuck (λ device. target.find_part_device name ≡ some device) good _ _
        (or_abort-Steps n stuck (target.find_part_device name)
          (codes "unknown partition specified"))
        (λ device found.
          bind-Steps {0, 0} n stuck (λ _. Ext4On target device) good _ _
            (ext4_volume-Steps stuck device (volume_for_device device target.volumes) refl)
            (λ _ ext4 s on. (on, inr (found, ext4))))

  reopen-Steps :
      (stuck : Type 0) (device : Text) → Steps {0} n stuck (λ _. Unit) (reopen system target device)
  unfolding reopen
  reopen-Steps stuck device =
      let ok = not (text_eq device target.disk_device) || system.reopens in
      weaken-Steps {0} n stuck (λ _. ok ≡ true) (λ _. Unit) _ (λ _ _. tt)
        (guard-Steps n stuck ok (codes "could not open device node"))

  check-Steps :
      (stuck : Type 0) (device : Text) (b : Bool)
      → Steps {0} n stuck (λ _. Unit) (check_filesystem target device b)
  unfolding check_filesystem
  check-Steps stuck device false = λ s on. (on, tt)
  check-Steps stuck device true =
      then-Steps {0} n stuck (λ _. Unit) _ _
        (tell-Steps n stuck (bouncebar (codes "File system checking...")))
        (weaken-Steps {0} n stuck (λ _. ext4_filesystem_checks target device ≡ true) (λ _. Unit) _
          (λ _ _. tt)
          (guard-Steps n stuck (ext4_filesystem_checks target device)
            (codes "ext4 filesystem error")))

  pub stream_to-Steps :
      (node : Node) (len : ℕ)
      → Steps n
          (SumsFit len → ⊥)
          (WholeImage system len node.device)
          (stream_to system target node len)
  unfolding stream_to
  stream_to-Steps node len =
      let stuck = SumsFit len → ⊥ in
      let good = WholeImage system len node.device in
      bind-Steps n stuck (λ bytes. length bytes ≡ min len buffer_size) good _ _
        (without_thread-Steps n stuck (λ bytes. length bytes ≡ min len buffer_size) _
          (first_piece-Steps n system len))
        (λ bytes full.
          bind-Steps n stuck (λ f. (SumsFit len → length f.image ≡ len) × Extends bytes f.image)
            good _ _ (all_pieces-Steps n system len bytes full)
            (λ f whole.
              then-Steps n stuck good _ _ (tell-Steps n stuck (bouncebar (codes "Syncing..."))) (
                then-Steps n stuck good _ _ (reopen-Steps stuck node.device) (
                  bind-Steps n stuck (λ b. has_superblock target node.ptn ≡ some b) good _ _
                    (or_abort-Steps n stuck (has_superblock target node.ptn)
                      (codes "couldn't check superblock"))
                    (λ check _.
                      then-Steps n stuck good _ _ (check-Steps stuck node.device check) (λ s on. (
                        on,
                        (
                          whole.0,
                          ap (λ m. command_line m node.device)
                              (same_magic len system.heap bytes f.image full whole.1),
                        ),
                      )))))))
