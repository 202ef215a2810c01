-- ===== src/Aboot/Flash/Command/Ending.antt =====
-- How `cmd_stream_flash` of src/aboot.c ends on the whole.
use tboot.Base.{
  ℕ, min, ◌≡◌, refl, take, ◌≢◌, inl, inr, Option, none, some, ◌++◌, Text, codes, text_eq,
  text_eq-eq, length, Bool-cases,
}
use tboot.Base.Int.{ℤ, is_zero}
use tboot.Fastboot.{Session}
use tboot.Fastboot.Online.{Online}
use tboot.Fastboot.Download.{download_to}
use tboot.Fastboot.Download.Online.{download_to-Online}
use tboot.Aboot.Target.{Target, hashmap_get}
use tboot.Aboot.Commands.{show}
use tboot.Aboot.Target.Registry.{AllOf, found-law}
use tboot.Aboot.Flow.{Exit, go, goto_error, hangs, crash}
use tboot.Aboot.Flow.Outcome.{
  Outcome, Steps, bind-Steps, without_thread-Steps, abort-Outcome, weaken-Steps,
}
use tboot.Aboot.Flash.{System, Node, buffer_size, command_line}
use tboot.Aboot.Flash.Filling.{SumsFit}
use tboot.Aboot.Flash.Command.{
  Flashed, by_function, streamed, stream_to, call_function, function_result, flash_other,
  downloaded_or_abort, by_registered, to_partition, flash_image,
}
use tboot.Aboot.Flash.Command.Streamed.{Allowed, WholeImage, node-Steps, stream_to-Steps}

-- A flash function keeps the protocol online; what it replies is its own.
abbrev pub FunctionLaw : ℕ → (Text → Session → ℤ × Session) → Type 0
FunctionLaw n callback = (bytes : Text) (s : Session) → Online n s → Online n (callback bytes s).1

-- What a flash that succeeds has done: a function that is registered for the name has run, or an
-- image of the announced length has been received for the command that its first piece chooses, for
-- a device that the name allows.
abbrev pub FlashedAs : System → Target → Text → ℕ → Flashed → Type 0
FlashedAs system target name len by_function = hashmap_get name target.flash_cmds ≢ none
FlashedAs system target name len (streamed line image) =
    (SumsFit len → length image ≡ len)
    × (device : Text) × Allowed target name device
    × (line ≡ command_line (take (min len buffer_size) image ++ system.heap) device)

whole-FlashedAs :
    (system : System) (target : Target) (name : Text) (len : ℕ) (device : Text) (flashed : Flashed)
    → Allowed target name device
    → WholeImage system len device flashed
    → FlashedAs system target name len flashed
whole-FlashedAs system target name len device by_function allowed h = absurd h
whole-FlashedAs system target name len device (streamed line image) allowed h =
    (h.0, device, allowed, h.1)

module _ (n : ℕ) (system : System) (target : Target) where
  named_stream-Steps :
      (name : Text) (node : Node) (len : ℕ)
      → Allowed target name node.device
      → Steps n
          (SumsFit len → ⊥)
          (FlashedAs system target name len)
          (stream_to system target node len)
  named_stream-Steps name node len allowed =
      weaken-Steps n (SumsFit len → ⊥) (WholeImage system len node.device)
        (FlashedAs system target name len) _
        (λ flashed whole. whole-FlashedAs system target name len node.device flashed allowed whole)
        (stream_to-Steps n system target node len)

  to_partition-Steps :
      (name : Text) (len : ℕ)
      → Steps n
          (SumsFit len → ⊥)
          (FlashedAs system target name len)
          (to_partition system target name len)
  unfolding to_partition
  to_partition-Steps name len =
      let stuck = SumsFit len → ⊥ in
      let allowed = λ (node : Node). Allowed target name node.device in
      bind-Steps n stuck allowed (FlashedAs system target name len) _ _
        (without_thread-Steps n stuck allowed _ (node-Steps n system target stuck name))
        (λ node ok. named_stream-Steps name node len ok)

  called-Outcome :
      (stuck : Type 0) (name : Text) (len : ℕ) (r : ℤ × Session)
      → hashmap_get name target.flash_cmds ≢ none
      → Online n r.1
      → Outcome n stuck (FlashedAs system target name len) (function_result system target r)
  unfolding function_result
  called-Outcome stuck name len (ret, s) known on = elim (Bool-cases (is_zero ret)) [
    | inl done ↦ rw done (on, known)
    | inr other ↦
        rw other
          (abort-Outcome n stuck (FlashedAs system target name len) (codes "flash failed.") s on)
  ]

  downloaded-Outcome :
      (stuck : Type 0) (r : Option Text × Session)
      → Online n r.1
      → Outcome n stuck (λ _. Unit) (downloaded_or_abort system target r)
  unfolding downloaded_or_abort
  downloaded-Outcome stuck (none, s) on =
      abort-Outcome n stuck {A = Text} (λ _. Unit) (codes "download failed.") s on
  downloaded-Outcome stuck (some bytes, s) on = (on, tt)

  by_registered-Steps :
      (stuck : Type 0) (name : Text) (callback : Text → Session → ℤ × Session) (len : ℕ)
      → FunctionLaw n callback
      → hashmap_get name target.flash_cmds ≢ none
      → Steps n stuck
          (FlashedAs system target name len)
          (by_registered system target name callback len)
  unfolding by_registered call_function show
  by_registered-Steps stuck name callback len law known =
      bind-Steps n stuck (λ _. Unit) (FlashedAs system target name len) _ _
        (λ s on. downloaded-Outcome stuck (download_to len s) (download_to-Online n len s on))
        (λ bytes _ s on. called-Outcome stuck name len (callback bytes _) known (law bytes _ on))

  crash-Outcome {ℓ} :
      {A : Type ℓ} (stuck : Type 0) (good : A → Type 0) (r : Exit A × Session)
      → Outcome n stuck good r
      → Outcome n stuck good (r.0, crash r.1)
  crash-Outcome stuck good (go a, s) h = h
  crash-Outcome stuck good (goto_error, s) h = h
  crash-Outcome stuck good (hangs, s) h = h

  flash_other-Outcome :
      (name : Text) (len : ℕ) (found : Option (Text → Session → ℤ × Session)) (s : Session)
      → AllOf (FunctionLaw n) target.flash_cmds
      → hashmap_get name target.flash_cmds ≡ found
      → Online n s
      → Outcome n
          (SumsFit len → ⊥)
          (FlashedAs system target name len)
          (flash_other system target name len found s)
  unfolding flash_other
  flash_other-Outcome name len none s laws e on = to_partition-Steps name len s on
  flash_other-Outcome name len (some callback) s laws e on =
      let stuck = SumsFit len → ⊥ in
      let r = by_registered system target name callback len s in
      let law = found-law (FunctionLaw n) name target.flash_cmds callback laws e in
      crash-Outcome stuck (FlashedAs system target name len) r
        (by_registered-Steps stuck name callback len law (λ p. cc (p, e)) s on)

  pub flash_image-FlashedAs :
      (name : Text) (len : ℕ) (s : Session)
      → AllOf (FunctionLaw n) target.flash_cmds
      → Online n s
      → Outcome n
          (SumsFit len → ⊥)
          (FlashedAs system target name len)
          (flash_image system target name len s)
  unfolding flash_image
  flash_image-FlashedAs name len s laws on = elim (Bool-cases (text_eq name (codes "disk"))) [
    | inl disk ↦ rw disk (
        named_stream-Steps name (record { device = target.disk_device; ptn = none }) len
          (inl (text_eq-eq name (codes "disk") disk, refl)) s on)
    | inr other ↦
        rw other (flash_other-Outcome name len (hashmap_get name target.flash_cmds) s laws refl on)
  ]
