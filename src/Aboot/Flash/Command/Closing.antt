-- ===== src/Aboot/Flash/Command/Closing.antt =====
-- `cmd_stream_flash` of src/aboot.c leaves no command open.
use tboot.Base.{
  ℕ, ◌≡◌, refl, Bool, true, false, Option, none, some, List, [], ◌∷◌, Text, codes, after_char,
  before_char,
}
use tboot.Base.Number.{strtoul}
use tboot.Fastboot.{complete, Session}
use tboot.Fastboot.Online.{Online, fastboot_fail-Online, fastboot_okay-Online}
use tboot.Fastboot.Reply.{fastboot_fail, fastboot_okay}
use tboot.Aboot.Target.{Target}
use tboot.Aboot.Target.Registry.{AllOf}
use tboot.Aboot.Commands.{show, list_partitions}
use tboot.Aboot.Commands.Online.{list_partitions-Online}
use tboot.Aboot.Flow.{Exit, go, goto_error, hangs}
use tboot.Aboot.Flow.Outcome.{Outcome}
use tboot.Aboot.Flash.{System}
use tboot.Aboot.Flash.Filling.{SumsFit}
use tboot.Aboot.Flash.Command.{
  Flashed, flash_error, finish_flash, flash_keys, flash_named, flash_arg, flash_copied,
  cmd_stream_flash,
}
use tboot.Aboot.Flash.Command.Ending.{FunctionLaw, FlashedAs, flash_image-FlashedAs}

-- The size of the argument fits: the sums of the loops stay in 32 bits.
abbrev pub ArgFits : Option Text → Type 0
ArgFits none = Unit
ArgFits (some size) = SumsFit (strtoul size)

module _ (n : ℕ) (system : System) (target : Target) where
  error-Online :
      (name : Text) (s : Session) → Online n s → Online n (flash_error system target name s)
  unfolding flash_error show
  error-Online name s on = on

  finish_flash-Online :
      (stuck : Type 0) (good : Flashed → Type 0) (name : Text) (r : Exit Flashed × Session)
      → Outcome n stuck good r
      → Online n (finish_flash system target name r)
        × ((stuck → ⊥) → (finish_flash system target name r).state ≡ complete)
  unfolding finish_flash flash_error show fastboot_okay
  finish_flash-Online stuck good name (go flashed, s) h =
      (fastboot_okay-Online n [] _ h.0, λ _. refl)
  finish_flash-Online stuck good name (goto_error, s) h = (h.0, λ _. h.1)
  finish_flash-Online stuck good name (hangs, s) h = (h.0, λ runs. absurd (runs h.1))

  list_partitions-complete :
      (os : Bool) (keys : List Text) (s : Session)
      → (list_partitions os keys target s).state ≡ complete
  unfolding list_partitions fastboot_okay
  list_partitions-complete os keys s = refl

  Closes : Type 0 → Session → Type 0
  Closes fits s = Online n s × (fits → s.state ≡ complete)

  flash_named-Closes :
      (name : Text) (len : ℕ) (s : Session)
      → AllOf (FunctionLaw n) target.flash_cmds
      → Online n s
      → Closes (SumsFit len) (flash_named system target name len s)
  unfolding Closes flash_named
  flash_named-Closes [] len s laws on =
      let keys = flash_keys system target in
      (list_partitions-Online n true keys target s on, λ _. list_partitions-complete true keys s)
  flash_named-Closes (c ∷ name) len s laws on =
      let ended =
        finish_flash-Online (SumsFit len → ⊥) (FlashedAs system target (c ∷ name) len) (c ∷ name) _
          (flash_image-FlashedAs n system target (c ∷ name) len s laws on) in
      (ended.0, λ fits. ended.1 (λ wraps. wraps fits))

  flash_arg-Closes :
      (cmd : Text) (size : Option Text) (s : Session)
      → AllOf (FunctionLaw n) target.flash_cmds
      → Online n s
      → Closes (ArgFits size) (flash_arg system target cmd size s)
  unfolding Closes flash_arg fastboot_fail flash_error show
  flash_arg-Closes cmd none s laws on = (
    error-Online cmd (fastboot_fail (codes "invalid cmd.") s)
        (fastboot_fail-Online n (codes "invalid cmd.") s on),
    λ _. refl,
  )
  flash_arg-Closes cmd (some size) s laws on =
      flash_named-Closes (before_char 58 cmd) (strtoul size) s laws on

  copied-Closes :
      (ok : Bool) (cmd : Text) (s : Session)
      → AllOf (FunctionLaw n) target.flash_cmds
      → Online n s
      → Closes (ArgFits (after_char 58 cmd)) (flash_copied system target ok cmd s)
  unfolding Closes flash_copied fastboot_fail flash_error show
  copied-Closes true cmd s laws on = flash_arg-Closes cmd (after_char 58 cmd) s laws on
  copied-Closes false cmd s laws on = (
    error-Online (codes "(null)") (fastboot_fail (codes "strdup failed.") s)
        (fastboot_fail-Online n (codes "strdup failed.") s on),
    λ _. refl,
  )

  pub cmd_stream_flash-completes :
      (cmd : Text) (s : Session)
      → AllOf (FunctionLaw n) target.flash_cmds
      → Online n s
      → Online n (cmd_stream_flash system target cmd s)
        × (ArgFits (after_char 58 cmd) → (cmd_stream_flash system target cmd s).state ≡ complete)
  unfolding cmd_stream_flash Closes
  cmd_stream_flash-completes cmd s laws on = copied-Closes system.strdup_ok cmd s laws on
