-- ===== src/Boot/Kexec.antt =====
-- `kexec_linux` of src/tboot_util.c: the start of an installed kernel.
use tboot.Base.{
  ◌≡◌, refl, sym, ap, ◌⊎◌, inl, inr, Bool, true, false, Option, none, some, List, [], ◌∷◌, ◌++◌,
  Text, codes, before_char, take, if◌then◌else◌, Bool-cases,
}
use mathlib.Core.List.{append_assoc}
use tboot.Base.Int.{ℤ, is_zero}
use tboot.Fastboot.{Session}
use tboot.Fastboot.Reply.{fastboot_okay}
use tboot.Boot.{from_pattern}

-- What the system answers to kexec_linux(): the text of a file, as far as a read() of 2047 bytes
-- gives it, `none` where it does not open or read; whether a file can be read; the result of a
-- command.
pub record KexecEnv : Type 0 where
  pub file_text : Text → Option Text
  pub readable : Text → Bool
  pub execute : Text → ℤ

-- strstr(kernel, ".bak"), or the empty text.
abbrev bak_of : Text → Text
bak_of kernel = from_pattern (codes ".bak") kernel

abbrev ramdisk_of : Text → Text → Text
ramdisk_of base kernel = base ++ (codes "/ramdisk.img" ++ bak_of kernel)

load_command : Bool → Text → Text → Text → Text
load_command false base kernel cmdline =
    codes "kexec -l "
    ++ (base ++ (codes "/" ++ (kernel ++ (codes " --command-line=\"" ++ (cmdline ++ codes "\"")))))
load_command true base kernel cmdline =
    codes "kexec -l "
    ++ (base
        ++ (codes "/"
            ++ (kernel
                ++ (codes " --ramdisk="
                    ++ (ramdisk_of base kernel
                        ++ (codes "  --command-line=\"" ++ (cmdline ++ codes "\"")))))))

abbrev run_command : Text
run_command = codes "kexec -e"

-- What kexec_linux() does to the rest of the system: it runs a command, or sends an OKAY.
pub data KexecStep : Type 0 where
  runs : Text → KexecStep
  sends_okay : KexecStep

loaded : ℤ → Text → Session → List KexecStep × Session
loaded result load s =
    if is_zero result
    then (runs load ∷ sends_okay ∷ runs run_command ∷ [], fastboot_okay [] s)
    else (runs load ∷ [], s)

with_cmdline : KexecEnv → Text → Text → Option Text → Session → List KexecStep × Session
unfolding loaded load_command
with_cmdline env base kernel none s = ([], s)
with_cmdline env base kernel (some bytes) s =
    let cmdline = before_char 0 (take 2047 bytes) in
    let load = load_command (env.readable (ramdisk_of base kernel)) base kernel cmdline in
    loaded (env.execute load) load s

-- `kexec_linux`, where it comes back, with -1: its steps, in their order.
unfoldable pub kexec_linux : KexecEnv → Text → Text → Session → List KexecStep × Session
unfolding with_cmdline
kexec_linux env base kernel s =
    with_cmdline env base kernel (env.file_text (base ++ (codes "/cmdline" ++ bak_of kernel))) s

-- The command that loads a kernel: it names the kernel in its directory, and in its quotes, last of
-- all, the command line.
abbrev Loads : Text → Text → Text → Text → Type 0
Loads base kernel cmdline load =
    (options : Text) × (load
      ≡ codes "kexec -l "
        ++ (base
            ++ (codes "/"
                ++ (kernel
                    ++ (options ++ (codes " --command-line=\"" ++ (cmdline ++ codes "\"")))))))

-- With a command line the kernel is loaded with it; and if that gives 0, an OKAY is sent and then the
-- kernel is started.
abbrev Launched : KexecEnv → Text → Text → Text → Session → List KexecStep × Session → Type 0
Launched env base kernel cmdline s r =
    (load : Text) × Loads base kernel cmdline load
    × (((is_zero (env.execute load) ≡ false) × (r ≡ (runs load ∷ [], s)))
        ⊎ ((is_zero (env.execute load) ≡ true)
            × (r ≡ (runs load ∷ sends_okay ∷ runs run_command ∷ [], fastboot_okay [] s))))

abbrev pub Launch : KexecEnv → Text → Text → Session → List KexecStep × Session → Type 0
Launch env base kernel s r =
    ((env.file_text (base ++ (codes "/cmdline" ++ bak_of kernel)) ≡ none) × (r ≡ ([], s)))
    ⊎ ((bytes : Text) × (env.file_text (base ++ (codes "/cmdline" ++ bak_of kernel)) ≡ some bytes)
        × Launched env base kernel (before_char 0 (take 2047 bytes)) s r)

load_names :
    (ramdisk : Bool) (base kernel cmdline : Text)
    → Loads base kernel cmdline (load_command ramdisk base kernel cmdline)
unfolding load_command
load_names false base kernel cmdline = ([], refl)
load_names true base kernel cmdline = (
  codes " --ramdisk=" ++ (ramdisk_of base kernel ++ codes " "),
  ap (λ t. codes "kexec -l " ++ (base ++ (codes "/" ++ (kernel ++ (codes " --ramdisk=" ++ t)))))
      (sym (
        append_assoc (ramdisk_of base kernel) (codes " ")
          (codes " --command-line=\"" ++ (cmdline ++ codes "\"")))),
)

loaded-Launched :
    (env : KexecEnv) (base kernel cmdline load : Text) (s : Session)
    → Loads base kernel cmdline load
    → Launched env base kernel cmdline s (loaded (env.execute load) load s)
unfolding loaded
loaded-Launched env base kernel cmdline load s e = elim (Bool-cases (is_zero (env.execute load))) [
  | inl done ↦ rw done (load, e, inr (done, refl))
  | inr failed ↦ rw failed (load, e, inl (failed, refl))
]

cmdline-Launch :
    (env : KexecEnv) (base kernel : Text) (text : Option Text) (s : Session)
    → env.file_text (base ++ (codes "/cmdline" ++ bak_of kernel)) ≡ text
    → Launch env base kernel s (with_cmdline env base kernel text s)
unfolding with_cmdline
cmdline-Launch env base kernel none s e = inl (e, refl)
cmdline-Launch env base kernel (some bytes) s e =
    let cmdline = before_char 0 (take 2047 bytes) in
    let load = load_command (env.readable (ramdisk_of base kernel)) base kernel cmdline in
    inr
      (bytes, e, loaded-Launched env base kernel cmdline load s (load_names _ base kernel cmdline))

-- kexec_linux does nothing if and only if the command line does not open or read. Else it runs the
-- load of this kernel with that command line, up to its 2047th byte or a NUL; and if that gives 0,
-- and only then, it sends an OKAY and after it runs "kexec -e", and nothing more in any case.
pub kexec_linux-Launch :
    (env : KexecEnv) (base kernel : Text) (s : Session)
    → Launch env base kernel s (kexec_linux env base kernel s)
unfolding kexec_linux
kexec_linux-Launch env base kernel s =
    cmdline-Launch env base kernel (env.file_text (base ++ (codes "/cmdline" ++ bak_of kernel))) s
      refl
