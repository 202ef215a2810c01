-- ===== src/Boot/Rootfs.antt =====
-- The kernels on an external root file system, and the automatic boot: `mount_external_mmc`,
-- `start_mmc_kernel`, `mount_nfs`, `start_nfs_kernel` and `autoboot_thread` of src/tboot.c.
use tboot.Base.{Bool, true, false, ◌&&◌, Option, none, some, List, ◌++◌, Text, codes}
use tboot.Base.Int.{ℤ, is_zero}
use tboot.Config.{Config, tboot_config_get, rootfs_key, nfsurl_key}
use tboot.Boot.{Boot, Tick, start_mounted, start_default_kernel, countdown}

-- What the system answers to a mount of an external root file system: mkdir() makes the directory or
-- finds it, mount() of a device on it succeeds, the result of a command.
pub record RootfsEnv : Type 0 where
  pub has_dir : Text → Bool
  pub mounts : Text → Text → Bool
  pub execute : Text → ℤ

abbrev pub target_of : Boot → Text
target_of b = codes "/mnt/" ++ b.bootpart

mount_mmc_from : RootfsEnv → Text → Option Text → Bool
mount_mmc_from env dir none = false
mount_mmc_from env dir (some rootfs) = env.mounts rootfs dir

-- `mount_external_mmc`; `true` stands for 0.
unfoldable pub mount_external_mmc : RootfsEnv → Config → Boot → Bool
unfolding mount_mmc_from
mount_external_mmc env config b =
    env.has_dir (target_of b)
    && mount_mmc_from env (target_of b) (tboot_config_get rootfs_key config)

mount_nfs_from : RootfsEnv → Text → Option Text → Bool
mount_nfs_from env dir none = false
mount_nfs_from env dir (some url) =
    is_zero (env.execute (codes "/bin/nfsmount " ++ (url ++ (codes " " ++ dir))))

-- `mount_nfs`; `true` stands for 0. A positive result of the command is no success for the caller.
unfoldable pub mount_nfs : RootfsEnv → Config → Boot → Bool
unfolding mount_nfs_from
mount_nfs env config b =
    env.has_dir (target_of b)
    && mount_nfs_from env (target_of b) (tboot_config_get nfsurl_key config)

-- The umount() that follows is left out.
unfoldable pub start_mmc_kernel : RootfsEnv → Config → (Text → Bool) → Boot → Boot
unfolding start_mounted
start_mmc_kernel env config readable b =
    start_mounted (mount_external_mmc env config b) readable (codes "kernel") b

unfoldable pub start_nfs_kernel : RootfsEnv → Config → (Text → Bool) → Boot → Boot
unfolding start_mounted
start_nfs_kernel env config readable b =
    start_mounted (mount_nfs env config b) readable (codes "kernel") b

-- `autoboot_thread`: the default kernel, unless the countdown was stopped. The warning for a stopped
-- countdown is left out.
autoboot_after : Bool → (Text → Bool) → Bool × Boot → Boot
autoboot_after mounts readable (true, b) = start_default_kernel mounts readable b
autoboot_after mounts readable (false, b) = b

unfoldable pub autoboot_thread : Bool → (Text → Bool) → List Tick → Boot → Boot
unfolding autoboot_after
autoboot_thread mounts readable ticks b =
    autoboot_after mounts readable (countdown b.autoboot_delay_secs ticks b)
