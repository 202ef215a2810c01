-- ===== src/Server/Tests.antt =====
-- Concrete runs of the fastboot server.
use tboot.Base.{ℕ, ◌≡◌, some, arith}
use tboot.Fastboot.{offline}
use tboot.Device.{Device}
use tboot.Aboot.Target.Registry.{AllOf}
use tboot.Aboot.Oem.Online.{OemLaw}
use tboot.Aboot.Tests.{target, system, storage, device, functions_are_lawful}
use tboot.Server.{serve}
use tboot.Server.Ends.{PluginLaws, serve-ends}

oem_is_lawful : (n : ℕ) → AllOf (OemLaw n) target.oem_cmds
unfolding AllOf
oem_is_lawful n = (λ args s on. on, tt)

target_is_lawful : PluginLaws target
target_is_lawful = record { flash_laws = functions_are_lawful; oem_laws = oem_is_lawful }

serve-ends_example :
    (d' : Device) × (serve (λ _. target) (λ _. system) (λ _. storage) 2 device ≡ some d')
    × (d'.session.state ≡ offline)
serve-ends_example =
    serve-ends (λ _. target) (λ _. system) (λ _. storage) (λ _. target_is_lawful) 2 device
      (omega arith)
