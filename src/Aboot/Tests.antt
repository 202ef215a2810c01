-- ===== src/Aboot/Tests.antt =====
-- Concrete runs of the commands of src/aboot.c.
use tboot.Base.{
  ℕ, true, false, Option, none, some, List, [], ◌∷◌, arith, Text, codes, text_eq, after_char,
  if◌then◌else◌,
}
use tboot.Base.Int.{ℤ, pos}
use tboot.Base.Number.{strtoul}
use tboot.Config.{defaults}
use tboot.Lcd.{LcdState}
use tboot.Fastboot.{command, Session}
use tboot.Fastboot.Online.{Online}
use tboot.Device.{Device}
use tboot.Aboot.Target.{Target}
use tboot.Aboot.Target.Registry.{AllOf}
use tboot.Aboot.Oem.{Storage, cmd_oem}
use tboot.Aboot.Oem.Push.{Pushed, cmd_oem-Pushed}
use tboot.Aboot.Flow.Outcome.{Outcome}
use tboot.Aboot.Flash.{System}
use tboot.Aboot.Flash.Command.Ending.{FunctionLaw}
use tboot.Aboot.Flash.Command.Closing.{ArgFits}

-- The name under which the examples find a partition.
abbrev node_of : Text → Option Text
node_of name = if text_eq name (codes "data") then some (codes "/dev/sda1") else none

abbrev touch : Text → Session → ℤ × Session
touch bytes s = (pos 0, s)

abbrev say : List Text → Session → ℤ × Session
say args s = (pos 1, s)

-- A disk with one partition, on an ext4 volume, and one function of each kind.
abbrev pub target : Target
target = record {
  disk_device = codes "/dev/sda";
  part_lst = record { name = codes "data"; len_kb = 2048; is_linux = true } ∷ [];
  find_part = λ name.
      if text_eq name (codes "data")
      then some (record { name = codes "data"; len_kb = 2048; is_linux = true })
      else none;
  find_part_device = node_of;
  volumes =
      record {
        mount_point = codes "/data";
        fs_type = codes "ext4";
        device = some (codes "/dev/sda1");
        device2 = none;
        length = pos 0;
      }
      ∷ [];
  is_valid_blkdev = λ _. true;
  make_ext4fs = λ _ _. true;
  execute = λ _. pos 0;
  magic = λ _. some 0xEF53;
  flash_cmds = (codes "boot", touch) ∷ [];
  oem_cmds = (codes "hello", say) ∷ [];
}

abbrev pub system : System
system = record {
  strdup_ok = true;
  buffers = 2;
  heap = codes "....";
  asprintf_ok = true;
  popen_ok = true;
  thread_ok = true;
  breaks_at = none;
  join_ok = true;
  reader_ok = true;
  reopens = true;
  percent = λ finished len. 100;
}

abbrev pub storage : Storage
storage = record { free = some (4096, 4096); stored = λ path bytes. some 5 }

-- A host that sends the five bytes of an image after its command.
abbrev pub session : Session
session = record {
  state = command;
  reads = some (codes "image") ∷ [];
  writes = some 64 ∷ some 64 ∷ [];
  sent = [];
  download_base = codes "image";
  download_max = 8192;
  download_size = 5;
  varlist = [];
  ui = [];
  fault = false;
}

abbrev pub device : Device
device = record {
  session = session;
  config = some defaults;
  lcd = LcdState.on;
  backlight = record {
    max_brightness = some (some (pos 255));
    brightness_opens = true;
    blank_opens = true;
    brightness = 255;
    blank = 0;
  };
  alarm = some (pos 30);
  autoboot_enabled = true;
  ignore_keypress = false;
  battery_capacity = pos 80;
  warnings = [];
  files = [];
  reboots = [];
}

pub functions_are_lawful : (n : ℕ) → AllOf (FunctionLaw n) target.flash_cmds
unfolding AllOf
functions_are_lawful n = (λ bytes s on. on, tt)

data_5-fits : ArgFits (after_char 58 (codes "data:5"))
unfolding after_char strtoul
data_5-fits = omega arith

cmd_oem-Pushed_example :
    Pushed device (cmd_oem target storage (codes " push ../a/image") device).files
cmd_oem-Pushed_example = cmd_oem-Pushed target storage (codes " push ../a/image") device
