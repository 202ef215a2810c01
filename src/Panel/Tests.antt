-- ===== src/Panel/Tests.antt =====
-- Concrete runs of the panel of src/tboot.c.
use tboot.Base.{refl, false, some, List, [], ◌∷◌, codes, text_eq}
use tboot.Base.Int.{pos}
use tboot.Base.Number.{atoi}
use tboot.Config.{defaults, tboot_config_get, map_get}
use tboot.Fastboot.{complete}
use tboot.Uevent.{connected, disconnected, unknown_status}
use tboot.Aboot.Tests.{device}
use tboot.Panel.{
  Panel, PanelEvent, input, signal, uevent, key, power, volume_up, sigalrm, panel_run,
}
use tboot.Panel.Armed.{Timed, Armed, panel_run-Armed}

defaults-Timed : Timed (some defaults)
unfolding tboot_config_get map_get text_eq atoi
defaults-Timed = record {
  dim_timeout = codes "30";
  blank_timeout = codes "10";
  brightness = codes "10";
  has_dim = refl;
  has_off = refl;
  has_brightness = refl;
  dims_later = λ e. cc e;
  offs_later = λ e. cc e;
}

abbrev panel : Panel
panel = record {
  device = record device { session = record (device.session) { state = complete } };
  power_pressed = false;
  pipe_broken = false;
  saved_usb = unknown_status;
  saved_charger = unknown_status;
  calls = [];
}

panel-Armed : Armed (some defaults) panel.device
panel-Armed = (refl, (λ e. cc e), λ _ e. cc e)

abbrev events : List PanelEvent
events =
    signal sigalrm
    ∷ uevent (record {
      usb_status = connected;
      charger_status = disconnected;
      battery_capacity = pos 80;
    })
    ∷ input (some (key volume_up 1))
    ∷ signal sigalrm
    ∷ input (some (key power 1))
    ∷ []

panel_run-Armed_example : Armed (some defaults) (panel_run events panel).device
panel_run-Armed_example = panel_run-Armed (some defaults) defaults-Timed events panel panel-Armed
