-- ===== src/Fastboot.antt =====
-- The state of src/fastboot.c: the protocol state, the published variables, the download buffer
-- and the file descriptor `fb_fp`. What read() and write() on `fb_fp` return is the environment's
-- choice: it is given as one script for each of the two calls, an entry for each call.
pub mod Usb
pub mod Ack
pub mod Reply
pub mod Progress
pub mod Handshake
pub mod Download
pub mod Online
pub mod Tests
use tboot.Base.{ℕ, Bool, Option, List, Text}

-- STATE_OFFLINE, STATE_COMMAND, STATE_COMPLETE, STATE_ERROR
pub data FastbootState : Type 0 where
  offline command complete error : FastbootState

-- A call into tboot_ui.c, as far as src/fastboot.c and src/aboot.c make one.
pub data UiCall : Type 0 where
  textbar : ℕ → UiCall
  hidebar : UiCall
  ui_error ui_info ui_warn bouncebar : Text → UiCall

-- `reads`: what each read(fb_fp, …) to come returns, `none` for a negative result. `writes`: what
-- each write(fb_fp, …) to come returns. `sent`: the bytes that the write calls so far accepted.
-- `fault`: a pointer has left the object that it points into, the process has left through die(), or
-- it is in a loop that never ends;
-- what the program does from there on is undefined, and what the model says of it means nothing.
pub record Session : Type 0 where
  pub state : FastbootState
  pub reads : List (Option Text)
  pub writes : List (Option ℕ)
  pub sent : List Text
  pub download_base : Text
  pub download_max : ℕ
  pub download_size : ℕ
  pub varlist : List (Text × Text)
  pub ui : List UiCall
  pub fault : Bool
