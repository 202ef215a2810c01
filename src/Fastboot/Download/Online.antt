-- ===== src/Fastboot/Download/Online.antt =====
-- The handshake, the downloads and the built-in commands keep the protocol online.
use tboot.Base.{
  ℕ, inl, inr, Bool, true, false, Option, none, some, List, [], ◌∷◌, arith, Text, codes, text_eq,
  length, ltb, ◌==◌, Bool-cases,
}
use tboot.Base.Number.{strtoul}
use tboot.Fastboot.{Session}
use tboot.Fastboot.Usb.{usb_read, usb_write}
use tboot.Fastboot.Reply.{fastboot_info}
use tboot.Fastboot.Progress.{Transfer, received, failed, out_of_fuel, usb_read_progress}
use tboot.Fastboot.Handshake.{
  data_packet, all_written, response_data, streaming_download, whole_read, handshake_only,
}
use tboot.Fastboot.Online.{
  Online, fastboot_info-Online, fastboot_fail-Online, fastboot_okay-Online, usb_read-Online,
  usb_write-Online, usb_read_progress-Online,
}
use tboot.Fastboot.Download.{
  cmd_getvar, list_vars, answer_var, cmd_download, download_after, store_download, download_to,
  download_to_after, take_download,
}

module _ (n : ℕ) where
  all_written-Online :
      (size : ℕ) (r : Option ℕ × Session) → Online n r.1 → Online n (all_written size r).1
  unfolding all_written
  all_written-Online size (none, s) h = h
  all_written-Online size (some k, s) h = h

  pub response_data-Online : (len : ℕ) (s : Session) → Online n s → Online n (response_data len s).1
  unfolding response_data
  response_data-Online len s h =
      all_written-Online (length (data_packet len)) (usb_write (data_packet len) s)
        (usb_write-Online n (data_packet len) s h)

  whole_read-Online :
      (len : ℕ) (r : Option Text × Session) → Online n r.1 → Online n (whole_read len r).1
  unfolding whole_read
  whole_read-Online len (none, s) h = h
  whole_read-Online len (some bytes, s) h = ground (arith, h.0, h.1)

  handshake-Online : (r : Bool × Session) → Online n r.1 → Online n (handshake_only r).1
  unfolding handshake_only
  handshake-Online (true, s) h = h
  handshake-Online (false, s) h = h

  pub streaming_download-Online :
      (len : ℕ) (response : Bool) (s : Session)
      → Online n s
      → Online n (streaming_download len response s).1
  unfolding streaming_download
  streaming_download-Online len true s h =
      handshake-Online (response_data len s) (response_data-Online len s h)
  streaming_download-Online len false s h =
      whole_read-Online len (usb_read len s) (usb_read-Online n len s h)

  list_vars-Online :
      (vars : List (Text × Text)) (s : Session) → Online n s → Online n (list_vars vars s)
  unfolding list_vars
  list_vars-Online [] s h = h
  list_vars-Online ((name, v) ∷ vars) s h =
      list_vars-Online vars (fastboot_info (codes "\n") (fastboot_info name s))
        (fastboot_info-Online n (codes "\n") _ (fastboot_info-Online n name s h))

  answer_var-Online :
      (arg : Text) (vars : List (Text × Text)) (s : Session)
      → Online n s
      → Online n (answer_var arg vars s)
  unfolding answer_var
  answer_var-Online arg [] s h = fastboot_okay-Online n [] s h
  answer_var-Online arg ((name, v) ∷ vars) s h = elim (Bool-cases (text_eq name arg)) [
    | inl same ↦ rw same (fastboot_okay-Online n v s h)
    | inr other ↦ rw other (answer_var-Online arg vars s h)
  ]

  pub cmd_getvar-Online : (arg : Text) (s : Session) → Online n s → Online n (cmd_getvar arg s)
  unfolding cmd_getvar
  cmd_getvar-Online [] s h = fastboot_okay-Online n [] _ (
      fastboot_info-Online n (codes "\n") _ (
        list_vars-Online s.varlist _
          (fastboot_info-Online n (codes "All available variables:\n") s h)))
  cmd_getvar-Online (c ∷ arg) s h = answer_var-Online (c ∷ arg) s.varlist s h

  store-Online : (len : ℕ) (r : Transfer × Session) → Online n r.1 → Online n (store_download len r)
  unfolding store_download
  store-Online len (received got, s) h = elim (Bool-cases (length got == len)) [
    | inl all ↦ rw all (fastboot_okay-Online n [] _ h)
    | inr part ↦ rw part (h.0, λ e. cc e)
  ]
  store-Online len (failed, s) h = (h.0, λ e. cc e)
  store-Online len (out_of_fuel, s) h = h

  after-Online : (len : ℕ) (r : Bool × Session) → Online n r.1 → Online n (download_after len r)
  unfolding download_after
  after-Online len (true, s) h =
      store-Online len (usb_read_progress len s) (usb_read_progress-Online n len s h)
  after-Online len (false, s) h = h

  pub cmd_download-Online : (arg : Text) (s : Session) → Online n s → Online n (cmd_download arg s)
  unfolding cmd_download
  cmd_download-Online arg s h =
      let len = strtoul arg in
      let s0 = record s { download_size = 0 } in
      elim (Bool-cases (ltb s.download_max len)) [
        | inl large ↦ rw large (fastboot_fail-Online n (codes "data too large") s0 h)
        | inr fits ↦
            rw fits (after-Online len (response_data len s0) (response_data-Online len s0 h))
      ]

  take-Online : (len : ℕ) (r : Transfer × Session) → Online n r.1 → Online n (take_download len r).1
  unfolding take_download
  take-Online len (received got, s) h = elim (Bool-cases (length got == len)) [
    | inl all ↦ rw all h
    | inr part ↦ rw part (h.0, λ e. cc e)
  ]
  take-Online len (failed, s) h = (h.0, λ e. cc e)
  take-Online len (out_of_fuel, s) h = h

  to_after-Online :
      (size : ℕ) (r : Bool × Session) → Online n r.1 → Online n (download_to_after size r).1
  unfolding download_to_after
  to_after-Online size (true, s) h =
      take-Online size (usb_read_progress size s) (usb_read_progress-Online n size s h)
  to_after-Online size (false, s) h = h

  pub download_to-Online : (size : ℕ) (s : Session) → Online n s → Online n (download_to size s).1
  unfolding download_to
  download_to-Online size s h = elim (Bool-cases (ltb s.download_max size)) [
    | inl large ↦ rw large (fastboot_fail-Online n (codes "data too large") s h)
    | inr fits ↦
        rw fits (to_after-Online size (response_data size s) (response_data-Online size s h))
  ]
