-- ===== src/Loop/Ends.antt =====
-- The command loop ends when the device node fails, and leaves no command open.
use tboot.Base.{
  ℕ, zero, suc, ◌≤◌, ◌<◌, ◌≡◌, refl, sym, ap, ◌∙◌, ◌≢◌, inl, inr, Bool, true, false, Option, none,
  some, arith, Text, codes, before_char, length, Bool-cases, Option-cases,
}
use tboot.Fastboot.{command, complete, offline, Session}
use tboot.Fastboot.Usb.{usb_read, usb_read-reads, Sends, sends}
use tboot.Fastboot.Ack.{fastboot_ack}
use tboot.Fastboot.Ack.Frame.{fastboot_ack-Sends}
use tboot.Fastboot.Reply.{fastboot_fail}
use tboot.Fastboot.Online.{Online}
use tboot.Device.{
  Device, reset_alarm, clear_alarm, disable_autoboot, disable_keypress, enable_keypress,
  check_battery,
}
use tboot.Loop.Battery.{received, received-battery, step-battery, autoboot-keeps}
use tboot.Loop.{
  Handler, CmdList, find_cmd, find_blocked, blocked_cmds, on_session, finish_cmd, run_cmd, refuse,
  guarded, dispatch, command_round, after_read, command_loop, go_offline, is_error,
}

-- What the loop relies on in the handlers: they read from the device node and never put anything
-- back, and they do not take the protocol offline.
pub record HandlerLaws (handle : Handler → Text → Device → Device) : Type 0 where
  pub keeps_online :
      (h : Handler) (arg : Text) (d : Device) (n : ℕ)
      → Online n d.session
      → Online n (handle h arg d).session

fail-reads : (t : Text) (s : Session) → (fastboot_fail t s).reads ≡ s.reads
unfolding fastboot_fail
fail-reads t s = from (fastboot_ack (codes "FAIL") t s) (fastboot_ack-Sends (codes "FAIL") t s)
  where
    from : (u : Session) → Sends s u → u.reads ≡ s.reads
    from _ (sends st ws l f) = refl

fail-state : (t : Text) (s : Session) → (fastboot_fail t s).state ≡ complete
unfolding fastboot_fail
fail-state t s = refl

alarm-keeps :
    (d : Device)
    → ((reset_alarm d).session.reads ≡ d.session.reads)
      × ((reset_alarm d).session.state ≡ d.session.state)
unfolding reset_alarm
alarm-keeps d = ground arith

-- What every way through a round leaves: no command open, the protocol online, no more input.
abbrev Settled : Device → Device → Type 0
Settled d d' =
    (d'.session.state ≢ command)
    × (d'.session.state ≢ offline)
    × (length d'.session.reads ≤ length d.session.reads)

module _ (handle : Handler → Text → Device → Device) (laws : HandlerLaws handle) where
  finish-Settled : (d : Device) → d.session.state ≢ offline → Settled d (finish_cmd handle d)
  unfolding finish_cmd
  finish-Settled d on = ground (
    arith,
    alarm-keeps d,
    alarm-keeps (on_session (fastboot_fail (codes "unknown reason")) d),
    fail-reads (codes "unknown reason") d.session,
    fail-state (codes "unknown reason") d.session,
  )

  run-Settled :
      (h : Handler) (arg : Text) (d : Device)
      → d.session.state ≢ offline
      → Settled d (run_cmd handle h arg d)
  unfolding run_cmd disable_keypress enable_keypress
  run-Settled h arg d on =
      let t = disable_keypress d in
      let kept = laws.keeps_online h arg t (length d.session.reads) (omega arith, on) in
      let done = finish-Settled (enable_keypress (handle h arg t)) kept.1 in
      (done.0, done.1, omega (arith, kept.0, done.2))

  refuse-Settled : (c : Text) (d : Device) → Settled d (refuse handle c d)
  unfolding refuse
  refuse-Settled c d =
      let t = codes "can't do this operation when battery low" in
      ground (arith, fail-reads t d.session, fail-state t d.session)

  guarded-Settled :
      (low : Option Bool) (buffer : Text) (h : Handler) (arg : Text) (d : Device)
      → d.session.state ≡ command
      → low ≢ none
      → Settled d (guarded handle low buffer h arg d)
  unfolding guarded
  guarded-Settled none buffer h arg d e known = absurd (known refl)
  guarded-Settled (some false) buffer h arg d e known = run-Settled h arg d (λ p. cc (p, e))
  guarded-Settled (some true) buffer h arg d e known =
      elim (Option-cases (find_blocked buffer blocked_cmds)) [
        | inl free ↦ rw (free, guarded) (run-Settled h arg d (λ p. cc (p, e)))
        | inr (c, blocked) ↦ rw (blocked, guarded) (refuse-Settled c d)
      ]

  guarded-reads :
      (low : Option Bool) (buffer : Text) (h : Handler) (arg : Text) (d : Device)
      → d.session.state ≡ command
      → length (guarded handle low buffer h arg d).session.reads ≤ length d.session.reads
  unfolding guarded
  guarded-reads none buffer h arg d e = omega arith
  guarded-reads (some low) buffer h arg d e =
      (guarded-Settled (some low) buffer h arg d e (λ p. cc p)).2

  unknown-Settled :
      (d : Device) → Settled d (on_session (fastboot_fail (codes "unknown command")) d)
  unknown-Settled d =
      let t = codes "unknown command" in
      ground (arith, fail-reads t d.session, fail-state t d.session)

  dispatch-reads :
      (found : Option (Handler × Text)) (buffer : Text) (d : Device)
      → d.session.state ≡ command
      → length (dispatch handle found buffer d).session.reads ≤ length d.session.reads
  unfolding dispatch
  dispatch-reads none buffer d e = (unknown-Settled d).2
  dispatch-reads (some (h, arg)) buffer d e = omega (
    arith,
    ap (λ (s : Session). length s.reads) (autoboot-keeps d).2,
    guarded-reads (check_battery (disable_autoboot d)) buffer h arg (disable_autoboot d)
        (ap (λ (s : Session). s.state) (autoboot-keeps d).2 ∙ e),
  )

  dispatch-closed :
      (found : Option (Handler × Text)) (buffer : Text) (d : Device)
      → d.session.state ≡ command
      → check_battery (disable_autoboot d) ≢ none
      → ((dispatch handle found buffer d).session.state ≢ command)
        × ((dispatch handle found buffer d).session.state ≢ offline)
  unfolding dispatch
  dispatch-closed none buffer d e known = let q = unknown-Settled d in (q.0, q.1)
  dispatch-closed (some (h, arg)) buffer d e known =
      let q =
        guarded-Settled (check_battery (disable_autoboot d)) buffer h arg (disable_autoboot d)
          (ap (λ (s : Session). s.state) (autoboot-keeps d).2 ∙ e) known in
      (q.0, q.1)

  received-state : (d : Device) → (received d).session ≡ record (d.session) { state = command }
  unfolding clear_alarm
  received-state d =
      (step-battery (clear_alarm (on_session (λ s. record s { state = command }) d))).2

  -- Where the battery threshold is configured and the handlers keep HandlerLaws, no round leaves its
  -- command open, whatever the host sent: the state is neither STATE_COMMAND nor STATE_OFFLINE.
  pub command_round-closes :
      (cmds : CmdList) (bytes : Text) (d : Device)
      → check_battery d ≢ none
      → ((command_round handle cmds bytes d).session.state ≢ command)
        × ((command_round handle cmds bytes d).session.state ≢ offline)
  unfolding command_round
  command_round-closes cmds bytes d known =
      dispatch-closed (find_cmd (before_char 0 bytes) cmds) (before_char 0 bytes) (received d)
        (ap (λ (s : Session). s.state) (received-state d))
        (λ e. known (sym (received-battery d) ∙ e))

  round-reads :
      (cmds : CmdList) (bytes : Text) (d : Device)
      → length (command_round handle cmds bytes d).session.reads ≤ length d.session.reads
  unfolding command_round
  round-reads cmds bytes d = omega (
    arith,
    ap (λ (s : Session). length s.reads) (received-state d),
    dispatch-reads (find_cmd (before_char 0 bytes) cmds) (before_char 0 bytes) (received d)
        (ap (λ (s : Session). s.state) (received-state d)),
  )

  Ended : Option Device → Type 0
  Ended r = (d' : Device) × (r ≡ some d') × (d'.session.state ≡ offline)

  after-Ended :
      (again : Device → Option Device) (cmds : CmdList) (d : Device) (r : Option Text × Session)
      → ((s : Session) (bytes : Text)
          → r ≡ (some bytes, s)
          → length s.reads < length d.session.reads)
      → ((t : Device) → length t.session.reads < length d.session.reads → Ended (again t))
      → Ended (after_read handle again cmds r d)
  unfolding after_read Ended
  after-Ended again cmds d (none, s) less rest = (_, refl, refl)
  after-Ended again cmds d (some bytes, s) less rest =
      rest (command_round handle cmds bytes (record d { session = s }))
        (omega (arith, round-reads cmds bytes (record d { session = s }), less s bytes refl))

  -- With handlers that keep HandlerLaws, the command loop comes to an end whatever the reads of the
  -- device node return, on any fuel above their number, and leaves STATE_OFFLINE.
  pub command_loop-ends :
      (fuel : ℕ) (cmds : CmdList) (d : Device)
      → length d.session.reads < fuel
      → (d' : Device) × (command_loop handle fuel cmds d ≡ some d') × (d'.session.state ≡ offline)
  unfolding command_loop Ended
  command_loop-ends zero cmds d lt = absurd (omega arith)
  command_loop-ends (suc fuel) cmds d lt = elim (Bool-cases (is_error d.session.state)) [
    | inl e ↦ (go_offline d, rw e refl, refl)
    | inr e ↦ rw e (
        after-Ended (command_loop handle fuel cmds) cmds d (usb_read 64 d.session)
          (λ s bytes p. usb_read-reads 64 d.session s bytes (omega arith) p)
          (λ t less. command_loop-ends fuel cmds t (omega arith)))
  ]
