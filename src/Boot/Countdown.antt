-- ===== src/Boot/Countdown.antt =====
-- What the countdown returns.
use tboot.Base.{
  ℕ, zero, suc, ◌<◌, min, ◌≡◌, refl, Bool, true, false, not, ◌&&◌, List, arith, ◌==◌, if◌then◌else◌,
}
use tboot.Base.Int.{pos}
use tboot.Boot.{Boot, Tick, tick, show_second, first_tick, later_ticks, countdown_loop, countdown}

-- Whether `seconds` seconds end without a key before the power key: the power key ends the
-- countdown at the end of its second.
abbrev pub stays_enabled : ℕ → List Tick → Bool
stays_enabled zero ticks = true
stays_enabled (suc seconds) ticks =
    if (first_tick ticks).disabled
    then false
    else if (first_tick ticks).powered
    then true
    else stays_enabled seconds (later_ticks ticks)

loop-over :
    (total seconds : ℕ) (ticks : List Tick) (b : Boot)
    → (b.autoboot_enabled && not b.power_pressed) ≡ false
    → countdown_loop total seconds ticks b ≡ b
unfolding countdown_loop
loop-over total zero ticks b h = refl
loop-over total (suc seconds) ticks b h = rw h refl

loop-enabled :
    (total seconds : ℕ) (ticks : List Tick) (b : Boot)
    → b.autoboot_enabled ≡ true
    → b.power_pressed ≡ false
    → (countdown_loop total seconds ticks b).autoboot_enabled ≡ stays_enabled seconds ticks
unfolding countdown_loop tick
loop-enabled total zero ticks b e p = e
loop-enabled total (suc seconds) ticks b e p =
    let t = first_tick ticks in
    let b' = tick t (show_second total (suc seconds) b) in
    ground (
      arith,
      loop-enabled total seconds (later_ticks ticks) b',
      loop-over total seconds (later_ticks ticks) b',
    )

-- A countdown of a positive number of seconds, started with the power key not pressed, lasts at
-- most 100 seconds, returns whether no key came before the power key or the end, and leaves
-- `autoboot_enabled` cleared.
pub countdown_lem :
    (seconds : ℕ) (ticks : List Tick) (b : Boot)
    → 0 < seconds
    → b.power_pressed ≡ false
    → ((countdown (pos seconds) ticks b).0 ≡ stays_enabled (min seconds 100) ticks)
      × ((countdown (pos seconds) ticks b).1.autoboot_enabled ≡ false)
unfolding countdown
countdown_lem seconds ticks b some_time p =
    let enabled = record b { autoboot_enabled = true } in
    let e : (seconds == 0) ≡ false = ground arith in
    rw e (loop-enabled (min seconds 100) (min seconds 100) ticks enabled refl p, refl)
