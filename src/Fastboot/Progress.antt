-- ===== src/Fastboot/Progress.antt =====
-- `usb_read_progress` of src/fastboot.c: a download in slices, with a progress bar.
pub mod Frame
use tboot.Base.{
  ℕ, zero, suc, ◌+◌, ◌-◌, ◌/◌, ◌*◌, ◌%◌, ◌^◌, ◌≤◌, ◌<◌, min, ◌≡◌, refl, sym, ap, ◌∙◌, ◌≢◌, ◌↔◌, ◌⊎◌,
  inl, inr, Bool, true, false, not, ◌&&◌, ◌||◌, Option, none, some, List, [], ◌∷◌, ◌++◌, map, arith,
  String, Text, codes, text_eq, starts_with, after_char, before_char, text_eq_refl, text_eq-eq,
  starts_with-append, length, get_elem?, take, drop, length-append, length-take, length-drop,
  take-append-drop, take_all, take-take, drop-nil, drop-drop, drop_all, ltb, leb, ◌==◌,
  if◌then◌else◌, ltb→lt, lt→ltb, ==_iff, Bool-cases, Option-cases,
}
use tboot.Base.Number.{u32}
use tboot.Fastboot.{error, UiCall, textbar, Session}
use tboot.Fastboot.Usb.{usb_read, ReadOutcome, read_failed, read_bytes, usb_read-outcome}

-- What the function returns: the bytes stored (their number is the returned count), -1, or, in the
-- model alone, that the fuel ran out.
pub data Transfer : Type 0 where
  received : Text → Transfer
  failed out_of_fuel : Transfer

-- roundup(len / 100, 4096), in 32 bits
abbrev pub first_slice : ℕ → ℕ
first_slice len = (len / 100 + 4095) % u32 / 4096 * 4096

abbrev show_bar : ℕ → Session → Session
show_bar percent s = record s {
  ui = if ltb percent 100 then s.ui ++ textbar percent ∷ [] else s.ui;
}

-- What a round does after its usb_read stored `bytes`.
progress_round :
    (ℕ → ℕ → ℕ → Text → Session → Transfer × Session)
    → ℕ
    → ℕ
    → ℕ
    → ℕ
    → Text
    → Text
    → Session
    → Transfer × Session
progress_round again len slice percent finished got bytes s =
    let percent' = percent + 1 in
    let finished' = (finished + slice) % u32 in
    let got' = got ++ bytes in
    let s' = show_bar percent' s in
    let last = again (len - finished') 99 finished' got' s' in
    let next = again slice percent' finished' got' s' in
    if ltb len finished'
    then (failed, s')
    else if finished' == len
    then (received got', s')
    else if ltb len ((finished' + slice) % u32)
    then (if len - finished' == 0 then (received got', s') else last)
    else next

slice_step :
    (ℕ → ℕ → ℕ → Text → Session → Transfer × Session)
    → ℕ
    → ℕ
    → ℕ
    → ℕ
    → Text
    → Option Text × Session
    → Transfer × Session
slice_step again len slice percent finished got (none, s) = (failed, s)
slice_step again len slice percent finished got (some bytes, s) =
    if length bytes == slice
    then progress_round again len slice percent finished got bytes s
    else (failed, s)

-- The loop: `slice`, `percent` and `finished` are the variables of the source, `got` the bytes
-- stored so far.
pub progress_loop : ℕ → ℕ → ℕ → ℕ → ℕ → Text → Session → Transfer × Session
unfolding progress_round slice_step
progress_loop zero len slice percent finished got s = (out_of_fuel, s)
progress_loop (suc fuel) len slice percent finished got s =
    let slice' = if slice == 0 then len else slice in
    let percent' = if slice == 0 then 99 else percent in
    slice_step (progress_loop fuel len) len slice' percent' finished got (usb_read slice' s)

-- The `unsigned long` count is returned as an `int`: from 2 ^ 31 on it is negative, which callers
-- take for a failure.
as_int : Transfer × Session → Transfer × Session
as_int (received got, s) = if ltb (length got) 0x8000_0000 then (received got, s) else (failed, s)
as_int (failed, s) = (failed, s)
as_int (out_of_fuel, s) = (out_of_fuel, s)

short_read : Option Text × Session → Transfer × Session
short_read (none, s) = (failed, s)
short_read (some bytes, s) = (received bytes, s)

pub usb_read_progress : ℕ → Session → Transfer × Session
unfolding as_int short_read
usb_read_progress len s =
    if ltb len 4096
    then short_read (usb_read len s)
    else as_int (progress_loop (suc len) len (first_slice len) 0 0 [] s)

-- A transfer that succeeds has stored exactly `len` bytes, and has touched nothing of the session
-- but the script and the screen; it never stops for want of fuel.
abbrev pub Completes : ℕ → Session → Transfer × Session → Type 0
Completes len s (received got, s') =
    (length got ≡ len)
    × (reads : List (Option Text)) × (ui : List UiCall) × (s' ≡ record s { reads = reads; ui = ui })
Completes len s (failed, s') = Unit
Completes len s (out_of_fuel, s') = ⊥

Completes-later :
    (len : ℕ) (s : Session) (reads : List (Option Text)) (ui : List UiCall) (r : Transfer × Session)
    → Completes len (record s { reads = reads; ui = ui }) r
    → Completes len s r
Completes-later len s reads ui (received got, s') h = h
Completes-later len s reads ui (failed, s') h = h
Completes-later len s reads ui (out_of_fuel, s') h = h

module _ (len : ℕ) (small : len < 0x8000_0000) where
  -- The rounds that `again` stands for complete, from wherever this round may leave off.
  abbrev RestCompletes : (ℕ → ℕ → ℕ → Text → Session → Transfer × Session) → ℕ → Session → Type 0
  RestCompletes again finished s =
      (slice percent : ℕ) (got : Text) (ui : List UiCall)
      → 0 < slice
      → finished + slice ≤ len
      → length got ≡ finished
      → Completes len (record s { ui = ui })
          (again slice percent finished got (record s { ui = ui }))

  round-Completes :
      (again : ℕ → ℕ → ℕ → Text → Session → Transfer × Session) (slice percent finished : ℕ)
      (got bytes : Text) (s : Session)
      → 0 < slice
      → finished + slice ≤ len
      → length got ≡ finished
      → length bytes ≡ slice
      → RestCompletes again (finished + slice) s
      → Completes len s (progress_round again len slice percent finished got bytes s)
  unfolding progress_round
  round-Completes again slice percent finished got bytes s pos fits eg eb rest =
      rw exact (elim (Bool-cases (finished + slice == len)) [
        | inl done ↦ rw (inside, done) (whole done, s.reads, _, refl)
        | inr more ↦ elim (Bool-cases (ltb len ((finished + slice + slice) % u32))) [
          | inl short ↦
              rw (inside, more, short, left more)
                (Completes-later len s s.reads (show_bar (percent + 1) s).ui _ (
                  rest (len - (finished + slice)) 99 (got ++ bytes) (show_bar (percent + 1) s).ui
                    (ground arith) (omega arith) size))
          | inr full ↦
              rw (inside, more, full)
                (Completes-later len s s.reads (show_bar (percent + 1) s).ui _ (
                  rest slice (percent + 1) (got ++ bytes) (show_bar (percent + 1) s).ui pos
                    (ground arith) size))
        ]
      ])
    where
      exact : (finished + slice) % u32 ≡ finished + slice
      exact = omega arith

      size : length (got ++ bytes) ≡ finished + slice
      size = omega (arith, length-append got bytes)

      whole : (finished + slice == len) ≡ true → length (got ++ bytes) ≡ len
      whole h = ground (arith, size)

      inside : ltb len (finished + slice) ≡ false
      inside = ground arith

      left : (finished + slice == len) ≡ false → (len - (finished + slice) == 0) ≡ false
      left h = ground arith

  step-Completes :
      (again : ℕ → ℕ → ℕ → Text → Session → Transfer × Session) (slice percent finished : ℕ)
      (got : Text) (s : Session) (r : Option Text × Session)
      → 0 < slice
      → finished + slice ≤ len
      → length got ≡ finished
      → ReadOutcome slice s r
      → ((s' : Session) → RestCompletes again (finished + slice) s')
      → Completes len s (slice_step again len slice percent finished got r)
  unfolding slice_step
  step-Completes again slice percent finished got s _ pos fits eg (read_failed st reads e) rest = tt
  step-Completes again slice percent finished got s _ pos fits eg (read_bytes bytes reads le) rest =
      elim (Bool-cases (length bytes == slice)) [
        | inl full ↦ rw full (
            Completes-later len s reads s.ui _ (
              round-Completes again slice percent finished got bytes (record s { reads = reads })
                pos fits eg (ground arith) (rest (record s { reads = reads }))))
        | inr short ↦ rw short tt
      ]

  loop-Completes :
      (fuel slice percent finished : ℕ) (got : Text) (s : Session)
      → len - finished < fuel
      → 0 < slice
      → finished + slice ≤ len
      → length got ≡ finished
      → Completes len s (progress_loop fuel len slice percent finished got s)
  unfolding progress_loop
  loop-Completes zero slice percent finished got s lt pos fits eg = absurd (omega arith)
  loop-Completes (suc fuel) slice percent finished got s lt pos fits eg = rw nonzero (
      step-Completes (progress_loop fuel len) slice percent finished got s (usb_read slice s) pos
        fits eg (usb_read-outcome slice s)
        (λ s' slice' percent' got' ui pos' fits' eg'.
          loop-Completes fuel slice' percent' (finished + slice) got' (record s' { ui = ui })
            (omega arith) pos' fits' eg'))
    where
      nonzero : (slice == 0) ≡ false
      nonzero = ground arith

  as_int-Completes :
      (s : Session) (r : Transfer × Session) → Completes len s r → Completes len s (as_int r)
  unfolding as_int
  as_int-Completes s (received got, s') h =
      let e : ltb (length got) 0x8000_0000 ≡ true = ground (arith, h.0) in rw e h
  as_int-Completes s (failed, s') h = tt
  as_int-Completes s (out_of_fuel, s') h = h

  -- For a length from 4096 on that an `int` can hold, the first slice is a positive multiple of 4096
  -- and not above the length, `usb_read_progress` needs no more rounds than it has fuel for, if each
  -- of its reads comes back, and where it succeeds it has stored exactly `len` bytes and changed only
  -- the script and the screen. A last slice need not be a multiple of 4096.
  pub usb_read_progress-Completes :
      (s : Session)
      → 4096 ≤ len
      → (first_slice len % 4096 ≡ 0)
        × (0 < first_slice len)
        × (first_slice len ≤ len)
        × Completes len s (usb_read_progress len s)
  unfolding usb_read_progress
  usb_read_progress-Completes s h = (
    omega arith,
    omega arith,
    omega arith,
    rw large (
        as_int-Completes s _ (
          loop-Completes (suc len) (first_slice len) 0 0 [] s (omega arith) (omega arith)
            (omega arith) refl)),
  )
    where
      large : ltb len 4096 ≡ false
      large = ground arith
