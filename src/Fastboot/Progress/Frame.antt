-- ===== src/Fastboot/Progress/Frame.antt =====
-- What a download leaves alone: all of a session but the state, the script and the screen.
use tboot.Base.{
  ℕ, zero, suc, ◌+◌, ◌-◌, ◌%◌, inl, inr, Option, none, some, List, [], Text, length, ltb, ◌==◌,
  if◌then◌else◌, Bool-cases,
}
use tboot.Base.Number.{u32}
use tboot.Fastboot.{FastbootState, UiCall, Session}
use tboot.Fastboot.Usb.{usb_read, ReadOutcome, read_failed, read_bytes, usb_read-outcome}
use tboot.Fastboot.Progress.{
  Transfer, received, failed, out_of_fuel, show_bar, progress_round, slice_step, progress_loop,
  as_int, short_read, first_slice, usb_read_progress,
}

pub data Reads (s : Session) : Session → Type 0 where
  reads_from :
      (state : FastbootState) (reads : List (Option Text)) (ui : List UiCall)
      → Reads s (record s { state = state; reads = reads; ui = ui })

Reads-trans : {s t u : Session} → Reads s t → Reads t u → Reads s u
Reads-trans (reads_from st r ui) (reads_from st' r' ui') = reads_from st' r' ui'

usb_read-Reads :
    {len : ℕ} {s : Session} (r : Option Text × Session) → ReadOutcome len s r → Reads s r.1
usb_read-Reads {s = s} _ (read_failed st reads e) = reads_from st reads s.ui
usb_read-Reads {s = s} _ (read_bytes bytes reads le) = reads_from s.state reads s.ui

Reads-ui :
    {s : Session} (ui : List UiCall) (t : Session) → Reads s t → Reads s (record t { ui = ui })
Reads-ui ui _ (reads_from st r ui') = reads_from st r ui

module _ (P : Session → Type 0) (reads : (len : ℕ) (s : Session) → P s → P (usb_read len s).1)
    (shows : (ui : List UiCall) (s : Session) → P s → P (record s { ui = ui })) (len : ℕ) where
  round-keeps :
      (again : ℕ → ℕ → ℕ → Text → Session → Transfer × Session) (slice percent finished : ℕ)
      (got bytes : Text) (s : Session)
      → P s
      → ((slice' percent' finished' : ℕ) (got' : Text) (t : Session)
          → P t
          → P (again slice' percent' finished' got' t).1)
      → P (progress_round again len slice percent finished got bytes s).1
  unfolding progress_round
  round-keeps again slice percent finished got bytes s p rest =
      let shown = shows (show_bar (percent + 1) s).ui s p in
      elim (Bool-cases (ltb len ((finished + slice) % u32))) [
        | inl over ↦ rw over shown
        | inr inside ↦ elim (Bool-cases ((finished + slice) % u32 == len)) [
          | inl done ↦ rw (inside, done) shown
          | inr more ↦ elim (Bool-cases (ltb len (((finished + slice) % u32 + slice) % u32))) [
            | inl short ↦ elim (Bool-cases (len - (finished + slice) % u32 == 0)) [
              | inl end ↦ rw (inside, more, short, end) shown
              | inr left ↦
                  rw (inside, more, short, left) (rest _ _ _ _ (show_bar (percent + 1) s) shown)
            ]
            | inr full ↦ rw (inside, more, full) (rest _ _ _ _ (show_bar (percent + 1) s) shown)
          ]
        ]
      ]

  step-keeps :
      (again : ℕ → ℕ → ℕ → Text → Session → Transfer × Session) (slice percent finished : ℕ)
      (got : Text) (r : Option Text × Session)
      → P r.1
      → ((slice' percent' finished' : ℕ) (got' : Text) (t : Session)
          → P t
          → P (again slice' percent' finished' got' t).1)
      → P (slice_step again len slice percent finished got r).1
  unfolding slice_step
  step-keeps again slice percent finished got (none, t) p rest = p
  step-keeps again slice percent finished got (some bytes, t) p rest =
      elim (Bool-cases (length bytes == slice)) [
        | inl full ↦ rw full (round-keeps again slice percent finished got bytes t p rest)
        | inr short ↦ rw short p
      ]

  loop-keeps :
      (fuel slice percent finished : ℕ) (got : Text) (s : Session)
      → P s
      → P (progress_loop fuel len slice percent finished got s).1
  unfolding progress_loop
  loop-keeps zero slice percent finished got s p = p
  loop-keeps (suc fuel) slice percent finished got s p =
      let slice' = if slice == 0 then len else slice in
      step-keeps (progress_loop fuel len) slice' (if slice == 0 then 99 else percent) finished got
        (usb_read slice' s) (reads slice' s p) (loop-keeps fuel)

  short-keeps : (r : Option Text × Session) → P r.1 → P (short_read r).1
  unfolding short_read
  short-keeps (none, t) p = p
  short-keeps (some bytes, t) p = p

  int-keeps : (r : Transfer × Session) → P r.1 → P (as_int r).1
  unfolding as_int
  int-keeps (received got, t) p = elim (Bool-cases (ltb (length got) 0x8000_0000)) [
    | inl e ↦ rw e p
    | inr e ↦ rw e p
  ]
  int-keeps (failed, t) p = p
  int-keeps (out_of_fuel, t) p = p

  -- A property of sessions that every read and every picture on the screen keep is kept by a
  -- download.
  pub usb_read_progress-keeps : (s : Session) → P s → P (usb_read_progress len s).1
  unfolding usb_read_progress
  usb_read_progress-keeps s p = elim (Bool-cases (ltb len 4096)) [
    | inl e ↦ rw e (short-keeps (usb_read len s) (reads len s p))
    | inr e ↦ rw e (
        int-keeps (progress_loop (suc len) len (first_slice len) 0 0 [] s)
          (loop-keeps (suc len) (first_slice len) 0 0 [] s p))
  ]

pub usb_read_progress-Reads : (len : ℕ) (s : Session) → Reads s (usb_read_progress len s).1
usb_read_progress-Reads len s =
    usb_read_progress-keeps (Reads s)
      (λ len' t p. Reads-trans p (usb_read-Reads _ (usb_read-outcome len' t)))
      (λ ui t p. Reads-ui ui t p) len s (reads_from s.state s.reads s.ui)
