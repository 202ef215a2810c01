-- ===== src/Aboot/Flash/Filling.antt =====
-- The loop of `cmd_stream_flash` of src/aboot.c that receives the image in pieces.
use tboot.Base.{
  ℕ, zero, suc, ◌+◌, ◌-◌, ◌%◌, ◌≤◌, ◌<◌, ◌≡◌, refl, inl, inr, Bool, true, false, not, ◌&&◌, ◌++◌,
  ap, ◌∙◌, arith, Text, codes, length, length-append, ltb, ltb→lt, Bool-cases,
}
use mathlib.Core.List.{append_assoc}
use tboot.Base.Number.{u32}
use tboot.Fastboot.{Session}
use tboot.Fastboot.Online.{Online}
use tboot.Aboot.Commands.{show}
use tboot.Aboot.Flow.{receive}
use tboot.Aboot.Flow.Outcome.{Steps, bind-Steps, piece-Steps}
use tboot.Aboot.Flash.{System, Filled, buffer_size, sees_break, next_size, fill_loop, show_percent}

-- No sum of `finished` and `size` leaves the 32 bits.
abbrev pub SumsFit : ℕ → Type 0
SumsFit len = len + buffer_size ≤ u32

-- An image that begins with its first piece.
abbrev pub Extends : Text → Text → Type 0
Extends first image = (more : Text) × (image ≡ first ++ more)

Extends-more : (first got bytes : Text) → Extends first got → Extends first (got ++ bytes)
Extends-more first got bytes (more, e) =
    (more ++ bytes, ap (λ t. t ++ bytes) e ∙ append_assoc first more bytes)

pub and-left : (a b : Bool) → (a && b) ≡ true → a ≡ true
and-left true b e = refl
and-left false b e = e

module _ (len : ℕ) where
  abbrev Fits : Type 0
  Fits = SumsFit len

  abbrev pub Sized : ℕ → ℕ → Type 0
  Sized size finished = (finished < len → 0 < size) × (size ≤ buffer_size) × (finished ≤ len)

  next_size-bounds :
      (size finished : ℕ)
      → Fits
      → finished < len
      → Sized size finished
      → (0 < next_size len size finished)
        × (finished + next_size len size finished ≤ len)
        × (next_size len size finished ≤ buffer_size)
  next_size-bounds size finished fits more (pos, small, le) =
      let positive : 0 < size = pos more in
      let exact : (finished + size) % u32 ≡ finished + size = omega arith in
      ground (arith, exact, positive)

  pub advance :
      (size finished : ℕ)
      → Fits
      → finished < len
      → Sized size finished
      → ((finished + next_size len size finished) % u32 ≡ finished + next_size len size finished)
        × Sized (next_size len size finished) (finished + next_size len size finished)
  advance size finished fits more sized =
      let (pos, le, small) = next_size-bounds size finished fits more sized in
      (omega arith, (λ _. pos, small, le))

  -- What the loop promises: nothing where the sums wrap around.
  abbrev Progress : ℕ → ℕ → Text → Type 0
  Progress size finished got = Fits → Sized size finished × (length got ≡ finished)

  abbrev pub FilledWell : Text → Filled → Type 0
  FilledWell first f = Progress f.size f.finished f.image × Extends first f.image

  next-Progress :
      (size finished : ℕ) (got bytes : Text)
      → finished < len
      → length bytes ≡ next_size len size finished
      → Progress size finished got
      → Progress
          (next_size len size finished)
          ((finished + next_size len size finished) % u32)
          (got ++ bytes)
  next-Progress size finished got bytes more full inv fits =
      let (exact, sized) = advance size finished fits more (inv fits).0 in
      rw exact (sized, omega (arith, length-append got bytes, (inv fits).1))

  pub next-enough :
      (fuel size finished : ℕ)
      → finished < len
      → Fits
      → Sized size finished
      → len - finished < suc fuel
      → len - (finished + next_size len size finished) % u32 < fuel
  next-enough fuel size finished more fits sized enough =
      let (exact, below) = advance size finished fits more sized in
      let (pos, le, small) = next_size-bounds size finished fits more sized in
      rw exact (omega arith)

module _ (n : ℕ) (system : System) (len : ℕ) where
  percent-Online : (p : ℕ) (s : Session) → Online n s → Online n (show_percent p s)
  unfolding show_percent show
  percent-Online p s on = ground arith

  pub fill_loop-Steps :
      (fuel count size finished : ℕ) (first got : Text)
      → Progress len size finished got
      → Extends first got
      → (SumsFit len → len - finished < fuel)
      → Steps n
          (SumsFit len → ⊥)
          (FilledWell len first)
          (fill_loop system len fuel count size finished got)
  unfolding fill_loop
  fill_loop-Steps zero count size finished first got inv begins enough s on =
      (on, λ fits. absurd (omega (arith, enough fits)))
  fill_loop-Steps (suc fuel) count size finished first got inv begins enough s on =
      let size' = next_size len size finished in
      let finished' = (finished + size') % u32 in
      elim (Bool-cases (ltb finished len && not (sees_break system.breaks_at count))) [
        | inl more ↦
            let below = ltb→lt finished len (and-left _ _ more) in
            rw more (
              bind-Steps n (SumsFit len → ⊥) (λ bytes. length bytes ≡ size') (FilledWell len first)
                (receive size' false (codes "download failed.")) _
                (piece-Steps n (SumsFit len → ⊥) size' (codes "download failed."))
                (λ bytes full t on'.
                  fill_loop-Steps fuel (suc count) size' finished' first (got ++ bytes)
                    (next-Progress len size finished got bytes below full inv)
                    (Extends-more first got bytes begins)
                    (λ fits.
                      next-enough len fuel size finished below fits (inv fits).0 (enough fits))
                    (show_percent (system.percent finished' len) t)
                    (percent-Online (system.percent finished' len) t on'))
                s on)
        | inr stop ↦ rw stop (on, (inv, begins))
      ]
