-- ===== src/Aboot/Flash/Outcome.antt =====
-- The transfer of `cmd_stream_flash` of src/aboot.c step by step, with the image read to its end
-- after a broken pipe.
use tboot.Base.{
  ℕ, zero, suc, ◌+◌, ◌-◌, ◌%◌, ◌<◌, min, ◌≡◌, inl, inr, false, Option, none, some, [], ◌++◌, sym,
  arith, Text, codes, length, ltb, ◌==◌, ltb→lt, Bool-cases,
}
use mathlib.Core.List.{append-nil}
use tboot.Base.Number.{u32}
use tboot.Fastboot.{Session}
use tboot.Fastboot.Online.{Online}
use tboot.Fastboot.Handshake.{streaming_download}
use tboot.Fastboot.Download.Online.{streaming_download-Online}
use tboot.Aboot.Commands.{show}
use tboot.Aboot.Flow.{go, crash}
use tboot.Aboot.Flow.Outcome.{
  Outcome, Steps, bind-Steps, handshake-Steps, piece-Steps, abort-Outcome, then-Steps,
  guard-then-Steps,
}
use tboot.Aboot.Flash.{
  System, Filled, buffer_size, sees_break, next_size, first_piece, all_pieces, drain_loop,
  after_fill, broken, drain_result, make_buffers, warn_unpacked,
}
use tboot.Aboot.Flash.Filling.{
  SumsFit, Extends, Sized, FilledWell, advance, and-left, next-enough, fill_loop-Steps,
}

module _ (n : ℕ) (system : System) (len : ℕ) where
  abbrev Fits : Type 0
  Fits = SumsFit len

  DrainEnds : Option Session → Type 0
  DrainEnds none = Fits → ⊥
  DrainEnds (some s) = Online n s

  drain_result-Ends :
      (again : Session → Option Session) (r : Option Text × Session)
      → Online n r.1
      → ((s : Session) → Online n s → DrainEnds (again s))
      → DrainEnds (drain_result system len again r)
  unfolding drain_result DrainEnds
  drain_result-Ends again (none, s) on h = on
  drain_result-Ends again (some bytes, s) on h = h s on

  drain_loop-Ends :
      (fuel size finished : ℕ) (s : Session)
      → (Fits → Sized len size finished)
      → (Fits → len - finished < fuel)
      → Online n s
      → DrainEnds (drain_loop system len fuel size finished s)
  unfolding drain_loop DrainEnds
  drain_loop-Ends zero size finished s sized enough on = λ fits. absurd (omega (arith, enough fits))
  drain_loop-Ends (suc fuel) size finished s sized enough on =
      let size' = next_size len size finished in
      let finished' = (finished + size') % u32 in
      elim (Bool-cases (ltb finished len)) [
        | inl more ↦
            let below = ltb→lt finished len more in
            rw more (
              drain_result-Ends (drain_loop system len fuel size' finished')
                (streaming_download size' false s) (streaming_download-Online n size' false s on)
                (λ t on'.
                  drain_loop-Ends fuel size' finished' t
                    (λ fits.
                      let (exact, next) = advance len size finished fits below (sized fits) in
                      rw exact next)
                    (λ fits.
                      next-enough len fuel size finished below fits (sized fits) (enough fits))
                    on'))
        | inr stop ↦ rw stop on
      ]

  broken-Outcome :
      (first : Text) (drained : Option Session) (f : Filled) (s : Session)
      → Online n s
      → DrainEnds drained
      → Outcome n (Fits → ⊥) (FilledWell len first) (broken system len drained (go f, s))
  unfolding broken DrainEnds
  broken-Outcome first none f s on h = (on, h)
  broken-Outcome first (some t) f s on h =
      abort-Outcome n (Fits → ⊥) (FilledWell len first) (codes "broken pipe, image too large?") t h

  after_fill-Steps :
      (first : Text) (f : Filled)
      → FilledWell len first f
      → Steps n (Fits → ⊥) (FilledWell len first) (after_fill system len f)
  unfolding after_fill
  after_fill-Steps first f well s on =
      let drained = drain_loop system len (suc len) f.size f.finished s in
      elim (Bool-cases (sees_break system.breaks_at f.count)) [
        | inl e ↦ rw e (
            broken-Outcome first drained f s on (
              drain_loop-Ends (suc len) f.size f.finished s (λ fits. (well.0 fits).0)
                (λ fits. omega arith) on))
        | inr e ↦ rw e (on, well)
      ]

  buffers-Steps : (k : ℕ) → Steps {0} n (Fits → ⊥) (λ _. Unit) (make_buffers k)
  unfolding make_buffers
  buffers-Steps zero s on =
      abort-Outcome {0} n (Fits → ⊥) {A = Unit} (λ _. Unit) (codes "out of memory") s on
  buffers-Steps (suc zero) s on =
      abort-Outcome {0} n (Fits → ⊥) {A = Unit} (λ _. Unit) (codes "out of memory") (crash s) on
  buffers-Steps (suc (suc k)) s on = (on, tt)

  warn-Steps : (magic : Text) → Steps {0} n (Fits → ⊥) (λ _. Unit) (warn_unpacked magic)
  unfolding warn_unpacked show
  warn-Steps magic s on = ground arith

  pub first_piece-Steps :
      Steps n (Fits → ⊥) (λ bytes. length bytes ≡ min len buffer_size) (first_piece system len)
  unfolding first_piece
  first_piece-Steps =
      let first = min len buffer_size in
      let whole = λ (bytes : Text). length bytes ≡ first in
      bind-Steps n (Fits → ⊥) (λ _. Unit) whole _ _
        (handshake-Steps n (Fits → ⊥) len (codes "protocol handshake failed."))
        (λ _ _. then-Steps n (Fits → ⊥) whole _ _ (buffers-Steps system.buffers) (
          bind-Steps n (Fits → ⊥) whole whole _ _
            (piece-Steps n (Fits → ⊥) first (codes "download failed."))
            (λ bytes full. then-Steps n (Fits → ⊥) whole _ _ (warn-Steps (bytes ++ system.heap)) (
              guard-then-Steps n (Fits → ⊥) whole _ _ _ (λ _.
                guard-then-Steps n (Fits → ⊥) whole _ _ _
                  (λ _. guard-then-Steps n (Fits → ⊥) whole _ _ _ (λ _ s on. (on, full))))))))

  pub all_pieces-Steps :
      (bytes : Text)
      → length bytes ≡ min len buffer_size
      → Steps n
          (Fits → ⊥)
          (λ f. (Fits → length f.image ≡ len) × Extends bytes f.image)
          (all_pieces system len bytes)
  unfolding all_pieces
  all_pieces-Steps bytes full =
      let good = λ (f : Filled). (Fits → length f.image ≡ len) × Extends bytes f.image in
      bind-Steps n (Fits → ⊥) (FilledWell len bytes) good _ _
        (fill_loop-Steps n system len (suc len) 1 (min len buffer_size) (min len buffer_size) bytes
          bytes (λ fits. ((λ more. ground arith, ground arith, ground arith), full))
          ([], sym (append-nil bytes)) (λ fits. omega arith))
        (λ f well.
          bind-Steps n (Fits → ⊥) (FilledWell len bytes) good _ _ (after_fill-Steps bytes f well)
            (λ f' well'. guard-then-Steps n (Fits → ⊥) good _ _ _ (λ _.
              guard-then-Steps n (Fits → ⊥) good _ _ _ (λ all s on. (
                on,
                (
                  (λ fits.
                      ground (
                        arith,
                        (well.0 fits).1,
                        and-left (f.finished == len) system.reader_ok all,
                      )),
                  well.1,
                ),
              )))))
