-- ===== src/Aboot/Pipeline/Tests.antt =====
-- Runs of the two threads of `cmd_stream_flash`.
use tboot.Base.{◌≡◌, refl, some, List, [], ◌∷◌, codes}
use tboot.Aboot.Pipeline.{Pipeline, Move, writer, reader_moves, step, run, start, Succeeds}
use tboot.Aboot.Pipeline.Order.{
  stream, NoOvertaking, run-stream, losing, overtaking, losing-Succeeds, overtaking_swaps,
}
use tboot.Aboot.Pipeline.Finish.{NoStale, success_writes_image}

-- Two pieces, in turns.
abbrev schedule : List Move
schedule =
    reader_moves ∷ writer ∷ writer ∷ reader_moves ∷ reader_moves ∷ reader_moves ∷ reader_moves
    ∷ reader_moves ∷ reader_moves ∷ []

abbrev before : Pipeline
before = start (codes "a") (codes "b" ∷ [])

abbrev after : Pipeline
after = run schedule before

schedule-Succeeds : Succeeds after
unfolding run step
schedule-Succeeds = (refl, refl)

schedule-NoOvertaking : NoOvertaking schedule before
unfolding step
schedule-NoOvertaking = (refl, (refl, (refl, (refl, (refl, (refl, (refl, (refl, (refl, tt)))))))))

schedule-NoStale : NoStale schedule before
unfolding step
schedule-NoStale = (refl, (refl, (refl, (refl, (refl, (refl, (refl, (refl, (refl, tt)))))))))

success_writes_image_example : after.device ≡ codes "a" ∷ codes "b" ∷ []
success_writes_image_example =
    success_writes_image (codes "a") (codes "b" ∷ []) schedule tt schedule-NoOvertaking
      schedule-NoStale schedule-Succeeds

run-stream_example : stream after ≡ stream before
run-stream_example = run-stream schedule before tt refl schedule-NoOvertaking

overtaking_swaps_example :
    (run overtaking (start (codes "a") (codes "b" ∷ codes "c" ∷ []))).device
    ≡ codes "a" ∷ codes "c" ∷ codes "b" ∷ []
overtaking_swaps_example = overtaking_swaps (codes "a") (codes "b") (codes "c")

losing-Succeeds_example :
    let p = run losing (start (codes "a") (codes "b" ∷ [])) in
    Succeeds p × (p.device ≡ codes "a" ∷ []) × (p.buf1 ≡ some (codes "b"))
losing-Succeeds_example = losing-Succeeds (codes "a") (codes "b")
