-- ===== src/Aboot/Pipeline/Order.antt =====
-- The order in which the pieces of an image reach the device: kept unless the main thread overtakes
-- the reader, and two schedules in which the code goes wrong.
use tboot.Base.{
  ◌≡◌, refl, ◌∙◌, inl, inr, Bool, true, false, not, ◌&&◌, Option, none, some, List, [], ◌∷◌, ◌++◌,
  arith, Text, ltb, if◌then◌else◌, Bool-cases,
}
use mathlib.Core.List.{append_assoc}
use tboot.Aboot.Pipeline.{
  WriterPhase, filling, ReaderPhase, visiting, checking, Pipeline, Move, writer, writer_fails,
  reader_moves, reader_fails, sigpipe, fill, fill_round, writer_move, drain, reader_move,
  reader_turn, step, run, start, Succeeds, buffer_at,
}
use tboot.Aboot.Pipeline.Stream.{IsQuiet, step-IsQuiet}

abbrev is_checking : ReaderPhase → Bool
is_checking checking = true
is_checking _ = false

-- The buffer that the reader empties next.
abbrev pub next_at : Pipeline → Bool
next_at p = if is_checking p.reader then not p.reader_at else p.reader_at

abbrev pub buffered : Option Text → List Text
buffered none = []
buffered (some piece) = piece ∷ []

-- The two buffers, from the one that the reader empties next.
abbrev pub in_order : Bool → Option Text → Option Text → List Text
in_order false b0 b1 = buffered b0 ++ buffered b1
in_order true b0 b1 = buffered b1 ++ buffered b0

-- The image as the threads hold it: written, buffered, still to come.
abbrev pub stream : Pipeline → List Text
stream p = p.device ++ (in_order (next_at p) p.buf0 p.buf1 ++ p.incoming)

abbrev same_index : Bool → Bool → Bool
same_index true b = b
same_index false b = not b

abbrev is_full : Option Text → Bool
is_full none = false
is_full (some piece) = true

-- The main thread is about to fill the very buffer that the reader looks at next, while the other
-- one still holds an earlier piece.
abbrev pub overtakes : Move → Pipeline → Bool
overtakes writer p = is_full (buffer_at (not p.writer_at) p) && same_index p.writer_at (next_at p)
overtakes _ p = false

abbrev pub NoOvertaking : List Move → Pipeline → Type 0
NoOvertaking [] p = Unit
NoOvertaking (m ∷ moves) p = (overtakes m p ≡ false) × NoOvertaking moves (step m p)

fill-stream :
    (ok : Bool) (piece : Text) (rest : List Text) (p : Pipeline)
    → p.incoming ≡ piece ∷ rest
    → (is_full (buffer_at (not p.writer_at) p) && same_index p.writer_at (next_at p)) ≡ false
    → stream (fill ok piece rest (buffer_at p.writer_at p) p) ≡ stream p
unfolding fill
fill-stream ok piece rest p h free = ground arith

drain-stream :
    (ok : Bool) (b : Option Text) (p : Pipeline)
    → p.reader ≡ visiting
    → buffer_at p.reader_at p ≡ b
    → stream (drain ok b p) ≡ stream p
unfolding drain
drain-stream ok none p r h = ground arith
drain-stream true (some piece) p r h = ground (
  arith,
  append_assoc p.device (piece ∷ []) (buffered (buffer_at (not p.reader_at) p) ++ p.incoming),
)
drain-stream false (some piece) p r h = ground arith

round-stream :
    (ok broke : Bool) (incoming : List Text) (p : Pipeline)
    → p.incoming ≡ incoming
    → broke ≡ false
    → (is_full (buffer_at (not p.writer_at) p) && same_index p.writer_at (next_at p)) ≡ false
    → stream (fill_round broke ok incoming p) ≡ stream p
unfolding fill_round
round-stream ok true incoming p h q free = cc
round-stream ok false [] p h q free = refl
round-stream ok false (piece ∷ rest) p h q free = fill-stream ok piece rest p h free

writer-stream :
    (w : WriterPhase) (p : Pipeline)
    → p.pipe_broken ≡ false
    → overtakes writer p ≡ false
    → stream (writer_move true w p) ≡ stream p
unfolding writer_move
writer-stream filling p q free = round-stream true p.pipe_broken p.incoming p refl q free
writer-stream _ p q free = refl

-- A failing download moves the main thread on at most.
failing-stream :
    (broke : Bool) (incoming : List Text) (p : Pipeline)
    → broke ≡ false
    → stream (fill_round broke false incoming p) ≡ stream p
unfolding fill_round fill
failing-stream true incoming p q = cc
failing-stream false [] p q = refl
failing-stream false (piece ∷ rest) p q = ground arith

fails-stream :
    (w : WriterPhase) (p : Pipeline)
    → p.pipe_broken ≡ false
    → stream (writer_move false w p) ≡ stream p
unfolding writer_move
fails-stream filling p q = failing-stream p.pipe_broken p.incoming p q
fails-stream _ p q = refl

reader-stream :
    (ok : Bool) (r : ReaderPhase) (p : Pipeline)
    → p.reader ≡ r
    → stream (reader_move ok r p) ≡ stream p
unfolding reader_move
reader-stream ok visiting p e = elim (Bool-cases (ltb p.empty_counter 2 && not p.pipe_broken)) [
  | inl on ↦ rw on (drain-stream ok (buffer_at p.reader_at p) p e refl)
  | inr out ↦ rw out (ground arith)
]
reader-stream ok checking p e = ground arith
reader-stream ok _ p e = refl

turn-stream : (freed ok : Bool) (p : Pipeline) → stream (reader_turn freed ok p) ≡ stream p
unfolding reader_turn
turn-stream true ok p = refl
turn-stream false ok p = reader-stream ok p.reader p refl

step-stream :
    (m : Move) (p : Pipeline)
    → p.pipe_broken ≡ false
    → overtakes m p ≡ false
    → stream (step m p) ≡ stream p
unfolding step
step-stream writer p q free = writer-stream p.phase p q free
step-stream writer_fails p q free = fails-stream p.phase p q
step-stream reader_moves p q free = turn-stream p.freed true p
step-stream reader_fails p q free = turn-stream p.freed false p
step-stream sigpipe p q free = refl

-- While the main thread never overtakes the reader and the pipe holds, what is on the device,
-- followed by what is buffered and what is still to come, is the image, in its order.
pub run-stream :
    (moves : List Move) (p : Pipeline)
    → IsQuiet moves
    → p.pipe_broken ≡ false
    → NoOvertaking moves p
    → stream (run moves p) ≡ stream p
unfolding run
run-stream [] p h q free = refl
run-stream (m ∷ moves) p h q free =
    let (h', q') = step-IsQuiet m moves p h q in
    run-stream moves (step m p) h' q' free.1 ∙ step-stream m p q free.0

-- Three moves of the reader find buf[1] empty; then the main thread fills both buffers.
abbrev pub overtaking : List Move
overtaking =
    reader_moves ∷ reader_moves ∷ reader_moves ∷ writer ∷ writer ∷ reader_moves ∷ reader_moves ∷ []

-- For every image of three pieces there is a schedule in which nothing fails and the device
-- receives the third piece before the second.
pub overtaking_swaps :
    (a b c : Text) → (run overtaking (start a (b ∷ c ∷ []))).device ≡ a ∷ c ∷ b ∷ []
unfolding run step
overtaking_swaps a b c = refl

-- The reader finds buf[1] empty; before it tests `writer_finished` the main thread fills buf[1]
-- with the last piece and sets the flag.
abbrev pub losing : List Move
losing =
    reader_moves ∷ reader_moves ∷ writer ∷ writer ∷ reader_moves ∷ reader_moves ∷ reader_moves
    ∷ reader_moves ∷ []

-- For every image of two pieces there is a schedule in which the flash command succeeds, and the
-- second piece stays in its buffer and never reaches the device.
pub losing-Succeeds :
    (a b : Text)
    → let p = run losing (start a (b ∷ [])) in Succeeds p × (p.device ≡ a ∷ []) × (p.buf1 ≡ some b)
unfolding run step
losing-Succeeds a b = ((refl, refl), refl, refl)
