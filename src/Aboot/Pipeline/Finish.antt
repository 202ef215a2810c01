-- ===== src/Aboot/Pipeline/Finish.antt =====
-- What a successful flash has written, when the reader judges no stale buffer.
use tboot.Base.{
  ◌≤◌, ◌≡◌, refl, ◌≢◌, ◌⊎◌, inl, inr, Bool, true, false, not, ◌&&◌, Option, none, some, List, [],
  ◌∷◌, arith, Text, ltb, Bool-cases,
}
use mathlib.Core.List.{append-nil}
use tboot.Aboot.Pipeline.{
  WriterPhase, filling, ended, ReaderPhase, visiting, checking, exited_ok, Pipeline, Move, writer,
  writer_fails, reader_moves, reader_fails, sigpipe, fill, fill_round, writer_move, drain,
  reader_move, reader_turn, step, run, start, Succeeds, buffer_at,
}
use tboot.Aboot.Pipeline.Stream.{IsQuiet, step-IsQuiet}
use tboot.Aboot.Pipeline.Order.{NoOvertaking, run-stream}

-- The reader is about to count a buffer as empty that has been filled since it was found empty.
abbrev is_stale : ReaderPhase → Option Text → Bool
is_stale checking (some piece) = true
is_stale _ _ = false

abbrev stale_move : Move → Pipeline → Bool
stale_move reader_moves p = is_stale p.reader (buffer_at p.reader_at p)
stale_move reader_fails p = is_stale p.reader (buffer_at p.reader_at p)
stale_move _ p = false

abbrev pub NoStale : List Move → Pipeline → Type 0
NoStale [] p = Unit
NoStale (m ∷ moves) p = (stale_move m p ≡ false) × NoStale moves (step m p)

-- What the reader's counter of empty buffers stands for.
record IsCounted (p : Pipeline) : Type 0 where
  none_left : (p.phase ≢ ended) ⊎ (p.incoming ≡ [])
  counter :
      (p.empty_counter ≡ 0)
      ⊎ ((p.empty_counter ≡ 1) × (p.phase ≡ ended) × (buffer_at (not p.reader_at) p ≡ none))
      ⊎ ((2 ≤ p.empty_counter) × (p.phase ≡ ended) × (p.buf0 ≡ none) × (p.buf1 ≡ none))
  out : (p.reader ≢ exited_ok) ⊎ (2 ≤ p.empty_counter)

fill-IsCounted :
    (ok : Bool) (piece : Text) (rest : List Text) (p : Pipeline)
    → p.incoming ≡ piece ∷ rest
    → p.phase ≡ filling
    → IsCounted p
    → IsCounted (fill ok piece rest (buffer_at p.writer_at p) p)
unfolding fill
fill-IsCounted ok piece rest p e f v = ground arith

round-IsCounted :
    (ok broke : Bool) (incoming : List Text) (p : Pipeline)
    → p.incoming ≡ incoming
    → broke ≡ false
    → p.phase ≡ filling
    → IsCounted p
    → IsCounted (fill_round broke ok incoming p)
unfolding fill_round
round-IsCounted ok true incoming p e q f v = cc
round-IsCounted ok false [] p e q f v = ground arith
round-IsCounted ok false (piece ∷ rest) p e q f v = fill-IsCounted ok piece rest p e f v

writer-IsCounted :
    (ok : Bool) (w : WriterPhase) (p : Pipeline)
    → p.phase ≡ w
    → p.pipe_broken ≡ false
    → IsCounted p
    → IsCounted (writer_move ok w p)
unfolding writer_move
writer-IsCounted ok filling p f q v = round-IsCounted ok p.pipe_broken p.incoming p refl q f v
writer-IsCounted ok _ p f q v = v

drain-IsCounted :
    (ok : Bool) (b : Option Text) (p : Pipeline)
    → buffer_at p.reader_at p ≡ b
    → ltb p.empty_counter 2 ≡ true
    → IsCounted p
    → IsCounted (drain ok b p)
unfolding drain
drain-IsCounted ok none p e low v = ground arith
drain-IsCounted ok (some piece) p e low v = ground arith

reader-IsCounted :
    (ok : Bool) (r : ReaderPhase) (p : Pipeline)
    → p.reader ≡ r
    → p.pipe_broken ≡ false
    → is_stale r (buffer_at p.reader_at p) ≡ false
    → IsCounted p
    → IsCounted (reader_move ok r p)
unfolding reader_move
reader-IsCounted ok visiting p e q fresh v =
    elim (Bool-cases (ltb p.empty_counter 2 && not p.pipe_broken)) [
      | inl on ↦ rw on (drain-IsCounted ok (buffer_at p.reader_at p) p refl (ground arith) v)
      | inr done ↦ rw done (ground arith)
    ]
reader-IsCounted ok checking p e q fresh v = ground arith
reader-IsCounted ok _ p e q fresh v = v

turn-IsCounted :
    (freed ok : Bool) (p : Pipeline)
    → p.pipe_broken ≡ false
    → is_stale p.reader (buffer_at p.reader_at p) ≡ false
    → IsCounted p
    → IsCounted (reader_turn freed ok p)
unfolding reader_turn
turn-IsCounted true ok p q fresh v = v
turn-IsCounted false ok p q fresh v = reader-IsCounted ok p.reader p refl q fresh v

step-IsCounted :
    (m : Move) (p : Pipeline)
    → (step m p).pipe_broken ≡ false
    → p.pipe_broken ≡ false
    → stale_move m p ≡ false
    → IsCounted p
    → IsCounted (step m p)
unfolding step
step-IsCounted writer p q' q fresh v = writer-IsCounted true p.phase p refl q v
step-IsCounted writer_fails p q' q fresh v = writer-IsCounted false p.phase p refl q v
step-IsCounted reader_moves p q' q fresh v = turn-IsCounted p.freed true p q fresh v
step-IsCounted reader_fails p q' q fresh v = turn-IsCounted p.freed false p q fresh v
step-IsCounted sigpipe p q' q fresh v = cc

run-IsCounted :
    (moves : List Move) (p : Pipeline)
    → IsQuiet moves
    → p.pipe_broken ≡ false
    → NoStale moves p
    → IsCounted p
    → IsCounted (run moves p)
unfolding run
run-IsCounted [] p h q fresh v = v
run-IsCounted (m ∷ moves) p h q fresh v =
    let (h', q') = step-IsQuiet m moves p h q in
    run-IsCounted moves (step m p) h' q' fresh.1 (step-IsCounted m p q' q fresh.0 v)

-- In every schedule without a broken pipe, in which the main thread never overtakes the reader and
-- the reader never counts a buffer as empty that was filled in the meantime: when the flash command
-- succeeds, the device holds the whole image, each piece once and in its order.
pub success_writes_image :
    (piece : Text) (rest : List Text) (moves : List Move)
    → IsQuiet moves
    → NoOvertaking moves (start piece rest)
    → NoStale moves (start piece rest)
    → Succeeds (run moves (start piece rest))
    → (run moves (start piece rest)).device ≡ piece ∷ rest
success_writes_image piece rest moves h free fresh done =
    let p = run moves (start piece rest) in
    let v = run-IsCounted moves (start piece rest) h refl fresh (ground arith) in
    let same = run-stream moves (start piece rest) h refl free in
    ground (arith, v.none_left, v.counter, v.out, done.0, done.1, same, append-nil p.device)
