-- ===== src/Aboot/Pipeline/Stream.antt =====
-- What every interleaving of the two threads keeps: pieces of the image are neither invented nor
-- duplicated.
use tboot.Base.{◌≡◌, refl, ◌∙◌, Bool, true, false, Option, none, some, List, [], ◌∷◌, arith, Text}
use tboot.Aboot.Pipeline.{
  WriterPhase, filling, ReaderPhase, visiting, Pipeline, Move, writer, writer_fails, reader_moves,
  reader_fails, sigpipe, fill, fill_round, writer_move, drain, reader_move, reader_turn, step,
  buffer_at,
}

-- The pipe does not break in the schedule.
abbrev pub IsQuiet : List Move → Type 0
IsQuiet [] = Unit
IsQuiet (sigpipe ∷ moves) = ⊥
IsQuiet (_ ∷ moves) = IsQuiet moves

fill-broken :
    (ok : Bool) (piece : Text) (rest : List Text) (b : Option Text) (p : Pipeline)
    → (fill ok piece rest b p).pipe_broken ≡ p.pipe_broken
unfolding fill
fill-broken ok piece rest b p = ground arith

round-broken :
    (ok broke : Bool) (incoming : List Text) (p : Pipeline)
    → (fill_round broke ok incoming p).pipe_broken ≡ p.pipe_broken
unfolding fill_round
round-broken ok true incoming p = refl
round-broken ok false [] p = refl
round-broken ok false (piece ∷ rest) p = fill-broken ok piece rest (buffer_at p.writer_at p) p

writer-broken :
    (ok : Bool) (w : WriterPhase) (p : Pipeline) → (writer_move ok w p).pipe_broken ≡ p.pipe_broken
unfolding writer_move
writer-broken ok filling p = round-broken ok p.pipe_broken p.incoming p
writer-broken ok _ p = refl

drain-broken :
    (ok : Bool) (b : Option Text) (p : Pipeline) → (drain ok b p).pipe_broken ≡ p.pipe_broken
unfolding drain
drain-broken ok none p = refl
drain-broken ok (some piece) p = ground arith

reader-broken :
    (ok : Bool) (r : ReaderPhase) (p : Pipeline) → (reader_move ok r p).pipe_broken ≡ p.pipe_broken
unfolding reader_move
reader-broken ok visiting p = ground (arith, drain-broken ok (buffer_at p.reader_at p) p)
reader-broken ok _ p = refl

turn-broken :
    (freed ok : Bool) (p : Pipeline) → (reader_turn freed ok p).pipe_broken ≡ p.pipe_broken
unfolding reader_turn
turn-broken true ok p = refl
turn-broken false ok p = reader-broken ok p.reader p

pub step-IsQuiet :
    (m : Move) (moves : List Move) (p : Pipeline)
    → IsQuiet (m ∷ moves)
    → p.pipe_broken ≡ false
    → IsQuiet moves × ((step m p).pipe_broken ≡ false)
unfolding step
step-IsQuiet sigpipe moves p h q = absurd h
step-IsQuiet writer moves p h q = (h, writer-broken true p.phase p ∙ q)
step-IsQuiet writer_fails moves p h q = (h, writer-broken false p.phase p ∙ q)
step-IsQuiet reader_moves moves p h q = (h, turn-broken p.freed true p ∙ q)
step-IsQuiet reader_fails moves p h q = (h, turn-broken p.freed false p ∙ q)
