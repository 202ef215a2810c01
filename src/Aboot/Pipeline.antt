-- ===== src/Aboot/Pipeline.antt =====
-- The two threads of `cmd_stream_flash` in src/aboot.c: the main thread fills two buffers from
-- USB, the thread `reader` writes them to the device. A move is what one thread does between two
-- points at which the other can get in: a region under the mutex of a buffer, or a test of a flag
-- outside of it. A schedule is any sequence of moves.
pub mod Stream
pub mod Order
pub mod Finish
pub mod Tests
use tboot.Base.{
  ℕ, zero, suc, ◌+◌, ◌-◌, ◌/◌, ◌*◌, ◌%◌, ◌^◌, ◌≤◌, ◌<◌, min, ◌≡◌, refl, sym, ap, ◌∙◌, ◌≢◌, ◌↔◌, ◌⊎◌,
  inl, inr, Bool, true, false, not, ◌&&◌, ◌||◌, Option, none, some, List, [], ◌∷◌, ◌++◌, map, arith,
  String, Text, codes, text_eq, starts_with, after_char, before_char, text_eq_refl, text_eq-eq,
  text_eq_symm, starts_with-append, length, get_elem?, take, drop, length-append, length-take,
  length-drop, take-append-drop, take_all, take-take, drop-nil, drop-drop, drop_all, ltb, leb, ◌==◌,
  if◌then◌else◌, ltb→lt, lt→ltb, ==_iff, Bool-cases, Option-cases,
}

-- The main thread: in the loop that fills buffers, past it with `writer_finished` set, gone to
-- `error` because the pipe broke, or because a download failed.
pub data WriterPhase : Type 0 where
  filling ended broken failed : WriterPhase

-- The reader: before its loop test, between the unlock of an empty buffer and the test of
-- `writer_finished`, or out with the exit value 0 or -1.
pub data ReaderPhase : Type 0 where
  visiting checking exited_ok exited_failed : ReaderPhase

-- `none` is a buffer with `len` 0, `some` one with that data. `incoming` holds the pieces of the
-- image that are still to come. An index is `false` for buf[0], `true` for buf[1]. `freed`: the main
-- thread has gone through `error`, which frees both buffers and cancels the reader; `buf0` and `buf1`
-- then say what the buffers held when they were freed.
pub record Pipeline : Type 0 where
  pub buf0 : Option Text
  pub buf1 : Option Text
  pub incoming : List Text
  pub phase : WriterPhase
  pub writer_at : Bool
  pub reader : ReaderPhase
  pub reader_at : Bool
  pub empty_counter : ℕ
  pub device : List Text
  pub pipe_broken : Bool
  pub freed : Bool

-- What can happen next: a move of the main thread with a working download, or with a failing one;
-- a move of the reader with a complete fwrite() and a clean pclose(), or with failing ones; SIGPIPE.
pub data Move : Type 0 where
  writer writer_fails reader_moves reader_fails sigpipe : Move

abbrev pub buffer_at : Bool → Pipeline → Option Text
buffer_at false p = p.buf0
buffer_at true p = p.buf1

abbrev set_buffer : Bool → Option Text → Pipeline → Pipeline
set_buffer false b p = record p { buf0 = b }
set_buffer true b p = record p { buf1 = b }

-- The mutex of the buffer is held: it is full, or takes the next piece.
fill : Bool → Text → List Text → Option Text → Pipeline → Pipeline
fill ok piece rest (some old) p = record p { writer_at = not p.writer_at }
fill true piece rest none p =
    set_buffer p.writer_at (some piece) (record p { incoming = rest; writer_at = not p.writer_at })
fill false piece rest none p = record p { phase = failed; freed = true }

-- A broken pipe makes the main thread read and discard the rest of the image, before `error`.
fill_round : Bool → Bool → List Text → Pipeline → Pipeline
unfolding fill
fill_round true ok incoming p = record p { phase = broken; incoming = []; freed = true }
fill_round false ok [] p = record p { phase = ended }
fill_round false ok (piece ∷ rest) p = fill ok piece rest (buffer_at p.writer_at p) p

writer_move : Bool → WriterPhase → Pipeline → Pipeline
unfolding fill_round
writer_move ok filling p = fill_round p.pipe_broken ok p.incoming p
writer_move ok _ p = p

-- The mutex of the buffer is held: it is written to the device and emptied, or found empty.
drain : Bool → Option Text → Pipeline → Pipeline
drain ok none p = record p { reader = checking }
drain true (some piece) p =
    set_buffer p.reader_at none
      (record p { device = p.device ++ piece ∷ []; reader_at = not p.reader_at })
drain false (some piece) p = record p { reader = exited_failed }

is_ended : WriterPhase → Bool
is_ended ended = true
is_ended _ = false

reader_move : Bool → ReaderPhase → Pipeline → Pipeline
unfolding drain is_ended
reader_move ok visiting p =
    if ltb p.empty_counter 2 && not p.pipe_broken
    then drain ok (buffer_at p.reader_at p) p
    else if ok
    then record p { reader = exited_ok }
    else record p { reader = exited_failed }
reader_move ok checking p = record p {
  reader = visiting;
  reader_at = not p.reader_at;
  empty_counter = if is_ended p.phase then p.empty_counter + 1 else p.empty_counter;
}
reader_move ok _ p = p

-- A reader that has been cancelled does not move.
reader_turn : Bool → Bool → Pipeline → Pipeline
unfolding reader_move
reader_turn true ok p = p
reader_turn false ok p = reader_move ok p.reader p

pub step : Move → Pipeline → Pipeline
unfolding writer_move reader_turn
step writer p = writer_move true p.phase p
step writer_fails p = writer_move false p.phase p
step reader_moves p = reader_turn p.freed true p
step reader_fails p = reader_turn p.freed false p
step sigpipe p = record p { pipe_broken = true }

pub run : List Move → Pipeline → Pipeline
run [] p = p
run (m ∷ moves) p = run moves (step m p)

-- After the first piece was put into buf[0]; the main thread goes on at buf[1].
abbrev pub start : Text → List Text → Pipeline
start piece rest = record {
  buf0 = some piece;
  buf1 = none;
  incoming = rest;
  phase = filling;
  writer_at = true;
  reader = visiting;
  reader_at = false;
  empty_counter = 0;
  device = [];
  pipe_broken = false;
  freed = false;
}

-- The main thread has joined the reader and goes on to the OKAY.
abbrev pub Succeeds : Pipeline → Type 0
Succeeds p = (p.phase ≡ ended) × (p.reader ≡ exited_ok)

-- How often a piece stands somewhere: on the device, in a buffer, or still to come.
abbrev pub count : Text → List Text → ℕ
count c [] = 0
count c (x ∷ xs) = if text_eq c x then suc (count c xs) else count c xs

abbrev count_buffer : Text → Option Text → ℕ
count_buffer c none = 0
count_buffer c (some x) = if text_eq c x then 1 else 0

abbrev pub copies : Text → Pipeline → ℕ
copies c p = count c p.device + count_buffer c p.buf0 + count_buffer c p.buf1 + count c p.incoming

pub count-append : (c : Text) (xs ys : List Text) → count c (xs ++ ys) ≡ count c xs + count c ys
count-append c [] ys = omega arith
count-append c (x ∷ xs) ys = ground (arith, count-append c xs ys)
