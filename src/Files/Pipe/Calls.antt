-- ===== src/Files/Pipe/Calls.antt =====
-- Sequences of calls on the ends of one pipe, with what was sent and what was received.
use emulite.Base.{ℕ, zero, suc, Bool, none, some, List, [], ◌∷◌, ◌++◌, take, get_elem?}
use emulite.Base.Int.{ℤ}
use emulite.Files.Answer.{Answer, bytes, count, failed}
use emulite.Files.Pipe.{PipeState, PipeIo, open_end, read, write, close}

-- the shared state, the ends over it, and what was accepted and handed back so far
pub record Session : Type 0 where
  pub state : PipeState
  pub ends : List PipeIo
  pub sent : List ℕ
  pub received : List ℕ

-- `PipeState()`, before either end is built
abbrev pub fresh : Session
fresh = record {
  state = record { buffer = []; readers = 0; writers = 0 };
  ends = [];
  sent = [];
  received = [];
}

-- a call on the end with a given index
pub data Call : Type 0 where
  open_call : Bool → Call
  read_call : ℕ → ℤ → Call
  write_call : ℕ → List ℕ → Call
  close_call : ℕ → Call

unfoldable pub note_read : Session → Answer × PipeState → Session
note_read s (bytes chunk, state) = record s { state = state; received = s.received ++ chunk }
note_read s (count _, state) = record s { state = state }
note_read s (failed _, state) = record s { state = state }

unfoldable pub note_write : List ℕ → Session → Answer × PipeState → Session
note_write chunk s (count n, state) = record s { state = state; sent = s.sent ++ take n chunk }
note_write chunk s (bytes _, state) = record s { state = state }
note_write chunk s (failed _, state) = record s { state = state }

-- the end `i` is now `e`
unfoldable pub put_end : ℕ → PipeIo → List PipeIo → List PipeIo
put_end i e [] = []
put_end zero e (d ∷ ds) = e ∷ ds
put_end (suc i) e (d ∷ ds) = d ∷ put_end i e ds

unfoldable pub close_at : ℕ → PipeIo → Session → Session
unfolding put_end
close_at i e s =
    let (e', state) = close e s.state in record s { state = state; ends = put_end i e' s.ends }

unfoldable pub after : Call → Session → Session
unfolding note_read note_write close_at
after (open_call readable) s =
    let (e, state) = open_end readable s.state in record s { state = state; ends = e ∷ s.ends }
after (read_call i n) s = elim (get_elem? s.ends i) [
  | none ↦ s
  | some e ↦ note_read s (read n e s.state)
]
after (write_call i chunk) s = elim (get_elem? s.ends i) [
  | none ↦ s
  | some e ↦ note_write chunk s (write chunk e s.state)
]
after (close_call i) s = elim (get_elem? s.ends i) [ none ↦ s | some e ↦ close_at i e s ]

unfoldable pub run : List Call → Session → Session
unfolding after
run [] s = s
run (c ∷ cs) s = run cs (after c s)
