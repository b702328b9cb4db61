-- ===== src/Files/Pipe.antt =====
-- src/emulite/android/io/pipe_io.py and pipe_state.py: the two ends of a pipe over one shared
-- buffer. The flags that the constructor passes to `FileIO` are left out: no call of a pipe reads
-- them.
pub mod Calls
pub mod Session
mod Tests
use emulite.Base.{
  ℕ, zero, suc, ◌+◌, ◌-◌, min, Bool, true, false, not, ◌&&◌, ◌||◌, List, [], ◌∷◌, ◌++◌, length,
  take, drop, is_empty, ◌==◌, if◌then◌else◌,
}
use emulite.Base.Int.{ℤ, pos, negsuc}
use emulite.Files.Answer.{Answer, bytes, count, failed, ebadf, eagain, einval, epipe, max_rw}

pub record PipeState : Type 0 where
  pub buffer : List ℕ
  pub readers : ℕ
  pub writers : ℕ

-- `PipeIO` less its state, which the calls take beside it
pub record PipeIo : Type 0 where
  pub readable : Bool
  pub closed : Bool

-- the constructor, over a state that exists
unfoldable pub open_end : Bool → PipeState → PipeIo × PipeState
open_end readable state = (
  record { readable = readable; closed = false },
  if readable
      then record state { readers = state.readers + 1 }
      else record state { writers = state.writers + 1 },
)

-- `read` once `count` is known to be positive
unfoldable pub read_some : ℕ → PipeState → Answer × PipeState
read_some n state =
    if is_empty state.buffer
    then ((if state.writers == 0 then bytes [] else failed eagain), state)
    else (let chunk = take (min n max_rw) state.buffer in
        (bytes chunk, record state { buffer = drop (length chunk) state.buffer }))

unfoldable pub read : ℤ → PipeIo → PipeState → Answer × PipeState
unfolding read_some
read n this state = if not this.readable || this.closed then (failed ebadf, state) else elim n [
  | negsuc _ ↦ (failed einval, state)
  | pos n ↦ if n == 0 then (bytes [], state) else read_some n state
]

unfoldable pub write : List ℕ → PipeIo → PipeState → Answer × PipeState
write sent this state =
    if this.readable || this.closed
    then (failed ebadf, state)
    else if is_empty sent
    then (count 0, state)
    else if state.readers == 0
    then (failed epipe, state)
    else (let chunk = take max_rw sent in
        (count (length chunk), record state { buffer = state.buffer ++ chunk }))

unfoldable pub can_read : PipeIo → PipeState → Bool
can_read this state = this.readable && (not (is_empty state.buffer) || state.writers == 0)

-- a count is lowered only for an end that it counts, so that it does not pass 0
unfoldable pub close : PipeIo → PipeState → PipeIo × PipeState
close this state = if this.closed then (this, state) else (
  record this { closed = true },
  if this.readable
      then record state { readers = state.readers - 1 }
      else record state { writers = state.writers - 1 },
)
