-- ===== src/Files/Pipe/Tests.antt =====
-- The theorems on pipes, at concrete calls.
use emulite.Base.{◌≡◌, refl, true, false, some, List, [], ◌∷◌, get_elem?}
use emulite.Base.Int.{pos}
use emulite.Files.Pipe.{PipeIo, read}
use emulite.Files.Pipe.Calls.{Call, open_call, write_call, read_call, close_call, fresh, run}
use emulite.Files.Pipe.Session.{IsAccounted, run-IsAccounted}

-- a write end and a read end; three bytes go through, and the read end is then closed twice
abbrev calls : List Call
calls =
    open_call false
    ∷ open_call true
    ∷ write_call 1 (104 ∷ 105 ∷ 33 ∷ [])
    ∷ read_call 0 (pos 2)
    ∷ read_call 0 (pos 9)
    ∷ close_call 0
    ∷ close_call 0
    ∷ write_call 1 (1 ∷ [])
    ∷ []

-- what was written has been read, and both ends are open
abbrev drained : List Call
drained =
    open_call false ∷ open_call true ∷ write_call 1 (104 ∷ 105 ∷ []) ∷ read_call 0 (pos 9) ∷ []

abbrev reader : PipeIo
reader = record { readable = true; closed = false }

run-IsAccounted_example : IsAccounted (run calls fresh)
run-IsAccounted_example = run-IsAccounted calls

reader_there : get_elem? (run drained fresh).ends 0 ≡ some reader
unfolding run emulite.Files.Pipe.write emulite.Files.Pipe.open_end read
reader_there = refl

drained_buffer : (run drained fresh).state.buffer ≡ []
unfolding run emulite.Files.Pipe.write emulite.Files.Pipe.open_end read
drained_buffer = refl
