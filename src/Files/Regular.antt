-- ===== src/Files/Regular.antt =====
-- src/emulite/android/io/buffer_backed_io.py and regular_file_io.py: a file whose contents are a
-- byte array in memory, with a cursor. `path` and `oflags` are left out: no call here reads them.
pub mod Contents
mod Tests
use emulite.Base.{
  ℕ, zero, suc, ◌+◌, ◌-◌, min, Bool, true, false, not, ◌||◌, List, [], ◌∷◌, ◌++◌, length, take,
  drop, replicate, ltb, if◌then◌else◌,
}
use emulite.Base.Int.{ℤ, pos, negsuc, offset_by}
use emulite.Files.Answer.{Answer, bytes, count, failed, ebadf, einval, max_rw}

pub record RegularFileIo : Type 0 where
  pub buffer : List ℕ
  pub cursor : ℕ
  pub writable : Bool
  pub append : Bool

-- `buffer.extend(b"\x00" * (end - len(buffer)))`, where `end` is past the end of the buffer
unfoldable pub extend_to : ℕ → List ℕ → List ℕ
extend_to end buffer =
    if ltb (length buffer) end then buffer ++ replicate (end - length buffer) 0 else buffer

-- `buffer[start : start + len(chunk)] = chunk`, in a buffer that is long enough
unfoldable pub splice : ℕ → List ℕ → List ℕ → List ℕ
splice start chunk buffer = take start buffer ++ (chunk ++ drop (start + length chunk) buffer)

-- what `_buffered_write` and `pwrite` do to the buffer
unfoldable pub store : ℕ → List ℕ → List ℕ → List ℕ
unfolding extend_to splice
store start chunk buffer = splice start chunk (extend_to (start + length chunk) buffer)

-- `buffer[start : start + min(n, _MAX_RW)]`
unfoldable pub fetch : ℕ → ℕ → List ℕ → List ℕ
fetch start n buffer = take (min n max_rw) (drop start buffer)

unfoldable pub buffered_read : ℤ → RegularFileIo → Answer × RegularFileIo
unfolding fetch
buffered_read (negsuc _) this = (failed einval, this)
buffered_read (pos n) this =
    let chunk = fetch this.cursor n this.buffer in
    (bytes chunk, record this { cursor = this.cursor + length chunk })

unfoldable pub buffered_write : List ℕ → RegularFileIo → Answer × RegularFileIo
unfolding store
buffered_write sent this =
    let chunk = take max_rw sent in
    (
      count (length chunk),
      record this {
        buffer = store this.cursor chunk this.buffer;
        cursor = this.cursor + length chunk;
      },
    )

unfoldable pub read : ℤ → RegularFileIo → Answer × RegularFileIo
unfolding buffered_read
read n this = buffered_read n this

unfoldable pub write : List ℕ → RegularFileIo → Answer × RegularFileIo
unfolding buffered_write
write sent this =
    if not this.writable
    then (failed ebadf, this)
    else buffered_write sent
        (if this.append then record this { cursor = length this.buffer } else this)

unfoldable pub pread : ℤ → ℤ → RegularFileIo → Answer
unfolding fetch
pread (negsuc _) n this = failed einval
pread (pos offset) (negsuc _) this = failed einval
pread (pos offset) (pos n) this = bytes (fetch offset n this.buffer)

unfoldable pub pwrite : ℤ → List ℕ → RegularFileIo → Answer × RegularFileIo
unfolding store
pwrite offset sent this = if not this.writable then (failed ebadf, this) else elim offset [
  | negsuc _ ↦ (failed einval, this)
  | pos start ↦
      let chunk = take max_rw sent in
      (count (length chunk), record this { buffer = store start chunk this.buffer })
]

unfoldable pub ftruncate : ℤ → RegularFileIo → Answer × RegularFileIo
ftruncate size this = if not this.writable then (failed ebadf, this) else elim size [
  | negsuc _ ↦ (failed einval, this)
  | pos n ↦ (
    count 0,
    record this {
      buffer =
          if ltb n (length this.buffer)
          then take n this.buffer
          else this.buffer ++ replicate (n - length this.buffer) 0;
    },
  )
]

-- `SeekWhence`
pub data SeekWhence : Type 0 where
  seek_set seek_cur seek_end : SeekWhence

-- where an offset is counted from
unfoldable pub origin : SeekWhence → RegularFileIo → ℕ
origin seek_cur this = this.cursor
origin seek_end this = length this.buffer
origin seek_set this = 0

-- `new_cursor < 0`, and the store of the new cursor
unfoldable pub move_cursor : ℤ → RegularFileIo → Answer × RegularFileIo
move_cursor (negsuc _) this = (failed einval, this)
move_cursor (pos n) this = (count n, record this { cursor = n })

-- its first guard passes for each of the three values
unfoldable pub lseek : ℤ → SeekWhence → RegularFileIo → Answer × RegularFileIo
unfolding origin move_cursor
lseek offset whence this = move_cursor (offset_by (origin whence this) offset) this
