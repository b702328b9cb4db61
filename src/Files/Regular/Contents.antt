-- ===== src/Files/Regular/Contents.antt =====
-- What the contents of a file are after a write, byte by byte.
use emulite.Base.{
  ℕ, zero, ◌+◌, ◌-◌, ◌≤◌, ◌≡◌, refl, ap, sym, ◌∙◌, min, true, ◌&&◌, none, some, List, ◌++◌, length,
  take, drop, replicate, get_elem?, ltb, leb, if◌then◌else◌, arith, Bool-cases, lt_cases, inl, inr,
  length-append, length-take, length-replicate, take_of_length-le, drop_of_length-le, append_empty,
  take-append_left, drop-append_left,
}
use emulite.Base.Elems.{get-append, get-take, get-drop, get-zeros, get_past}
use mathlib.Core.Path.{subst}
use emulite.Base.Int.{pos}
use emulite.Files.Answer.{bytes, count, max_rw}
use emulite.Files.Regular.{
  RegularFileIo, extend_to, splice, store, fetch, read, write, pread, pwrite,
}

-- a byte of the buffer, once extended
get-extend_to :
    (i end : ℕ) (buffer : List ℕ)
    → get_elem? (extend_to end buffer) i
      ≡ (if ltb i (length buffer) then get_elem? buffer i else if ltb i end then some 0 else none)
unfolding extend_to
get-extend_to i end buffer = elim (Bool-cases (ltb (length buffer) end)) [
  | inl e ↦ rw (e, extend_to, get-append, get-zeros) (ground arith)
  | inr e ↦ rw (e, extend_to) (ground (arith, get_past i buffer))
]

length-extend_to : (end : ℕ) (buffer : List ℕ) → end ≤ length (extend_to end buffer)
unfolding extend_to
length-extend_to end buffer = elim (Bool-cases (ltb (length buffer) end)) [
  | inl e ↦
      rw (e, extend_to)
        (omega (
          arith,
          length-append buffer (replicate (end - length buffer) zero),
          length-replicate (end - length buffer) zero,
        ))
  | inr e ↦ rw (e, extend_to) (ground arith)
]

-- `store` puts the chunk at its place, leaves every other byte of the buffer alone, and fills with
-- zeros between the end of the buffer and the chunk.
pub get-store :
    (i start : ℕ) (chunk buffer : List ℕ)
    → get_elem? (store start chunk buffer) i ≡ (
        if leb start i && ltb i (start + length chunk)
        then get_elem? chunk (i - start)
        else if ltb i (length buffer)
        then get_elem? buffer i
        else if ltb i start
        then some 0
        else none)
unfolding store splice
get-store i start chunk buffer =
    let n = length chunk in
    let ext = extend_to (start + n) buffer in
    let front = take start ext in
    let tail = drop (start + n) ext in
    let long : length front ≡ start =
      omega (arith, length-take start ext, length-extend_to (start + n) buffer) in
    let split = get-append i front (chunk ++ tail) in
    let kept = get-extend_to i (start + n) buffer in
    elim (lt_cases i start) [
      | inl before ↦ ground (arith, long, split, kept, get-take i start ext)
      | inr from ↦ elim (lt_cases i (start + n)) [
        | inl inside ↦ ground (arith, long, split, get-append (i - start) chunk tail)
        | inr past ↦
            let back : start + n + (i - start - n) ≡ i = omega arith in
            let there : get_elem? tail (i - start - n) ≡ get_elem? ext i =
              get-drop (i - start - n) (start + n) ext ∙ ap (λ (t : ℕ). get_elem? ext t) back in
            ground (arith, long, split, kept, get-append (i - start) chunk tail, there)
      ]
    ]

-- A read of the bytes just written gives them back, from the place they were written to.
pub fetch-store :
    (start : ℕ) (chunk buffer : List ℕ)
    → length chunk ≤ max_rw
    → fetch start (length chunk) (store start chunk buffer) ≡ chunk
unfolding fetch store splice
fetch-store start chunk buffer small =
    let ext = extend_to (start + length chunk) buffer in
    let front = take start ext in
    let rest = chunk ++ drop (start + length chunk) ext in
    let long : length front ≡ start =
      omega (arith, length-take start ext, length-extend_to (start + length chunk) buffer) in
    let n : min (length chunk) max_rw ≡ length chunk = omega arith in
    let skip : drop start (front ++ rest) ≡ rest =
      subst (λ (k : ℕ). drop k (front ++ rest) ≡ rest) long (drop-append_left front rest) in
    rw (n, skip) (take-append_left chunk (drop (start + length chunk) ext))

-- For a file that is open for writing and at most `_MAX_RW` bytes, a `pread` of the bytes that a
-- `pwrite` has just stored gives them back.
pub pwrite-pread :
    (offset : ℕ) (sent : List ℕ) (this : RegularFileIo)
    → this.writable ≡ true
    → length sent ≤ max_rw
    → pread (pos offset) (pos (length sent)) (pwrite (pos offset) sent this).1 ≡ bytes sent
unfolding pread pwrite
pwrite-pread offset sent this w small =
    rw (w, pwrite, take_of_length-le max_rw sent small)
      (ap bytes (fetch-store offset sent this.buffer small))

-- For a file that is open for writing and at most `_MAX_RW` bytes, `pwrite` answers how many
-- bytes it was given and stores them at the offset; it changes no other byte, fills with zeros
-- from the end of the file to the offset, and leaves the cursor.
pub pwrite-Stores :
    (i offset : ℕ) (sent : List ℕ) (this : RegularFileIo)
    → this.writable ≡ true
    → length sent ≤ max_rw
    → let (answer, this') = pwrite (pos offset) sent this in
      (answer ≡ count (length sent))
      × (this'.cursor ≡ this.cursor)
      × (get_elem? this'.buffer i ≡ (
          if leb offset i && ltb i (offset + length sent)
          then get_elem? sent (i - offset)
          else if ltb i (length this.buffer)
          then get_elem? this.buffer i
          else if ltb i offset
          then some 0
          else none))
unfolding pwrite
pwrite-Stores i offset sent this w small =
    rw (w, pwrite, take_of_length-le max_rw sent small)
      (refl, refl, get-store i offset sent this.buffer)

store_at_end : (chunk buffer : List ℕ) → store (length buffer) chunk buffer ≡ buffer ++ chunk
unfolding store splice extend_to
store_at_end chunk buffer = elim (Bool-cases (ltb (length buffer) (length buffer + length chunk))) [
  | inl e ↦
      let zeros = replicate (length buffer + length chunk - length buffer) zero in
      let all : length (buffer ++ zeros) ≤ length buffer + length chunk = omega (
        arith,
        length-append buffer zeros,
        length-replicate (length buffer + length chunk - length buffer) zero,
      ) in
      rw
        (
          e,
          store,
          take-append_left buffer zeros,
          drop_of_length-le (length buffer + length chunk) (buffer ++ zeros) all,
          append_empty chunk,
        )
        refl
  | inr e ↦
      rw
        (
          e,
          store,
          take_of_length-le (length buffer) buffer (omega arith),
          drop_of_length-le (length buffer + length chunk) buffer (omega arith),
          append_empty chunk,
        )
        refl
]

-- For a file that is open for writing and appending, and at most `_MAX_RW` bytes, `write` adds
-- them at the end of the file, wherever the cursor was, and leaves the cursor there.
pub write-Appends :
    (sent : List ℕ) (this : RegularFileIo)
    → this.writable ≡ true
    → this.append ≡ true
    → length sent ≤ max_rw
    → let (answer, this') = write sent this in
      (answer ≡ count (length sent))
      × (this'.buffer ≡ this.buffer ++ sent)
      × (this'.cursor ≡ length this'.buffer)
unfolding write emulite.Files.Regular.buffered_write
write-Appends sent this w a small =
    let all = store_at_end sent this.buffer in
    rw (w, a, write, take_of_length-le max_rw sent small, all)
      (refl, refl, sym (length-append this.buffer sent))
