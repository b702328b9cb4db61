-- ===== src/Files/Pipe/Session.antt =====
-- The shared state of a pipe after any calls on any number of ends: its counts, and the order of
-- the bytes.
use emulite.Base.{
  ℕ, zero, suc, ◌+◌, ◌≡◌, refl, sym, ap, ◌∙◌, min, Bool, true, false, not, ◌&&◌, ◌||◌, some, List,
  [], ◌∷◌, ◌++◌, length, take, drop, is_empty, append_assoc, append_empty, get_elem?, arith, ◌==◌,
  if◌then◌else◌, Bool-cases, Option-cases, inl, inr,
}
use emulite.Base.Int.{ℤ, pos, negsuc}
use emulite.Files.Answer.{bytes, failed, eagain, einval, max_rw}
use emulite.Files.Pipe.{PipeIo, open_end, read_some, read, write, close}
use emulite.Files.Pipe.Calls.{
  Session, fresh, Call, open_call, read_call, write_call, close_call, note_read, note_write,
  put_end, close_at, after, run,
}

-- 1 for an open end of the wanted kind
abbrev pub counts_as : Bool → PipeIo → ℕ
counts_as true e = if e.readable && not e.closed then 1 else 0
counts_as false e = if e.readable || e.closed then 0 else 1

abbrev pub open_ends : Bool → List PipeIo → ℕ
open_ends kind [] = 0
open_ends kind (e ∷ es) = counts_as kind e + open_ends kind es

pub record IsAccounted (s : Session) : Type 0 where
  pub readers : s.state.readers ≡ open_ends true s.ends
  pub writers : s.state.writers ≡ open_ends false s.ends
  pub in_order : s.sent ≡ s.received ++ s.state.buffer

open_ends-put_end :
    (kind : Bool) (i : ℕ) (e d : PipeIo) (es : List PipeIo)
    → get_elem? es i ≡ some d
    → open_ends kind (put_end i e es) + counts_as kind d ≡ open_ends kind es + counts_as kind e
unfolding put_end
open_ends-put_end kind i e d [] h = ground arith
open_ends-put_end kind zero e d (c ∷ es) h =
    let same : c ≡ d = ground arith in rw same (omega arith)
open_ends-put_end kind (suc i) e d (c ∷ es) h = omega (arith, open_ends-put_end kind i e d es h)

take_rest : (k : ℕ) (xs : List ℕ) → take k xs ++ drop (length (take k xs)) xs ≡ xs
take_rest zero xs = refl
take_rest (suc k) [] = refl
take_rest (suc k) (x ∷ xs) = ap (λ (ys : List ℕ). x ∷ ys) (take_rest k xs)

take_again : (k : ℕ) (xs : List ℕ) → take (length (take k xs)) xs ≡ take k xs
take_again zero xs = refl
take_again (suc k) [] = refl
take_again (suc k) (x ∷ xs) = ap (λ (ys : List ℕ). x ∷ ys) (take_again k xs)

module _ (s : Session) (v : IsAccounted s) where
  open-IsAccounted : (kind : Bool) → IsAccounted (after (open_call kind) s)
  unfolding after open_end
  open-IsAccounted true = record {
    readers = omega (arith, v.readers);
    writers = omega (arith, v.writers);
    in_order = v.in_order;
  }
  open-IsAccounted false = record {
    readers = omega (arith, v.readers);
    writers = omega (arith, v.writers);
    in_order = v.in_order;
  }

  -- a read that hands back `k` bytes of the buffer, or all there are
  consume-IsAccounted :
      (k : ℕ)
      → let chunk = take k s.state.buffer in
        IsAccounted (record s {
          state = record s.state { buffer = drop (length chunk) s.state.buffer };
          received = s.received ++ chunk;
        })
  consume-IsAccounted k = record {
    readers = v.readers;
    writers = v.writers;
    in_order =
        v.in_order
        ∙ ap (λ (b : List ℕ). s.received ++ b) (sym (take_rest k s.state.buffer))
        ∙ sym (append_assoc s.received (take k s.state.buffer) _);
  }

  nothing-IsAccounted : IsAccounted (record s { received = s.received ++ [] })
  nothing-IsAccounted = record {
    readers = v.readers;
    writers = v.writers;
    in_order =
        v.in_order ∙ ap (λ (r : List ℕ). r ++ s.state.buffer) (sym (append_empty s.received));
  }

  read_some-IsAccounted : (n : ℕ) → IsAccounted (note_read s (read_some n s.state))
  unfolding note_read read_some
  read_some-IsAccounted n = elim (Bool-cases (is_empty s.state.buffer)) [
    | inl e ↦
        rw (e, note_read)
          (elim (Bool-cases (s.state.writers == 0)) [
            | inl f ↦ rw f nothing-IsAccounted
            | inr f ↦ rw f v
          ])
    | inr e ↦ rw (e, note_read) (consume-IsAccounted (min n max_rw))
  ]

  read-IsAccounted : (n : ℤ) (e : PipeIo) → IsAccounted (note_read s (read n e s.state))
  unfolding note_read read
  read-IsAccounted n e = elim (Bool-cases (not e.readable || e.closed)) [
    | inl f ↦ rw (f, note_read) v
    | inr f ↦ rw (f, note_read) (by_size n)
  ]
    where
      by_size :
          (n : ℤ)
          → IsAccounted (
              note_read s (elim n [
                | negsuc _ ↦ (failed einval, s.state)
                | pos n ↦ if n == 0 then (bytes [], s.state) else read_some n s.state
              ]))
      by_size (negsuc _) = v
      by_size (pos n) = elim (Bool-cases (n == 0)) [
        | inl f ↦ rw f nothing-IsAccounted
        | inr f ↦ rw f (read_some-IsAccounted n)
      ]

  accept-IsAccounted :
      (k : ℕ) (chunk : List ℕ)
      → let kept = take k chunk in
        IsAccounted (record s {
          state = record s.state { buffer = s.state.buffer ++ kept };
          sent = s.sent ++ take (length kept) chunk;
        })
  accept-IsAccounted k chunk = record {
    readers = v.readers;
    writers = v.writers;
    in_order =
        ap (λ (l : List ℕ). s.sent ++ l) (take_again k chunk)
        ∙ ap (λ (l : List ℕ). l ++ take k chunk) v.in_order
        ∙ append_assoc s.received s.state.buffer (take k chunk);
  }

  refuse-IsAccounted : (chunk : List ℕ) → IsAccounted (record s { sent = s.sent ++ [] })
  refuse-IsAccounted chunk = record {
    readers = v.readers;
    writers = v.writers;
    in_order = append_empty s.sent ∙ v.in_order;
  }

  write-IsAccounted :
      (chunk : List ℕ) (e : PipeIo) → IsAccounted (note_write chunk s (write chunk e s.state))
  unfolding note_write write
  write-IsAccounted chunk e = elim (Bool-cases (e.readable || e.closed)) [
    | inl f ↦ rw (f, note_write) v
    | inr f ↦
        rw (f, note_write)
          (elim (Bool-cases (is_empty chunk)) [
            | inl g ↦ rw (g, note_write) (refuse-IsAccounted chunk)
            | inr g ↦
                rw (g, note_write)
                  (elim (Bool-cases (s.state.readers == 0)) [
                    | inl h ↦ rw h v
                    | inr h ↦ rw h (accept-IsAccounted max_rw chunk)
                  ])
          ])
  ]

  -- closing an end that is open lowers its own count, and closing a closed one none
  close-IsAccounted :
      (i : ℕ) (e : PipeIo) → get_elem? s.ends i ≡ some e → IsAccounted (close_at i e s)
  unfolding close_at close
  close-IsAccounted i e found =
      let d : PipeIo = record e { closed = true } in
      let shut = λ (kind : Bool). open_ends-put_end kind i d e s.ends found in
      elim (Bool-cases e.closed) [
        | inl c ↦
            rw (c, close_at)
              (record {
                readers = ground (arith, v.readers, shut true, c);
                writers = ground (arith, v.writers, shut false, c);
                in_order = v.in_order;
              })
        | inr c ↦
            rw (c, close_at)
              (elim (Bool-cases e.readable) [
                | inl r ↦
                    rw (r, close_at)
                      (record {
                        readers = ground (arith, v.readers, shut true, c, r);
                        writers = ground (arith, v.writers, shut false, c, r);
                        in_order = v.in_order;
                      })
                | inr r ↦
                    rw (r, close_at)
                      (record {
                        readers = ground (arith, v.readers, shut true, c, r);
                        writers = ground (arith, v.writers, shut false, c, r);
                        in_order = v.in_order;
                      })
              ])
      ]

  after-IsAccounted : (c : Call) → IsAccounted (after c s)
  unfolding after
  after-IsAccounted (open_call kind) = open-IsAccounted kind
  after-IsAccounted (read_call i n) = elim (Option-cases (get_elem? s.ends i)) [
    | inl none_there ↦ rw (none_there, after) v
    | inr (e, there) ↦ rw (there, after) (read-IsAccounted n e)
  ]
  after-IsAccounted (write_call i chunk) = elim (Option-cases (get_elem? s.ends i)) [
    | inl none_there ↦ rw (none_there, after) v
    | inr (e, there) ↦ rw (there, after) (write-IsAccounted chunk e)
  ]
  after-IsAccounted (close_call i) = elim (Option-cases (get_elem? s.ends i)) [
    | inl none_there ↦ rw (none_there, after) v
    | inr (e, there) ↦ rw (there, after) (close-IsAccounted i e there)
  ]

run_from-IsAccounted : (cs : List Call) (s : Session) → IsAccounted s → IsAccounted (run cs s)
unfolding run
run_from-IsAccounted [] s v = v
run_from-IsAccounted (c ∷ cs) s v = run_from-IsAccounted cs (after c s) (after-IsAccounted s v c)

-- Whatever is called on the ends of a pipe, the shared state counts the open ends of each kind,
-- and the bytes accepted so far are those handed back followed by those in the buffer.
pub run-IsAccounted : (cs : List Call) → IsAccounted (run cs fresh)
run-IsAccounted cs =
    run_from-IsAccounted cs fresh (record { readers = refl; writers = refl; in_order = refl })

-- Whatever was called on the ends of a pipe before, a positive read on an open read end reports
-- the end of the file when the buffer is empty and no write end is open, and EAGAIN when it is
-- empty and one is.
pub read_empty :
    (cs : List Call) (n i : ℕ) (e : PipeIo)
    → get_elem? (run cs fresh).ends i ≡ some e
    → counts_as true e ≡ 1
    → (run cs fresh).state.buffer ≡ []
    → (read (pos (suc n)) e (run cs fresh).state).0
      ≡ (if open_ends false (run cs fresh).ends == 0 then bytes [] else failed eagain)
unfolding read read_some
read_empty cs n i e there is_open empty =
    let v = run-IsAccounted cs in
    let f : (not e.readable || e.closed) ≡ false = ground arith in
    let g : (suc n == 0) ≡ false = ground arith in
    let z : is_empty (run cs fresh).state.buffer ≡ true = rw empty refl in
    rw (f, g, z, ← v.writers) refl
