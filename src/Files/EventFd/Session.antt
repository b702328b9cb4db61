-- ===== src/Files/EventFd/Session.antt =====
-- Any calls on one event descriptor, with what was added and what was taken.
use emulite.Base.{
  ℕ, ◌+◌, ◌-◌, ◌%◌, ◌^◌, ◌≤◌, ◌≡◌, Bool, not, List, [], ◌∷◌, length, arith, ltb, ◌==◌, Bool-cases,
  inl, inr,
}
use emulite.Base.Int.{ℤ, pos, negsuc}
use emulite.Base.Bytes.{pack, unpack, unpack-pack}
use emulite.Files.Answer.{Answer, bytes, count, failed}
use emulite.Files.EventFd.{
  EventFdIo, init, taken_by_read, read_eight, read, add_value, write, max_u64,
}

pub data Call : Type 0 where
  read_call : ℤ → Call
  write_call : List ℕ → Call

-- the description, the sum of the values accepted, and the sum of the values handed back
pub record Ledger : Type 0 where
  pub event : EventFdIo
  pub added : ℕ
  pub taken : ℕ

unfoldable pub note_read : Ledger → Answer × EventFdIo → Ledger
note_read s (bytes chunk, event) = record s { event = event; taken = s.taken + unpack chunk }
note_read s (count _, event) = record s { event = event }
note_read s (failed _, event) = record s { event = event }

unfoldable pub note_write : ℕ → Ledger → Answer × EventFdIo → Ledger
note_write value s (count _, event) = record s { event = event; added = s.added + value }
note_write value s (bytes _, event) = record s { event = event }
note_write value s (failed _, event) = record s { event = event }

unfoldable pub after : Call → Ledger → Ledger
unfolding note_read note_write
after (read_call n) s = note_read s (read n s.event)
after (write_call sent) s = note_write (unpack sent) s (write sent s.event)

unfoldable pub run : List Call → Ledger → Ledger
unfolding after
run [] s = s
run (c ∷ cs) s = run cs (after c s)

abbrev pub opened : ℕ → Bool → Ledger
opened initval semaphore = record { event = init initval semaphore; added = 0; taken = 0 }

-- nothing is lost, and the counter is a 64-bit number
pub record IsBalanced (start : ℕ) (s : Ledger) : Type 0 where
  pub balance : start + s.added ≡ s.event.counter + s.taken
  pub bounded : s.event.counter ≤ max_u64

module _ (start : ℕ) (s : Ledger) (v : IsBalanced start s) where
  read_eight-IsBalanced : IsBalanced start (note_read s (read_eight s.event))
  unfolding note_read read_eight
  read_eight-IsBalanced = elim (Bool-cases (s.event.counter == 0)) [
    | inl e ↦ rw (e, note_read) v
    | inr e ↦
        let value = taken_by_read s.event in
        let least : value ≤ s.event.counter = unfold taken_by_read in ground arith in
        let back : unpack (pack 8 value) ≡ value =
          unpack-pack 8 value (omega (arith, v.bounded, least)) in
        rw (e, note_read)
          (record {
            balance = omega (arith, v.balance, back, least);
            bounded = omega (arith, v.bounded);
          })
  ]

  read-IsBalanced : (n : ℤ) → IsBalanced start (note_read s (read n s.event))
  unfolding note_read read
  read-IsBalanced (negsuc _) = v
  read-IsBalanced (pos n) = elim (Bool-cases (not (n == 8))) [
    | inl e ↦ rw (e, note_read) v
    | inr e ↦ rw (e, note_read) read_eight-IsBalanced
  ]

  add_value-IsBalanced :
      (value : ℕ) → IsBalanced start (note_write value s (add_value value s.event))
  unfolding note_write add_value
  add_value-IsBalanced value = elim (Bool-cases (value == max_u64)) [
    | inl e ↦ rw (e, note_write) v
    | inr e ↦
        rw (e, note_write)
          (elim (Bool-cases (ltb (max_u64 - 1) (s.event.counter + value))) [
            | inl f ↦ rw (f, note_write) v
            | inr f ↦
                rw (f, note_write)
                  (record { balance = omega (arith, v.balance); bounded = ground arith })
          ])
  ]

  write-IsBalanced :
      (sent : List ℕ) → IsBalanced start (note_write (unpack sent) s (write sent s.event))
  unfolding note_write write
  write-IsBalanced sent = elim (Bool-cases (not (length sent == 8))) [
    | inl e ↦ rw (e, note_write) v
    | inr e ↦ rw (e, note_write) (add_value-IsBalanced (unpack sent))
  ]

  after-IsBalanced : (c : Call) → IsBalanced start (after c s)
  unfolding after
  after-IsBalanced (read_call n) = read-IsBalanced n
  after-IsBalanced (write_call sent) = write-IsBalanced sent

run_from-IsBalanced :
    (start : ℕ) (cs : List Call) (s : Ledger) → IsBalanced start s → IsBalanced start (run cs s)
unfolding run
run_from-IsBalanced start [] s v = v
run_from-IsBalanced start (c ∷ cs) s v =
    run_from-IsBalanced start cs (after c s) (after-IsBalanced start s v c)

-- Whatever is read and written, the counter stays a 64-bit number, and the first value, modulo
-- 2^64, and all values accepted add up to the counter and all values handed back.
pub run-IsBalanced :
    (cs : List Call) (initval : ℕ) (semaphore : Bool)
    → IsBalanced (initval % 2 ^ 64) (run cs (opened initval semaphore))
unfolding init
run-IsBalanced cs initval semaphore =
    run_from-IsBalanced (initval % 2 ^ 64) cs (opened initval semaphore)
      (record { balance = omega arith; bounded = omega arith })
