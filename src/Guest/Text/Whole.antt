-- ===== src/Guest/Text/Whole.antt =====
-- A C string is the bytes up to the first NUL, wherever the pages end.
use emulite.Base.{
  ℕ, zero, suc, ◌+◌, ◌*◌, ◌-◌, ◌/◌, ◌%◌, ◌≤◌, ◌<◌, ◌≡◌, refl, sym, ap, ◌∙◌, none, some, List, [],
  ◌∷◌, ◌++◌, length, take, ltb, ◌==◌, if◌then◌else◌, Bool-cases, Option-cases, inl, inr, Bool, true,
  false, arith, append_assoc, append_empty, length-append, lt_cases,
}
use emulite.Memory.Layout.{page_size}
use emulite.Guest.{GuestMemory}
use emulite.Guest.Text.{find_nul, max_length, everywhere, chunk_size, read_chunks, read_cstr_bytes}

-- the bytes up to the first NUL
unfoldable pub until_nul : List ℕ → List ℕ
until_nul [] = []
until_nul (byte ∷ bytes) = if byte == 0 then [] else byte ∷ until_nul bytes

until_nul_found : (xs ys : List ℕ) (n : ℕ) → find_nul xs ≡ some n → until_nul (xs ++ ys) ≡ take n xs
unfolding until_nul find_nul
until_nul_found [] ys n e = absurd (ground arith)
until_nul_found (x ∷ xs) ys n e = ground (arith, until_nul_found xs ys (n - 1))

until_nul_missing :
    (xs ys : List ℕ) → find_nul xs ≡ none → until_nul (xs ++ ys) ≡ xs ++ until_nul ys
unfolding until_nul find_nul
until_nul_missing [] ys e = refl
until_nul_missing (x ∷ xs) ys e = ground (arith, until_nul_missing xs ys)

empty_of_length : {A : Type 0} (l : List A) → length l ≡ 0 → l ≡ []
empty_of_length [] e = refl
empty_of_length (x ∷ l) e = absurd (omega (arith, e))

-- the next chunk ends a page, or it is the last one
next_chunk :
    (fuel at got size : ℕ)
    → size ≡ chunk_size at got
    → got < max_length
    → max_length - got ≤ page_size * suc fuel - at % page_size
    → max_length - (got + size) ≤ page_size * fuel - (at + size) % page_size
next_chunk fuel at got size e room enough = omega (arith, e)

-- Of so many bytes from an address on, how many come before the first one in a page that is not
-- mapped.
unfoldable pub reach : (ℕ → Bool) → ℕ → ℕ → ℕ
reach mapped zero at = 0
reach mapped (suc n) at = if mapped (at / page_size) then suc (reach mapped n (at + 1)) else 0

-- inside a mapped page every byte counts
reach_chunk :
    (mapped : ℕ → Bool) (page size n at : ℕ)
    → mapped page ≡ true
    → page * page_size ≤ at
    → at + size ≤ (page + 1) * page_size
    → reach mapped (size + n) at ≡ size + reach mapped n (at + size)
unfolding reach
reach_chunk mapped page zero n at is_mapped from to =
    let here : at ≡ at + 0 = omega arith in
    let none_yet : 0 + n ≡ n = omega arith in
    ap (λ (k : ℕ). reach mapped k at) none_yet ∙ ap (reach mapped n) here ∙ omega arith
reach_chunk mapped page (suc size) n at is_mapped from to =
    let here : at / page_size ≡ page = omega arith in
    let next : at + 1 + size ≡ at + suc size = omega arith in
    let counted : mapped (at / page_size) ≡ true = ap mapped here ∙ is_mapped in
    let long : suc size + n ≡ suc (size + n) = omega arith in
    ap (λ (k : ℕ). reach mapped k at) long
    ∙ rw counted refl
    ∙ ap suc (
        reach_chunk mapped page size n (at + 1) is_mapped (omega arith) (omega arith)
        ∙ ap (λ (a : ℕ). size + reach mapped n a) next)
    ∙ omega arith

reach_unmapped :
    (mapped : ℕ → Bool) (n at : ℕ) → mapped (at / page_size) ≡ false → reach mapped n at ≡ 0
unfolding reach
reach_unmapped mapped zero at e = refl
reach_unmapped mapped (suc n) at e = rw e refl

reach-everywhere : (n at : ℕ) → reach everywhere n at ≡ n
unfolding reach
reach-everywhere zero at = refl
reach-everywhere (suc n) at = ap suc (reach-everywhere n (at + 1))

module _ (g : GuestMemory) (mapped : ℕ → Bool) (address : ℕ) (m : g.Memory) where
  -- what remains to be read behind `got` bytes
  abbrev remaining : ℕ → List ℕ
  remaining got = g.read (address + got) (reach mapped (max_length - got) (address + got)) m

  nothing_left : (out : List ℕ) (n at : ℕ) → n ≡ 0 → out ≡ out ++ until_nul (g.read at n m)
  unfolding until_nul
  nothing_left out n at e =
      let none_read : g.read at n m ≡ [] =
        empty_of_length (g.read at n m) (g.length-read at n m ∙ e) in
      sym (ap (λ (bytes : List ℕ). out ++ until_nul bytes) none_read ∙ append_empty out)

  none_over :
      (out : List ℕ)
      → max_length - length out ≡ 0
      → reach mapped (max_length - length out) (address + length out) ≡ 0
  unfolding reach
  none_over out e = rw e refl

  remaining_parts :
      (got size : ℕ)
      → size ≡ chunk_size (address + got) got
      → got < max_length
      → mapped ((address + got) / page_size) ≡ true
      → remaining got ≡ g.read (address + got) size m ++ remaining (got + size)
  remaining_parts got size e room is_mapped =
      let at = address + got in
      let rest = max_length - (got + size) in
      let long : max_length - got ≡ size + rest = omega (arith, e) in
      let next : at + size ≡ address + (got + size) = omega arith in
      let far : reach mapped (max_length - got) at ≡ size + reach mapped rest (at + size) =
        ap (λ (n : ℕ). reach mapped n at) long
        ∙ reach_chunk mapped (at / page_size) size rest at is_mapped (omega arith)
            (omega (arith, e)) in
      ap (λ (n : ℕ). g.read at n m) far
      ∙ g.read-append at size (reach mapped rest (at + size)) m
      ∙ ap (λ (a : ℕ). g.read at size m ++ g.read a (reach mapped rest a) m) next

  read_chunks-until_nul :
      (fuel : ℕ) (out : List ℕ)
      → length out ≤ max_length
      → max_length - length out ≤ page_size * fuel - (address + length out) % page_size
      → read_chunks g mapped fuel address out m ≡ out ++ until_nul (remaining (length out))
  unfolding read_chunks
  read_chunks-until_nul zero out short enough =
      nothing_left out (reach mapped (max_length - length out) (address + length out))
        (address + length out) (none_over out (omega arith))
  read_chunks-until_nul (suc fuel) out short enough =
      let got = length out in
      let size = chunk_size (address + got) got in
      let chunk = g.read (address + got) size m in
      let long : length chunk ≡ size = g.length-read (address + got) size m in
      elim (lt_cases got max_length) [
        | inr full ↦
            let done : ltb got max_length ≡ false = ground arith in
            rw done (
              nothing_left out (reach mapped (max_length - got) (address + got)) (address + got)
                (none_over out (omega arith)))
        | inl room ↦
            let more : ltb got max_length ≡ true = ground arith in
            elim (Bool-cases (mapped ((address + got) / page_size))) [
              | inr unmapped ↦
                  rw (more, unmapped)
                    (nothing_left out (reach mapped (max_length - got) (address + got))
                      (address + got)
                      (reach_unmapped mapped (max_length - got) (address + got) unmapped))
              | inl is_mapped ↦
                  let parts = remaining_parts got size refl room is_mapped in
                  elim (Option-cases (find_nul chunk)) [
                    | inr (n, e) ↦
                        rw (more, is_mapped, e)
                          (ap (◌++◌ out) (
                            sym (
                              ap until_nul parts
                              ∙ until_nul_found chunk (remaining (got + size)) n e)))
                    | inl e ↦
                        let all : length (out ++ chunk) ≡ got + size =
                          omega (arith, length-append out chunk, long) in
                        let enough' = next_chunk fuel (address + got) got size refl room enough in
                        let next : address + (got + size) ≡ address + got + size = omega arith in
                        rw (more, is_mapped, e)
                          (read_chunks-until_nul fuel (out ++ chunk) (omega (arith, all))
                              (rw all (rw next enough'))
                            ∙ append_assoc out chunk (until_nul (remaining (length (out ++ chunk))))
                            ∙ ap (λ (n : ℕ). out ++ (chunk ++ until_nul (remaining n))) all
                            ∙ ap (◌++◌ out) (
                                sym (
                                  ap until_nul parts
                                  ∙ until_nul_missing chunk (remaining (got + size)) e)))
                  ]
            ]
      ]

  -- A C string is read up to its first NUL, to the first page that is not mapped or to 0x10000
  -- bytes, whichever comes first, wherever the pages end.
  pub read_cstr_bytes-until_nul :
      read_cstr_bytes g mapped address m
      ≡ until_nul (g.read address (reach mapped max_length address) m)
  unfolding read_cstr_bytes
  read_cstr_bytes-until_nul =
      let first : address + 0 ≡ address = omega arith in
      read_chunks-until_nul 17 [] (omega arith) (rw first (omega arith))
      ∙ ap (λ (at : ℕ). until_nul (g.read at (reach mapped max_length at) m)) first

-- a C string in mapped memory
pub read_cstr_bytes-everywhere :
    (g : GuestMemory) (address : ℕ) (m : g.Memory)
    → read_cstr_bytes g everywhere address m ≡ until_nul (g.read address max_length m)
read_cstr_bytes-everywhere g address m =
    read_cstr_bytes-until_nul g everywhere address m
    ∙ ap (λ (n : ℕ). until_nul (g.read address n m)) (reach-everywhere max_length address)
