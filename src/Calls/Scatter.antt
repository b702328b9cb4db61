-- ===== src/Calls/Scatter.antt =====
-- What `readv` leaves in guest memory.
use emulite.Base.{
  ℕ, zero, suc, ◌+◌, ◌-◌, ◌≤◌, ◌≡◌, refl, ap, sym, ◌∙◌, inl, inr, List, [], ◌∷◌, ◌++◌, Bool, true,
  ◌&&◌, ◌||◌, leb, ltb, length, take, drop, min, is_empty, arith, Bool-cases, length-take,
  length-drop, take-append-drop,
}
use mathlib.Core.Path.{subst}
use emulite.Files.Answer.{Answer, bytes, count}
use emulite.Guest.{GuestMemory}
use emulite.Calls.{FileSystem, Iovec64, IoState, total, scatter, write_all, readv, iovecs}

abbrev pub all_nonempty : List Iovec64 → Bool
all_nonempty [] = true
all_nonempty (v ∷ vs) = ltb 0 v.length && all_nonempty vs

-- no byte in common
abbrev pub disjoint_from : Iovec64 → List Iovec64 → Bool
disjoint_from v [] = true
disjoint_from v (w ∷ vs) =
    (leb (v.base + v.length) w.base || leb (w.base + w.length) v.base) && disjoint_from v vs

abbrev pub all_disjoint : List Iovec64 → Bool
all_disjoint [] = true
all_disjoint (v ∷ vs) = disjoint_from v vs && all_disjoint vs

no_bytes : (l : List ℕ) → length l ≤ 0 → l ≡ []
no_bytes [] h = refl
no_bytes (x ∷ l) h = absurd (omega arith)

no_length : (l : List ℕ) → is_empty l ≡ true → length l ≡ 0
no_length [] h = refl
no_length (x ∷ l) h = absurd (ground (arith, h))

drop-length_take : (n : ℕ) (l : List ℕ) → drop (length (take n l)) l ≡ drop n l
drop-length_take zero l = refl
drop-length_take (suc n) [] = refl
drop-length_take (suc n) (x ∷ l) = drop-length_take n l

module _ (g : GuestMemory) (fs : FileSystem) where
  -- the first `n` bytes of the segments, one after another
  abbrev pub first_bytes : ℕ → List Iovec64 → g.Memory → List ℕ
  first_bytes n [] m = []
  first_bytes n (v ∷ vs) m = g.read v.base (min n v.length) m ++ first_bytes (n - v.length) vs m

  -- a stretch of memory apart from every segment
  write_all_apart :
      (vs : List Iovec64) (data' : List ℕ) (m : g.Memory) (v : Iovec64) (n : ℕ)
      → n ≤ v.length
      → disjoint_from v vs ≡ true
      → g.read v.base n (write_all g fs (scatter g fs vs data') m) ≡ g.read v.base n m
  unfolding write_all scatter
  write_all_apart [] data' m v n le off = refl
  write_all_apart (w ∷ vs) data' m v n le off =
      let chunk = take w.length data' in
      let long : length chunk ≤ w.length = omega (arith, length-take w.length data') in
      elim (Bool-cases (is_empty chunk)) [
        | inl e ↦ rw (e, scatter) refl
        | inr e ↦
            rw (e, scatter)
              (write_all_apart vs (drop (length chunk) data') (g.write w.base chunk m) v n le
                  (ground (arith, off))
                ∙ g.read-write_apart v.base n w.base chunk m
                    (elim (Bool-cases (leb (v.base + v.length) w.base)) [
                      | inl a ↦ inl (ground (arith, a, le))
                      | inr b ↦ inr (ground (arith, off, b, long))
                    ]))
      ]

  read_none : (at : ℕ) (m : g.Memory) → g.read at 0 m ≡ []
  read_none at m = sym (g.read-write_apart at 0 at [] m (inl (omega arith))) ∙ g.read-write at [] m

  first_bytes_none : (vs : List Iovec64) (m : g.Memory) → first_bytes 0 vs m ≡ []
  first_bytes_none [] m = refl
  first_bytes_none (v ∷ vs) m =
      let least : min 0 v.length ≡ 0 = omega arith in
      let less : 0 - v.length ≡ 0 = omega arith in
      rw (least, less, read_none v.base m) (first_bytes_none vs m)

  first_bytes-write_all :
      (vs : List Iovec64) (data' : List ℕ) (m : g.Memory)
      → all_nonempty vs ≡ true
      → all_disjoint vs ≡ true
      → length data' ≤ total g fs vs
      → first_bytes (length data') vs (write_all g fs (scatter g fs vs data') m) ≡ data'
  unfolding write_all scatter
  first_bytes-write_all [] data' m full apart fits = sym (no_bytes data' fits)
  first_bytes-write_all (v ∷ vs) data' m full apart fits =
      let chunk = take v.length data' in
      let rest = drop (length chunk) data' in
      let some_room : 1 ≤ v.length = ground (arith, full) in
      let long : length chunk ≡ min (length data') v.length =
        omega (arith, length-take v.length data') in
      let left : length rest ≡ length data' - v.length =
        omega (arith, length-drop (length chunk) data', long) in
      let less : length rest ≤ total g fs vs = omega (arith, left, fits) in
      elim (Bool-cases (is_empty chunk)) [
        | inl e ↦
            let nothing : data' ≡ [] = no_bytes data' (omega (arith, no_length chunk e, long)) in
            let none_left : length data' ≡ 0 = ap length nothing in
            rw (none_left) (first_bytes_none (v ∷ vs) _ ∙ sym nothing)
        | inr e ↦
            let m1 = g.write v.base chunk m in
            let m2 = write_all g fs (scatter g fs vs rest) m1 in
            let here : g.read v.base (min (length data') v.length) m2 ≡ chunk =
              write_all_apart vs rest m1 v (min (length data') v.length) (omega arith)
                (ground (arith, apart))
              ∙ subst (λ (n : ℕ). g.read v.base n m1 ≡ chunk) long (g.read-write v.base chunk m) in
            let there : first_bytes (length data' - v.length) vs m2 ≡ rest =
              subst (λ (n : ℕ). first_bytes n vs m2 ≡ rest) left
                (first_bytes-write_all vs rest m1 (ground (arith, full)) (ground (arith, apart))
                  less) in
            rw (e, scatter)
              (rw (here, there)
                (ap (λ (l : List ℕ). chunk ++ l) (drop-length_take v.length data')
                  ∙ take-append-drop v.length data'))
      ]

  -- Where the file has answered a `readv` with bytes, not more than its segments hold, and no
  -- segment is empty or overlaps another, the answer is their number, and the segments, read one
  -- after another, start with those bytes.
  pub readv-scatter :
      (fd iov iovcnt : ℕ) (chunk : List ℕ) (files : fs.Files) (s : IoState g fs)
      → let segments = iovecs g fs iov iovcnt s.memory in
        all_nonempty segments ≡ true
        → all_disjoint segments ≡ true
        → fs.read fd (total g fs segments) s.files ≡ (bytes chunk, files)
        → length chunk ≤ total g fs segments
        → let (answer, s') = readv g fs fd iov iovcnt s in
          (answer ≡ count (length chunk))
          × (s'.files ≡ files)
          × (first_bytes (length chunk) segments s'.memory ≡ chunk)
  unfolding readv
  readv-scatter fd iov iovcnt chunk files s full apart answered fits =
      rw (answered, readv)
        (
          refl,
          ap (λ (r : Answer × fs.Files). r.1) answered,
          first_bytes-write_all (iovecs g fs iov iovcnt s.memory) chunk s.memory full apart fits,
        )
