-- ===== src/Files/Socket/Pairs.antt =====
-- Which two sockets are the ends of a pair, and what making and closing them does to that.
use emulite.Base.{
  ℕ, ◌≡◌, ◌≢◌, refl, sym, true, false, Option, none, some, List, [], arith, Bool-cases, inl, inr,
}
use emulite.Files.Socket.{SocketIo, Sockets, part_from, close, socketpair}

-- The end `a` of a pair with the end `b`, which is the socket `j`: while both are open, `b` is the
-- peer of `a`; once one is closed, `a` has no peer and, while it is open, knows it.
pub record IsEnd (j : ℕ) (a b : SocketIo) : Type 0 where
  pub linked : a.closed ≡ false → b.closed ≡ false → (a.peer ≡ some j) × (a.peer_closed ≡ false)
  pub parted : a.closed ≡ true → a.peer ≡ none
  pub widowed : b.closed ≡ true → a.peer ≡ none
  pub told : b.closed ≡ true → a.closed ≡ false → a.peer_closed ≡ true

pub record IsPaired (i j : ℕ) (a b : SocketIo) : Type 0 where
  pub apart : i ≢ j
  pub here : IsEnd j a b
  pub there : IsEnd i b a

pub IsPaired-sym : (i j : ℕ) (a b : SocketIo) → IsPaired i j a b → IsPaired j i b a
IsPaired-sym i j a b p = record { apart = λ e. p.apart (sym e); here = p.there; there = p.here }

pub IsPaired-socketpair :
    (i j : ℕ) (s : Sockets)
    → i ≢ j
    → IsPaired i j (socketpair i j s i) (socketpair i j s j)
      × ((socketpair i j s i).inbox ≡ [])
      × ((socketpair i j s j).inbox ≡ [])
unfolding socketpair
IsPaired-socketpair i j s n = ground arith

module _ (i j : ℕ) (s : Sockets) (p : IsPaired i j (s i) (s j)) where
  -- both are open, and one closes
  close_first :
      (s i).closed ≡ false
      → (s j).closed ≡ false
      → (close i s i ≡ record (s i) { peer = none; closed = true })
        × (close i s j ≡ record (s j) { peer = none; peer_closed = true })
  unfolding close part_from
  close_first e f =
      let l = p.here.linked e f in rw (e, l.0) (ground (arith, p.apart), ground (arith, p.apart))

  close_second :
      (s i).closed ≡ false
      → (s j).closed ≡ true
      → (close i s i ≡ record (s i) { closed = true }) × (close i s j ≡ s j)
  unfolding close part_from
  close_second e f =
      let alone = p.here.widowed f in
      rw (e, alone) (ground (arith, p.apart), ground (arith, p.apart))

  -- `close` keeps the ends a pair, and what has arrived
  pub close-IsPaired :
      IsPaired i j (close i s i) (close i s j)
      × ((close i s i).inbox ≡ (s i).inbox)
      × ((close i s j).inbox ≡ (s j).inbox)
  close-IsPaired = elim (Bool-cases (s i).closed) [
    | inl e ↦ unfold close in (rw e (p, refl, refl))
    | inr e ↦ elim (Bool-cases (s j).closed) [
      | inl f ↦
          let (one, other) = close_second e f in
          rw (one, other)
            (
              record {
                apart = p.apart;
                here = record {
                  linked = λ c o. cc;
                  parted = λ c. p.here.widowed f;
                  widowed = p.here.widowed;
                  told = λ o c. cc;
                };
                there = record {
                  linked = λ c o. cc;
                  parted = p.there.parted;
                  widowed = λ c. p.there.parted f;
                  told = λ o c. cc;
                };
              },
              refl,
              refl,
            )
      | inr f ↦
          let (one, other) = close_first e f in
          rw (one, other)
            (
              record {
                apart = p.apart;
                here = record {
                  linked = λ c o. cc;
                  parted = λ c. refl;
                  widowed = λ c. refl;
                  told = λ o c. cc;
                };
                there = record {
                  linked = λ c o. cc;
                  parted = λ c. refl;
                  widowed = λ c. refl;
                  told = λ o c. refl;
                };
              },
              refl,
              refl,
            )
    ]
  ]

-- an end of which only the inbox and the handler have changed
pub same_links :
    (i j : ℕ) (a b : SocketIo) (inbox : List ℕ) (handler : Option (List ℕ → List ℕ))
    → IsPaired i j a b
    → IsPaired i j (record a { inbox = inbox; handler = handler }) b
same_links i j a b inbox handler p = record {
  apart = p.apart;
  here = record {
    linked = p.here.linked;
    parted = p.here.parted;
    widowed = p.here.widowed;
    told = p.here.told;
  };
  there = record {
    linked = p.there.linked;
    parted = p.there.parted;
    widowed = p.there.widowed;
    told = p.there.told;
  };
}
