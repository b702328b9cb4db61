-- ===== src/Files/Socket/Session.antt =====
-- Any calls on the two ends of a socket pair, in any order.
use emulite.Base.{
  ℕ, ◌≡◌, ◌≢◌, sym, ap, ◌∙◌, Bool, true, false, Option, List, [], ◌∷◌, ◌++◌, append_assoc,
  append_empty,
}
use emulite.Base.Int.{ℤ}
use emulite.Files.Socket.{Sockets, sendto, recvfrom, close, socketpair, connect}
use emulite.Files.Socket.Pairs.{IsPaired, IsPaired-sym, IsPaired-socketpair, close-IsPaired}
use emulite.Files.Socket.Flow.{
  delivered, replied, consumed, Moves, sendto-Moves, recvfrom-Moves, connect-Moves,
}

pub data Call : Type 0 where
  send : List ℕ → Call
  receive : ℤ → ℕ → Call
  shut : Call
  connecting : Option (List ℕ → List ℕ) → Bool → Call

-- The sockets; what is due at each end, in the order of the calls: what the other end was told it has
-- sent while no handler was connected to it, and the replies of the handler connected to this end;
-- and what each end has received for good.
pub record Traffic : Type 0 where
  pub sockets : Sockets
  pub left_due : List ℕ
  pub left_got : List ℕ
  pub right_due : List ℕ
  pub right_got : List ℕ

-- one call on a socket: the sockets, what is due at the other end and at this one, and what has been
-- received
abbrev pub called : ℕ → Call → Sockets → Sockets × List ℕ × List ℕ × List ℕ
called i (send data') s =
    let (answer, s') = sendto i data' s in
    (s', delivered (s i).handler data' answer, replied (s i).handler data' answer, [])
called i (receive n flags) s =
    let (answer, s') = recvfrom i n flags s in (s', [], [], consumed flags answer)
called i shut s = (close i s, [], [], [])
called i (connecting handler known) s = ((connect handler known i s).1, [], [], [])

module _ (left right : ℕ) where
  -- a call on the left end, or on the right one
  abbrev pub after : Bool × Call → Traffic → Traffic
  after (true, c) t =
      let (s, come, back, got) = called left c t.sockets in
      record t {
        sockets = s;
        left_due = t.left_due ++ back;
        left_got = t.left_got ++ got;
        right_due = t.right_due ++ come;
      }
  after (false, c) t =
      let (s, come, back, got) = called right c t.sockets in
      record t {
        sockets = s;
        left_due = t.left_due ++ come;
        right_due = t.right_due ++ back;
        right_got = t.right_got ++ got;
      }

  abbrev pub run : List (Bool × Call) → Traffic → Traffic
  run [] t = t
  run (c ∷ cs) t = run cs (after c t)

  abbrev pub fresh : Sockets → Traffic
  fresh s = record {
    sockets = socketpair left right s;
    left_due = [];
    left_got = [];
    right_due = [];
    right_got = [];
  }

  -- each end's inbox holds what is due there, less what it has received
  pub record IsFlowing (t : Traffic) : Type 0 where
    pub paired : IsPaired left right (t.sockets left) (t.sockets right)
    pub to_left : t.left_got ++ (t.sockets left).inbox ≡ t.left_due
    pub to_right : t.right_got ++ (t.sockets right).inbox ≡ t.right_due

called-Moves :
    (i j : ℕ) (c : Call) (s : Sockets) (p : IsPaired i j (s i) (s j))
    → Moves i j s p (called i c s).3 (called i c s).2 (called i c s).1 (called i c s).0
called-Moves i j (send data') s p = sendto-Moves i j s p data'
called-Moves i j (receive n flags) s p = recvfrom-Moves i j s p n flags
called-Moves i j shut s p =
    let (paired, one, other) = close-IsPaired i j s p in
    (paired, one ∙ sym (append_empty (s i).inbox), other ∙ sym (append_empty (s j).inbox))
called-Moves i j (connecting handler known) s p = connect-Moves i j s p handler known

-- what one end has received for good, with its inbox, is what it was and what has come back
taken :
    (got gone inbox' inbox back : List ℕ) {due : List ℕ}
    → gone ++ inbox' ≡ inbox ++ back
    → got ++ inbox ≡ due
    → (got ++ gone) ++ inbox' ≡ due ++ back
taken got gone inbox' inbox back e f =
    append_assoc got gone inbox'
    ∙ ap (◌++◌ got) e
    ∙ sym (append_assoc got inbox back)
    ∙ ap (λ (l : List ℕ). l ++ back) f

-- and what the other has sent is put behind
put_behind :
    (got inbox come : List ℕ) {inbox' sent : List ℕ}
    → inbox' ≡ inbox ++ come
    → got ++ inbox ≡ sent
    → got ++ inbox' ≡ sent ++ come
put_behind got inbox come e f =
    ap (◌++◌ got) e ∙ sym (append_assoc got inbox come) ∙ ap (λ (l : List ℕ). l ++ come) f

after-IsFlowing :
    (left right : ℕ) (c : Bool × Call) (t : Traffic)
    → IsFlowing left right t
    → IsFlowing left right (after left right c t)
after-IsFlowing left right (true, c) t f =
    let (paired, gone, come) = called-Moves left right c t.sockets f.paired in
    record {
      paired = paired;
      to_left = taken t.left_got _ _ (t.sockets left).inbox _ gone f.to_left;
      to_right = put_behind t.right_got (t.sockets right).inbox _ come f.to_right;
    }
after-IsFlowing left right (false, c) t f =
    let p = IsPaired-sym left right _ _ f.paired in
    let (paired, gone, come) = called-Moves right left c t.sockets p in
    record {
      paired = IsPaired-sym right left _ _ paired;
      to_left = put_behind t.left_got (t.sockets left).inbox _ come f.to_left;
      to_right = taken t.right_got _ _ (t.sockets right).inbox _ gone f.to_right;
    }

run_from-IsFlowing :
    (left right : ℕ) (cs : List (Bool × Call)) (t : Traffic)
    → IsFlowing left right t
    → IsFlowing left right (run left right cs t)
run_from-IsFlowing left right [] t f = f
run_from-IsFlowing left right (c ∷ cs) t f =
    run_from-IsFlowing left right cs (after left right c t) (after-IsFlowing left right c t f)

-- Whatever is sent, received, closed and connected on the two ends of a new pair, in any order: the
-- bytes that an end has received without MSG_PEEK, followed by its inbox, are, in the order of the
-- calls, the bytes that the other end was told it has sent while no handler was connected to it,
-- and the replies, each cut to the most that one call moves, of handlers connected to the end
-- itself to what it was told it has sent.
pub run-IsFlowing :
    (left right : ℕ) (cs : List (Bool × Call)) (s : Sockets)
    → left ≢ right
    → IsFlowing left right (run left right cs (fresh left right s))
run-IsFlowing left right cs s n =
    let (paired, no_left, no_right) = IsPaired-socketpair left right s n in
    run_from-IsFlowing left right cs (fresh left right s)
      (record { paired = paired; to_left = no_left; to_right = no_right })
