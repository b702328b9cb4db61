-- ===== src/Files/Socket/Flow.antt =====
-- What flows from one end of a pair to the other, and what each call does to it.
use emulite.Base.{
  ℕ, ◌≡◌, refl, sym, ap, ◌∙◌, min, Bool, true, false, Option, none, some, List, [], ◌∷◌, ◌++◌,
  length, take, drop, is_empty, ◌==◌, if◌then◌else◌, arith, Bool-cases, Option-cases, inl, inr,
  append_empty, take_of_length-le, length-take, zero, suc,
}
use mathlib.Core.Path.{subst}
use emulite.Base.Int.{ℤ, pos, negsuc}
use emulite.Files.Answer.{Answer, bytes, count, failed, Errno, ebadf, eagain, epipe, max_rw}
use emulite.Files.Socket.{
  Sockets, update, deliver, send_on, sendto, is_peek, receive_some, recvfrom, connect,
}
use emulite.Files.Socket.Pairs.{IsPaired, IsPaired-sym, same_links}

-- what the caller of a send takes to be sent, and of a receive to be gone from the inbox
abbrev pub accepted : List ℕ → Answer → List ℕ
accepted data' (count n) = take n data'
accepted data' (bytes _) = []
accepted data' (failed _) = []

-- what arrives at the other end of it, and at this end: where a handler is connected, it gets the
-- bytes and its reply arrives here
abbrev pub delivered : Option (List ℕ → List ℕ) → List ℕ → Answer → List ℕ
delivered none data' answer = accepted data' answer
delivered (some _) data' answer = []

abbrev pub reply_to : (List ℕ → List ℕ) → List ℕ → Answer → List ℕ
reply_to handler data' (count n) = take max_rw (handler (take n data'))
reply_to handler data' (bytes _) = []
reply_to handler data' (failed _) = []

abbrev pub replied : Option (List ℕ → List ℕ) → List ℕ → Answer → List ℕ
replied none data' answer = []
replied (some handler) data' answer = reply_to handler data' answer

none_delivered :
    (handler : Option (List ℕ → List ℕ)) (data' : List ℕ) (e : Errno)
    → delivered handler data' (failed e) ≡ []
none_delivered none data' e = refl
none_delivered (some _) data' e = refl

none_replied :
    (handler : Option (List ℕ → List ℕ)) (data' : List ℕ) (e : Errno)
    → replied handler data' (failed e) ≡ []
none_replied none data' e = refl
none_replied (some _) data' e = refl

abbrev pub consumed : ℕ → Answer → List ℕ
consumed flags (bytes chunk) = if is_peek flags then [] else chunk
consumed flags (count _) = []
consumed flags (failed _) = []

consumed-nothing : (flags : ℕ) → consumed flags (bytes []) ≡ []
consumed-nothing flags = elim (Bool-cases (is_peek flags)) [ inl e ↦ rw e refl | inr e ↦ rw e refl ]

consumed-empty :
    (flags : ℕ) (over : Bool) → consumed flags (if over then bytes [] else failed eagain) ≡ []
consumed-empty flags true = consumed-nothing flags
consumed-empty flags false = refl

take-take : (n : ℕ) (xs : List ℕ) → take n (take n xs) ≡ take n xs
take-take n xs = take_of_length-le n (take n xs) (omega (arith, length-take n xs))

take_length-take : (n : ℕ) (xs : List ℕ) → take (length (take n xs)) xs ≡ take n xs
take_length-take zero xs = refl
take_length-take (suc n) [] = refl
take_length-take (suc n) (x ∷ xs) = ap (◌∷◌ x) (take_length-take n xs)

drop_length-take : (n : ℕ) (xs : List ℕ) → take n xs ++ drop (length (take n xs)) xs ≡ xs
drop_length-take zero xs = refl
drop_length-take (suc n) [] = refl
drop_length-take (suc n) (x ∷ xs) = ap (◌∷◌ x) (drop_length-take n xs)

module _ (i j : ℕ) (s : Sockets) (p : IsPaired i j (s i) (s j)) where
  -- what a call has done: the ends are a pair still, `gone` has left the inbox of the one, `back`
  -- has been put behind it, and `come` has been put behind that of the other
  abbrev pub Moves : List ℕ → List ℕ → List ℕ → Sockets → Type 0
  Moves gone back come t =
      IsPaired i j (t i) (t j)
      × (gone ++ (t i).inbox ≡ (s i).inbox ++ back)
      × ((t j).inbox ≡ (s j).inbox ++ come)

  Moves-none : Moves [] [] [] s
  Moves-none = (p, sym (append_empty (s i).inbox), sym (append_empty (s j).inbox))

  -- a send that fails
  refused :
      (data' : List ℕ) (e : Errno)
      → sendto i data' s ≡ (failed e, s)
      → Moves []
          (replied (s i).handler data' (sendto i data' s).0)
          (delivered (s i).handler data' (sendto i data' s).0)
          (sendto i data' s).1
  refused data' e fails =
      rw fails
        (rw (none_delivered (s i).handler data' e, none_replied (s i).handler data' e) Moves-none)

  sendto_open :
      (data' : List ℕ)
      → (s i).closed ≡ false
      → (s j).closed ≡ false
      → (s i).handler ≡ none
      → sendto i data' s ≡ (
        count (length (take max_rw data')),
        update j (record (s j) { inbox = (s j).inbox ++ take max_rw (take max_rw data') }) s,
      )
  unfolding sendto send_on deliver
  sendto_open data' e f silent =
      let (peer, open_end) = p.here.linked e f in rw (e, open_end, silent, peer, f) refl

  sendto_reaches :
      (data' : List ℕ)
      → (s i).closed ≡ false
      → (s i).peer_closed ≡ false
      → sendto i data' s ≡ send_on (s i).handler (s i).peer i (take max_rw data') s
  unfolding sendto
  sendto_reaches data' e open_end = rw (e, open_end) refl

  -- the inbox behind a reply
  abbrev after_reply : List ℕ → Sockets
  after_reply reply =
      if is_empty reply
      then s
      else update i (record (s i) { inbox = (s i).inbox ++ take max_rw reply }) s

  sendto_handled :
      (data' : List ℕ) (handler : List ℕ → List ℕ)
      → (s i).closed ≡ false
      → (s j).closed ≡ false
      → (s i).handler ≡ some handler
      → sendto i data' s
        ≡ (count (length (take max_rw data')), after_reply (handler (take max_rw data')))
  unfolding send_on
  sendto_handled data' handler e f handled =
      sendto_reaches data' e (p.here.linked e f).1
      ∙ ap (λ (o : Option (List ℕ → List ℕ)). send_on o (s i).peer i (take max_rw data') s) handled

  sendto_shut :
      (data' : List ℕ)
      → (s i).closed ≡ false
      → (s j).closed ≡ true
      → sendto i data' s ≡ (failed epipe, s)
  unfolding sendto
  sendto_shut data' e f = let known = p.here.told f e in rw (e, known) refl

  after_reply-Moves : (reply : List ℕ) → Moves [] (take max_rw reply) [] (after_reply reply)
  after_reply-Moves [] = Moves-none
  after_reply-Moves (x ∷ reply) =
      let other : (j == i) ≡ false = ground (arith, p.apart) in
      let same : (i == i) ≡ true = ground arith in
      rw (other, same) (same_links i j (s i) (s j) _ _ p, refl, sym (append_empty (s j).inbox))

  sent_to_peer :
      (data' : List ℕ)
      → (s i).closed ≡ false
      → (s j).closed ≡ false
      → (s i).handler ≡ none
      → Moves [] [] (accepted data' (sendto i data' s).0) (sendto i data' s).1
  sent_to_peer data' e f silent =
      let other : (i == j) ≡ false = ground (arith, p.apart) in
      let same : (j == j) ≡ true = ground arith in
      rw (sendto_open data' e f silent) (
        rw (other, same)
          (
            IsPaired-sym j i _ _ (same_links j i (s j) (s i) _ _ (IsPaired-sym i j _ _ p)),
            sym (append_empty (s i).inbox),
            ap (◌++◌ (s j).inbox) (take-take max_rw data' ∙ sym (take_length-take max_rw data')),
          ))

  sent_to_handler :
      (data' : List ℕ) (handler : List ℕ → List ℕ)
      → (s i).closed ≡ false
      → (s j).closed ≡ false
      → (s i).handler ≡ some handler
      → Moves [] (reply_to handler data' (sendto i data' s).0) [] (sendto i data' s).1
  sent_to_handler data' handler e f handled =
      rw (sendto_handled data' handler e f handled, take_length-take max_rw data')
        (after_reply-Moves (handler (take max_rw data')))

  pub sendto-Moves :
      (data' : List ℕ)
      → Moves []
          (replied (s i).handler data' (sendto i data' s).0)
          (delivered (s i).handler data' (sendto i data' s).0)
          (sendto i data' s).1
  sendto-Moves data' = elim (Bool-cases (s i).closed) [
    | inl e ↦ refused data' ebadf (unfold sendto in (rw e refl))
    | inr e ↦ elim (Bool-cases (s j).closed) [
      | inl f ↦ refused data' epipe (sendto_shut data' e f)
      | inr f ↦ elim (Option-cases (s i).handler) [
        | inl silent ↦ rw silent (sent_to_peer data' e f silent)
        | inr (handler, handled) ↦ rw handled (sent_to_handler data' handler e f handled)
      ]
    ]
  ]

  -- another handler moves nothing
  rehandled :
      (handler : Option (List ℕ → List ℕ))
      → Moves [] [] [] (update i (record (s i) { handler = handler }) s)
  rehandled handler =
      let other : (j == i) ≡ false = ground (arith, p.apart) in
      let same : (i == i) ≡ true = ground arith in
      rw (other, same)
        (
          same_links i j (s i) (s j) _ _ p,
          sym (append_empty (s i).inbox),
          sym (append_empty (s j).inbox),
        )

  pub connect-Moves :
      (handler : Option (List ℕ → List ℕ)) (known : Bool)
      → Moves [] [] [] (connect handler known i s).1
  unfolding connect
  connect-Moves (some handler) known = rehandled (some handler)
  connect-Moves none true = rehandled none
  connect-Moves none false = Moves-none

  -- `recvfrom` of an open socket with a positive count
  receive_some-Moves :
      (n flags : ℕ)
      → Moves (consumed flags (receive_some i n flags s).0) [] [] (receive_some i n flags s).1
  unfolding receive_some
  receive_some-Moves n flags = elim (Bool-cases (is_empty (s i).inbox)) [
    | inl e ↦ rw e (
        subst (λ (gone : List ℕ). Moves gone [] [] s) (sym (consumed-empty flags (s i).peer_closed))
          Moves-none)
    | inr e ↦ elim (Bool-cases (is_peek flags)) [
      | inl f ↦ rw (e, f) Moves-none
      | inr f ↦
          let other : (j == i) ≡ false = ground (arith, p.apart) in
          let same : (i == i) ≡ true = ground arith in
          rw (e, f)
            (rw (other, same)
              (
                same_links i j (s i) (s j) _ _ p,
                drop_length-take (min n max_rw) (s i).inbox ∙ sym (append_empty (s i).inbox),
                sym (append_empty (s j).inbox),
              ))
    ]
  ]

  pub recvfrom-Moves :
      (n : ℤ) (flags : ℕ)
      → Moves (consumed flags (recvfrom i n flags s).0) [] [] (recvfrom i n flags s).1
  unfolding recvfrom
  recvfrom-Moves (negsuc n) flags = elim (Bool-cases (s i).closed) [
    | inl e ↦ rw e Moves-none
    | inr e ↦ rw e Moves-none
  ]
  recvfrom-Moves (pos n) flags = elim (Bool-cases (s i).closed) [
    | inl e ↦ rw e Moves-none
    | inr e ↦ elim (Bool-cases (n == 0)) [
      | inl z ↦
          rw (e, z)
            (subst (λ (gone : List ℕ). Moves gone [] [] s) (sym (consumed-nothing flags))
              Moves-none)
      | inr z ↦ rw (e, z) (receive_some-Moves n flags)
    ]
  ]
