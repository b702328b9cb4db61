-- ===== src/Files/Socket/Tests.antt =====
-- The theorem on socket pairs, at a dialogue that one end leaves.
use emulite.Base.{ℕ, ◌≡◌, refl, Bool, true, false, List, [], ◌∷◌, ◌++◌, some, arith}
use emulite.Base.Int.{pos}
use emulite.Files.Socket.{
  Sockets, unconnected, sendto, recvfrom, close, receive_some, socketpair, connect,
}
use emulite.Files.Socket.Session.{
  Call, send, receive, shut, connecting, run, fresh, IsFlowing, run-IsFlowing,
}

abbrev nothing_else : Sockets
nothing_else = λ (i : ℕ). unconnected

-- the left end sends, peeks and closes; the right end reads in two parts, and sends too late
abbrev dialogue : List (Bool × Call)
dialogue =
    (true, send (1 ∷ 2 ∷ 3 ∷ []))
    ∷ (false, receive (pos 2) 2)
    ∷ (false, receive (pos 2) 0)
    ∷ (true, shut)
    ∷ (false, receive (pos 9) 0)
    ∷ (false, send (7 ∷ []))
    ∷ []

-- the left end sends to a handler that doubles what it gets, and the right end to the left one
abbrev served : List (Bool × Call)
served =
    (true, connecting (some (λ (l : List ℕ). l ++ l)) false)
    ∷ (true, send (4 ∷ []))
    ∷ (false, send (5 ∷ []))
    ∷ (true, receive (pos 9) 0)
    ∷ []

run-IsFlowing_example : IsFlowing 5 6 (run 5 6 dialogue (fresh 5 6 nothing_else))
run-IsFlowing_example = run-IsFlowing 5 6 dialogue nothing_else (λ e. ground arith)

served_test : (run 5 6 served (fresh 5 6 nothing_else)).left_got ≡ 4 ∷ 4 ∷ 5 ∷ []
unfolding sendto recvfrom receive_some connect socketpair
served_test = refl

right_got_test : (run 5 6 dialogue (fresh 5 6 nothing_else)).right_got ≡ 1 ∷ 2 ∷ 3 ∷ []
unfolding sendto recvfrom receive_some close socketpair
right_got_test = refl

left_due_test : (run 5 6 dialogue (fresh 5 6 nothing_else)).left_due ≡ []
unfolding sendto recvfrom receive_some close socketpair
left_due_test = refl
