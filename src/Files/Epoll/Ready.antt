-- ===== src/Files/Epoll/Ready.antt =====
-- What an epoll reports, and what it goes on watching.
use emulite.Base.{
  ℕ, ◌%◌, ◌≡◌, ◌↔◌, refl, ap, sym, ◌∙◌, Option, none, some, [], ◌∷◌, Bool, true, false, not, ◌&&◌,
  ◌==◌, if◌then◌else◌, arith, Bool-cases, eq_cases, inl, inr,
}
use mathlib.Core.Path.{subst}
use emulite.Base.Dict.{lookup, erase, lookup-erase_ne}
use emulite.Base.Keyed.{IsKeyed, lookup-erase_self, erase-IsKeyed}
use emulite.Files.Epoll.{Watch, Watched, is_same, is_due, ready_each, ready}

is_same_iff :
    (o : Option ℕ) (registered : ℕ) → (is_same o registered ≡ true) ↔ (o ≡ some registered)
is_same_iff none registered = (λ e. cc, λ e. cc)
is_same_iff (some handle) registered = (λ e. ground (arith, e), λ e. ground (arith, e))

module _ (handle_for : ℕ → Option ℕ) (can_read_handle : ℕ → Bool) where
  -- a watch whose descriptor still has its description
  abbrev pub is_live : ℕ → Watch → Bool
  is_live fd w = is_same (handle_for fd) w.handle

  abbrev report_of : ℕ → Option Watch → Option (ℕ × ℕ)
  report_of fd none = none
  report_of fd (some w) =
      if is_live fd w && is_due handle_for can_read_handle w then some (1, w.user_data) else none

  abbrev live_only : ℕ → Option Watch → Option Watch
  live_only fd none = none
  live_only fd (some w) = if is_live fd w then some w else none

  abbrev pub is_stale : ℕ → Option Watch → Bool
  is_stale fd none = false
  is_stale fd (some w) = not (is_live fd w)

  -- the entries behind the one of a descriptor report nothing of it
  report_behind :
      (fd k : ℕ) (items : Watched)
      → k ≡ fd
      → lookup k items ≡ none
      → report_of fd (lookup fd items) ≡ none
  report_behind fd k items same absent =
      let nothing : lookup fd items ≡ none = subst (λ (j : ℕ). lookup j items ≡ none) same absent in
      rw nothing refl

  ready_each_reports :
      (fd : ℕ) (items watched : Watched)
      → IsKeyed items
      → lookup fd (ready_each handle_for can_read_handle items watched).0
        ≡ report_of fd (lookup fd items)
  unfolding ready_each
  ready_each_reports fd [] watched u = refl
  ready_each_reports fd ((k, w) ∷ items) watched u =
      let out = ready_each_reports fd items watched u.1 in
      let without = ready_each_reports fd items (erase k watched) u.1 in
      elim (eq_cases k fd) [
        | inl same ↦
            let behind = report_behind fd k items same u.0 in
            let hit : (k == fd) ≡ true = ground (arith, same) in
            let to_fd : is_live k w ≡ is_live fd w = ap (λ (j : ℕ). is_live j w) same in
            elim (Bool-cases (is_live k w)) [
              | inl e ↦
                  let e' : is_live fd w ≡ true = sym to_fd ∙ e in
                  elim (Bool-cases (is_due handle_for can_read_handle w)) [
                    | inl f ↦ rw (e, hit, e', f) (rw hit refl)
                    | inr f ↦ rw (e, hit, e', f) (out ∙ behind)
                  ]
              | inr e ↦
                  let e' : is_live fd w ≡ false = sym to_fd ∙ e in
                  rw (e, hit, e') (without ∙ behind)
            ]
        | inr other ↦
            let miss : (k == fd) ≡ false = ground arith in
            elim (Bool-cases (is_live k w)) [
              | inl e ↦ elim (Bool-cases (is_due handle_for can_read_handle w)) [
                | inl f ↦ rw (e, f, miss) out
                | inr f ↦ rw (e, f, miss) out
              ]
              | inr e ↦ rw (e, miss) without
            ]
      ]

  ready_each_leaves :
      (fd : ℕ) (items watched : Watched)
      → IsKeyed items
      → IsKeyed watched
      → lookup fd (ready_each handle_for can_read_handle items watched).1
        ≡ (if is_stale fd (lookup fd items) then none else lookup fd watched)
  unfolding ready_each
  ready_each_leaves fd [] watched u v = refl
  ready_each_leaves fd ((k, w) ∷ items) watched u v =
      let left = ready_each_leaves fd items watched u.1 v in
      let without = ready_each_leaves fd items (erase k watched) u.1 (erase-IsKeyed k watched v) in
      elim (eq_cases k fd) [
        | inl same ↦
            let hit : (k == fd) ≡ true = ground (arith, same) in
            let nothing : lookup fd items ≡ none =
              subst (λ (j : ℕ). lookup j items ≡ none) same u.0 in
            let to_fd : is_live k w ≡ is_live fd w = ap (λ (j : ℕ). is_live j w) same in
            let gone : lookup fd (erase k watched) ≡ none =
              subst (λ (j : ℕ). lookup j (erase k watched) ≡ none) same
                (lookup-erase_self k watched v) in
            elim (Bool-cases (is_live k w)) [
              | inl e ↦
                  let e' : is_live fd w ≡ true = sym to_fd ∙ e in
                  rw (e, hit, e') (left ∙ rw nothing refl)
              | inr e ↦
                  let e' : is_live fd w ≡ false = sym to_fd ∙ e in
                  rw (e, hit, e') (without ∙ rw (nothing, gone) refl)
            ]
        | inr other ↦
            let miss : (k == fd) ≡ false = ground arith in
            let kept : lookup fd (erase k watched) ≡ lookup fd watched =
              lookup-erase_ne k fd watched other in
            elim (Bool-cases (is_live k w)) [
              | inl e ↦ rw (e, miss) left
              | inr e ↦ rw (e, miss) (without ∙ rw kept refl)
            ]
      ]

  stale_lem : (fd : ℕ) (o : Option Watch) → (if is_stale fd o then none else o) ≡ live_only fd o
  stale_lem fd none = refl
  stale_lem fd (some w) = elim (Bool-cases (is_live fd w)) [ inl e ↦ rw e refl | inr e ↦ rw e refl ]

  -- what `ready` is to report of a watch: bit 0 of its events is EPOLLIN, 1
  abbrev pub IsDue : ℕ → Option Watch → ℕ × ℕ → Type 0
  IsDue fd none report = ⊥
  IsDue fd (some w) (events, user_data) =
      (events ≡ 1)
      × (user_data ≡ w.user_data)
      × (w.events % 2 ≡ 1)
      × (handle_for fd ≡ some w.handle)
      × (can_read_handle w.handle ≡ true)

  -- what stays watched
  abbrev pub IsKept : ℕ → Option Watch → Watch → Type 0
  IsKept fd none kept = ⊥
  IsKept fd (some w) kept = (w ≡ kept) × (handle_for fd ≡ some w.handle)

  report_of-IsDue :
      (fd : ℕ) (o : Option Watch) (events user_data : ℕ)
      → (report_of fd o ≡ some (events, user_data)) ↔ IsDue fd o (events, user_data)
  report_of-IsDue fd none events user_data = (λ e. cc, λ e. absurd e)
  report_of-IsDue fd (some w) events user_data =
      elim (Bool-cases (is_live fd w && is_due handle_for can_read_handle w)) [
        | inl both ↦
            let same = is_same_iff (handle_for fd) w.handle in
            (
              λ e. (
                ground (arith, e, both),
                ground (arith, e, both),
                ground (arith, both),
                same.0 (ground (arith, both)),
                ground (arith, both),
              ),
              λ due. rw both (ground (arith, due)),
            )
        | inr either ↦
            let same = is_same_iff (handle_for fd) w.handle in
            (
              λ e. absurd (ground (arith, e, either)),
              λ due. absurd (ground (arith, due, either, same.1 due.3)),
            )
      ]

  live_only-IsKept :
      (fd : ℕ) (o : Option Watch) (kept : Watch) → (live_only fd o ≡ some kept) ↔ IsKept fd o kept
  live_only-IsKept fd none kept = (λ e. cc, λ e. absurd e)
  live_only-IsKept fd (some w) kept =
      let same = is_same_iff (handle_for fd) w.handle in
      elim (Bool-cases (is_live fd w)) [
        | inl live ↦ (λ e. (ground (arith, e, live), same.0 live), λ kept. rw live (ap some kept.0))
        | inr stale ↦ (
          λ e. absurd (ground (arith, e, stale)),
          λ kept. absurd (ground (arith, stale, same.1 kept.1)),
        )
      ]

  -- Of a table with different descriptors, `ready` reports events and data under a descriptor if and
  -- only if the events are EPOLLIN alone, the descriptor has a watch with that data and with EPOLLIN
  -- among its events, the descriptor still has the watch's description, and that can be read; the
  -- table left has a watch under a descriptor if and only if the table had it there and the
  -- descriptor still has the watch's description.
  pub ready_lem :
      (fd events user_data : ℕ) (w : Watch) (watched : Watched)
      → IsKeyed watched
      → ((lookup fd (ready handle_for can_read_handle watched).0 ≡ some (events, user_data))
          ↔ IsDue fd (lookup fd watched) (events, user_data))
        × ((lookup fd (ready handle_for can_read_handle watched).1 ≡ some w)
            ↔ IsKept fd (lookup fd watched) w)
  unfolding ready
  ready_lem fd events user_data w watched u =
      let reports = ready_each_reports fd watched watched u in
      let leaves = ready_each_leaves fd watched watched u u ∙ stale_lem fd (lookup fd watched) in
      rw (reports, leaves)
        (
          report_of-IsDue fd (lookup fd watched) events user_data,
          live_only-IsKept fd (lookup fd watched) w,
        )

  ready-IsKeyed_from :
      (items watched : Watched)
      → IsKeyed watched
      → IsKeyed (ready_each handle_for can_read_handle items watched).1
  unfolding ready_each
  ready-IsKeyed_from [] watched u = u
  ready-IsKeyed_from ((k, w) ∷ items) watched u = elim (Bool-cases (is_live k w)) [
    | inl e ↦ rw e (ready-IsKeyed_from items watched u)
    | inr e ↦ rw e (ready-IsKeyed_from items (erase k watched) (erase-IsKeyed k watched u))
  ]
