-- ===== src/Files/Table/Session.antt =====
-- Any calls on the descriptor table, in any order, and what becomes of the descriptions.
use emulite.Base.{
  ℕ, ◌+◌, ◌≤◌, ◌≡◌, ◌≢◌, refl, ◌∙◌, min, Bool, none, some, List, [], ◌∷◌, arith, ltb, ◌==◌,
  if◌then◌else◌, Bool-cases, Option-cases, eq_cases, inl, inr,
}
use emulite.Base.Dict.{lookup, erase, lookup-insert, lookup-erase_ne}
use emulite.Files.Answer.{count}
use emulite.Files.Table.{
  FileDescriptor, Table, init, lowest_free, install_at, install, refs, drop_handle, close, dup,
  dup_to, close_each, close_range, targets, fd_cloexec,
}
use emulite.Files.Table.Lowest.{lowest_free_absent}
use emulite.Base.Keyed.{IsKeyed, lookup-erase_self, insert-IsKeyed, erase-IsKeyed}
use emulite.Files.Table.Refs.{refs-insert, refs-erase, refs-lookup}

pub data Call : Type 0 where
  open_call : ℕ → Call
  close_call : ℕ → Call
  dup_call : ℕ → ℕ → Call
  dup_to_call : ℕ → ℕ → Bool → Call
  close_range_call : ℕ → ℕ → Call

unfoldable pub after : Call → Table → Table
after (open_call flags) t = (install flags t).1
after (close_call fd) t = (close fd t).1
after (dup_call fd min_fd) t = (dup fd min_fd t).1
after (dup_to_call oldfd newfd close_on_exec) t = (dup_to oldfd newfd close_on_exec t).1
after (close_range_call first last) t = (close_range first last t).1

unfoldable pub run : List Call → Table → Table
unfolding after
run [] t = t
run (c ∷ cs) t = run cs (after c t)

-- how often a description was closed
abbrev pub closings : ℕ → List ℕ → ℕ
closings h [] = 0
closings h (c ∷ cs) = (if c == h then 1 else 0) + closings h cs

-- Each description handed out so far is referred to and was never closed, or is not referred to
-- and was closed once; no other description occurs.
pub record IsConserved (t : Table) : Type 0 where
  pub keyed : IsKeyed t.fds
  pub once : (h : ℕ) → min 1 (refs h t.fds) + closings h t.closed ≡ (if ltb h t.fresh then 1 else 0)

install-IsConserved : (flags : ℕ) (t : Table) → IsConserved t → IsConserved (install flags t).1
unfolding install install_at
install-IsConserved flags t v =
    let fd = lowest_free 3 t.fds in
    let d : FileDescriptor = record { handle = t.fresh; flags = flags } in
    let free = lowest_free_absent 3 t.fds in
    record {
      keyed = insert-IsKeyed fd d t.fds v.keyed;
      once = λ h. ground (arith, v.once h, refs-insert h fd d t.fds free);
    }

-- one more entry for a description that has one
share-IsConserved :
    (fd flags : ℕ) (d : FileDescriptor) (t : Table)
    → IsConserved t
    → lookup fd t.fds ≡ none
    → 1 ≤ refs d.handle t.fds
    → IsConserved (install_at fd d.handle flags t)
unfolding install_at
share-IsConserved fd flags d t v free shared =
    let e : FileDescriptor = record { handle = d.handle; flags = flags } in
    record {
      keyed = insert-IsKeyed fd e t.fds v.keyed;
      once = λ h. elim (eq_cases h d.handle) [
        | inl same ↦
            rw same (ground (arith, v.once d.handle, shared, refs-insert d.handle fd e t.fds free))
        | inr other ↦ ground (arith, v.once h, refs-insert h fd e t.fds free)
      ];
    }

close-IsConserved : (fd : ℕ) (t : Table) → IsConserved t → IsConserved (close fd t).1
unfolding close drop_handle
close-IsConserved fd t v = elim (Option-cases (lookup fd t.fds)) [
  | inl absent ↦ rw (absent, close) v
  | inr (d, there) ↦
      rw (there, close)
        (elim (Bool-cases (refs d.handle (erase fd t.fds) == 0)) [
          | inl last ↦
              rw (last, close)
                (record {
                  keyed = erase-IsKeyed fd t.fds v.keyed;
                  once = λ h. elim (eq_cases h d.handle) [
                    | inl same ↦ rw same (
                        ground (arith, v.once d.handle, refs-erase d.handle fd d t.fds there, last))
                    | inr other ↦ ground (arith, v.once h, refs-erase h fd d t.fds there)
                  ];
                })
          | inr others ↦
              rw (others, close)
                (record {
                  keyed = erase-IsKeyed fd t.fds v.keyed;
                  once = λ h. elim (eq_cases h d.handle) [
                    | inl same ↦ rw same (
                        ground
                          (arith, v.once d.handle, refs-erase d.handle fd d t.fds there, others))
                    | inr other ↦ ground (arith, v.once h, refs-erase h fd d t.fds there)
                  ];
                })
        ])
]

-- the table after `close`, for the entries that it does not touch and the one it does
lookup-close : (fd k : ℕ) (t : Table) → k ≢ fd → lookup k (close fd t).1.fds ≡ lookup k t.fds
unfolding close drop_handle
lookup-close fd k t n = elim (Option-cases (lookup fd t.fds)) [
  | inl absent ↦ rw (absent, close) refl
  | inr (d, there) ↦
      rw (there, close)
        (elim (Bool-cases (refs d.handle (erase fd t.fds) == 0)) [
          | inl last ↦ rw (last, close) (lookup-erase_ne fd k t.fds (λ p. n (ground arith)))
          | inr others ↦ rw (others, close) (lookup-erase_ne fd k t.fds (λ p. n (ground arith)))
        ])
]

close_gone : (fd : ℕ) (t : Table) → IsConserved t → lookup fd (close fd t).1.fds ≡ none
unfolding close drop_handle
close_gone fd t v = elim (Option-cases (lookup fd t.fds)) [
  | inl absent ↦ rw (absent, close) absent
  | inr (d, there) ↦
      rw (there, close)
        (elim (Bool-cases (refs d.handle (erase fd t.fds) == 0)) [
          | inl last ↦ rw (last, close) (lookup-erase_self fd t.fds v.keyed)
          | inr others ↦ rw (others, close) (lookup-erase_self fd t.fds v.keyed)
        ])
]

dup-IsConserved : (fd min_fd : ℕ) (t : Table) → IsConserved t → IsConserved (dup fd min_fd t).1
unfolding dup
dup-IsConserved fd min_fd t v = elim (Option-cases (lookup fd t.fds)) [
  | inl absent ↦ rw (absent, dup) v
  | inr (d, there) ↦
      rw (there, dup)
        (share-IsConserved (lowest_free min_fd t.fds) 0 d t v (lowest_free_absent min_fd t.fds)
          (refs-lookup fd d t.fds there))
]

dup_to-IsConserved :
    (oldfd newfd : ℕ) (close_on_exec : Bool) (t : Table)
    → IsConserved t
    → IsConserved (dup_to oldfd newfd close_on_exec t).1
unfolding dup_to
dup_to-IsConserved oldfd newfd close_on_exec t v = elim (Option-cases (lookup oldfd t.fds)) [
  | inl absent ↦ rw (absent, dup_to) v
  | inr (d, there) ↦
      rw (there, dup_to)
        (elim (Bool-cases (oldfd == newfd)) [
          | inl same ↦ rw (same, dup_to) v
          | inr other ↦
              let left : lookup oldfd (close newfd t).1.fds ≡ some d =
                lookup-close newfd oldfd t (λ p. ground arith) ∙ there in
              rw (other, dup_to)
                (share-IsConserved newfd (if close_on_exec then fd_cloexec else 0) d
                  (close newfd t).1 (close-IsConserved newfd t v) (close_gone newfd t v)
                  (refs-lookup oldfd d (close newfd t).1.fds left))
        ])
]

close_each-IsConserved : (fds : List ℕ) (t : Table) → IsConserved t → IsConserved (close_each fds t)
unfolding close_each
close_each-IsConserved [] t v = v
close_each-IsConserved (fd ∷ fds) t v =
    close_each-IsConserved fds (close fd t).1 (close-IsConserved fd t v)

pub after-IsConserved : (c : Call) (t : Table) → IsConserved t → IsConserved (after c t)
unfolding after close_range
after-IsConserved (open_call flags) t v = install-IsConserved flags t v
after-IsConserved (close_call fd) t v = close-IsConserved fd t v
after-IsConserved (dup_call fd min_fd) t v = dup-IsConserved fd min_fd t v
after-IsConserved (dup_to_call oldfd newfd close_on_exec) t v =
    dup_to-IsConserved oldfd newfd close_on_exec t v
after-IsConserved (close_range_call first last) t v =
    close_each-IsConserved (targets first last t.fds) t v

run_from-IsConserved : (cs : List Call) (t : Table) → IsConserved t → IsConserved (run cs t)
unfolding run
run_from-IsConserved [] t v = v
run_from-IsConserved (c ∷ cs) t v = run_from-IsConserved cs (after c t) (after-IsConserved c t v)

init-IsConserved : IsConserved init
unfolding init
init-IsConserved = record { keyed = (refl, (refl, (refl, tt))); once = λ h. ground arith }

-- Whatever is called on the descriptor table of a new process, no descriptor stands twice in it;
-- each description that was handed out is referred to and was never closed, or is referred to no
-- more and was closed exactly once.
pub run-IsConserved : (cs : List Call) → IsConserved (run cs init)
run-IsConserved cs = run_from-IsConserved cs init init-IsConserved

-- In a table that conserves its descriptions, `dup_to` of a descriptor that is in use answers
-- `newfd` and makes it a descriptor of the same description, with the flag asked for, or its own
-- where the two are one; every descriptor but `newfd` keeps its entry.
pub dup_to-Shares :
    (oldfd newfd k : ℕ) (close_on_exec : Bool) (d : FileDescriptor) (t : Table)
    → IsConserved t
    → lookup oldfd t.fds ≡ some d
    → k ≢ newfd
    → let (answer, t') = dup_to oldfd newfd close_on_exec t in
      (answer ≡ count newfd)
      × (lookup newfd t'.fds
          ≡ some (
              if oldfd == newfd
              then d
              else record { handle = d.handle; flags = if close_on_exec then fd_cloexec else 0 }))
      × (lookup k t'.fds ≡ lookup k t.fds)
unfolding dup_to install_at
dup_to-Shares oldfd newfd k close_on_exec d t v there n = elim (Bool-cases (oldfd == newfd)) [
  | inl same ↦
      let e : newfd ≡ oldfd = ground arith in rw (there, same, dup_to) (refl, rw e there, refl)
  | inr other ↦
      let fds = (close newfd t).1.fds in
      let entry : FileDescriptor = record {
        handle = d.handle;
        flags = if close_on_exec then fd_cloexec else 0;
      } in
      rw (there, other, dup_to)
        (
          refl,
          ground (arith, lookup-insert newfd newfd entry fds),
          ground (arith, lookup-insert newfd k entry fds, lookup-close newfd k t n),
        )
]
