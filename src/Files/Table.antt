-- ===== src/Files/Table.antt =====
-- The descriptor table of src/emulite/android/android_file_system.py: `_fds`, and the calls that
-- change it. A description is known by its identity, a number that `fresh` hands out; `closed`
-- lists those whose own `close` was called, in order.
pub mod Lowest
pub mod Refs
pub mod Session
mod Tests
use emulite.Base.{
  ℕ, zero, suc, ◌+◌, ◌&&◌, Bool, true, false, Option, none, some, List, [], ◌∷◌, length, leb, ◌==◌,
  if◌then◌else◌,
}
use emulite.Base.Dict.{Dict, lookup, contains, insert, erase}
use emulite.Files.Answer.{Answer, count, failed, ebadf}

-- src/emulite/filesystem/file_descriptor.py
pub record FileDescriptor : Type 0 where
  pub handle : ℕ
  pub flags : ℕ

pub record Table : Type 0 where
  pub fds : Dict FileDescriptor
  pub closed : List ℕ
  pub fresh : ℕ

-- descriptors 0, 1 and 2 are the standard streams
unfoldable pub init : Table
init = record {
  fds =
      (0, record { handle = 0; flags = 0 })
      ∷ (1, record { handle = 1; flags = 0 })
      ∷ (2, record { handle = 2; flags = 0 })
      ∷ [];
  closed = [];
  fresh = 3;
}

-- `next(i for i in itertools.count(i) if i not in self._fds)`
unfoldable pub count_from : ℕ → ℕ → Dict FileDescriptor → ℕ
count_from zero i fds = i
count_from (suc fuel) i fds =
    let rest = count_from fuel (suc i) fds in if contains i fds then rest else i

unfoldable pub lowest_free : ℕ → Dict FileDescriptor → ℕ
unfolding count_from
lowest_free min_fd fds = count_from (length fds) min_fd fds

unfoldable pub install_at : ℕ → ℕ → ℕ → Table → Table
install_at fd handle flags t = record t {
  fds = insert fd (record { handle = handle; flags = flags }) t.fds;
}

-- `_install` of a description that was just built
unfoldable pub install : ℕ → Table → ℕ × Table
unfolding lowest_free install_at
install flags t =
    let fd = lowest_free 3 t.fds in
    (fd, record (install_at fd t.fresh flags t) { fresh = suc t.fresh })

-- how many entries share a description
abbrev pub refs : ℕ → Dict FileDescriptor → ℕ
refs handle [] = 0
refs handle ((_, d) ∷ fds) = (if d.handle == handle then 1 else 0) + refs handle fds

-- the end of `close`, with the entry popped
unfoldable pub drop_handle : ℕ → Table → Table
drop_handle handle t = if refs handle t.fds == 0 then record t { closed = handle ∷ t.closed } else t

unfoldable pub close : ℕ → Table → Answer × Table
unfolding drop_handle
close fd t = elim (lookup fd t.fds) [
  | none ↦ (failed ebadf, t)
  | some d ↦ (count 0, drop_handle d.handle (record t { fds = erase fd t.fds }))
]

-- `dup`, for a `min_fd` that is not negative
unfoldable pub dup : ℕ → ℕ → Table → Answer × Table
unfolding lowest_free install_at
dup fd min_fd t = elim (lookup fd t.fds) [
  | none ↦ (failed ebadf, t)
  | some d ↦ let new_fd = lowest_free min_fd t.fds in (count new_fd, install_at new_fd d.handle 0 t)
]

-- `FdFlag.FD_CLOEXEC`
abbrev pub fd_cloexec : ℕ
fd_cloexec = 1

unfoldable pub dup_to : ℕ → ℕ → Bool → Table → Answer × Table
unfolding close install_at
dup_to oldfd newfd close_on_exec t = elim (lookup oldfd t.fds) [
  | none ↦ (failed ebadf, t)
  | some d ↦ if oldfd == newfd then (count newfd, t) else (
    count newfd,
    install_at newfd d.handle (if close_on_exec then fd_cloexec else 0) (close newfd t).1,
  )
]

-- the list comprehension of `close_range`
unfoldable pub targets : ℕ → ℕ → Dict FileDescriptor → List ℕ
targets first last [] = []
targets first last ((fd, _) ∷ fds) =
    if leb first fd && leb fd last then fd ∷ targets first last fds else targets first last fds

unfoldable pub close_each : List ℕ → Table → Table
unfolding close
close_each [] t = t
close_each (fd ∷ rest) t = close_each rest (close fd t).1

unfoldable pub close_range : ℕ → ℕ → Table → ℕ × Table
unfolding targets close_each
close_range first last t = let fds = targets first last t.fds in (length fds, close_each fds t)
