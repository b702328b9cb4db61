-- ===== src/Files/Fcntl/Access.antt =====
-- fcntl: the access mode of a description stays, and the table conserves its descriptions.
use emulite.Base.{
  ℕ, ◌+◌, ◌-◌, ◌/◌, ◌%◌, ◌≤◌, ◌≡◌, refl, sym, ◌∙◌, Bool, List, [], ◌∷◌, arith, Option-cases,
  eq_cases, inl, inr,
}
use Prim.Native.Nat.{bit_and}
use emulite.Base.Bits.{clear_bits, bit_and_step, bit_and_le, bit_and_mask}
use emulite.Base.Dict.{lookup}
use emulite.Base.Keyed.{insert-IsKeyed}
use emulite.Files.Answer.{Answer, bytes, count, failed}
use emulite.Files.Table.{
  FileDescriptor, Table, close, drop_handle, dup, dup_to, close_each, fd_cloexec, install_at,
}
use emulite.Files.Table.Refs.{refs-replace}
use emulite.Files.Table.Session.{dup_call, after, IsConserved, after-IsConserved}
use emulite.Files.Fcntl.{
  OpenFiles, FcntlCmd, f_dupfd, f_getfd, f_setfd, f_getfl, f_setfl, f_getlk, f_setlk, f_setlkw,
  f_dupfd_cloexec, command, status_flags, o_accmode, file_fcntl, set_flags, set_oflags,
  mark_cloexec, descriptor_fcntl, fcntl,
}

low_clear : (a : ℕ) → bit_and a status_flags % 4 ≡ 0
low_clear a = omega (arith, bit_and_step a status_flags, bit_and_step (a / 2) (status_flags / 2))

-- F_SETFL leaves the access mode
f_setfl_access :
    (arg oflags : ℕ)
    → bit_and (clear_bits oflags status_flags + bit_and arg status_flags) o_accmode
      ≡ bit_and oflags o_accmode
unfolding clear_bits
f_setfl_access arg oflags =
    let new = oflags - bit_and oflags status_flags + bit_and arg status_flags in
    bit_and_mask 2 new
    ∙ omega (
      arith,
      low_clear arg,
      low_clear oflags,
      bit_and_le oflags oflags status_flags (omega arith),
    )
    ∙ sym (bit_and_mask 2 oflags)

set_flags-IsConserved :
    (fd flags : ℕ) (t : Table) → IsConserved t → IsConserved (set_flags fd flags t)
unfolding set_flags
set_flags-IsConserved fd flags t v = elim (Option-cases (lookup fd t.fds)) [
  | inl absent ↦ rw (absent, set_flags) v
  | inr (d, there) ↦
      let e : FileDescriptor = record { handle = d.handle; flags = flags } in
      rw (there, set_flags)
        (record {
          keyed = insert-IsKeyed fd e t.fds v.keyed;
          once = λ h. ground (arith, v.once h, refs-replace h fd d e t.fds there refl);
        })
]

-- no call but an open hands out a description
pub close-fresh : (fd : ℕ) (t : Table) → (close fd t).1.fresh ≡ t.fresh
unfolding close drop_handle
close-fresh fd t = ground arith

pub dup-fresh : (fd min_fd : ℕ) (t : Table) → (dup fd min_fd t).1.fresh ≡ t.fresh
unfolding dup install_at
dup-fresh fd min_fd t = ground arith

pub dup_to-fresh :
    (oldfd newfd : ℕ) (close_on_exec : Bool) (t : Table)
    → (dup_to oldfd newfd close_on_exec t).1.fresh ≡ t.fresh
unfolding dup_to install_at
dup_to-fresh oldfd newfd close_on_exec t = ground (arith, close-fresh newfd t)

pub close_each-fresh : (fds : List ℕ) (t : Table) → (close_each fds t).fresh ≡ t.fresh
unfolding close_each
close_each-fresh [] t = refl
close_each-fresh (fd ∷ fds) t = close_each-fresh fds (close fd t).1 ∙ close-fresh fd t

set_flags-fresh : (fd flags : ℕ) (t : Table) → (set_flags fd flags t).fresh ≡ t.fresh
unfolding set_flags
set_flags-fresh fd flags t = ground arith

-- the table after a call that answered
abbrev Kept : Table → Answer × Table → Type 0
Kept t (answer, t') = IsConserved t' × (t'.fresh ≡ t.fresh)

mark_cloexec-Kept : (t : Table) (r : Answer × Table) → Kept t r → Kept t (mark_cloexec r)
unfolding mark_cloexec
mark_cloexec-Kept t (bytes b, u) k = k
mark_cloexec-Kept t (failed e, u) k = k
mark_cloexec-Kept t (count fd, u) (v, same) =
    (set_flags-IsConserved fd fd_cloexec u v, set_flags-fresh fd fd_cloexec u ∙ same)

dup-Kept : (fd min_fd : ℕ) (t : Table) → IsConserved t → Kept t (dup fd min_fd t)
unfolding after
dup-Kept fd min_fd t v = (after-IsConserved (dup_call fd min_fd) t v, dup-fresh fd min_fd t)

-- from `s` to `s'` the table conserves its descriptions, and the description `h`, if it is already
-- there, is open for what it was
abbrev pub Holds : ℕ → OpenFiles → OpenFiles → Type 0
Holds h s s' =
    IsConserved s'.table
    × (s.table.fresh ≤ s'.table.fresh)
    × (bit_and (s'.oflags h) o_accmode ≡ bit_and (s.oflags h) o_accmode)

file_fcntl_access :
    (c : FcntlCmd) (arg oflags : ℕ)
    → bit_and (file_fcntl c arg oflags).1 o_accmode ≡ bit_and oflags o_accmode
unfolding file_fcntl
file_fcntl_access f_setfl arg oflags = f_setfl_access arg oflags
file_fcntl_access f_getfl arg oflags = refl
file_fcntl_access f_getlk arg oflags = refl
file_fcntl_access f_setlk arg oflags = refl
file_fcntl_access f_setlkw arg oflags = refl
file_fcntl_access f_dupfd arg oflags = refl
file_fcntl_access f_dupfd_cloexec arg oflags = refl
file_fcntl_access f_getfd arg oflags = refl
file_fcntl_access f_setfd arg oflags = refl

on_file :
    (h handle : ℕ) (c : FcntlCmd) (arg : ℕ) (s : OpenFiles)
    → IsConserved s.table
    → Holds h s
        (record s { oflags = set_oflags handle (file_fcntl c arg (s.oflags handle)).1 s.oflags })
on_file h handle c arg s v = elim (eq_cases h handle) [
  | inl same ↦
      let access = file_fcntl_access c arg (s.oflags handle) in rw same (ground (arith, v, access))
  | inr other ↦ (v, omega arith, ground arith)
]

pub on_table :
    (h : ℕ) (s : OpenFiles) (t : Table)
    → IsConserved t
    → t.fresh ≡ s.table.fresh
    → Holds h s (record s { table = t })
on_table h s t v same = (v, omega (arith, same), refl)

descriptor_fcntl-Holds :
    (h fd arg : ℕ) (d : FileDescriptor) (c : FcntlCmd) (s : OpenFiles)
    → IsConserved s.table
    → Holds h s (descriptor_fcntl fd d c arg s).1
unfolding descriptor_fcntl
descriptor_fcntl-Holds h fd arg d f_dupfd s v =
    let (w, same) = dup-Kept fd arg s.table v in on_table h s (dup fd arg s.table).1 w same
descriptor_fcntl-Holds h fd arg d f_dupfd_cloexec s v =
    let (w, same) = mark_cloexec-Kept s.table (dup fd arg s.table) (dup-Kept fd arg s.table v) in
    on_table h s (mark_cloexec (dup fd arg s.table)).1 w same
descriptor_fcntl-Holds h fd arg d f_getfd s v = on_table h s s.table v refl
descriptor_fcntl-Holds h fd arg d f_setfd s v =
    let flags = bit_and arg fd_cloexec in
    on_table h s (set_flags fd flags s.table) (set_flags-IsConserved fd flags s.table v)
      (set_flags-fresh fd flags s.table)
descriptor_fcntl-Holds h fd arg d f_getfl s v = on_file h d.handle f_getfl arg s v
descriptor_fcntl-Holds h fd arg d f_setfl s v = on_file h d.handle f_setfl arg s v
descriptor_fcntl-Holds h fd arg d f_getlk s v = on_file h d.handle f_getlk arg s v
descriptor_fcntl-Holds h fd arg d f_setlk s v = on_file h d.handle f_setlk arg s v
descriptor_fcntl-Holds h fd arg d f_setlkw s v = on_file h d.handle f_setlkw arg s v

pub fcntl-Holds :
    (h fd cmd arg : ℕ) (s : OpenFiles) → IsConserved s.table → Holds h s (fcntl fd cmd arg s).1
unfolding fcntl
fcntl-Holds h fd cmd arg s v = elim (Option-cases (lookup fd s.table.fds)) [
  | inl absent ↦ rw (absent, fcntl) (on_table h s s.table v refl)
  | inr (d, there) ↦ elim (Option-cases (command cmd)) [
    | inl unknown ↦ rw (there, unknown, fcntl) (on_table h s s.table v refl)
    | inr (c, e) ↦ rw (there, e, fcntl) (descriptor_fcntl-Holds h fd arg d c s v)
  ]
]
