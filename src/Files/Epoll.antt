-- ===== src/Files/Epoll.antt =====
-- src/emulite/android/io/epoll_io.py, EpollIO: the descriptors that an epoll watches. A description
-- is its identity; which description a descriptor has now, and whether one can be read, are
-- arguments.
pub mod Ready
mod Tests
use emulite.Base.{
  ℕ, ◌%◌, Option, none, some, List, [], ◌∷◌, Bool, true, false, ◌&&◌, ◌==◌, if◌then◌else◌, is_empty,
  not,
}
use emulite.Base.Dict.{Dict, lookup, contains, insert, erase}

pub data ControlOperation : Type 0 where
  op_add op_delete op_modify : ControlOperation

-- (handle, events, data)
pub record Watch : Type 0 where
  pub handle : ℕ
  pub events : ℕ
  pub user_data : ℕ

abbrev pub Watched : Type 0
Watched = Dict Watch

-- 0, -EEXIST or -ENOENT
pub data Controlled : Type 0 where
  done eexist enoent : Controlled

unfoldable pub control : ControlOperation → ℕ → Watch → Watched → Controlled × Watched
control op_add fd w watched =
    if contains fd watched then (eexist, watched) else (done, insert fd w watched)
control op_delete fd w watched =
    if contains fd watched then (done, erase fd watched) else (enoent, watched)
control op_modify fd w watched =
    if contains fd watched then (done, insert fd w watched) else (enoent, watched)

-- `handle is registered`
abbrev pub is_same : Option ℕ → ℕ → Bool
is_same none registered = false
is_same (some handle) registered = handle == registered

module _ (handle_for : ℕ → Option ℕ) (can_read_handle : ℕ → Bool) where
  -- events & EPOLLIN and handle.can_read()
  abbrev pub is_due : Watch → Bool
  is_due w = (w.events % 2 == 1) && can_read_handle w.handle

  -- the loop over the items; what is ready is a descriptor with its events and data
  unfoldable pub ready_each : Watched → Watched → Dict (ℕ × ℕ) × Watched
  ready_each [] watched = ([], watched)
  ready_each ((fd, w) ∷ items) watched =
      let without = ready_each items (erase fd watched) in
      let (out, left) = ready_each items watched in
      if is_same (handle_for fd) w.handle
      then (if is_due w then (fd, (1, w.user_data)) ∷ out else out, left)
      else without

  unfoldable pub ready : Watched → Dict (ℕ × ℕ) × Watched
  ready watched = ready_each watched watched

  unfoldable pub can_read : Watched → Bool × Watched
  can_read watched = let (out, left) = ready watched in (not (is_empty out), left)
