-- ===== src/Files/Socket.antt =====
-- src/emulite/android/io/socket_io.py, SocketIO: sockets that deliver into each other's inbox. A
-- socket stands for itself by its identity. The domain, the type and the path are left out: no
-- modelled call reads them.
pub mod Pairs
pub mod Flow
pub mod Session
mod Tests
use emulite.Base.{
  ℕ, ◌+◌, min, Bool, true, false, not, ◌&&◌, ◌||◌, Option, none, some, List, [], ◌∷◌, ◌++◌, length,
  take, drop, is_empty, ◌==◌, if◌then◌else◌,
}
use Prim.Native.Nat.{bit_and}
use emulite.Base.Int.{ℤ, pos, negsuc}
use emulite.Files.Answer.{
  Answer, bytes, count, failed, ebadf, eagain, einval, epipe, econnrefused, max_rw,
}

pub record SocketIo : Type 0 where
  pub peer : Option ℕ
  pub handler : Option (List ℕ → List ℕ)
  pub inbox : List ℕ
  pub peer_closed : Bool
  pub closed : Bool

-- the constructor
abbrev pub unconnected : SocketIo
unconnected = record {
  peer = none;
  handler = none;
  inbox = [];
  peer_closed = false;
  closed = false;
}

-- every socket that there is, by its identity
abbrev pub Sockets : Type 0
Sockets = ℕ → SocketIo

abbrev pub update : ℕ → SocketIo → Sockets → Sockets
update i socket s = λ (j : ℕ). if j == i then socket else s j

unfoldable pub deliver : ℕ → List ℕ → Sockets → Sockets
deliver i data' s =
    if (s i).closed
    then s
    else update i (record (s i) { inbox = (s i).inbox ++ take max_rw data' }) s

-- `if self.handler is not None`, `elif self.peer is not None`
unfoldable pub send_on :
    Option (List ℕ → List ℕ) → Option ℕ → ℕ → List ℕ → Sockets → Answer × Sockets
unfolding deliver
send_on (some handler) peer i data' s =
    let reply = handler data' in
    (
      count (length data'),
      if is_empty reply
          then s
          else update i (record (s i) { inbox = (s i).inbox ++ take max_rw reply }) s,
    )
send_on none none i data' s = (count (length data'), s)
send_on none (some peer) i data' s =
    if (s peer).closed then (failed epipe, s) else (count (length data'), deliver peer data' s)

unfoldable pub sendto : ℕ → List ℕ → Sockets → Answer × Sockets
unfolding send_on
sendto i data' s =
    if (s i).closed
    then (failed ebadf, s)
    else if (s i).peer_closed
    then (failed epipe, s)
    else send_on (s i).handler (s i).peer i (take max_rw data') s

-- `flags & 0x2`, MSG_PEEK
abbrev pub is_peek : ℕ → Bool
is_peek flags = not (bit_and flags 2 == 0)

-- `recvfrom` once `count` is known to be positive
unfoldable pub receive_some : ℕ → ℕ → ℕ → Sockets → Answer × Sockets
receive_some i n flags s =
    if is_empty (s i).inbox
    then ((if (s i).peer_closed then bytes [] else failed eagain), s)
    else (let chunk = take (min n max_rw) (s i).inbox in
        (
          bytes chunk,
          if is_peek flags
              then s
              else update i (record (s i) { inbox = drop (length chunk) (s i).inbox }) s,
        ))

unfoldable pub recvfrom : ℕ → ℤ → ℕ → Sockets → Answer × Sockets
recvfrom i n flags s = if (s i).closed then (failed ebadf, s) else elim n [
  | negsuc _ ↦ (failed einval, s)
  | pos n ↦ if n == 0 then (bytes [], s) else receive_some i n flags s
]

abbrev pub read : ℕ → ℤ → Sockets → Answer × Sockets
read i n s = recvfrom i n 0 s

abbrev pub write : ℕ → List ℕ → Sockets → Answer × Sockets
write i data' s = sendto i data' s

unfoldable pub can_read : ℕ → Sockets → Bool
can_read i s = not (is_empty (s i).inbox) || (s i).peer_closed

-- `if self.peer is not None` of `close`
unfoldable pub part_from : Option ℕ → ℕ → Sockets → Sockets
part_from none i s = s
part_from (some peer) i s =
    let told = update peer (record (s peer) { peer_closed = true; peer = none }) s in
    update i (record (told i) { peer = none }) told

unfoldable pub close : ℕ → Sockets → Sockets
unfolding part_from
close i s =
    if (s i).closed then s else part_from (s i).peer i (update i (record (s i) { closed = true }) s)

-- `connect` of src/emulite/android/android_file_system.py on a descriptor of the socket: the handler
-- that is registered for the path, and whether the path begins with "/dev/socket/"
unfoldable pub connect : Option (List ℕ → List ℕ) → Bool → ℕ → Sockets → Answer × Sockets
connect (some handler) known i s = (count 0, update i (record (s i) { handler = some handler }) s)
connect none true i s = (count 0, update i (record (s i) { handler = none }) s)
connect none false i s = (failed econnrefused, s)

-- the two ends that `socketpair` of src/emulite/android/android_file_system.py makes
unfoldable pub socketpair : ℕ → ℕ → Sockets → Sockets
socketpair left right s =
    let fresh = update right unconnected (update left unconnected s) in
    let one = update left (record (fresh left) { peer = some right }) fresh in
    update right (record (one right) { peer = some left }) one
