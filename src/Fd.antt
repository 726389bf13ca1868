-- ===== src/Fd.antt =====
-- The descriptor tables and pipes, src/user/syscall.cpp with include/LTOS/sched/process.hpp.
-- A process is a number, a pipe an index of `pipes`, a node and a file system mount a number.
pub mod Lookup
pub mod Table
pub mod Pipes
pub mod Io
mod Tests
use los_tac_os.Base.{
  ℕ, zero, suc, ◌+◌, ◌-◌, ◌^◌, Bool, true, false, Option, none, some, List, [], ltb, leb, ◌==◌,
  if◌then◌else◌, update,
}
use los_tac_os.Base.Int.{ℤ, pos, negsuc}

pub data FdType : Type 0 where
  fd_none fd_file fd_pipe fd_tty : FdType

pub record Pipe : Type 0 where
  pub buffer : ℕ → ℕ
  pub read_pos : ℕ
  pub write_pos : ℕ
  pub readers : ℤ
  pub writers : ℤ

-- `kind` is the field `type`.
pub record FdEntry : Type 0 where
  pub kind : FdType
  pub node : Option ℕ
  pub pipe : Option ℕ
  pub mount : Option ℕ
  pub fs_handle : Option ℕ
  pub offset : ℕ
  pub readable : Bool
  pub writable : Bool
  pub nonblock : Bool
  pub flags : ℕ

-- What `memset(entry, 0, sizeof(FdEntry))` leaves.
abbrev pub zeroed : FdEntry
zeroed = record {
  kind = fd_none;
  node = none;
  pipe = none;
  mount = none;
  fs_handle = none;
  offset = 0;
  readable = false;
  writable = false;
  nonblock = false;
  flags = 0;
}

abbrev pub zeroed_pipe : Pipe
zeroed_pipe = record {
  buffer = λ _. 0;
  read_pos = 0;
  write_pos = 0;
  readers = pos 0;
  writers = pos 0;
}

-- vfs::File: `content` is what private_data points to, `reader` the callback `read`.
pub record File : Type 0 where
  pub size : ℕ
  pub offset : ℕ
  pub content : Option (ℕ → ℕ)
  pub reader : Option ℕ

-- The fields of vfs::Node that the system calls on descriptors read.
pub record Inode : Type 0 where
  pub directory : Bool
  pub dev : Option ℕ
  pub file : Option File

-- `world` is the state of the drivers and of the heap.
pub record Sys (W : Type 0) : Type 0 where
  pub current : Option ℕ
  pub fds : ℕ → ℕ → FdEntry
  pub pipes : ℕ → Pipe
  pub pipe_used : ℕ → Bool
  pub inodes : ℕ → Inode
  pub world : W

-- A call returns a value, sleeps in `sti; hlt` before it tests again, or follows a null pointer.
pub data Outcome (W A : Type 0) : Type 0 where
  done : A → Sys W → Outcome W A
  waits : Outcome W A
  fault : Outcome W A

-- What the calls take from the drivers, the mounted file systems and the heap: the callbacks of
-- vfs::DevOps and fs::FileSystem, by the number of the device or the mount, `none` where the
-- pointer is null. A read returns its result and the bytes that it stored.
pub record Drivers (W : Type 0) : Type 0 where
  pub tty_write : List ℕ → W → ℕ × W
  pub tty_read : ℕ → W → (ℕ × List ℕ) × W
  pub fs_write : ℕ → Option (ℕ → List ℕ → W → ℕ × W)
  pub fs_read : ℕ → Option (ℕ → ℕ → W → (ℕ × List ℕ) × W)
  pub fs_close : ℕ → Option (ℕ → W → W)
  pub fs_lseek : ℕ → Option (ℕ → ℕ → ℤ → W → ℕ × W)
  pub dev_write : ℕ → Option (List ℕ → ℕ → W → ℕ × W)
  pub dev_read : ℕ → Option (ℕ → ℕ → W → (ℕ × List ℕ) × W)
  pub file_read : ℕ → File → ℕ → W → (ℕ × List ℕ × File) × W
  -- heap::kmalloc of so many bytes, with what stands in the new block, and heap::kfree.
  pub kmalloc : ℕ → W → Option ((ℕ → ℕ) × W)
  pub kfree : (ℕ → ℕ) → W → W

-- (uint64_t)-1
abbrev pub fail : ℕ
fail = 2 ^ 64 - 1

abbrev pub max_fds : ℕ
max_fds = 32

abbrev pub max_pipes : ℕ
max_pipes = 32

abbrev pub pipe_size : ℕ
pipe_size = 4096

abbrev pub is_free : FdType → Bool
is_free fd_none = true
is_free _ = false

abbrev pub is_pipe : FdType → Bool
is_pipe fd_pipe = true
is_pipe _ = false

-- Where a descriptor's entry lies: its process and its index in that process's table.
abbrev pub Slot : Type 0
Slot = ℕ × ℕ

module _ {W : Type 0} where
  abbrev pub entry_at : Slot → Sys W → FdEntry
  entry_at (p, n) s = s.fds p n

  abbrev pub set_entry : Slot → FdEntry → Sys W → Sys W
  set_entry (p, n) e s = record s { fds = update s.fds p (update (s.fds p) n e) }

  abbrev pub set_pipe : ℕ → Pipe → Sys W → Sys W
  set_pipe i p s = record s { pipes = update s.pipes i p }

  pub get_fd_entry : ℤ → Sys W → Option Slot
  get_fd_entry (negsuc n) s = none
  get_fd_entry (pos n) s =
      if leb max_fds n then none else elim s.current [ none ↦ none | some p ↦ some (p, n) ]

  -- get_fd_entry, and the test `entry->type == FD_NONE` that the calls make next.
  pub open_entry : ℤ → Sys W → Option Slot
  unfolding get_fd_entry
  open_entry fd s = elim (get_fd_entry fd s) [
    | none ↦ none
    | some slot ↦ if is_free (entry_at slot s).kind then none else some slot
  ]

  pub valid_fd : ℤ → Sys W → Bool
  unfolding get_fd_entry
  valid_fd fd s = elim (get_fd_entry fd s) [
    | none ↦ false
    | some slot ↦ if is_free (entry_at slot s).kind then false else true
  ]

-- The first free entry among `n` from `i` on.
pub first_free : ℕ → ℕ → (ℕ → FdEntry) → Option ℕ
first_free zero i t = none
first_free (suc n) i t =
    let rest = first_free n (i + 1) t in if is_free (t i).kind then some i else rest
