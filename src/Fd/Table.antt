-- ===== src/Fd/Table.antt =====
-- The calls of src/user/syscall.cpp that move entries of a descriptor table: alloc_fd, close, dup,
-- dup2, fcntl, the closing of a whole table at exit, and the copy of a table by fork
-- (sched::clone, src/kernel/sched/scheduler.cpp).
pub mod Count
pub mod Refs
pub mod Calls
pub mod Dup
pub mod Exit
pub mod Fork
use Prim.Native.Nat.{bit_and}
use los_tac_os.Base.{
  ℕ, zero, suc, ◌+◌, ◌-◌, ◌%◌, ◌^◌, Bool, true, false, not, ◌&&◌, Option, none, some, ltb, leb,
  ◌==◌, if◌then◌else◌, update,
}
use los_tac_os.Base.Int.{ℤ, pos, negsuc, inc, dec, is_zero, le_zero, int32}
use los_tac_os.Fd.{
  FdType, fd_none, fd_file, FdEntry, zeroed, Pipe, Sys, Drivers, Outcome, done, fault, Slot,
  entry_at, set_entry, set_pipe, open_entry, get_fd_entry, first_free, fail, max_fds, is_free,
  is_pipe,
}

-- `p->readers--` and `p->writers--` as the entry's flags say, or `++`.
pub drop_end : FdEntry → Pipe → Pipe
drop_end e q = record q {
  readers = if e.readable then dec q.readers else q.readers;
  writers = if e.writable then dec q.writers else q.writers;
}

pub add_end : FdEntry → Pipe → Pipe
add_end e q = record q {
  readers = if e.readable then inc q.readers else q.readers;
  writers = if e.writable then inc q.writers else q.writers;
}

-- An `int` widened to 64 bits.
abbrev sign_extend : ℕ → ℕ
sign_extend x = if ltb x (2 ^ 31) then x else x + (2 ^ 64 - 2 ^ 32)

module _ {W : Type 0} where
  -- The node of the new descriptor; `none` is the null pointer.
  pub alloc_fd : Option ℕ → Sys W → Option ℕ × Sys W
  alloc_fd node s = elim s.current [
    | none ↦ (none, s)
    | some p ↦ elim (first_free (max_fds - 3) 3 (s.fds p)) [
      | none ↦ (none, s)
      | some n ↦ (
        some n,
        set_entry (p, n)
            (record zeroed { node = node; kind = elim node [ none ↦ fd_none | some _ ↦ fd_file ] })
            s,
      )
    ]
  ]

  -- The end of a pipe goes: the counters, and the pipe's slot where both are 0.
  pub release_end : FdEntry → ℕ → Sys W → Sys W
  release_end e i s =
      let q = drop_end e (s.pipes i) in
      record s {
        pipes = update s.pipes i q;
        pipe_used =
            if is_zero q.readers && is_zero q.writers
            then update s.pipe_used i false
            else s.pipe_used;
      }

  -- The variant of sys_close_all, which tests `<= 0`.
  pub release_end_le : FdEntry → ℕ → Sys W → Sys W
  release_end_le e i s =
      let q = drop_end e (s.pipes i) in
      record s {
        pipes = update s.pipes i q;
        pipe_used =
            if le_zero q.readers && le_zero q.writers
            then update s.pipe_used i false
            else s.pipe_used;
      }

  -- Another end of the same pipe: what dup, dup2 and clone do for a pipe's entry.
  pub share_end : FdEntry → Sys W → Sys W
  share_end e s =
      if is_pipe e.kind
      then elim e.pipe [ none ↦ s | some i ↦ set_pipe i (add_end e (s.pipes i)) s ]
      else s

  pub close_handle : Drivers W → FdEntry → Sys W → Sys W
  close_handle d e s = elim e.mount [
    | none ↦ s
    | some m ↦ elim e.fs_handle [
      | none ↦ s
      | some h ↦ elim (d.fs_close m) [
        | none ↦ s
        | some close ↦ record s { world = close h s.world }
      ]
    ]
  ]

  -- The part of sys_close after the file system's close.
  pub close_slot : Slot → FdEntry → Sys W → Outcome W ℕ
  unfolding release_end
  close_slot slot e s =
      if is_pipe e.kind
      then elim e.pipe [
        | none ↦ fault
        | some i ↦ done 0 (set_entry slot zeroed (release_end e i s))
      ]
      else done 0 (set_entry slot zeroed s)

  pub sys_close : Drivers W → ℕ → Sys W → Outcome W ℕ
  sys_close d a s = elim (open_entry (int32 a) s) [
    | none ↦ done fail s
    | some slot ↦ close_slot slot (entry_at slot s) (close_handle d (entry_at slot s) s)
  ]

  pub close_entry : Drivers W → Slot → Sys W → Sys W
  close_entry d slot s =
      let e = entry_at slot s in
      if is_free e.kind
      then s
      else (if is_pipe e.kind
          then elim e.pipe [
            | none ↦ set_entry slot zeroed (close_handle d e s)
            | some i ↦ set_entry slot zeroed (release_end_le e i s)
          ]
          else set_entry slot zeroed (close_handle d e s))

  -- The loop of sys_close_all over the `n` descriptors of process `p` from `i` on.
  pub close_all_loop : Drivers W → ℕ → ℕ → ℕ → Sys W → Sys W
  close_all_loop d p zero i s = s
  close_all_loop d p (suc n) i s = close_all_loop d p n (i + 1) (close_entry d (p, i) s)

  pub sys_close_all : Drivers W → ℕ → Sys W → Sys W
  sys_close_all d p s = close_all_loop d p max_fds 0 s

  pub sys_dup : ℕ → Sys W → ℕ × Sys W
  sys_dup a s = elim (open_entry (int32 a) s) [
    | none ↦ (fail, s)
    | some (p, old) ↦ elim (first_free max_fds 0 (s.fds p)) [
      | none ↦ (fail, s)
      | some n ↦ let e = s.fds p old in (n, share_end e (set_entry (p, n) e s))
    ]
  ]

  pub dup2_to : Slot → ℤ → Sys W → ℕ × Sys W
  dup2_to slot (negsuc n) s = (fail, s)
  dup2_to (p, old) (pos n) s =
      let e = s.fds p old in
      if leb max_fds n then (fail, s) else (n, share_end e (set_entry (p, n) e s))

  pub sys_dup2 : ℕ → ℕ → Sys W → ℕ × Sys W
  sys_dup2 a b s = elim (open_entry (int32 a) s) [
    | none ↦ (fail, s)
    | some slot ↦ dup2_to slot (int32 b) s
  ]

  -- F_DUPFD and F_DUPFD_CLOEXEC: the entry is copied as it stands.
  unfoldable pub dup_from : Slot → ℤ → Sys W → ℕ × Sys W
  dup_from slot (negsuc n) s = (fail, s)
  dup_from (p, old) (pos m) s =
      if leb max_fds m then (fail, s) else elim (first_free (max_fds - m) m (s.fds p)) [
        | none ↦ (fail, s)
        | some n ↦ (n, set_entry (p, n) (s.fds p old) s)
      ]

  pub fcntl_on : Slot → (cmd arg : ℕ) → Sys W → ℕ × Sys W
  fcntl_on slot cmd arg s =
      let e = entry_at slot s in
      if cmd == 0
      then dup_from slot (int32 arg) s
      else if cmd == 1
      then (sign_extend e.flags, s)
      else if cmd == 2
      then (0, set_entry slot (record e { flags = arg % 2 ^ 32 }) s)
      else if cmd == 3
      then ((if e.nonblock then 0x800 else 0), s)
      else if cmd == 4
      then (0, set_entry slot (record e { nonblock = not (bit_and arg 0x800 == 0) }) s)
      else if cmd == 1030
      then dup_from slot (int32 arg) s
      else (0, s)

  -- The command is compared as a 32-bit pattern.
  pub sys_fcntl : (a b c : ℕ) → Sys W → ℕ × Sys W
  sys_fcntl a b c s = elim (open_entry (int32 a) s) [
    | none ↦ (fail, s)
    | some slot ↦ fcntl_on slot (b % 2 ^ 32) c s
  ]

  -- The loop of sched::clone over the copied table: another end for every pipe entry.
  pub share_loop : ℕ → ℕ → (ℕ → FdEntry) → Sys W → Sys W
  share_loop zero i t s = s
  share_loop (suc n) i t s = share_loop n (i + 1) t (share_end (t i) s)

  -- memcpy(child->fds, parent->fds), and that loop.
  pub clone_fds : (parent child : ℕ) → Sys W → Sys W
  clone_fds parent child s =
      share_loop max_fds 0 (s.fds parent) (record s { fds = update s.fds child (s.fds parent) })
