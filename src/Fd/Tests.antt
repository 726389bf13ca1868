-- ===== src/Fd/Tests.antt =====
-- The descriptor calls of src/user/syscall.cpp on a concrete state.
use los_tac_os.Base.{
  ℕ, ◌≡◌, ◌⊎◌, refl, true, false, none, some, [], ◌∷◌, ◌==◌, if◌then◌else◌, arith, update, length,
}
use los_tac_os.Base.Int.{pos, int32}
use los_tac_os.Fd.{
  fd_file, fd_pipe, Pipe, FdEntry, zeroed, zeroed_pipe, Sys, done, Drivers, fail, max_fds, Slot,
  get_fd_entry, open_entry,
}
use los_tac_os.Fd.Table.{sys_close, sys_close_all, sys_dup2, clone_fds}
use los_tac_os.Fd.Table.Count.{count_row, count_all}
use los_tac_os.Fd.Table.Refs.{Inv}
use los_tac_os.Fd.Table.Calls.{Closed, sys_close-Closed}
use los_tac_os.Fd.Table.Dup.{sys_dup2_leaks}
use los_tac_os.Fd.Table.Exit.{Exited, sys_close_all-Exited}
use los_tac_os.Fd.Table.Fork.{clone_fds-Inv}
use los_tac_os.Fd.Pipes.{pipe_put, pipe_get, pipe_rewind, sys_pipe}
use los_tac_os.Fd.Pipes.Create.{Piped, sys_pipe-Piped}
use los_tac_os.Fd.Pipes.Fifo.{IsPipe, Put, Got, pipe_put-Put, pipe_read-Got}
use los_tac_os.Fd.Io.{write_file}
use los_tac_os.Fd.Io.Files.{Stored, Exhausted, write_file-Stored}

-- Nothing but a heap that has a block of zeros for every request.
abbrev idle : Drivers ℕ
idle = record {
  tty_write = λ bs w. (length bs, w);
  tty_read = λ n w. ((0, []), w);
  fs_write = λ _. none;
  fs_read = λ _. none;
  fs_close = λ _. none;
  fs_lseek = λ _. none;
  dev_write = λ _. none;
  dev_read = λ _. none;
  file_read = λ r f n w. ((0, [], f), w);
  kmalloc = λ n w. some ((λ _. 0), w);
  kfree = λ b w. w;
}

abbrev reading : FdEntry
reading = record zeroed { kind = fd_pipe; pipe = some 0; readable = true }

abbrev writing : FdEntry
writing = record zeroed { kind = fd_pipe; pipe = some 0; writable = true }

abbrev plain_file : FdEntry
plain_file = record zeroed { kind = fd_file; node = some 7; readable = true; writable = true }

abbrev table : ℕ → FdEntry
table n =
    if n == 3 then reading else if n == 4 then writing else if n == 5 then plain_file else zeroed

-- Of two processes the first has the two ends of pipe 0 and a file.
abbrev two : Sys ℕ
two = record {
  current = some 0;
  fds = λ p n. if p == 0 then table n else zeroed;
  pipes =
      λ i. if i == 0 then record zeroed_pipe { readers = pos 1; writers = pos 1 } else zeroed_pipe;
  pipe_used = λ i. i == 0;
  inodes = λ i. record { directory = false; dev = none; file = none };
  world = 0;
}

two-Inv : Inv 2 two
unfolding count_row count_all
two-Inv = record {
  owner = λ p e. ground arith;
  readers = λ i. ground arith;
  writers = λ i. ground arith;
  used = λ i. ground arith;
  real = λ p n h. ground arith;
}

sys_close-Closed_example :
    ((open_entry (int32 4) two ≡ none) × (sys_close idle 4 two ≡ done fail two))
    ⊎ ((slot : Slot) × (open_entry (int32 4) two ≡ some slot)
        × Closed 2 slot two (sys_close idle 4 two))
sys_close-Closed_example = sys_close-Closed idle 2 4 two two-Inv

opened : (n : ℕ) → n ≡ 4 → open_entry (int32 n) two ≡ some (0, 4)
unfolding open_entry get_fd_entry
opened n e = rw e refl

sys_dup2_leaks_example : ¬ Inv 2 (sys_dup2 4 3 two).1
sys_dup2_leaks_example =
    sys_dup2_leaks 2 4 3 3 0 4 0 two two-Inv (opened 4 refl) refl (omega arith) refl refl

sys_close_all-Exited_example : Exited 2 0 max_fds two (sys_close_all idle 0 two)
sys_close_all-Exited_example = sys_close_all-Exited idle 2 0 two two-Inv (omega arith)

clone_fds-Inv_example :
    Inv 2 (clone_fds 0 1 two) × ((clone_fds 0 1 two).fds ≡ update two.fds 1 (two.fds 0))
clone_fds-Inv_example = clone_fds-Inv 2 0 1 two two-Inv (omega arith) (omega arith) (λ k. refl)

sys_pipe-Piped_example : Piped 2 0 two (sys_pipe 4096 two)
sys_pipe-Piped_example = sys_pipe-Piped 2 0 4096 two two-Inv refl

-- Three bytes of which one is read.
abbrev half_read : Pipe
half_read = record zeroed_pipe { read_pos = 1; write_pos = 3 }

half_read-IsPipe : IsPipe half_read
half_read-IsPipe = record { ordered = omega arith; bounded = omega arith }

pipe_put-Put_example : Put (7 ∷ 8 ∷ []) 0 half_read (pipe_put (7 ∷ 8 ∷ []) 0 half_read)
pipe_put-Put_example = pipe_put-Put (7 ∷ 8 ∷ []) 0 half_read half_read-IsPipe

pipe_read-Got_example :
    Got 2 half_read ((pipe_get 2 half_read).0, pipe_rewind (pipe_get 2 half_read).1)
pipe_read-Got_example = pipe_read-Got 2 half_read half_read-IsPipe

write_file-Stored_example :
    Stored idle
      (0, 5)
      plain_file
      7
      (72 ∷ 105 ∷ [])
      two
      (write_file idle (0, 5) plain_file 7 (72 ∷ 105 ∷ []) two)
    ⊎ (Exhausted idle 2 two.world
        × (s' : Sys ℕ) × (write_file idle (0, 5) plain_file 7 (72 ∷ 105 ∷ []) two ≡ done fail s'))
write_file-Stored_example =
    write_file-Stored idle (0, 5) plain_file 7 (72 ∷ 105 ∷ []) two (λ _. refl) (omega arith)
      (omega arith)
