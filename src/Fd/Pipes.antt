-- ===== src/Fd/Pipes.antt =====
-- Pipes, src/user/syscall.cpp: sys_pipe, and the pipe branches of sys_write and sys_read.
pub mod Fifo
pub mod Create
use los_tac_os.Base.{
  ℕ, zero, suc, ◌+◌, ◌-◌, Bool, true, false, ◌&&◌, not, Option, none, some, List, [], ◌∷◌, ltb, leb,
  ◌==◌, if◌then◌else◌, update, length,
}
use los_tac_os.Base.Int.{ℤ, pos, negsuc, le_zero}
use los_tac_os.Fd.{
  fd_pipe, FdEntry, zeroed, Pipe, zeroed_pipe, Sys, Outcome, done, waits, fault, set_entry,
  first_free, fail, max_fds, max_pipes, pipe_size, is_free,
}

-- The copy loop of sys_write: how many bytes were stored, and the pipe.
pub pipe_put : List ℕ → ℕ → Pipe → ℕ × Pipe
pipe_put [] written p = (written, p)
pipe_put (b ∷ bs) written p =
    let rest =
      pipe_put bs (written + 1)
        (record p { buffer = update p.buffer p.write_pos b; write_pos = p.write_pos + 1 }) in
    if leb pipe_size p.write_pos then (written, p) else rest

-- The copy loop of sys_read, `len` rounds at most.
pub pipe_get : ℕ → Pipe → List ℕ × Pipe
pipe_get zero p = ([], p)
pipe_get (suc len) p =
    let (bs, p') = pipe_get len (record p { read_pos = p.read_pos + 1 }) in
    if ltb p.read_pos p.write_pos then (p.buffer p.read_pos ∷ bs, p') else ([], p)

-- What follows the copy: an empty pipe starts again at 0.
pub pipe_rewind : Pipe → Pipe
pipe_rewind p = if leb p.write_pos p.read_pos then record p { read_pos = 0; write_pos = 0 } else p

-- An end of pipe `i`, as sys_pipe fills it in.
abbrev pub end_of : ℕ → (readable writable : Bool) → FdEntry
end_of i r w = record zeroed { kind = fd_pipe; pipe = some i; readable = r; writable = w }

-- The first index with `pipe_used` clear among `n` from `i` on.
pub first_unused : ℕ → ℕ → (ℕ → Bool) → Option ℕ
first_unused zero i used = none
first_unused (suc n) i used =
    let rest = first_unused n (i + 1) used in if used i then rest else some i

-- The search for the writing end: it skips the descriptor chosen for the reading end.
pub first_free_but : ℕ → ℕ → ℕ → (ℕ → FdEntry) → Option ℕ
first_free_but rfd zero i t = none
first_free_but rfd (suc n) i t =
    let rest = first_free_but rfd n (i + 1) t in
    if is_free (t i).kind && not (i == rfd) then some i else rest

-- The result of sys_pipe with the two descriptors that it stored.
abbrev pub Ends : Type 0
Ends = ℕ × Option (ℕ × ℕ)

module _ {W : Type 0} where
  -- Both descriptors found: the pipe's counters and the two entries.
  pub install : (p i rfd wfd : ℕ) → Sys W → Sys W
  install p i rfd wfd s =
      set_entry (p, wfd) (end_of i false true)
        (set_entry (p, rfd) (end_of i true false)
          (record s {
            pipe_used = update s.pipe_used i true;
            pipes = update s.pipes i (record zeroed_pipe { readers = pos 1; writers = pos 1 });
          }))

  -- Too few free descriptors: the pipe was zeroed and is given back.
  pub give_back : ℕ → Sys W → Sys W
  give_back i s = record s {
    pipe_used = update s.pipe_used i false;
    pipes = update s.pipes i zeroed_pipe;
  }

  pub open_pipe : (p i : ℕ) → Sys W → Ends × Sys W
  open_pipe p i s = elim (first_free (max_fds - 3) 3 (s.fds p)) [
    | none ↦ ((fail, none), give_back i s)
    | some rfd ↦ elim (first_free_but rfd (max_fds - 3) 3 (s.fds p)) [
      | none ↦ ((fail, none), give_back i s)
      | some wfd ↦ ((0, some (rfd, wfd)), install p i rfd wfd s)
    ]
  ]

  -- `arg` is the address of the caller's array.
  pub sys_pipe : ℕ → Sys W → Ends × Sys W
  sys_pipe arg s = if arg == 0 then ((fail, none), s) else elim s.current [
    | none ↦ ((fail, none), s)
    | some p ↦ elim (first_unused max_pipes 0 s.pipe_used) [
      | none ↦ ((fail, none), s)
      | some i ↦ open_pipe p i s
    ]
  ]

  -- sys_write on an entry of type FD_PIPE.
  pub write_pipe : FdEntry → List ℕ → Sys W → Outcome W ℕ
  write_pipe e bs s =
      if e.writable
      then elim e.pipe [
        | none ↦ fault
        | some i ↦
            let (n, q) = pipe_put bs 0 (s.pipes i) in
            done n (record s { pipes = update s.pipes i q })
      ]
      else done fail s

  -- sys_read on an entry of type FD_PIPE; it waits while the pipe is empty and has a writer.
  pub read_pipe : FdEntry → ℕ → Sys W → Outcome W (ℕ × List ℕ)
  read_pipe e len s =
      if e.readable
      then elim e.pipe [
        | none ↦ fault
        | some i ↦
            let q = s.pipes i in
            if leb q.write_pos q.read_pos
            then (if le_zero q.writers then done (0, []) s else waits)
            else (let (bs, q') = pipe_get len q in
                done (length bs, bs) (record s { pipes = update s.pipes i (pipe_rewind q') }))
      ]
      else done (fail, []) s
