-- ===== src/Files/Tests.antt =====
-- The theorem on file.c at a table with one file.
use nunix.Prelude.{ℕ, ◌≡◌, refl, true, false, update, some, none, [], ◌∷◌, arith, ok}
use nunix.Files.{fd_none, fd_pipe, File, filealloc, filedup, fileclose, find_file}
use nunix.Files.Counts.{System, Reach, opened, shared, start, step, set_up, closed, fileclose_last}

abbrev no_file : File
no_file = record {
  type = fd_none;
  ref = 0;
  readable = false;
  writable = false;
  pipe = 0;
  ip = 0;
  off = 0;
}

abbrev shut : ℕ → File
shut f = no_file

-- A file is opened, set up as the writing end of a pipe, shared and closed once.
abbrev pipe_file : File
pipe_file = record no_file { type = fd_pipe; ref = 1; pipe = 9; writable = true }

abbrev opened_once : ℕ → File
opened_once = update shut 0 (record no_file { ref = 1 })

abbrev shared_once : ℕ → File
shared_once = update (update opened_once 0 pipe_file) 0 (record pipe_file { ref = 2 })

abbrev closed_once : System
closed_once = record { table = update shared_once 0 pipe_file; held = 0 ∷ [] }

closed_once-Reach : Reach (record { table = shut; held = [] }) closed_once
unfolding filealloc find_file filedup fileclose
closed_once-Reach =
    step
      (step (step (step start (opened 0 opened_once refl)) (set_up 0 pipe_file (omega arith) refl))
        (shared 0 shared_once (omega arith) refl))
      (closed 0 closed_once.table none (omega arith) refl)

fileclose_last_example :
    fileclose 0 closed_once.table
    ≡ ok (
      update closed_once.table 0 (record pipe_file { ref = 0; type = fd_none }),
      some (record pipe_file { ref = 0 }),
    )
fileclose_last_example =
    fileclose_last shut closed_once 0 (λ f. refl) closed_once-Reach (omega arith)
