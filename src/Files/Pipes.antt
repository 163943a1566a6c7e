-- ===== src/Files/Pipes.antt =====
-- `pipealloc` of pipe.c: two files and a page for the pipe between them.
use nunix.Prelude.{
  ℕ, Bool, true, false, if◌then◌else◌, update, Result, ok, ◌>>=◌, Option, none, some, List,
}
use nunix.Pipe.{Pipe}
use nunix.Files.{File, fd_pipe, filealloc, fileclose}

-- The new pipe, with what the page held in `data`.
abbrev pub new_pipe : List ℕ → Pipe
new_pipe held = record { buf = held; nread = 0; nwrite = 0; readopen = true; writeopen = true }

-- `*f0` or `*f1` of the pipe at address `p`
abbrev pub pipe_end : Bool → ℕ → File → File
pipe_end writes p f = record f {
  type = fd_pipe;
  readable = if writes then false else true;
  writable = writes;
  pipe = p;
}

-- the `bad` exit: the files that were got are closed. They are FD_NONE, so nothing of theirs is given up.
unfoldable pub close_got : Option ℕ → (ℕ → File) → Result (ℕ → File)
unfolding fileclose
close_got none t = ok t
close_got (some f) t = do (t1, ff) ← fileclose f t; ok t1

-- `kalloc` is given its result: the page, if there is one. It is called only when there are two files. The result is the two files, or
-- none for -1.
unfoldable pub pipealloc : Option ℕ → (ℕ → File) → Result (Option (ℕ × ℕ) × (ℕ → File))
unfolding filealloc close_got
pipealloc page t =
    let (f0, t0) = filealloc t in
    elim f0 [
      | none ↦ ok (none, t0)
      | some a ↦
          (let (f1, t1) = filealloc t0 in
            elim f1 [
              | none ↦ (do t2 ← close_got (some a) t1; ok (none, t2))
              | some b ↦ elim page [
                | none ↦ (do t2 ← close_got (some a) t1; t3 ← close_got (some b) t2; ok (none, t3))
                | some p ↦
                    (let t2 = update t1 a (pipe_end false p (t1 a)) in
                      ok (some (a, b), update t2 b (pipe_end true p (t2 b))))
              ]
            ])
    ]
