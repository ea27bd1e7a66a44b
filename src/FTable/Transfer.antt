-- ===== src/FTable/Transfer.antt =====
-- FileTable::Read, FileTable::Write and FileTable::Append of threads/ftable.cc. The buffer of a call is
-- no NULL pointer and its count is not negative.
use nachos_assignment.FTable.{
  Unix, OpenFile, FileTable, stdin, stdout, is_refused, bytes_of, put_text, get_text, read_file,
  write_file, append_file, get_current_pos, count_of,
}
use nachos_assignment.Syscall.Console.{Console}
use nachos_assignment.Base.{
  ◌&&◌, ◌||◌, ℕ, none, some, List, [], ◌++◌, ltb, leb, ◌==◌, if◌then◌else◌, length, set, drop, ℤ,
  pos, negsuc, pos_part, ltb_ℤ, ◌-ℤ◌, minus_one, undefined, Outcome, ok, err, ◌>>=◌, deref, at,
}

-- What the caller of Read has of its buffer afterwards.
pub data Buffer : Type 0 where
  filled : List ℕ → Buffer
  deleted : Buffer

-- The bytes read, over the start of the buffer.
abbrev pub overlay : List ℕ → List ℕ → Outcome Buffer
overlay bytes buffer =
    if leb (length bytes) (length buffer)
    then ok (filled (bytes ++ drop (length bytes) buffer))
    else err undefined

-- The files, the host and the console, with the answer of the call and its buffer.
pub record Read (U : Type 0) : Type 0 where
  pub core : FileTable
  pub host : U
  pub console : Console
  pub buffer : Buffer
  pub answer : ℤ

pub record Written (U : Type 0) : Type 0 where
  pub core : FileTable
  pub host : U
  pub console : Console
  pub answer : ℤ

module _ {U : Type 0} (unix : Unix U) (core : FileTable) (u : U) (c : Console) where
  abbrev not_read : List ℕ → ℤ → Read U
  not_read buffer answer = record {
    core = core;
    host = u;
    console = c;
    buffer = filled buffer;
    answer = answer;
  }

  -- The end of Read, for a file that is open in slot `i`.
  unfoldable pub read_open : OpenFile → ℕ → List ℕ → ℕ → Outcome (Read U)
  read_open f i buffer charcount = do
    let start = get_current_pos unix f u
    (f', u', bytes) ← read_file unix start charcount u
    let end = get_current_pos unix f' u'
    let missed = ok (record {
      core = set core i (some f');
      host = u';
      console = c;
      buffer = filled buffer;
      answer = negsuc 1;
    })
    let hit = overlay (elim bytes [ none ↦ [] | some bs ↦ bs ]) buffer >>= λ after. ok (record {
      core = set core i (some end);
      host = u';
      console = c;
      buffer = after;
      answer = end.current_offset -ℤ start.current_offset;
    })
    if ltb_ℤ (pos 0) (count_of unix bytes) then hit else missed

  -- Reading from the keyboard deletes the buffer of the caller and fills one of its own.
  unfoldable pub read_stdin : ℕ → Outcome (Read U)
  read_stdin charcount = do
    (text, c') ← get_text charcount c
    ok (record { core = core; host = u; console = c'; buffer = deleted; answer = pos charcount })

  unfoldable pub read : List ℕ → ℕ → ℤ → Outcome (Read U)
  read buffer charcount fid =
      let i = pos_part fid in
      let from_keys = read_stdin charcount in
      let from_file = at core i >>= λ cell. elim cell [
        | none ↦ ok (not_read buffer minus_one)
        | some f ↦ read_open f i buffer charcount
      ] in
      if is_refused fid
      then ok (not_read buffer minus_one)
      else if i == stdout
      then ok (not_read buffer minus_one)
      else if i == stdin
      then from_keys
      else from_file

  abbrev not_written : Written U
  not_written = record { core = core; host = u; console = c; answer = minus_one }

  -- The answer i - 1 is that of the outer `i`, which stays 0.
  unfoldable pub write_stdout : List ℕ → ℕ → Outcome (Written U)
  write_stdout buffer charcount = do
    c' ← put_text charcount buffer c
    ok (record { core = core; host = u; console = c'; answer = minus_one })

  -- The end of Write, for an open file; it falls off the end of the function if nothing is written.
  unfoldable pub write_open : OpenFile → ℕ → List ℕ → ℕ → Outcome (Written U)
  write_open f i buffer charcount = do
    let start = get_current_pos unix f u
    bytes ← bytes_of buffer charcount
    (f', u') ← write_file unix start bytes u
    let end = get_current_pos unix f' u'
    let hit = ok (record {
      core = set core i (some end);
      host = u';
      console = c;
      answer = end.current_offset -ℤ start.current_offset;
    })
    if start.type == 0 && ltb 0 charcount then hit else err undefined

  -- The type of a file is looked at before the file is known to be there.
  unfoldable pub write : List ℕ → ℕ → ℤ → Outcome (Written U)
  write buffer charcount fid =
      let i = pos_part fid in
      let to_file = at core i >>= λ cell. deref cell >>= λ f.
      let shown = write_stdout buffer charcount in
      let stored = write_open f i buffer charcount in
      if f.type == 1 then ok not_written else if i == stdout then shown else stored in
      if is_refused fid then ok not_written else if i == stdin then ok not_written else to_file

  -- The end of Append, for an open file.
  unfoldable pub append_open : OpenFile → ℕ → List ℕ → ℕ → Outcome (Written U)
  append_open f i buffer charcount = do
    bytes ← bytes_of buffer charcount
    (f', u') ← append_file unix f bytes u
    let hit = ok (record {
      core = set core i (some f');
      host = u';
      console = c;
      answer = if ltb 0 charcount then pos charcount else minus_one;
    })
    if f.type == 0 then hit else err undefined

  unfoldable pub append : List ℕ → ℕ → ℤ → Outcome (Written U)
  append buffer charcount fid =
      let i = pos_part fid in
      let to_file = at core i >>= λ cell. deref cell >>= λ f.
      let shown = write_stdout buffer charcount in
      let stored = append_open f i buffer charcount in
      if f.type == 1 || i == stdin then ok not_written else if i == stdout then shown else stored in
      if is_refused fid then ok not_written else to_file
