-- ===== src/AddrSpace.antt =====
-- userprog/addrspace.cc and userprog/noff.h, as they are compiled (RDATA is defined): a user program
-- gets frames of the memory and its segments are copied there. The numbers in the header of a program
-- are read as ints that are not negative. Reading a file is a call of the host system: `read_at` is
-- what it delivers for a position and a count.
pub mod Bytes
pub mod Alloc
pub mod Copy
pub mod Segments
pub mod EmptyReadonly
pub mod Load
pub mod Run
pub mod Registers
pub mod Tests
use nachos_assignment.Bitmap.{Bitmap, div_round_up, find_and_set, num_clear}
use nachos_assignment.Machine.{
  TranslationEntry, page_size, num_phys_pages, memory_size, num_total_regs, ExceptionType,
  no_exception, address_error_exception, read_only_exception, bus_error_exception, Machine,
  write_register,
}
use nachos_assignment.Threads.Semaphore.{Semaphore, v, lock}
use nachos_assignment.Base.{
  ◌&&◌, ◌||◌, not, ℕ, zero, suc, ◌+◌, ◌-◌, ◌*◌, ◌/◌, ◌%◌, ◌^◌, ◌≤◌, ◌<◌, min, max, bit_and, bit_or,
  ◌≡◌, refl, sym, ap, ap₂, ◌∙◌, subst, fun_ext, ◌≢◌, ◌↔◌, ◌⊎◌, inl, inr, Bool, true, false, Option,
  none, some, List, [], ◌∷◌, ◌++◌, map, arith, ltb, leb, ◌==◌, if◌then◌else◌, ltb→lt, lt→ltb,
  leb→le, ==_iff, tests, Bool-cases, Option-cases, every, every-test, agree, agree_eq, length,
  get_elem?, set, get_or, take, drop, replicate, length-append, length-set, get_elem?-set_self,
  get_elem?-set_ne, take-append-drop, length-take, length-drop, length-replicate, length-map,
  get_elem?-eq-get_or, get_or-set_self, get_or-set_ne, get_or-replicate, get_elem?-none,
  get_elem?-some, get_elem?_beyond, get_elem?_inside, drop_all, drop_step, among, IsDistinct, ℤ,
  pos, negsuc, pos_part, neg_part, sub_ℕ, neg_ℤ, ltb_ℤ, to_unsigned, to_int, IsInt,
  to_int-to_unsigned, minus_one, Name, same_name, same_name_eq, same_name_refl, Stop, aborted,
  halted, undefined, Outcome, ok, err, check_int, ◌>>=◌, ◌>>◌, assert, deref, at, Name, same_name,
  same_name_eq, same_name_refl,
}

abbrev pub user_stack_size : ℕ
user_stack_size = 1024

abbrev pub noff_magic_number : ℕ
noff_magic_number = 0xbadfad

pub record Segment : Type 0 where
  pub virtual_addr : ℕ
  pub in_file_addr : ℕ
  pub size : ℕ

pub record NoffHeader : Type 0 where
  pub noff_magic : ℕ
  pub code : Segment
  pub init_data : Segment
  pub readonly_data : Segment
  pub uninit_data : Segment

-- An open executable file, with the header at its start.
pub record Executable : Type 0 where
  pub header : NoffHeader
  pub read_at : ℕ → ℕ → List ℕ

-- The parts of the kernel that Load works on: Machine::mainMemory, gPhysPageBitMap and addrLock.
pub record Store : Type 0 where
  pub main_memory : List ℕ
  pub frames : Bitmap
  pub addr_lock : Semaphore

-- Writes bytes into the memory; past its end is undefined.
unfoldable pub put_bytes : List ℕ → ℕ → List ℕ → Outcome (List ℕ)
put_bytes memory pa [] = ok memory
put_bytes memory pa (b ∷ bytes) = do _ ← at memory pa; put_bytes (set memory pa b) (pa + 1) bytes

-- &mainMemory[base] + frame * PageSize
unfoldable pub page_at : ℕ → ℤ → Outcome ℕ
page_at base (pos frame) = ok (base + frame * page_size)
page_at base (negsuc n) =
    if leb (suc n * page_size) base then ok (base - suc n * page_size) else err undefined

abbrev pub fresh_entry : ℕ → ℤ → TranslationEntry
fresh_entry i frame = record {
  virtual_page = pos i;
  physical_page = frame;
  valid = true;
  read_only = false;
  in_use = false;
  dirty = false;
}

-- The loop that sets up the page table, from page `i` on with `left` pages to go.
unfoldable pub set_up_pages :
    (base left i : ℕ) → List ℕ → Bitmap → Outcome (List TranslationEntry × List ℕ × Bitmap)
set_up_pages base zero i memory frames = ok ([], memory, frames)
set_up_pages base (suc left) i memory frames = do
  (frames', frame) ← find_and_set frames
  pa ← page_at base frame
  memory' ← put_bytes memory pa (replicate page_size 0)
  (table, memory'', frames'') ← set_up_pages base left (i + 1) memory' frames'
  ok (fresh_entry i frame ∷ table, memory'', frames'')

-- (n - 1) % PageSize + 1, which is 0 for n = 0
abbrev pub last_page_size : ℕ → ℕ
last_page_size zero = 0
last_page_size (suc n) = n % page_size + 1

-- What the copying of a segment leaves for the next one: the next page, the size of the last page
-- of the segment, the number of its pages, and the memory.
pub record Copied : Type 0 where
  pub next : ℕ
  pub last : ℕ
  pub pages : ℕ
  pub memory : List ℕ

module _ (exe : Executable) (table : List TranslationEntry) (base : ℕ) where
  -- Reads a piece of the file into page `i`, at `offset` in it.
  unfoldable pub copy_to_page : (i offset count in_file : ℕ) → List ℕ → Outcome (List ℕ)
  copy_to_page i offset count in_file memory = do
    e ← at table i
    pa ← page_at base e.physical_page
    put_bytes memory (pa + offset) (exe.read_at in_file count)

  -- The loop that copies the pages of a segment, the last of them with `last` bytes.
  unfoldable pub copy_pages : (last left i in_file : ℕ) → List ℕ → Outcome (List ℕ)
  copy_pages last zero i in_file memory = ok memory
  copy_pages last (suc left) i in_file memory = do
    memory' ← copy_to_page i 0 (if left == 0 then last else page_size) in_file memory
    copy_pages last left (i + 1) (in_file + page_size) memory'

  unfoldable pub copy_code : List ℕ → Outcome Copied
  copy_code memory = do
    let code = exe.header.code
    let pages = div_round_up code.size page_size
    let last = last_page_size code.size
    memory' ←
        (if ltb 0 code.size then copy_pages last pages 0 code.in_file_addr memory else ok memory)
    ok (record {
      next = if ltb 0 code.size then pages else 0;
      last = last;
      pages = pages;
      memory = memory';
    })

  -- The read-only data and the initial data: a first part goes into what the segment before left of
  -- its last page, the rest into pages of its own.
  unfoldable pub copy_data : Segment → Copied → Outcome Copied
  copy_data seg before = do
    let first = min (page_size - before.last) seg.size
    let pages = div_round_up (seg.size - first) page_size
    let last = last_page_size (seg.size - first)
    let has_room = not (before.last == page_size) && ltb 0 before.pages
    memory' ←
        (if ltb 0 seg.size && has_room
          then copy_to_page (before.next - 1) before.last first seg.in_file_addr before.memory
          else ok before.memory)
    memory'' ←
        (if ltb 0 seg.size
          then copy_pages last pages before.next (seg.in_file_addr + first) memory'
          else ok memory')
    ok (record {
      next = if ltb 0 seg.size then before.next + pages else before.next;
      last = last;
      pages = pages;
      memory = memory'';
    })

  unfoldable pub copy_segments : List ℕ → Outcome (List ℕ)
  copy_segments memory = do
    code ← copy_code memory
    readonly ← copy_data exe.header.readonly_data code
    data_copied ← copy_data exe.header.init_data readonly
    ok data_copied.memory

-- The bytes that a program needs, its stack included.
abbrev pub size_of : NoffHeader → ℕ
size_of h =
    h.code.size + h.readonly_data.size + h.init_data.size + h.uninit_data.size + user_stack_size

-- The part of Load after the test of the memory, with the lock as it is let go.
unfoldable pub load_pages :
    Executable → ℕ → Semaphore → Store → Outcome (Store × Option (List TranslationEntry))
load_pages exe num_pages released s = do
  let base = exe.header.code.virtual_addr
  (table, cleared, frames) ← set_up_pages base num_pages 0 s.main_memory s.frames
  memory ← copy_segments exe table base cleared
  ok (record { main_memory = memory; frames = frames; addr_lock = released }, some table)

-- AddrSpace::Load by a thread; the page table, if the answer is TRUE.
unfoldable pub load :
    Option Executable → ℕ → Store → Outcome (Store × Option (List TranslationEntry))
load none thread s = ok (s, none)
load (some exe) thread s = do
  assert (exe.header.noff_magic == noff_magic_number)
  locked ← lock s.addr_lock thread
  _ ← check_int (size_of exe.header)
  let num_pages = div_round_up (size_of exe.header) page_size
  let_go ← v locked
  let released = let_go.0
  clear ← num_clear s.frames
  let refused = ok (record s { addr_lock = released }, none)
  let loaded = load_pages exe num_pages released s
  if ltb clear num_pages then refused else loaded
