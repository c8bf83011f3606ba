-- ===== src/Buffer.antt =====
-- include/dborb/buffer.h and dborb/buffer.c: byte buffers that are written at the tail and read at
-- the head.
pub mod Bytes
pub mod Pipe
pub mod Fifo
pub mod Frame
pub mod Chain
use testbus.Base.{
  ℕ, zero, suc, ◌+◌, ◌-◌, ◌%◌, ◌^◌, List, [], ◌∷◌, ◌++◌, Option, none, some, Bool, true, false, not,
  ◌&&◌, ◌||◌, get_elem?, length, take, drop, replicate, if◌then◌else◌, ◌==◌, ltb, leb,
}

-- struct ni_buffer; `base` is the memory that it points to.
pub record Buffer : Type 0 where
  pub base : List ℕ
  pub head : ℕ
  pub tail : ℕ
  pub size : ℕ
  pub overflow : Bool
  pub underflow : Bool
  pub allocated : Bool

-- ni_buffer_init, for a writer on the given memory.
abbrev pub init : List ℕ → Buffer
init base = record {
  base = base;
  head = 0;
  tail = 0;
  size = length base;
  overflow = false;
  underflow = false;
  allocated = false;
}

-- ni_buffer_init_reader: all the memory is to be read.
abbrev pub init_reader : List ℕ → Buffer
init_reader base = record (init base) { tail = length base }

-- ni_buffer_init_dynamic, in memory that ni_calloc has cleared.
abbrev pub init_dynamic : ℕ → Buffer
init_dynamic size = record (init (replicate size 0)) { size = size; allocated = true }

unfoldable pub clear : Buffer → Buffer
clear b = record b { head = 0; tail = 0 }

-- memcpy and memset of bytes to an offset in memory. Bytes that would go behind it are lost.
unfoldable pub blit : List ℕ → ℕ → List ℕ → List ℕ
blit [] off bytes = []
blit (b ∷ bs) (suc off) bytes = b ∷ blit bs off bytes
blit (b ∷ bs) zero [] = b ∷ bs
blit (b ∷ bs) zero (c ∷ cs) = c ∷ blit bs zero cs

-- ni_buffer_put, with data that is not NULL. The sum is one of size_t.
unfoldable pub put : Buffer → List ℕ → Bool × Buffer
unfolding blit
put b bytes =
    if ltb b.size ((b.tail + length bytes) % 2 ^ 64)
    then (false, record b { overflow = true })
    else (true, record b { base = blit b.base b.tail bytes; tail = b.tail + length bytes })

-- ni_buffer_putc
abbrev pub putc : Buffer → ℕ → Buffer
putc b c = (put b (c ∷ [])).1

-- ni_buffer_pad
unfoldable pub pad : Buffer → ℕ → ℕ → Buffer
unfolding blit
pad b min_size padbyte = if leb min_size b.tail then b else record b {
  base = blit b.base b.tail (replicate (min_size - b.tail) padbyte);
  tail = min_size;
}

-- ni_buffer_count and ni_buffer_tailroom return an unsigned int.
unfoldable pub count : Buffer → ℕ
count b = if ltb b.head b.tail then (b.tail - b.head) % 2 ^ 32 else 0

unfoldable pub tailroom : Buffer → ℕ
tailroom b = if ltb b.tail b.size then (b.size - b.tail) % 2 ^ 32 else 0

-- ni_buffer_get
unfoldable pub get : Buffer → ℕ → Option (List ℕ) × Buffer
get b len =
    if ltb b.tail ((b.head + len) % 2 ^ 64)
    then (none, record b { underflow = true })
    else (some (take len (drop b.head b.base)), record b { head = b.head + len })

-- ni_buffer_getc; `none` is EOF.
unfoldable pub getc : Buffer → Option ℕ × Buffer
getc b =
    if leb b.tail b.head
    then (none, b)
    else (get_elem? b.base b.head, record b { head = b.head + 1 })

-- `bp->base[bp->head - 1] != cc`, for an unsigned byte and a char, which is signed: as integers they
-- differ if the byte is 128 or more.
unfoldable pub same_char : Option ℕ → ℕ → Bool
same_char none cc = false
same_char (some byte) cc = (byte == cc) && ltb cc 128

-- ni_buffer_ungetc; `cc` is the byte that is passed as a char.
unfoldable pub ungetc : Buffer → ℕ → Bool × Buffer
unfolding same_char
ungetc b cc =
    if (b.head == 0) || not (same_char (get_elem? b.base (b.head - 1)) cc)
    then (false, b)
    else (true, record b { head = b.head - 1 })

-- ni_buffer_reserve_head
unfoldable pub reserve_head : Buffer → ℕ → Bool × Buffer
reserve_head b headroom =
    if not (b.head == b.tail)
    then (false, b)
    else (true, record b { head = b.tail + headroom; tail = b.tail + headroom })

-- ni_buffer_push_head, and the caller's write to the `count` bytes whose address it returns.
unfoldable pub push_head : Buffer → List ℕ → Bool × Buffer
unfolding blit
push_head b bytes = if ltb b.head (length bytes) then (false, record b { overflow = true }) else (
  true,
  record b { base = blit b.base (b.head - length bytes) bytes; head = b.head - length bytes },
)

-- ni_buffer_push_tail, and the caller's write.
unfoldable pub push_tail : Buffer → List ℕ → Bool × Buffer
unfolding blit
push_tail b bytes =
    if ltb (b.size - b.tail) (length bytes)
    then (false, record b { overflow = true })
    else (true, record b { base = blit b.base b.tail bytes; tail = b.tail + length bytes })

-- ni_buffer_pull_head, and the caller's read.
unfoldable pub pull_head : Buffer → ℕ → Option (List ℕ) × Buffer
pull_head b n =
    if ltb (b.tail - b.head) n
    then (none, record b { underflow = true })
    else (some (take n (drop b.head b.base)), record b { head = b.head + n })

-- ni_buffer_ensure_tailroom: `room` is the memory that xrealloc or xmalloc adds, `min_room` bytes.
unfoldable pub ensure_tailroom : Buffer → List ℕ → Buffer
unfolding tailroom
ensure_tailroom b room =
    if leb (length room) (tailroom b)
    then b
    else record b { base = b.base ++ room; size = b.size + length room; allocated = true }
