-- ===== src/StringBuf.antt =====
-- dborb/util.c, ni_stringbuf_*: strings that grow, in memory with room behind their end.
pub mod Memory
pub mod Refine
pub mod Calls
use testbus.Base.{
  ℕ, zero, suc, ◌+◌, ◌-◌, ◌*◌, ◌/◌, ◌≤◌, List, [], ◌∷◌, ◌++◌, Option, none, some, Bool, true, false,
  not, ◌&&◌, ◌||◌, get_or, length, set, take, drop, replicate, if◌then◌else◌, ◌==◌, ltb, leb,
}
use testbus.Buffer.{blit}

-- struct ni_stringbuf; `string` is the memory that it points to.
pub record StringBuf : Type 0 where
  pub size : ℕ
  pub len : ℕ
  pub string : Option (List ℕ)
  pub dynamic : Bool

-- NI_STRINGBUF_CHUNK
abbrev pub chunk : ℕ
chunk = 64

-- ni_stringbuf_init
abbrev pub init : StringBuf
init = record { size = 0; len = 0; string = none; dynamic = true }

-- ni_stringbuf_clear
unfoldable pub clear : StringBuf → StringBuf
clear sb = record sb { size = 0; len = 0; string = none }

unfoldable pub empty : StringBuf → Bool
empty sb = sb.len == 0

-- __ni_stringbuf_size: a multiple of the chunk.
unfoldable pub new_size : StringBuf → ℕ → ℕ
new_size sb len = (sb.len + len + (chunk - 1)) / chunk * chunk

abbrev pub memory : Option (List ℕ) → List ℕ
memory none = []
memory (some mem) = mem

-- What xrealloc keeps, with zeros from `len` on.
unfoldable pub cleared : ℕ → ℕ → List ℕ → List ℕ
cleared len size mem = take len mem ++ replicate (size - len) 0

-- __ni_stringbuf_realloc; `none` where the assertion fails.
unfoldable pub realloc : StringBuf → ℕ → Option StringBuf
unfolding new_size cleared
realloc sb len =
    if ltb sb.size (sb.len + len + 1)
    then if sb.dynamic
      then some (record sb {
        size = new_size sb (len + 1);
        string = some (cleared sb.len (new_size sb (len + 1)) (memory sb.string));
      })
      else none
    else some sb

-- __ni_stringbuf_put; `none` also for a write through NULL.
unfoldable pub put : StringBuf → List ℕ → Option StringBuf
unfolding realloc blit
put sb bytes = elim (realloc sb (length bytes)) [
  | none ↦ none
  | some sb' ↦ elim sb'.string [
    | none ↦ none
    | some mem ↦
        let end = sb'.len + length bytes in
        some (record sb' { string = some (set (blit mem sb'.len bytes) end 0); len = end })
  ]
]

abbrev pub putc : StringBuf → ℕ → Option StringBuf
putc sb c = put sb (c ∷ [])

-- ni_stringbuf_puts
unfoldable pub puts : StringBuf → Option (List ℕ) → Option StringBuf
unfolding put
puts sb none = some sb
puts sb (some s) = put sb s

-- ni_stringbuf_truncate
unfoldable pub truncate : StringBuf → ℕ → Option StringBuf
unfolding realloc
truncate sb at = elim (realloc sb at) [
  | none ↦ none
  | some sb' ↦ elim sb'.string [
    | none ↦ none
    | some mem ↦ some (record sb' { string = some (set mem at 0); len = at })
  ]
]

-- ni_stringbuf_move: the destination and the source afterwards.
unfoldable pub move : StringBuf → StringBuf → Option (StringBuf × StringBuf)
move dest src =
    if (dest.dynamic && src.dynamic) || (not dest.dynamic && not src.dynamic)
    then some (src, record src { string = none; len = 0 })
    else none

-- strchr, for a byte that is not 0.
abbrev pub contains : List ℕ → ℕ → Bool
contains [] c = false
contains (r ∷ rs) c = (r == c) || contains rs c

-- strspn; the string ends at a 0.
unfoldable pub strspn : List ℕ → List ℕ → ℕ
strspn [] reject = 0
strspn (c ∷ cs) reject =
    let rest = strspn cs reject in if not (c == 0) && contains reject c then suc rest else 0

unfoldable pub strlen : List ℕ → ℕ
strlen [] = 0
strlen (c ∷ cs) = let rest = strlen cs in if c == 0 then 0 else suc rest

-- ni_stringbuf_trim_head
unfoldable pub trim_head : StringBuf → List ℕ → Option StringBuf
unfolding truncate strspn
trim_head sb reject = elim (truncate sb sb.len) [
  | none ↦ none
  | some sb' ↦ elim sb'.string [
    | none ↦ none
    | some mem ↦
        let trim = strspn mem reject in
        let len = sb'.len - trim in
        if trim == 0
        then some sb'
        else some (record sb' {
          len = len;
          string = some (take (len + 1) (drop trim mem) ++ drop (len + 1) mem);
        })
  ]
]

-- The loop of ni_stringbuf_trim_tail, from `n` down.
unfoldable pub trim_from : List ℕ → List ℕ → ℕ → ℕ → ℕ
trim_from mem reject zero len = len
trim_from mem reject (suc n) len =
    let rest = trim_from mem reject n n in if contains reject (get_or mem n 0) then rest else len

-- ni_stringbuf_trim_tail
unfoldable pub trim_tail : StringBuf → List ℕ → Option StringBuf
unfolding realloc trim_from strlen
trim_tail sb reject = elim (realloc sb sb.len) [
  | none ↦ none
  | some sb' ↦ elim sb'.string [
    | none ↦ none
    | some mem ↦
        let len = trim_from mem reject (strlen mem) sb'.len in
        some (record sb' { len = len; string = some (set mem len 0) })
  ]
]
