-- ===== src/Buffer/Chain.antt =====
-- dborb/buffer.c, ni_buffer_chain_*: queues of buffers.
use testbus.Base.{ℕ, ◌+◌, ◌≡◌, List, [], ◌∷◌, Option, none, some, arith}
use testbus.Buffer.{Buffer, count}

-- ni_buffer_chain_t *: its buffers by the `next` pointers.
abbrev pub Chain : Type 0
Chain = List Buffer

-- ni_buffer_chain_append
unfoldable pub append : Chain → Buffer → Chain
append [] last = last ∷ []
append (b ∷ bs) last = b ∷ append bs last

-- ni_buffer_chain_count
unfoldable pub chain_count : Chain → ℕ
chain_count [] = 0
chain_count (b ∷ bs) = count b + chain_count bs

-- ni_buffer_chain_get_next; `none` is NULL.
unfoldable pub get_next : Chain → Option Buffer × Chain
get_next [] = (none, [])
get_next (b ∷ bs) = (some b, bs)

-- ni_buffer_chain_discard, which frees what get_next gives until there is nothing more.
unfoldable pub discard : Chain → Chain
discard [] = []
discard (b ∷ bs) = discard bs

-- What is appended counts.
chain_count-append :
    (bs : Chain) (b : Buffer) → chain_count (append bs b) ≡ chain_count bs + count b
unfolding chain_count append
chain_count-append [] b = omega arith
chain_count-append (x ∷ xs) b = omega (arith, chain_count-append xs b)
