-- ===== src/Buffer/Pipe.antt =====
-- A queue of bytes with a limited room, as the specification of a buffer.
use testbus.Base.{
  ℕ, ◌-◌, ◌^◌, ◌<◌, List, [], ◌∷◌, ◌++◌, Option, none, some, Bool, true, false, length, take, drop,
  if◌then◌else◌, leb,
}
use testbus.Buffer.{Buffer, put, get, getc, push_tail, pull_head, clear}
use testbus.Buffer.Bytes.{contents}

pub data Op : Type 0 where
  puts : List ℕ → Op
  pushes : List ℕ → Op
  gets : ℕ → Op
  pulls : ℕ → Op
  getcs : Op
  clears : Op

-- What a call asks for is in the range of the size_t sums.
abbrev pub InRange : Op → Type 0
InRange (puts xs) = length xs < 2 ^ 63
InRange (pushes xs) = length xs < 2 ^ 63
InRange (gets n) = n < 2 ^ 63
InRange (pulls n) = n < 2 ^ 63
InRange getcs = Unit {0}
InRange clears = Unit {0}

-- The result of a call: failure, or the bytes that it reads.
abbrev pub Out : Type 0
Out = Option (List ℕ)

unfoldable pub written : Bool × Buffer → Out × Buffer
written (true, b) = (some [], b)
written (false, b) = (none, b)

unfoldable pub read_byte : Option ℕ × Buffer → Out × Buffer
read_byte (none, b) = (none, b)
read_byte (some c, b) = (some (c ∷ []), b)

unfoldable pub step : Buffer → Op → Out × Buffer
unfolding written read_byte
step b (puts xs) = written (put b xs)
step b (pushes xs) = written (push_tail b xs)
step b (gets n) = get b n
step b (pulls n) = pull_head b n
step b getcs = read_byte (getc b)
step b clears = (some [], clear b)

unfoldable pub run : Buffer → List Op → List Out
run b [] = []
run b (o ∷ os) = (step b o).0 ∷ run (step b o).1 os

-- The specification.
pub record Pipe : Type 0 where
  pub queue : List ℕ
  pub room : ℕ
  pub size : ℕ

unfoldable pub enter : Pipe → List ℕ → Out × Pipe
enter p xs =
    if leb (length xs) p.room
    then (some [], record p { queue = p.queue ++ xs; room = p.room - length xs })
    else (none, p)

unfoldable pub leave : Pipe → ℕ → Out × Pipe
leave p n =
    if leb n (length p.queue)
    then (some (take n p.queue), record p { queue = drop n p.queue })
    else (none, p)

unfoldable pub spec_step : Pipe → Op → Out × Pipe
unfolding enter leave
spec_step p (puts xs) = enter p xs
spec_step p (pushes xs) = enter p xs
spec_step p (gets n) = leave p n
spec_step p (pulls n) = leave p n
spec_step p getcs = leave p 1
spec_step p clears = (some [], record p { queue = []; room = p.size })

unfoldable pub spec_run : Pipe → List Op → List Out
spec_run p [] = []
spec_run p (o ∷ os) = (spec_step p o).0 ∷ spec_run (spec_step p o).1 os

abbrev pub view : Buffer → Pipe
view b = record { queue = contents b; room = b.size - b.tail; size = b.size }
