-- ===== src/Proxy/Socket.antt =====
-- The sockets that proxy/main.c reads from: read() is a parameter of the model.
use testbus.Base.{ℕ, ◌≤◌, ◌<◌, ◌≡◌, List, ◌++◌, length}

-- What read() returns: the bytes that it stores, 0, or an error.
pub data ReadResult : Type 0 where
  got : List ℕ → ReadResult
  eof : ReadResult
  failed : ReadResult

pub record Socket : Type 1 where
  pub State : Type 0
  pub read : State → ℕ → ReadResult × State

-- The documented behaviour of read() on a stream: it takes between one and as many bytes as are asked
-- for from the front of those that are still to come, or none.
pub record IsStream (k : Socket) : Type 0 where
  pub stream : k.State → List ℕ
  pub read_got :
      (s : k.State) (n : ℕ) (xs : List ℕ)
      → (k.read s n).0 ≡ got xs
      → (stream s ≡ xs ++ stream (k.read s n).1) × (0 < length xs) × (length xs ≤ n)
  pub read_eof : (s : k.State) (n : ℕ) → (k.read s n).0 ≡ eof → stream (k.read s n).1 ≡ stream s
  pub read_failed :
      (s : k.State) (n : ℕ) → (k.read s n).0 ≡ failed → stream (k.read s n).1 ≡ stream s
