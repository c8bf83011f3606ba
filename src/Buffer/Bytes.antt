-- ===== src/Buffer/Bytes.antt =====
-- The bytes of a buffer that are written and not read yet, after every operation.
use testbus.Base.{
  ℕ, zero, suc, ◌+◌, ◌-◌, ◌^◌, ◌≤◌, ◌<◌, ◌≡◌, refl, List, [], ◌∷◌, ◌++◌, some, arith, get_elem?,
  length, take, drop, length-take, length-drop, ap, sym, ◌∙◌,
}
use testbus.Buffer.{Buffer, blit}

-- The indices are in order and in the memory, and size_t holds the size.
pub record IsValid (b : Buffer) : Type 0 where
  pub order : b.head ≤ b.tail
  pub fits : b.tail ≤ b.size
  pub memory : length b.base ≡ b.size
  pub range : b.size < 2 ^ 63

abbrev pub bytes : List ℕ → ℕ → ℕ → List ℕ
bytes base head n = take n (drop head base)

abbrev pub contents : Buffer → List ℕ
contents b = bytes b.base b.head (b.tail - b.head)

pub length-blit : (base : List ℕ) (off : ℕ) (xs : List ℕ) → length (blit base off xs) ≡ length base
unfolding blit
length-blit [] off xs = refl
length-blit (b ∷ bs) (suc off) xs = ap suc (length-blit bs off xs)
length-blit (b ∷ bs) zero [] = refl
length-blit (b ∷ bs) zero (x ∷ xs) = ap suc (length-blit bs zero xs)

take-blit_start :
    (base xs : List ℕ) (m : ℕ) → m ≡ length xs → m ≤ length base → take m (blit base 0 xs) ≡ xs
unfolding blit
take-blit_start base [] zero e h = refl
take-blit_start base [] (suc m) e h = absurd (omega arith)
take-blit_start base (x ∷ xs) zero e h = absurd (omega arith)
take-blit_start [] (x ∷ xs) (suc m) e h = absurd (omega arith)
take-blit_start (b ∷ bs) (x ∷ xs) (suc m) e h =
    ap (◌∷◌ x) (take-blit_start bs xs m (omega arith) (omega arith))

-- Writing behind the bytes that are read later.
pub bytes-blit_tail :
    (base : List ℕ) (head n : ℕ) (xs : List ℕ) (off m : ℕ)
    → off ≡ head + n
    → m ≡ n + length xs
    → off + length xs ≤ length base
    → bytes (blit base off xs) head m ≡ bytes base head n ++ xs
unfolding blit
bytes-blit_tail base zero zero xs zero m e f h =
    take-blit_start base xs m (omega arith) (omega arith)
bytes-blit_tail base zero zero xs (suc off) m e f h = absurd (omega arith)
bytes-blit_tail base zero (suc n) xs zero m e f h = absurd (omega arith)
bytes-blit_tail base zero (suc n) xs (suc off) zero e f h = absurd (omega arith)
bytes-blit_tail [] zero (suc n) xs (suc off) (suc m) e f h = absurd (omega arith)
bytes-blit_tail (b ∷ bs) zero (suc n) xs (suc off) (suc m) e f h =
    ap (◌∷◌ b) (bytes-blit_tail bs zero n xs off m (omega arith) (omega arith) (omega arith))
bytes-blit_tail base (suc head) n xs zero m e f h = absurd (omega arith)
bytes-blit_tail [] (suc head) n xs (suc off) m e f h = absurd (omega arith)
bytes-blit_tail (b ∷ bs) (suc head) n xs (suc off) m e f h =
    bytes-blit_tail bs head n xs off m (omega arith) f (omega arith)

-- Writing in front of them.
pub bytes-blit_front :
    (base : List ℕ) (off n : ℕ) (xs : List ℕ) (head m : ℕ)
    → head ≡ off + length xs
    → m ≡ length xs + n
    → head ≤ length base
    → bytes (blit base off xs) off m ≡ xs ++ bytes base head n
unfolding blit
bytes-blit_front [] zero n [] zero m e f h = ap (λ k. take k []) (omega arith)
bytes-blit_front (b ∷ bs) zero n [] zero m e f h = ap (λ k. take k (b ∷ bs)) (omega arith)
bytes-blit_front base zero n [] (suc head) m e f h = absurd (omega arith)
bytes-blit_front base zero n (x ∷ xs) zero m e f h = absurd (omega arith)
bytes-blit_front base zero n (x ∷ xs) (suc head) zero e f h = absurd (omega arith)
bytes-blit_front [] zero n (x ∷ xs) (suc head) (suc m) e f h = absurd (omega arith)
bytes-blit_front (b ∷ bs) zero n (x ∷ xs) (suc head) (suc m) e f h =
    ap (◌∷◌ x) (bytes-blit_front bs zero n xs head m (omega arith) (omega arith) (omega arith))
bytes-blit_front base (suc off) n xs zero m e f h = absurd (omega arith)
bytes-blit_front [] (suc off) n xs (suc head) m e f h = absurd (omega arith)
bytes-blit_front (b ∷ bs) (suc off) n xs (suc head) m e f h =
    bytes-blit_front bs off n xs head m (omega arith) f (omega arith)

drop_nil : (n : ℕ) → drop {A = ℕ} n [] ≡ []
drop_nil zero = refl
drop_nil (suc n) = refl

take_nil : (n : ℕ) → take {A = ℕ} n [] ≡ []
take_nil zero = refl
take_nil (suc n) = refl

-- Reading on.
pub drop-bytes :
    (base : List ℕ) (head n k next m : ℕ)
    → next ≡ head + k
    → m ≡ n - k
    → drop k (bytes base head n) ≡ bytes base next m
drop-bytes [] head n k next m e f =
    ap (λ xs. drop k (take n xs)) (drop_nil head)
    ∙ ap (drop k) (take_nil n)
    ∙ drop_nil k
    ∙ sym (ap (take m) (drop_nil next) ∙ take_nil m)
drop-bytes (b ∷ bs) zero n zero zero m e f = ap (λ k. take k (b ∷ bs)) (omega arith)
drop-bytes (b ∷ bs) zero n zero (suc next) m e f = absurd (omega arith)
drop-bytes (b ∷ bs) zero n (suc k) zero m e f = absurd (omega arith)
drop-bytes (b ∷ bs) zero zero (suc k) (suc next) zero e f = refl
drop-bytes (b ∷ bs) zero zero (suc k) (suc next) (suc m) e f = absurd (omega arith)
drop-bytes (b ∷ bs) zero (suc n) (suc k) (suc next) m e f =
    drop-bytes bs zero n k next m (omega arith) (omega arith)
drop-bytes (b ∷ bs) (suc head) n k zero m e f = absurd (omega arith)
drop-bytes (b ∷ bs) (suc head) n k (suc next) m e f = drop-bytes bs head n k next m (omega arith) f

pub take-bytes :
    (base : List ℕ) (head n k : ℕ) → k ≤ n → take k (drop head base) ≡ take k (bytes base head n)
take-bytes base head n zero h = refl
take-bytes base head zero (suc k) h = absurd (omega arith)
take-bytes base head (suc n) (suc k) h = shorter (drop head base) n k (omega arith)
  where
    shorter : (xs : List ℕ) (n k : ℕ) → k ≤ n → take (suc k) xs ≡ take (suc k) (take (suc n) xs)
    shorter [] n k h = refl
    shorter (x ∷ xs) n zero h = refl
    shorter (x ∷ xs) zero (suc k) h = absurd (omega arith)
    shorter (x ∷ xs) (suc n) (suc k) h = ap (◌∷◌ x) (shorter xs n k (omega arith))

pub bytes-append :
    (base room : List ℕ) (head n : ℕ)
    → head + n ≤ length base
    → bytes (base ++ room) head n ≡ bytes base head n
bytes-append base room zero zero h = refl
bytes-append [] room zero (suc n) h = absurd (omega arith)
bytes-append (b ∷ bs) room zero (suc n) h = ap (◌∷◌ b) (bytes-append bs room zero n (omega arith))
bytes-append [] room (suc head) zero h = absurd (omega arith)
bytes-append [] room (suc head) (suc n) h = absurd (omega arith)
bytes-append (b ∷ bs) room (suc head) n h = bytes-append bs room head n (omega arith)

pub length-bytes :
    (base : List ℕ) (head n : ℕ) → head + n ≤ length base → length (bytes base head n) ≡ n
length-bytes base head n h = omega (arith, length-take n (drop head base), length-drop head base, h)

-- The next byte.
pub bytes-next :
    (base : List ℕ) (head n next : ℕ)
    → next ≡ head + 1
    → head + suc n ≤ length base
    → (c : ℕ) × (get_elem? base head ≡ some c) × (bytes base head (suc n) ≡ c ∷ bytes base next n)
bytes-next [] head n next e h = absurd (omega arith)
bytes-next (b ∷ bs) zero n (suc zero) e h = (b, refl, refl)
bytes-next (b ∷ bs) zero n zero e h = absurd (omega arith)
bytes-next (b ∷ bs) zero n (suc (suc next)) e h = absurd (omega arith)
bytes-next (b ∷ bs) (suc head) n zero e h = absurd (omega arith)
bytes-next (b ∷ bs) (suc head) n (suc next) e h =
    bytes-next bs head n next (omega arith) (omega arith)
