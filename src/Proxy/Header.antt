-- ===== src/Proxy/Header.antt =====
-- proxy/main.c, the header in front of each packet of a multiplexed connection.
use testbus.Base.{
  ℕ, ◌+◌, ◌*◌, ◌/◌, ◌%◌, ◌^◌, ◌≤◌, ◌<◌, ◌≡◌, refl, List, [], ◌∷◌, ◌++◌, arith, get_or, length, drop,
  ap, ◌∙◌, zero, suc,
}

-- struct data_header, with its fields in the host's byte order.
pub record Header : Type 0 where
  pub cmd : ℕ
  pub channel : ℕ
  pub count : ℕ

abbrev pub channel_open : ℕ
channel_open = 0

abbrev pub channel_close : ℕ
channel_close = 1

abbrev pub channel_data : ℕ
channel_data = 2

-- DATA_HEADER_SIZE
abbrev pub header_size : ℕ
header_size = 12

-- htonl, as the four bytes that it stores.
unfoldable pub htonl : ℕ → List ℕ
htonl n = (n / 2 ^ 24 % 256) ∷ (n / 2 ^ 16 % 256) ∷ (n / 2 ^ 8 % 256) ∷ (n % 256) ∷ []

-- ntohl, of the four bytes from an offset on.
unfoldable pub ntohl : List ℕ → ℕ → ℕ
ntohl bs i =
    (get_or bs i 0 * 2 ^ 24
      + get_or bs (i + 1) 0 * 2 ^ 16
      + get_or bs (i + 2) 0 * 2 ^ 8
      + get_or bs (i + 3) 0)
    % 2 ^ 32

unfoldable pub header_bytes : Header → List ℕ
header_bytes h = htonl h.cmd ++ (htonl h.channel ++ htonl h.count)

unfoldable pub read_header : List ℕ → Header
read_header bs = record { cmd = ntohl bs 0; channel = ntohl bs 4; count = ntohl bs 8 }

-- `ntohl(hdr->count) + DATA_HEADER_SIZE`, an unsigned int.
unfoldable pub packet_size : List ℕ → ℕ
packet_size bs = ((read_header bs).count + header_size) % 2 ^ 32

abbrev pub IsWord : Header → Type 0
IsWord h = (h.cmd < 2 ^ 32) × (h.channel < 2 ^ 32) × (h.count < 2 ^ 32)

-- The value of the four bytes that htonl stores.
abbrev value : ℕ → ℕ
value n =
    (n / 2 ^ 24 % 256 * 2 ^ 24 + n / 2 ^ 16 % 256 * 2 ^ 16 + n / 2 ^ 8 % 256 * 2 ^ 8 + n % 256)
    % 2 ^ 32

value_lem : (n : ℕ) → n < 2 ^ 32 → value n ≡ n
value_lem n h = omega arith

abbrev header : ℕ → ℕ → ℕ → Header
header a b c = record { cmd = a; channel = b; count = c }

-- A header is read back from its bytes, whatever follows them.
pub read-header_bytes :
    (h : Header) (xs : List ℕ) → IsWord h → read_header (header_bytes h ++ xs) ≡ h
unfolding read_header header_bytes htonl ntohl
read-header_bytes h xs w =
    ap (λ n. header n (value h.channel) (value h.count)) (value_lem h.cmd w.0)
    ∙ ap (λ n. header h.cmd n (value h.count)) (value_lem h.channel w.1)
    ∙ ap (λ n. header h.cmd h.channel n) (value_lem h.count w.2)

pub length-header_bytes : (h : Header) → length (header_bytes h) ≡ header_size
unfolding header_bytes htonl
length-header_bytes h = refl

pub drop-header_bytes : (h : Header) (xs : List ℕ) → drop header_size (header_bytes h ++ xs) ≡ xs
unfolding header_bytes htonl
drop-header_bytes h xs = refl

get_or-append : (xs ys : List ℕ) (i : ℕ) → i < length xs → get_or (xs ++ ys) i 0 ≡ get_or xs i 0
get_or-append [] ys i h = absurd (omega arith)
get_or-append (x ∷ xs) ys zero h = refl
get_or-append (x ∷ xs) ys (suc i) h = get_or-append xs ys i (omega arith)

pub packet_size_lt : (bs : List ℕ) → packet_size bs < 2 ^ 32
unfolding packet_size
packet_size_lt bs = omega arith

-- The size of a packet stands in its header.
pub packet_size-append :
    (bs xs : List ℕ) → header_size ≤ length bs → packet_size (bs ++ xs) ≡ packet_size bs
unfolding packet_size read_header ntohl
packet_size-append bs xs h =
    rw
      (
        get_or-append bs xs 8 (omega (arith, h)),
        get_or-append bs xs 9 (omega (arith, h)),
        get_or-append bs xs 10 (omega (arith, h)),
        get_or-append bs xs 11 (omega (arith, h)),
      )
      refl
