-- ===== src/Dhcp/Message.antt =====
-- The messages of mydhcp/common.h, and their twelve bytes on the wire. An address is the number that
-- its bytes spell in network order; the programs only copy and compare addresses.
use unix_sys_prog.Base.{
  ℕ, ◌+◌, ◌*◌, ◌/◌, ◌%◌, ◌^◌, ◌<◌, ◌≡◌, Bool, ◌&&◌, List, [], ◌∷◌, Option, none, some, arith, ltb,
  if◌then◌else◌, true, refl,
}

abbrev pub type_discover : ℕ
type_discover = 1

abbrev pub type_offer : ℕ
type_offer = 2

abbrev pub type_request : ℕ
type_request = 3

abbrev pub type_ack : ℕ
type_ack = 4

abbrev pub type_release : ℕ
type_release = 5

abbrev pub code_ok : ℕ
code_ok = 0

abbrev pub code_err_noip : ℕ
code_err_noip = 1

abbrev pub code_req_alloc : ℕ
code_req_alloc = 2

abbrev pub code_req_ext : ℕ
code_req_ext = 3

abbrev pub code_err_req : ℕ
code_err_req = 4

abbrev pub message_timeout : ℕ
message_timeout = 10

pub record Message : Type 0 where
  pub type : ℕ
  pub code : ℕ
  pub ttl : ℕ
  pub ipaddr : ℕ
  pub netmask : ℕ

-- `memset(&msg, 0, …)` and the two fields that every sender sets.
abbrev pub message : ℕ → ℕ → Message
message t c = record { type = t; code = c; ttl = 0; ipaddr = 0; netmask = 0 }

-- The fields fit their C types.
pub record IsMessage (m : Message) : Type 0 where
  pub type_byte : m.type < 2 ^ 8
  pub code_byte : m.code < 2 ^ 8
  pub ttl_short : m.ttl < 2 ^ 16
  pub ipaddr_word : m.ipaddr < 2 ^ 32
  pub netmask_word : m.netmask < 2 ^ 32

abbrev pub short_bytes : ℕ → List ℕ → List ℕ
short_bytes n rest = (n / 2 ^ 8 % 2 ^ 8) ∷ (n % 2 ^ 8) ∷ rest

abbrev pub word_bytes : ℕ → List ℕ → List ℕ
word_bytes n rest = short_bytes (n / 2 ^ 16) (short_bytes (n % 2 ^ 16) rest)

-- `sendto` of `data`, with `ttl` through `htons`.
unfoldable pub encode : Message → List ℕ
encode m =
    (m.type % 2 ^ 8)
    ∷ (m.code % 2 ^ 8)
    ∷ short_bytes m.ttl (word_bytes m.ipaddr (word_bytes m.netmask []))

abbrev pub short_of : ℕ → ℕ → ℕ
short_of a b = a * 2 ^ 8 + b

abbrev pub word_of : ℕ → ℕ → ℕ → ℕ → ℕ
word_of a b c d = short_of a b * 2 ^ 16 + short_of c d

-- `memcpy` into the union and `ntohs`, for a datagram of twelve bytes and no other.
unfoldable pub decode : List ℕ → Option Message
decode (t ∷ c ∷ l1 ∷ l0 ∷ a ∷ b ∷ d ∷ e ∷ f ∷ g ∷ h ∷ i ∷ []) = some (record {
  type = t;
  code = c;
  ttl = short_of l1 l0;
  ipaddr = word_of a b d e;
  netmask = word_of f g h i;
})
decode _ = none

-- `get_msg` prints the names of type and code from tables of 6 and of 5 entries.
abbrev pub has_names : Message → Bool
has_names m = ltb m.type 6 && ltb m.code 5

-- What `get_msg` makes of a call of `recvfrom`.
pub data Received : Type 0 where
  nothing : Received
  unknown : Received
  bad_index : Received
  arrived : Message → Received

-- `recvfrom` failed (no datagram), or gave these bytes. A type or a code without a name is printed
-- through an index out of range.
unfoldable pub get_msg : Option (List ℕ) → Received
get_msg none = nothing
get_msg (some []) = nothing
get_msg (some (b ∷ bs)) = elim (decode (b ∷ bs)) [
  | none ↦ unknown
  | some m ↦ if has_names m then arrived m else bad_index
]

-- What one side sends the other reads: a message whose fields fit their types is decoded from its
-- bytes as it was.
pub decode-encode : (m : Message) → IsMessage m → decode (encode m) ≡ some m
unfolding decode encode
decode-encode m v = ground arith

get_msg-decode :
    (b : ℕ) (bs : List ℕ) (m : Message)
    → decode (b ∷ bs) ≡ some m
    → has_names m ≡ true
    → get_msg (some (b ∷ bs)) ≡ arrived m
unfolding get_msg
get_msg-decode b bs m h named = rw (h, get_msg) (rw named refl)

-- So `get_msg` gives it to the program, if its type and its code have names.
pub get_msg-encode :
    (m : Message) → IsMessage m → has_names m ≡ true → get_msg (some (encode m)) ≡ arrived m
unfolding encode
get_msg-encode m v named = get_msg-decode _ _ m (decode-encode m v) named
