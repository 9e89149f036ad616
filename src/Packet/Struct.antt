-- ===== src/Packet/Struct.antt =====
-- The types and constants of src/packet_implem.h, and `struct pkt` of src/packet_implem.c.
use projet_trtp.Base.{ℕ, Bool, List, Option, none, some, ◌==◌, if◌then◌else◌}

abbrev pub max_payload_size : ℕ
max_payload_size = 512

abbrev pub max_window_size : ℕ
max_window_size = 31

abbrev pub pkt_max_len : ℕ
pkt_max_len = 528

-- `offsetof(pkt_t, payload)`: the packed bit fields before `payload` take 96 bits.
abbrev pub pkt_max_headerlen : ℕ
pkt_max_headerlen = 12

-- `sizeof(pkt_t)`, with a pointer of eight bytes.
abbrev pub sizeof_pkt : ℕ
sizeof_pkt = 24

pub data Ptypes : Type 0 where
  ptype_fec ptype_data ptype_ack ptype_nack : Ptypes

-- The value of an enumerator.
abbrev pub type_code : Ptypes → ℕ
type_code ptype_fec = 0
type_code ptype_data = 1
type_code ptype_ack = 2
type_code ptype_nack = 3

-- `a == b` on enumerators.
abbrev pub type_is : Ptypes → Ptypes → Bool
type_is a b = type_code a == type_code b

-- The enumerator with a value, if there is one.
unfoldable pub ptype_of : ℕ → Option Ptypes
ptype_of n =
    if n == 0
    then some ptype_fec
    else if n == 1
    then some ptype_data
    else if n == 2
    then some ptype_ack
    else if n == 3
    then some ptype_nack
    else none

pub data StatusCode : Type 0 where
  pkt_ok e_type e_tr e_length e_crc e_window e_seqnum e_nomem e_noheader e_unconsistent : StatusCode

-- The pointer `payload`: NULL, a block of the heap that the packet owns, or a block that has been
-- freed while the pointer stayed.
pub data Payload : Type 0 where
  null : Payload
  block : List ℕ → Payload
  freed : Payload

-- `struct pkt`. The bit fields are numbers; `IsPkt` of `Access` states their widths.
pub record Pkt : Type 0 where
  pub type : Ptypes
  pub tr : ℕ
  pub window : ℕ
  pub length : ℕ
  pub seqnum : ℕ
  pub timestamp : ℕ
  pub crc1 : ℕ
  pub payload : Payload
  pub crc2 : ℕ

-- The C library and zlib: whether `malloc` finds a block of a size, and the CRC of some bytes.
pub record Libs : Type 0 where
  pub malloc : ℕ → Bool
  pub crc32 : List ℕ → ℕ
