-- ===== src/Segment/Transport.antt =====
-- src/segment/transport.rs: reading the name of a transport protocol. The source tests the bytes; a
-- character outside ASCII has only bytes above 127, which fail as its code does.
use Prim.Native.String.{String, [], ◌∷◌}
use Prim.Native.Char.{Char, char}
use cakemaster.Base.{
  ℕ, Bool, true, not, ◌&&◌, ◌||◌, Option, none, some, if◌then◌else◌, leb, eqb, ◌==◌, ◌≡◌, arith,
}
use cakemaster.Identity.{string_eq}
use cakemaster.Segment.Types.{TransportProtocol, tcp, rdma, cxl, nvme_of, custom, as_str}

abbrev code : Char → ℕ
code (char n p) = n

-- A lowercase letter, a digit, `_` or `-`.
abbrev is_protocol_char : Char → Bool
is_protocol_char c =
    leb 97 (code c) && leb (code c) 122
    || leb 48 (code c) && leb (code c) 57
    || eqb (code c) 95
    || eqb (code c) 45

abbrev pub all_protocol_chars : String → Bool
all_protocol_chars [] = true
all_protocol_chars (c ∷ s) = is_protocol_char c && all_protocol_chars s

unfoldable pub parse_protocol : String → Option TransportProtocol
parse_protocol protocol =
    if protocol == "" || not (all_protocol_chars protocol)
    then none
    else if protocol == "tcp"
    then some tcp
    else if protocol == "rdma"
    then some rdma
    else if protocol == "cxl"
    then some cxl
    else if protocol == "nvmeof"
    then some nvme_of
    else some (custom protocol)

-- When a name is read as a protocol, writing the protocol gives the name back.
pub parse_protocol-as_str :
    (s : String) (p : TransportProtocol) → parse_protocol s ≡ some p → as_str p ≡ s
unfolding parse_protocol
parse_protocol-as_str s p h = ground (
  arith,
  string_eq.equal_iff s "tcp",
  string_eq.equal_iff s "rdma",
  string_eq.equal_iff s "cxl",
  string_eq.equal_iff s "nvmeof",
)
