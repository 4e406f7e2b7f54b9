-- ===== src/Outbound/Address.antt =====
-- net.IP as its bytes, four or sixteen, with what outbound.go asks of it; a nil address has no
-- bytes. A division or a remainder stands for Go's test of the upper or lower bits of a byte.
use labtether_agent.Common.{
  ℕ, ◌/◌, ◌%◌, Bool, true, false, ◌&&◌, ◌||◌, Option, none, some, List, [], ◌∷◌, ◌==◌, get_or,
  if◌then◌else◌, length,
}
use labtether_agent.Common.Text.Search.{strip_prefix}
use labtether_agent.Common.Text.Compare.{same}

abbrev pub Ip : Type 0
Ip = List ℕ

abbrev pub is_nil : Ip → Bool
is_nil [] = true
is_nil (b ∷ ip) = false

abbrev v4_in_v6 : List ℕ
v4_in_v6 = 0 ∷ 0 ∷ 0 ∷ 0 ∷ 0 ∷ 0 ∷ 0 ∷ 0 ∷ 0 ∷ 0 ∷ 255 ∷ 255 ∷ []

abbrev v6_loopback : Ip
v6_loopback = 0 ∷ 0 ∷ 0 ∷ 0 ∷ 0 ∷ 0 ∷ 0 ∷ 0 ∷ 0 ∷ 0 ∷ 0 ∷ 0 ∷ 0 ∷ 0 ∷ 0 ∷ 1 ∷ []

-- IP.To4: an IPv4 address written in four bytes or mapped into sixteen
unfoldable pub to_4 : Ip → Option Ip
unfolding strip_prefix
to_4 ip =
    if length ip == 4 then some ip else if length ip == 16 then strip_prefix v4_in_v6 ip else none

abbrev byte : Ip → ℕ → ℕ
byte ip i = get_or ip i 0

-- IP.IsLoopback
unfoldable pub is_loopback : Ip → Bool
unfolding to_4 same
is_loopback ip = elim (to_4 ip) [ some v4 ↦ byte v4 0 == 127 | none ↦ same ip v6_loopback ]

-- IP.IsPrivate
unfoldable pub is_private : Ip → Bool
unfolding to_4
is_private ip = elim (to_4 ip) [
  | some v4 ↦
      byte v4 0 == 10
      || (byte v4 0 == 172 && byte v4 1 / 16 == 1)
      || (byte v4 0 == 192 && byte v4 1 == 168)
  | none ↦ length ip == 16 && byte ip 0 / 2 == 126
]

-- IP.IsLinkLocalUnicast
unfoldable pub is_link_local_unicast : Ip → Bool
unfolding to_4
is_link_local_unicast ip = elim (to_4 ip) [
  | some v4 ↦ byte v4 0 == 169 && byte v4 1 == 254
  | none ↦ length ip == 16 && byte ip 0 == 254 && byte ip 1 / 64 == 2
]

-- IP.IsLinkLocalMulticast
unfoldable pub is_link_local_multicast : Ip → Bool
unfolding to_4
is_link_local_multicast ip = elim (to_4 ip) [
  | some v4 ↦ byte v4 0 == 224 && byte v4 1 == 0 && byte v4 2 == 0
  | none ↦ length ip == 16 && byte ip 0 == 255 && byte ip 1 % 16 == 2
]

unfoldable pub is_private_ip_address : Ip → Bool
unfolding is_private is_link_local_unicast is_link_local_multicast
is_private_ip_address ip =
    if is_nil ip
    then false
    else is_private ip || is_link_local_unicast ip || is_link_local_multicast ip
