-- ===== src/Entities/Addr.antt =====
-- internal/core/entities/addr: an IPv4 address and a port. The tests on addresses are those of
-- Go's package net, written out for the four bytes of an IPv4 address.
pub mod Keys
pub mod Read
use swat4master.Prelude.{
  ℕ, Bool, ◌&&◌, ◌||◌, not, Option, none, some, [], ◌∷◌, ◌++◌, leb, ◌==◌, if◌then◌else◌,
}
use swat4master.Prelude.Int.{ℤ, pos, ltℤ, eqℤ}
use swat4master.Prelude.Bytes.{Bytes, codes, beq}
use swat4master.Prelude.Text.{cut}
use swat4master.Strconv.{atoi, format_number, format_int}

-- `[4]byte`
pub record Ip4 : Type 0 where
  pub b0 : ℕ
  pub b1 : ℕ
  pub b2 : ℕ
  pub b3 : ℕ

pub record Addr : Type 0 where
  pub ip : Ip4
  pub port : ℤ

abbrev pub eq_ip : Ip4 → Ip4 → Bool
eq_ip a b = a.b0 == b.b0 && a.b1 == b.b1 && a.b2 == b.b2 && a.b3 == b.b3

-- `a == b` on the struct
abbrev pub eq_addr : Addr → Addr → Bool
eq_addr a b = eq_ip a.ip b.ip && eqℤ a.port b.port

pub data AddrError : Type 0 where
  invalid_ip invalid_port invalid_public_ip : AddrError

pub data Result (A : Type 0) : Type 0 where
  ok : A → Result A
  err : AddrError → Result A

abbrev pub max_port : ℤ
max_port = pos 65535

-- `port < 1 || port > 65535`
abbrev pub port_out_of_range : ℤ → Bool
port_out_of_range port = ltℤ port (pos 1) || ltℤ max_port port

unfoldable pub is_loopback : Ip4 → Bool
is_loopback ip = ip.b0 == 127

unfoldable pub is_private : Ip4 → Bool
is_private ip =
    ip.b0 == 10
    || (ip.b0 == 172 && (leb 16 ip.b1 && leb ip.b1 31))
    || (ip.b0 == 192 && ip.b1 == 168)

-- not broadcast, unspecified, loopback, multicast or link-local
unfoldable pub is_global_unicast : Ip4 → Bool
unfolding is_loopback
is_global_unicast ip =
    not (ip.b0 == 255 && ip.b1 == 255 && ip.b2 == 255 && ip.b3 == 255)
    && not (ip.b0 == 0 && ip.b1 == 0 && ip.b2 == 0 && ip.b3 == 0)
    && not (is_loopback ip)
    && not (leb 224 ip.b0 && leb ip.b0 239)
    && not (ip.b0 == 169 && ip.b1 == 254)

-- `net.IP.To4`: 4 bytes, or 16 with the IPv4-in-IPv6 prefix; a nil slice for anything else
unfoldable pub to4 : Bytes → Option Ip4
to4 (a ∷ b ∷ c ∷ d ∷ []) = some (record { b0 = a; b1 = b; b2 = c; b3 = d })
to4 (z0 ∷ z1 ∷ z2 ∷ z3 ∷ z4 ∷ z5 ∷ z6 ∷ z7 ∷ z8 ∷ z9 ∷ f0 ∷ f1 ∷ a ∷ b ∷ c ∷ d ∷ []) =
    if beq (z0 ∷ z1 ∷ z2 ∷ z3 ∷ z4 ∷ z5 ∷ z6 ∷ z7 ∷ z8 ∷ z9 ∷ f0 ∷ f1 ∷ [])
      (0 ∷ 0 ∷ 0 ∷ 0 ∷ 0 ∷ 0 ∷ 0 ∷ 0 ∷ 0 ∷ 0 ∷ 255 ∷ 255 ∷ [])
    then some (record { b0 = a; b1 = b; b2 = c; b3 = d })
    else none
to4 _ = none

abbrev pub accept_ip : ℤ → Option Ip4 → Result Addr
accept_ip port none = err invalid_ip
accept_ip port (some ip) =
    if not (is_global_unicast ip) && not (is_private ip) && not (is_loopback ip)
    then err invalid_ip
    else ok (record { ip = ip; port = port })

-- addr.New
unfoldable pub new_addr : Bytes → ℤ → Result Addr
unfolding to4 is_global_unicast is_private is_loopback
new_addr ip port = if port_out_of_range port then err invalid_port else accept_ip port (to4 ip)

-- NewFromDotted; `parse_ip` is net.ParseIP, whose nil is the empty string
abbrev pub new_from_dotted : (Bytes → Bytes) → Bytes → ℤ → Result Addr
new_from_dotted parse_ip ip port = new_addr (parse_ip ip) port

abbrev pub with_port_number : (Bytes → Bytes) → Bytes → Option ℤ → Result Addr
with_port_number parse_ip ip none = err invalid_port
with_port_number parse_ip ip (some port) = new_from_dotted parse_ip ip port

abbrev pub from_parts : (Bytes → Bytes) → Option (Bytes × Bytes) → Result Addr
from_parts parse_ip none = err invalid_ip
from_parts parse_ip (some ([], port)) = err invalid_ip
from_parts parse_ip (some (c ∷ ip, [])) = err invalid_ip
from_parts parse_ip (some (c ∷ ip, d ∷ port)) = with_port_number parse_ip (c ∷ ip) (atoi (d ∷ port))

unfoldable pub new_from_string : (Bytes → Bytes) → Bytes → Result Addr
new_from_string parse_ip text = from_parts parse_ip (cut 58 text)

abbrev pub get_ip : Addr → Bytes
get_ip a = a.ip.b0 ∷ a.ip.b1 ∷ a.ip.b2 ∷ a.ip.b3 ∷ []

unfoldable pub get_dotted_ip : Addr → Bytes
get_dotted_ip a =
    format_number a.ip.b0
    ++ (codes "."
        ++ (format_number a.ip.b1
            ++ (codes "." ++ (format_number a.ip.b2 ++ (codes "." ++ format_number a.ip.b3)))))

-- Addr.String
unfoldable pub addr_string : Addr → Bytes
unfolding get_dotted_ip
addr_string a = get_dotted_ip a ++ (codes ":" ++ format_int a.port)

pub record PublicAddr : Type 0 where
  pub addr : Addr

unfoldable pub new_public_addr : Addr → Result PublicAddr
unfolding is_private is_loopback
new_public_addr addr =
    if is_private addr.ip || is_loopback addr.ip
    then err invalid_public_ip
    else ok (record { addr = addr })
