-- ===== src/Entities/Addr/Read.antt =====
-- That the string of an address is read back.
use swat4master.Prelude.{
  ◌≡◌, refl, ap, ◌∙◌, ℕ, suc, Bool, true, false, some, [], ◌∷◌, ◌++◌, arith, ◌||◌,
}
use swat4master.Prelude.Int.{ℤ, pos, negsuc}
use swat4master.Prelude.Bytes.{Bytes}
use swat4master.Prelude.Text.{free_of, cut-free_of}
use swat4master.Strconv.{atoi, format_number, format_int}
use swat4master.Strconv.Decimal.{InInt64, atoi-format_int, print_fuel-head}
use swat4master.Entities.Addr.{
  Ip4, Addr, get_dotted_ip, addr_string, to4, port_out_of_range, new_addr, new_from_string,
  from_parts, with_port_number, is_global_unicast, is_private, is_loopback, accept_ip, ok,
}
use swat4master.Entities.Addr.Keys.{digits, digits-format_number}

free_of-append :
    (b : ℕ) (x y : Bytes) → free_of b x ≡ true → free_of b y ≡ true → free_of b (x ++ y) ≡ true
free_of-append b [] y h k = k
free_of-append b (c ∷ x) y h k = ground (arith, free_of-append b x y)

free_of-digits : (x : Bytes) → digits x ≡ true → free_of 58 x ≡ true
free_of-digits [] h = refl
free_of-digits (c ∷ x) h = ground (arith, free_of-digits x)

free_of-number : (n : ℕ) → free_of 58 (format_number n) ≡ true
free_of-number n = free_of-digits (format_number n) (digits-format_number n)

free_of-dotted : (a : Addr) → free_of 58 (get_dotted_ip a) ≡ true
unfolding get_dotted_ip
free_of-dotted a =
    let number : (n : ℕ) (y : Bytes)
        → free_of 58 y ≡ true
        → free_of 58 (format_number n ++ 46 ∷ y) ≡ true =
      λ n y h. free_of-append 58 (format_number n) (46 ∷ y) (free_of-number n) (ground arith) in
    number a.ip.b0 _ (number a.ip.b1 _ (number a.ip.b2 _ (free_of-number a.ip.b3)))

-- the IP address is one that `New` accepts
abbrev pub is_usable : Ip4 → Bool
is_usable ip = is_global_unicast ip || is_private ip || is_loopback ip

accept_ip-usable :
    (port : ℤ) (ip : Ip4)
    → is_usable ip ≡ true
    → accept_ip port (some ip) ≡ ok (record { ip = ip; port = port })
accept_ip-usable port ip h = ground arith

shape_number : (n : ℕ) → (c : ℕ) × (x : Bytes) × (format_number n ≡ c ∷ x)
unfolding format_number
shape_number n = let (c, x, e, digit) = print_fuel-head (suc n) n (omega arith) in (c, x, e)

shape_dotted : (a : Addr) → (c : ℕ) × (x : Bytes) × (get_dotted_ip a ≡ c ∷ x)
unfolding get_dotted_ip
shape_dotted a =
    let (c, x, e) = shape_number a.ip.b0 in
    let rest : Bytes =
      46 ∷ (format_number a.ip.b1 ++ 46 ∷ (format_number a.ip.b2 ++ 46 ∷ format_number a.ip.b3)) in
    (c, x ++ rest, ap (λ l. l ++ rest) e)

shape_int : (i : ℤ) → (c : ℕ) × (x : Bytes) × (format_int i ≡ c ∷ x)
unfolding format_int
shape_int (pos n) = shape_number n
shape_int (negsuc n) = (45, format_number (suc n), refl)

in_int64 : (i : ℤ) → port_out_of_range i ≡ false → InInt64 i
in_int64 (pos n) h = ground arith
in_int64 (negsuc n) h = ground arith

from_parts_both :
    (parse_ip : Bytes → Bytes) (ip port : Bytes) (c d : ℕ) (x y : Bytes)
    → ip ≡ c ∷ x
    → port ≡ d ∷ y
    → from_parts parse_ip (some (ip, port)) ≡ with_port_number parse_ip ip (atoi port)
from_parts_both parse_ip ip port c d x y e f = rw (e, f) refl

-- An address with a port in range and an IP address that can be used is read back from its string, if
-- net.ParseIP reads back dotted IP addresses.
pub new_from_string-addr_string :
    (parse_ip : Bytes → Bytes) (a : Addr)
    → to4 (parse_ip (get_dotted_ip a)) ≡ some a.ip
    → port_out_of_range a.port ≡ false
    → is_usable a.ip ≡ true
    → new_from_string parse_ip (addr_string a) ≡ ok a
unfolding new_from_string addr_string new_addr
new_from_string-addr_string parse_ip a parsed in_range usable =
    let (c, x, e) = shape_dotted a in
    let (d, y, f) = shape_int a.port in
    ap (from_parts parse_ip)
      (cut-free_of 58 (get_dotted_ip a) (format_int a.port) (free_of-dotted a))
    ∙ from_parts_both parse_ip (get_dotted_ip a) (format_int a.port) c d x y e f
    ∙ ap (with_port_number parse_ip (get_dotted_ip a))
        (atoi-format_int a.port (in_int64 a.port in_range))
    ∙ rw (in_range, parsed) (accept_ip-usable a.port a.ip usable)
