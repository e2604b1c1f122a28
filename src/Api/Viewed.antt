-- ===== src/Api/Viewed.antt =====
-- What is answered to a request for one server.
use swat4master.Prelude.{
  ◌≡◌, refl, sym, ap, ◌∙◌, subst, true, false, Option, none, some, Bool-cases, inl, inr,
  if◌then◌else◌, arith,
}
use swat4master.Prelude.Bytes.{Bytes}
use swat4master.Redis.{Redis, Codec}
use swat4master.Entities.Addr
use swat4master.Entities.Addr.{
  Addr, PublicAddr, addr_string, get_dotted_ip, to4, port_out_of_range, is_global_unicast,
  is_private, is_loopback, new_public_addr, new_from_string,
}
use swat4master.Entities.Addr.Read.{is_usable, new_from_string-addr_string}
use swat4master.Entities.Server.{Server, has_discovery_status}
use swat4master.Entities.Status
use swat4master.Servers
use swat4master.GetServer
use swat4master.Api.{
  Response, parse_view_server_address, public_addr, respond, server_detail, viewed, view_at,
  view_server,
}

new_public_addr_lem :
    (a : Addr)
    → is_private a.ip ≡ false
    → is_loopback a.ip ≡ false
    → new_public_addr a ≡ Addr.ok (record { addr = a })
unfolding new_public_addr
new_public_addr_lem a p l = rw (p, l) refl

-- the response to the item that is stored, by what it decodes to
abbrev pub Decoded : Option Server → Response → Type 0
Decoded none response = response ≡ respond 200
Decoded (some svr) response = response ≡ (
    if has_discovery_status svr Status.details
    then record { status = 200; body = server_detail svr }
    else respond 204)

module _ (r : Redis) (json : Codec Server) where
  -- the response by what is stored under the key of the address
  abbrev pub IsAnswer : Option Bytes → Response → Type 0
  IsAnswer none response = response ≡ respond 404
  IsAnswer (some item) response = Decoded (json.decode item) response

  decoded-Decoded :
      (d : Option Server) → Decoded d (viewed (GetServer.with_details (Servers.decoded r json d)))
  decoded-Decoded none = refl
  decoded-Decoded (some svr) = elim (Bool-cases (has_discovery_status svr Status.details)) [
    | inl with ↦ rw with refl
    | inr without ↦ rw without refl
  ]

  viewed-IsAnswer :
      (found : Option Bytes)
      → IsAnswer found (viewed (GetServer.with_details (Servers.fetched r json found)))
  viewed-IsAnswer none = refl
  viewed-IsAnswer (some item) = decoded-Decoded (json.decode item)

  -- If net.ParseIP reads back dotted IP addresses, a request for a public address, with a port in
  -- range, by its string is answered by what is stored under this string: 404 if nothing is, 200
  -- with the server if it has details, 204 if it has none, and 200 without a body if the item
  -- cannot be decoded.
  pub view_server-IsAnswer :
      (parse_ip : Bytes → Bytes) (c : Servers.Contents r json) (a : Addr)
      → to4 (parse_ip (get_dotted_ip a)) ≡ some a.ip
      → port_out_of_range a.port ≡ false
      → is_global_unicast a.ip ≡ true
      → is_private a.ip ≡ false
      → is_loopback a.ip ≡ false
      → IsAnswer (r.hget c.items (addr_string a)) (view_server r json parse_ip c (addr_string a))
  unfolding view_server parse_view_server_address GetServer.execute Servers.get
  view_server-IsAnswer parse_ip c a parsed in_range unicast outside apart =
      let usable : is_usable a.ip ≡ true = ground arith in
      let read : public_addr (new_from_string parse_ip (addr_string a))
          ≡ Addr.ok (record { addr = a }) =
        ap public_addr (new_from_string-addr_string parse_ip a parsed in_range usable)
        ∙ new_public_addr_lem a outside apart in
      subst (λ p. IsAnswer (r.hget c.items (addr_string a)) (view_at r json parse_ip c p))
        (sym read) (viewed-IsAnswer (r.hget c.items (addr_string a)))
