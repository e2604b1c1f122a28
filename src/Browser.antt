-- ===== src/Browser.antt =====
-- internal/browser: the answer to a request for the list of servers.
pub mod Reader
pub mod Packed
pub mod Answered
pub mod Examples
use swat4master.Prelude.{
  ℕ, ◌+◌, ◌-◌, ◌*◌, ◌/◌, ◌%◌, Bool, true, false, Option, none, some, List, [], ◌∷◌, ◌++◌, length,
  take,
}
use swat4master.Prelude.Int.{ℤ, pos, negsuc}
use swat4master.Prelude.Bytes.{Bytes, codes, find}
use swat4master.Redis.{Redis, Codec}
use swat4master.Params.{ParamMap, marshal}
use swat4master.Entities.Addr.{Ip4, to4, get_ip}
use swat4master.Entities.Status
use swat4master.Entities.Server.{Server, Time}
use swat4master.Crypt.{encrypt}
use swat4master.Servers
use swat4master.ListServers
use swat4master.ListServers.{Listed, listed, unable_to_obtain_servers}
use swat4master.Browsing
use swat4master.Browsing.{Request, RequestError}
use swat4master.Browsing.Query
use swat4master.Browsing.Query.{Query}

-- the client, a *net.TCPAddr
pub record Client : Type 0 where
  pub ip : Bytes
  pub port : ℕ

-- copy(payload[:4], ip), where ip may be nil
abbrev pub ip_bytes : Option Ip4 → Bytes
ip_bytes none = 0 ∷ 0 ∷ 0 ∷ 0 ∷ []
ip_bytes (some ip) = ip.b0 ∷ ip.b1 ∷ ip.b2 ∷ ip.b3 ∷ []

-- a uint16, big-endian
abbrev pub put_uint16 : ℕ → Bytes
put_uint16 n = n / 256 % 256 ∷ n % 256 ∷ []

-- the conversion uint16 of an int
abbrev pub to_uint16 : ℤ → ℕ
to_uint16 (pos n) = n % 65536
to_uint16 (negsuc n) = (65535 + 65536 * n - n) % 65536

-- the names, with two null bytes behind each
unfoldable pub declare_fields : List Bytes → Bytes
declare_fields [] = []
declare_fields (field ∷ fields) = field ++ (0 ∷ 0 ∷ declare_fields fields)

abbrev pub or_missing : Option Bytes → Bytes
or_missing none = []
or_missing (some value) = value

-- the values in the order of the names, each between 0xff and a null byte
unfoldable pub put_values : ParamMap → List Bytes → Bytes
put_values params [] = []
put_values params (field ∷ fields) =
    0xff ∷ (or_missing (find field params) ++ (0 ∷ put_values params fields))

unfoldable pub pack_server : Server → List Bytes → Bytes
unfolding put_values marshal
pack_server svr fields =
    0x51
    ∷ (get_ip svr.addr
        ++ (put_uint16 (to_uint16 svr.query_port) ++ put_values (marshal svr.info) fields))

-- `params.Marshal` fails only for a field of another kind, and the info of a server has none
unfoldable pub pack_all : List Server → List Bytes → Bytes
pack_all [] fields = []
pack_all (svr ∷ servers) fields = pack_server svr fields ++ pack_all servers fields

unfoldable pub pack_servers : List Server → Client → List Bytes → Bytes
unfolding to4
pack_servers servers client fields =
    let few = take 255 fields in
    ip_bytes (to4 client.ip)
    ++ (put_uint16 client.port
        ++ (length few % 256
            ∷ 0
            ∷ (declare_fields few
                ++ (pack_all servers few ++ (0x00 ∷ 0xff ∷ 0xff ∷ 0xff ∷ 0xff ∷ [])))))

pub data Answer : Type 0 where
  send : Bytes → Answer
  bad_request : RequestError → Answer
  no_servers cipher_panics : Answer

-- filters that cannot be applied are logged, and the blank query is used
abbrev pub applied : Query.Result Query → Query
applied (Query.ok q) = q
applied (Query.err e) = []

unfoldable pub query_of : Bytes → Query
query_of [] = []
query_of (c ∷ filters) = applied (Query.new_from_string (c ∷ filters))

abbrev pub game_enc_key : Bytes
game_enc_key = codes "tG3j8c"

-- `none` would be a panic of the cipher
abbrev pub sent : Option Bytes → Answer
sent none = cipher_panics
sent (some payload) = send payload

-- `noise` is what the calls of `random.RandInt(1, 255)` returned
module _ (r : Redis) (json : Codec Server) (noise : ℕ → ℕ) (liveness : ℕ) where
  abbrev pub packed : Client → Request → Listed → Answer
  packed client req unable_to_obtain_servers = no_servers
  packed client req (listed servers) =
      sent (encrypt game_enc_key req.challenge noise (pack_servers servers client req.fields))

  abbrev pub requested : Servers.Contents r json → Time → Client → Browsing.Result Request → Answer
  requested c now client (Browsing.err e) = bad_request e
  requested c now client (Browsing.ok req) = packed client req (
      ListServers.execute r json c now (record {
        query = query_of req.filters;
        recentness = liveness;
        discovery_status = Status.master;
      }))

  unfoldable pub process : Servers.Contents r json → Time → Client → Bytes → Answer
  process c now client payload = requested c now client (Browsing.new_request payload)
