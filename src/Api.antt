-- ===== src/Api.antt =====
-- internal/rest/api: the handlers of the API, as functions to the status and the body. The JSON of a
-- server is left to its model (internal/rest/model), so a body carries the server itself. `parse_ip` is
-- net.ParseIP, and the bound request of a submission is an argument. A handler that returns without
-- writing anything leaves 200 and an empty body.
pub mod Viewed
pub mod Listed
pub mod Examples
use swat4master.Prelude.{
  ℕ, ◌++◌, Bool, true, false, Option, none, some, List, [], ◌∷◌, not, if◌then◌else◌,
}
use swat4master.Prelude.Int.{ℤ, pos}
use swat4master.Prelude.Bytes.{Bytes, codes, beq}
use swat4master.Redis.{Redis, Codec}
use swat4master.Entities.Addr
use swat4master.Entities.Addr.{Addr, PublicAddr, new_from_string, new_from_dotted, new_public_addr}
use swat4master.Entities.Server.{Server, Time}
use swat4master.Entities.Status
use swat4master.Servers
use swat4master.Probes
use swat4master.Probes.{QItem}
use swat4master.AddServer
use swat4master.GetServer
use swat4master.ListServers
use swat4master.Browsing.Filter
use swat4master.Browsing.Filter.{Filter, Wanted, new_filter}
use swat4master.Browsing.Query
use swat4master.Browsing.Query.{Query, new_query}

pub data Body : Type 0 where
  no_body invalid_server_address : Body
  server server_detail : Server → Body
  servers : List Server → Body

pub record Response : Type 0 where
  pub status : ℕ
  pub body : Body

abbrev pub respond : ℕ → Response
respond status = record { status = status; body = no_body }

abbrev pub bad_address : Response
bad_address = record { status = 400; body = invalid_server_address }

abbrev pub public_addr : Addr.Result Addr → Addr.Result PublicAddr
public_addr (Addr.err e) = Addr.err e
public_addr (Addr.ok address) = new_public_addr address

unfoldable pub parse_view_server_address : (Bytes → Bytes) → Bytes → Addr.Result PublicAddr
parse_view_server_address parse_ip param = public_addr (new_from_string parse_ip param)

-- the errors that the handler does not name leave the response as it is
abbrev pub viewed : GetServer.Outcome → Response
viewed (GetServer.found svr) = record { status = 200; body = server_detail svr }
viewed GetServer.server_not_found = respond 404
viewed GetServer.server_has_no_details = respond 204
viewed GetServer.unable_to_obtain_server = respond 200

-- the IP and the port of the request; `none` if it cannot be bound
abbrev pub parse_add_server_address : (Bytes → Bytes) → Option (Bytes × ℤ) → Addr.Result PublicAddr
parse_add_server_address parse_ip none = Addr.err Addr.invalid_ip
parse_add_server_address parse_ip (some (ip, port)) = public_addr (new_from_dotted parse_ip ip port)

abbrev pub submitted : AddServer.Outcome → Response
submitted (AddServer.present svr) = record { status = 200; body = server svr }
submitted AddServer.unable_to_create_server = respond 500
submitted AddServer.unable_to_discover_server = respond 500
submitted AddServer.discovery_in_progress = respond 202
submitted AddServer.no_queryable_port = respond 410

pub record ServerFilterForm : Type 0 where
  pub game_variant : Bytes
  pub game_ver : Bytes
  pub game_type : Bytes
  pub hide_passworded : Bool
  pub hide_full : Bool
  pub hide_empty : Bool

abbrev pub maybe_add_filter : List Filter → Filter.Result Filter → List Filter
maybe_add_filter filters (Filter.ok f) = filters ++ f ∷ []
maybe_add_filter filters (Filter.err e) = filters

abbrev pub when_named : Bytes → Bytes → List Filter → List Filter
when_named field [] filters = filters
when_named field (c ∷ value) filters =
    maybe_add_filter filters (new_filter field (codes "=") (Filter.quoted (c ∷ value)))

abbrev pub when_hidden : Bool → Filter.Result Filter → List Filter → List Filter
when_hidden false f filters = filters
when_hidden true f filters = maybe_add_filter filters f

abbrev pub query_or_blank : Query.Result Query → Query
query_or_blank (Query.ok q) = q
query_or_blank (Query.err e) = []

unfoldable pub prepare_query : ServerFilterForm → Query
prepare_query form =
    let f1 = when_named (codes "gamevariant") form.game_variant [] in
    let f2 = when_named (codes "gamever") form.game_ver f1 in
    let f3 = when_named (codes "gametype") form.game_type f2 in
    let f4 =
      when_hidden form.hide_passworded
        (new_filter (codes "password") (codes "!=") (Filter.number (pos 1))) f3 in
    let f5 =
      when_hidden form.hide_full
        (new_filter (codes "numplayers") (codes "!=") (Filter.field_value (codes "maxplayers")))
        f4 in
    query_or_blank (
      new_query (
        Query.ok (
          when_hidden form.hide_empty
            (new_filter (codes "numplayers") (codes ">") (Filter.number (pos 0))) f5)))

abbrev pub listed : ListServers.Listed → Response
listed (ListServers.listed l) = record { status = 200; body = servers l }
listed ListServers.unable_to_obtain_servers = respond 500

module _ (r : Redis) (json : Codec Server) (parse_ip : Bytes → Bytes) where
  abbrev pub view_at : Servers.Contents r json → Addr.Result PublicAddr → Response
  view_at c (Addr.err e) = bad_address
  view_at c (Addr.ok address) = viewed (GetServer.execute r json c address.addr)

  unfoldable pub view_server : Servers.Contents r json → Bytes → Response
  view_server c param = view_at c (parse_view_server_address parse_ip param)

  -- `none` is a form that cannot be bound
  abbrev pub list_by : Servers.Contents r json → Time → ℕ → Option ServerFilterForm → Response
  list_by c now liveness none = respond 400
  list_by c now liveness (some form) = listed (
      ListServers.execute r json c now (record {
        query = prepare_query form;
        recentness = liveness;
        discovery_status = Status.info;
      }))

  unfoldable pub list_servers :
      Servers.Contents r json → Time → ℕ → Option ServerFilterForm → Response
  list_servers c now liveness form = list_by c now liveness form

  module _ (item_json : Codec QItem)
      (others : AddServer.Moment
        → AddServer.World r json item_json
        → AddServer.World r json item_json)
      (max_probe_retries : ℕ) (item_id : Bytes) (now : Time) where
    abbrev pub answered_add :
        AddServer.World r json item_json × AddServer.Outcome
        → AddServer.World r json item_json × Response
    answered_add (w, outcome) = (w, submitted outcome)

    abbrev pub add_at :
        AddServer.World r json item_json
        → Addr.Result PublicAddr
        → AddServer.World r json item_json × Response
    add_at w (Addr.err e) = (w, bad_address)
    add_at w (Addr.ok address) =
        answered_add
          (AddServer.execute r json item_json others max_probe_retries item_id now w address.addr)

    unfoldable pub add_server :
        AddServer.World r json item_json
        → Option (Bytes × ℤ)
        → AddServer.World r json item_json × Response
    add_server w request = add_at w (parse_add_server_address parse_ip request)
