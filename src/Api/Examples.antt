-- ===== src/Api/Examples.antt =====
-- Requests for a server at 1.1.1.1:10480, which has details, and the form of a list request.
use swat4master.Prelude.{◌≡◌, refl, true, false, some, [], ◌∷◌}
use swat4master.Prelude.Int.{pos}
use swat4master.Prelude.Bytes.{Bytes, codes}
use swat4master.Redis.Model.{lists}
use swat4master.Redis.Forms.{server_codec}
use swat4master.Entities.Addr
use swat4master.Entities.Addr.{
  addr_string, new_from_string, to4, is_global_unicast, is_private, is_loopback,
}
use swat4master.Entities.Addr.Read.{new_from_string-addr_string}
use swat4master.Servers.Examples.{swat_server, with_server, key}
use swat4master.Params.{Struct, int, bool, str}
use swat4master.Browsing.Filter.{get_struct_field}
use swat4master.Browsing.Query
use swat4master.Api.{view_server, ServerFilterForm, prepare_query}
use swat4master.Api.Listed.{HasFields, is_wanted, prepare_query_lem}
use swat4master.Api.Viewed.{IsAnswer, view_server-IsAnswer}

abbrev parse_ip : Bytes → Bytes
parse_ip text = 1 ∷ 1 ∷ 1 ∷ 1 ∷ []

new_from_string-addr_string_example :
    new_from_string parse_ip (addr_string swat_server.addr) ≡ Addr.ok swat_server.addr
unfolding to4 is_global_unicast is_private is_loopback
new_from_string-addr_string_example =
    new_from_string-addr_string parse_ip swat_server.addr refl refl refl

view_server-IsAnswer_example :
    IsAnswer lists server_codec
      (lists.hget with_server.items key)
      (view_server lists server_codec parse_ip with_server (addr_string swat_server.addr))
unfolding to4 is_global_unicast is_private is_loopback
view_server-IsAnswer_example =
    view_server-IsAnswer lists server_codec parse_ip with_server swat_server.addr refl refl refl
      refl refl

abbrev info : Struct
info =
    record { param = some (codes "gamevariant"); value = str (codes "SWAT 4") }
    ∷ record { param = some (codes "gamever"); value = str (codes "1.1") }
    ∷ record { param = some (codes "gametype"); value = str (codes "CO-OP") }
    ∷ record { param = some (codes "numplayers"); value = int (pos 5) }
    ∷ record { param = some (codes "maxplayers"); value = int (pos 5) }
    ∷ record { param = some (codes "password"); value = bool false }
    ∷ []

info-HasFields : HasFields info
unfolding get_struct_field
info-HasFields = record {
  game_variant = codes "SWAT 4";
  game_ver = codes "1.1";
  game_type = codes "CO-OP";
  password = false;
  num_players = pos 5;
  max_players = pos 5;
  at_variant = refl;
  at_ver = refl;
  at_type = refl;
  at_password = refl;
  at_players = refl;
  at_max = refl;
}

-- the server is full
abbrev form : ServerFilterForm
form = record {
  game_variant = codes "SWAT 4";
  game_ver = [];
  game_type = [];
  hide_passworded = true;
  hide_full = true;
  hide_empty = false;
}

prepare_query_lem_example :
    Query.match (prepare_query form) info ≡ is_wanted form info info-HasFields
prepare_query_lem_example = prepare_query_lem info info-HasFields form
