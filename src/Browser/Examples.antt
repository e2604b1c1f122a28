-- ===== src/Browser/Examples.antt =====
-- The list of a store with one server, asked for by the request of Browsing/Examples.
use swat4master.Prelude.{◌≡◌, refl, ℕ, ◌+◌, ◌*◌, ◌%◌, true, some, List, [], ◌∷◌, map}
use swat4master.Prelude.Int.{pos}
use swat4master.Prelude.Bytes.{Bytes, codes}
use swat4master.Strconv.{format_number, print_fuel, format_int, atoi, read_number, read_digits}
use swat4master.Redis.Model.{lists}
use swat4master.Redis.Forms.{server_codec}
use swat4master.Slice
use swat4master.Params.{Struct, int, str, marshal, marshal_from, put_param, get_param_value}
use swat4master.Entities.Addr.{addr_string, get_dotted_ip}
use swat4master.Entities.Details.{blank_details}
use swat4master.Entities.Server.{Server, has_discovery_status}
use swat4master.Entities.Status
use swat4master.Entities.Status.{bits_from, bits}
use swat4master.Crypt.{decrypt}
use swat4master.Servers
use swat4master.Servers.Examples.{empty}
use swat4master.ListServers
use swat4master.Browsing.Filter
use swat4master.Browsing.Examples.{payload, request, accepted}
use swat4master.Browser
use swat4master.Browser.{Client, send, pack_servers, query_of}
use swat4master.Browser.Reader.{read_answer, row_of, all_clean}
use swat4master.Browser.Answered.{process-answers, asked, wanted}

abbrev info : Struct
info =
    record { param = some (codes "hostname"); value = str (codes "Swat4 Server") }
    ∷ record { param = some (codes "numplayers"); value = int (pos 5) }
    ∷ []

abbrev listed_server : Server
listed_server = record {
  addr = record { ip = record { b0 = 1; b1 = 1; b2 = 1; b3 = 1 }; port = pos 10480 };
  query_port = pos 10481;
  discovery_status = Status.master + Status.info;
  info = info;
  details = blank_details;
  refreshed_at = 9000;
  version = 1;
}

abbrev client : Client
client = record { ip = 2 ∷ 2 ∷ 2 ∷ 2 ∷ []; port = 50000 }

abbrev fields : List Bytes
fields = codes "hostname" ∷ codes "numplayers" ∷ []

abbrev store : Servers.Contents lists server_codec
store = (Servers.save lists server_codec empty 8000 (record listed_server { version = 0 })).0

abbrev noise : ℕ → ℕ
noise i = 1 + i * 7 % 255

recent :
    Servers.filter lists server_codec store (ListServers.filter_set 9500 (asked 1000 request))
    ≡ Servers.ok (listed_server ∷ [])
unfolding Servers.save Servers.filter Servers.filter_server_keys Servers.include_keys
    Servers.exclude_keys Servers.timestamp_filters Servers.decode_keys Servers.save_statuses
    Slice.intersection Slice.difference Slice.count_slice Slice.count_slices Slice.counted
    Slice.seen_in Slice.unseen bits bits_from has_discovery_status addr_string get_dotted_ip
    format_number print_fuel format_int
recent = refl

abbrev parts : List Bytes
parts = codes "numplayers>0" ∷ []

clean : all_clean request.fields (wanted parts (listed_server ∷ [])) ≡ true
unfolding Filter.parse Filter.scan Filter.scan_char Filter.parse_raw_filter_value Filter.new_filter
    Filter.match Filter.get_struct_field Filter.compare_to_int Filter.compare_values
    Filter.compare_ints Filter.is_query_field marshal marshal_from put_param get_param_value
    format_int format_number print_fuel atoi read_number read_digits
clean = refl

process-answers_example :
    (sent plain : Bytes) × (Browser.process lists server_codec noise 1000 store 9500 client payload
      ≡ send sent)
    × (decrypt Browser.game_enc_key request.challenge sent ≡ some plain)
    × (read_answer plain
        ≡ some (request.fields, map (row_of request.fields) (wanted parts (listed_server ∷ []))))
process-answers_example =
    process-answers lists server_codec noise 1000 store 9500 client payload request parts
      (listed_server ∷ []) accepted refl refl recent clean

-- the server passes the filter
passes : wanted parts (listed_server ∷ []) ≡ listed_server ∷ []
unfolding Filter.parse Filter.scan Filter.scan_char Filter.parse_raw_filter_value Filter.new_filter
    Filter.match Filter.get_struct_field Filter.compare_to_int Filter.compare_values
    Filter.compare_ints Filter.is_query_field atoi read_number read_digits
passes = refl

-- and not one that asks for ten players, even if another part lets it through
fails : wanted (codes "numplayers>0" ∷ codes "numplayers>9" ∷ []) (listed_server ∷ []) ≡ []
unfolding Filter.parse Filter.scan Filter.scan_char Filter.parse_raw_filter_value Filter.new_filter
    Filter.match Filter.get_struct_field Filter.compare_to_int Filter.compare_values
    Filter.compare_ints Filter.is_query_field atoi read_number read_digits
fails = refl
