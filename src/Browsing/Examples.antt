-- ===== src/Browsing/Examples.antt =====
-- A filter, and a request of the game with two fields.
use swat4master.Prelude.{◌≡◌, refl, ◌+◌, [], ◌∷◌, ◌++◌, length}
use swat4master.Prelude.Bytes.{Bytes, codes}
use swat4master.Browsing
use swat4master.Browsing.{Request, consume_string, consume_c_string}
use swat4master.Browsing.Accepted.{IsAccepted, new_request-IsAccepted}
use swat4master.Browsing.Filter.{is_query_field, parse, finish, parse_raw_filter_value}
use swat4master.Browsing.Filter.Parsed.{parse-written}

parse-written_example :
    parse (codes "numplayers!=maxplayers")
    ≡ finish (codes "numplayers") (codes "!=") (parse_raw_filter_value (codes "maxplayers"))
parse-written_example =
    parse-written 0x6e (codes "umplayers") 0x21 (codes "=") 0x6d (codes "axplayers") refl refl refl

abbrev body : Bytes
body =
    (0 ∷ 1 ∷ 3 ∷ 0 ∷ 0 ∷ 0 ∷ 0 ∷ [])
    ++ (codes "swat4"
        ++ (0
            ∷ (codes "swat4"
                ++ (0
                    ∷ (codes "F7ZbKs}1"
                        ++ (codes "numplayers>0"
                            ++ (0
                                ∷ (codes "\\hostname\\numplayers"
                                    ++ (0 ∷ 0 ∷ 0 ∷ 0 ∷ 1 ∷ [])))))))))

abbrev pub payload : Bytes
payload = 0 ∷ (2 + length body) ∷ body

abbrev pub request : Request
request = record {
  filters = codes "numplayers>0";
  fields = codes "hostname" ∷ codes "numplayers" ∷ [];
  challenge = codes "F7ZbKs}1";
}

pub accepted : Browsing.new_request payload ≡ Browsing.ok request
unfolding Browsing.new_request Browsing.parse consume_c_string consume_string
    Browsing.parse_challenge Browsing.parse_fields Browsing.collect_fields
    Browsing.validate_options_mask is_query_field
accepted = refl

new_request-IsAccepted_example : IsAccepted request
new_request-IsAccepted_example = new_request-IsAccepted payload request accepted
