-- ===== src/Browser/Packed.antt =====
-- What a client reads from the packed list.
use swat4master.Prelude.{
  ◌≡◌, refl, ap, ◌∙◌, ℕ, zero, suc, ◌%◌, ◌≤◌, ◌<◌, true, Option, none, some, List, [], ◌∷◌, ◌++◌,
  map, length, take, length-append, arith,
}
use mathlib.Core.List.{append_assoc}
use swat4master.Prelude.Bytes.{Bytes}
use swat4master.Prelude.Text.{cut-free_of}
use swat4master.Params.{ParamMap, marshal}
use swat4master.Entities.Addr.{Ip4, to4}
use swat4master.Entities.Server.{Server}
use swat4master.Browser.Reader.{
  Row, read_values, read_names, read_rows, read_answer, value_in, row_of, all_free, all_clean,
}
use swat4master.Browser.{
  Client, put_values, pack_server, pack_all, pack_servers, declare_fields, put_uint16, ip_bytes,
}

read_values-put_values :
    (params : ParamMap) (fields : List Bytes) (rest : Bytes)
    → all_free (map (value_in params) fields) ≡ true
    → read_values (length fields) (put_values params fields ++ rest)
      ≡ some (map (value_in params) fields, rest)
unfolding put_values
read_values-put_values params [] rest h = refl
read_values-put_values params (f ∷ fields) rest h =
    ap (λ text. read_values (suc (length fields)) (0xff ∷ text))
      (append_assoc (value_in params f) (0 ∷ put_values params fields) rest)
    ∙ rw (cut-free_of 0 (value_in params f) (put_values params fields ++ rest) (ground arith))
        (rw (read_values-put_values params fields rest (ground arith)) refl)

read_names-declare_fields :
    (fields : List Bytes) (rest : Bytes)
    → all_free fields ≡ true
    → read_names (length fields) (declare_fields fields ++ rest) ≡ some (fields, rest)
unfolding declare_fields
read_names-declare_fields [] rest h = refl
read_names-declare_fields (f ∷ fields) rest h =
    ap (read_names (suc (length fields))) (append_assoc f (0 ∷ 0 ∷ declare_fields fields) rest)
    ∙ rw (cut-free_of 0 f (0 ∷ (declare_fields fields ++ rest)) (ground arith))
        (rw (read_names-declare_fields fields rest (ground arith)) refl)

abbrev end_of_list : Bytes
end_of_list = 0x00 ∷ 0xff ∷ 0xff ∷ 0xff ∷ 0xff ∷ []

read_rows-pack_all :
    (fuel : ℕ) (servers : List Server) (fields : List Bytes)
    → length servers < fuel
    → all_clean fields servers ≡ true
    → read_rows fuel (length fields) (pack_all servers fields ++ end_of_list)
      ≡ some (map (row_of fields) servers)
unfolding pack_all pack_server
read_rows-pack_all zero servers fields enough h = absurd (omega arith)
read_rows-pack_all (suc fuel) [] fields enough h = refl
read_rows-pack_all (suc fuel) (svr ∷ servers) fields enough h =
    ap (read_rows (suc fuel) (length fields))
      (append_assoc (pack_server svr fields) (pack_all servers fields) end_of_list)
    ∙ rw
        (read_values-put_values (marshal svr.info) fields (pack_all servers fields ++ end_of_list)
          (ground arith))
        (rw (read_rows-pack_all fuel servers fields (omega arith) (ground arith)) refl)

length-pack_all :
    (servers : List Server) (fields : List Bytes)
    → length servers ≤ length (pack_all servers fields)
unfolding pack_all pack_server
length-pack_all [] fields = omega arith
length-pack_all (svr ∷ servers) fields = omega (
  arith,
  length-pack_all servers fields,
  length-append (pack_server svr fields) (pack_all servers fields),
)

take_few : (n : ℕ) (fields : List Bytes) → length fields ≤ n → take n fields ≡ fields
take_few zero [] h = refl
take_few zero (f ∷ fields) h = absurd (omega arith)
take_few (suc n) [] h = refl
take_few (suc n) (f ∷ fields) h = ap (λ t. f ∷ t) (take_few n fields (omega arith))

four_bytes :
    (client : Client) (rest : Bytes)
    → read_answer (ip_bytes (to4 client.ip) ++ (put_uint16 client.port ++ rest))
      ≡ read_answer (0 ∷ 0 ∷ 0 ∷ 0 ∷ 0 ∷ 0 ∷ rest)
four_bytes client rest = branch (to4 client.ip)
  where
    tail : Bytes → Option (List Bytes × List Row)
    tail text = read_answer (0 ∷ 0 ∷ 0 ∷ 0 ∷ 0 ∷ 0 ∷ text)

    branch :
        (ip : Option Ip4)
        → read_answer (ip_bytes ip ++ (put_uint16 client.port ++ rest)) ≡ tail rest
    branch none = same rest
      where
        same :
            (text : Bytes)
            → read_answer (0 ∷ 0 ∷ 0 ∷ 0 ∷ (put_uint16 client.port ++ text)) ≡ tail text
        same [] = refl
        same (a ∷ []) = refl
        same (a ∷ b ∷ text) = refl
    branch (some ip) = same rest
      where
        same :
            (text : Bytes)
            → read_answer (ip.b0 ∷ ip.b1 ∷ ip.b2 ∷ ip.b3 ∷ (put_uint16 client.port ++ text))
              ≡ tail text
        same [] = refl
        same (a ∷ []) = refl
        same (a ∷ b ∷ text) = refl

module _ (servers : List Server) (client : Client) (fields : List Bytes) where
  -- A client reads from the packed list the names of the fields and, in order, a row for each
  -- server, with its address, its query port modulo 2^16 and the values of the fields in their
  -- order, empty where the server has no such value. There are at most 255 fields, and neither they
  -- nor the values hold a null byte.
  pub read_answer-pack_servers :
      length fields ≤ 255
      → all_free fields ≡ true
      → all_clean fields servers ≡ true
      → read_answer (pack_servers servers client fields)
        ≡ some (fields, map (row_of fields) servers)
  unfolding pack_servers
  read_answer-pack_servers few plain clean =
      let rest = pack_all servers fields ++ end_of_list in
      let small : length fields % 256 ≡ length fields = omega arith in
      four_bytes client _
      ∙ rw (take_few 255 fields few) (
          rw small (
            rw (read_names-declare_fields fields rest plain) (
              rw
                (read_rows-pack_all (length rest) servers fields
                  (omega (
                    arith,
                    length-pack_all servers fields,
                    length-append (pack_all servers fields) end_of_list,
                  ))
                  clean)
                refl)))
