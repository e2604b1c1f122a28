-- ===== src/Browser/Answered.antt =====
-- What a client gets for its request.
use swat4master.Prelude.{
  ◌≡◌, refl, sym, ap, ◌∙◌, subst, ◌&&◌, if◌then◌else◌, Option, none, ℕ, Bool, true, false, some,
  List, [], ◌∷◌, map, arith,
}
use swat4master.Prelude.Bytes.{Bytes, beq, beq→eq, one_of}
use swat4master.Prelude.Text.{free_of}
use swat4master.Redis.{Redis, Codec}
use swat4master.Entities.Server.{Server, Time}
use swat4master.Entities.Status
use swat4master.Crypt.{decrypt}
use swat4master.Crypt.Keys.{decrypt-encrypt}
use swat4master.Servers
use swat4master.ListServers
use swat4master.Browsing
use swat4master.Browsing.{Request}
use swat4master.Browsing.Filter
use swat4master.Browsing.Filter.{Filter, is_query_field, query_fields}
use swat4master.Browsing.Query
use swat4master.Browsing.Query.{new_query}
use swat4master.Browsing.Query.Parts.{joined, all_parts, read_parts, new_from_string-joined}
use swat4master.Params.{Struct}
use swat4master.Browsing.Accepted.{all_fields, new_request-IsAccepted}
use swat4master.Browser
use swat4master.Browser.{Client, send, pack_servers, query_of, applied}
use swat4master.Browser.Reader.{read_answer, row_of, all_free, all_clean}
use swat4master.Browser.Packed.{read_answer-pack_servers}

free_of_known :
    (known : List Bytes) (text : Bytes)
    → all_free known ≡ true
    → one_of text known ≡ true
    → free_of 0 text ≡ true
free_of_known [] text h k = absurd cc
free_of_known (t ∷ known) text h k =
    branch (beq text t) refl (λ there. free_of_known known text (ground arith) there)
  where
    branch :
        (same : Bool)
        → beq text t ≡ same
        → (one_of text known ≡ true → free_of 0 text ≡ true)
        → free_of 0 text ≡ true
    branch true e later =
        let first : free_of 0 t ≡ true = ground (arith) in
        subst (λ b. free_of 0 b ≡ true) (sym (beq→eq text t e)) first
    branch false e later = later (ground (arith, k, e))

all_fields-all_free : (fields : List Bytes) → all_fields fields ≡ true → all_free fields ≡ true
unfolding is_query_field
all_fields-all_free [] h = refl
all_fields-all_free (f ∷ fields) h =
    let known : one_of f query_fields ≡ true = ground (arith) in
    ground (arith, all_fields-all_free fields, free_of_known query_fields f refl known)

abbrev pub asked : ℕ → Request → ListServers.Request
asked liveness req = record {
  query = query_of req.filters;
  recentness = liveness;
  discovery_status = Status.master;
}

abbrev prepend : Filter.Result Filter → Option (List Filter) → Option (List Filter)
prepend (Filter.ok f) (some filters) = some (f ∷ filters)
prepend _ _ = none

-- the filters that are written, or none if one of them cannot be read
abbrev pub filters_of : List Bytes → Option (List Filter)
filters_of [] = some []
filters_of (p ∷ parts) = let rest = filters_of parts in prepend (Filter.parse p) rest

abbrev is_match : Filter.Result Bool → Bool
is_match (Filter.ok b) = b
is_match (Filter.err e) = false

abbrev pub meets : Struct → List Filter → Bool
meets info [] = true
meets info (f ∷ filters) = is_match (Filter.match f info) && meets info filters

abbrev meets_all : Struct → Option (List Filter) → Bool
meets_all info none = true
meets_all info (some filters) = meets info filters

-- Whether a server is let through: by each written filter, or in any case if one cannot be read.
abbrev pub passes : List Bytes → Server → Bool
passes parts svr = meets_all svr.info (filters_of parts)

abbrev pub wanted : List Bytes → List Server → List Server
wanted parts [] = []
wanted parts (svr ∷ rest) =
    let later = wanted parts rest in if passes parts svr then svr ∷ later else later

match-meets :
    (filters : List Filter) (info : Struct) → Query.match filters info ≡ meets info filters
unfolding Query.match
match-meets [] info = refl
match-meets (f ∷ filters) info = branch (Filter.match f info) (match-meets filters info)
  where
    branch :
        (m : Filter.Result Bool)
        → Query.match filters info ≡ meets info filters
        → (if Query.matched m then Query.match filters info else false)
          ≡ (is_match m && meets info filters)
    branch (Filter.ok true) e = e
    branch (Filter.ok false) e = refl
    branch (Filter.err x) e = refl

-- the two readings of the parts
abbrev Agree : Query.Result (List Filter) → Option (List Filter) → Type 0
Agree (Query.ok filters) o = o ≡ some filters
Agree (Query.err e) o = o ≡ none

read_parts-Agree : (parts : List Bytes) → Agree (read_parts parts) (filters_of parts)
read_parts-Agree [] = refl
read_parts-Agree (p ∷ parts) =
    branch (Filter.parse p) (read_parts parts) (filters_of parts) (read_parts-Agree parts)
  where
    branch :
        (f : Filter.Result Filter) (later : Query.Result (List Filter)) (o : Option (List Filter))
        → Agree later o
        → Agree (Query.and_then f later) (prepend f o)
    branch (Filter.err e) later o h = refl
    branch (Filter.ok f) (Query.err e) o h = rw h refl
    branch (Filter.ok f) (Query.ok filters) o h = rw h refl

applied-passes :
    (parts : List Bytes) (info : Struct)
    → Query.match (applied (new_query (read_parts parts))) info ≡ meets_all info (filters_of parts)
applied-passes parts info = branch (read_parts parts) (filters_of parts) (read_parts-Agree parts)
  where
    branch :
        (found : Query.Result (List Filter)) (o : Option (List Filter))
        → Agree found o
        → Query.match (applied (new_query found)) info ≡ meets_all info o
    branch (Query.err e) o h = match-meets [] info ∙ ap (meets_all info) (sym h)
    branch (Query.ok []) o h = match-meets [] info ∙ ap (meets_all info) (sym h)
    branch (Query.ok (f ∷ filters)) o h =
        match-meets (f ∷ filters) info ∙ ap (meets_all info) (sym h)

query_of-passes :
    (parts : List Bytes) (svr : Server)
    → all_parts parts ≡ true
    → Query.match (query_of (joined parts)) svr.info ≡ passes parts svr
unfolding query_of
query_of-passes [] svr h = match-meets [] svr.info
query_of-passes ([] ∷ parts) svr h = absurd cc
query_of-passes ((c ∷ p) ∷ []) svr h =
    ap (λ x. Query.match (applied x) svr.info) (new_from_string-joined ((c ∷ p) ∷ []) h)
    ∙ applied-passes ((c ∷ p) ∷ []) svr.info
query_of-passes ((c ∷ p) ∷ q ∷ parts) svr h =
    ap (λ x. Query.match (applied x) svr.info) (new_from_string-joined ((c ∷ p) ∷ q ∷ parts) h)
    ∙ applied-passes ((c ∷ p) ∷ q ∷ parts) svr.info

matching-wanted :
    (parts : List Bytes) (servers : List Server)
    → all_parts parts ≡ true
    → ListServers.matching (query_of (joined parts)) servers ≡ wanted parts servers
unfolding ListServers.matching
matching-wanted parts [] h = refl
matching-wanted parts (svr ∷ rest) h =
    rw (query_of-passes parts svr h, matching-wanted parts rest h) refl

module _ (r : Redis) (json : Codec Server) (noise : ℕ → ℕ) (liveness : ℕ)
    (c : Servers.Contents r json) (now : Time) (client : Client) (payload : Bytes) (req : Request)
    (parts : List Bytes) (recent : List Server) where
  -- An accepted request, whose filters are any number of parts joined by " and ", is answered,
  -- whatever the random bytes. The client that decrypts the answer with the game's key and its own
  -- challenge reads from it the requested fields and, in order, one row for each server that the
  -- repository gives as recent and that matches the filter of each part, or for each recent server
  -- if a part cannot be read as a filter; if the values of these servers hold no null byte.
  pub process-answers :
      Browsing.new_request payload ≡ Browsing.ok req
      → req.filters ≡ joined parts
      → all_parts parts ≡ true
      → Servers.filter r json c (ListServers.filter_set now (asked liveness req))
        ≡ Servers.ok recent
      → all_clean req.fields (wanted parts recent) ≡ true
      → (sent plain : Bytes) × (Browser.process r json noise liveness c now client payload
          ≡ send sent)
        × (decrypt Browser.game_enc_key req.challenge sent ≡ some plain)
        × (read_answer plain ≡ some (req.fields, map (row_of req.fields) (wanted parts recent)))
  unfolding Browser.process ListServers.execute
  process-answers accepted text apart found clean =
      let plain = pack_servers (wanted parts recent) client req.fields in
      let (sent, encrypted, decrypted) =
        decrypt-encrypt Browser.game_enc_key req.challenge noise plain in
      let (challenge, (some_field, few, known)) = new_request-IsAccepted payload req accepted in
      let rows : ListServers.matching (query_of req.filters) recent ≡ wanted parts recent =
        ap (λ t. ListServers.matching (query_of t) recent) text
        ∙ matching-wanted parts recent apart in
      (
        sent,
        plain,
        rw (accepted, found, rows, encrypted) refl,
        decrypted,
        read_answer-pack_servers (wanted parts recent) client req.fields (omega arith)
            (all_fields-all_free req.fields known) clean,
      )
