-- ===== src/Servers/Listed.antt =====
-- What the list of servers that a query gives consists of.
use swat4master.Prelude.{◌≡◌, refl, sym, ap, ◌∙◌, subst, Option, none, some, List, [], ◌∷◌}
use swat4master.Prelude.Bytes.{Bytes}
use swat4master.Redis.{Redis, Codec}
use swat4master.Entities.Addr.{addr_string}
use swat4master.Entities.Filterset.{ServerFilterSet}
use swat4master.Entities.Server.{Server}
use swat4master.Servers
use swat4master.Servers.{Result, ok, err}
use swat4master.Servers.Indexed.{IsIndexed, Entry}

module _ (r : Redis) (json : Codec Server) (c : Servers.Contents r json) where
  -- the servers are those that are stored under the keys, in their order
  abbrev pub AreStored : List Bytes → List Server → Type 0
  AreStored [] [] = Unit
  AreStored (k ∷ ks) (s ∷ ss) =
      (addr_string s.addr ≡ k) × (Servers.get r json c s.addr ≡ ok s) × AreStored ks ss
  AreStored [] (s ∷ ss) = ⊥
  AreStored (k ∷ ks) [] = ⊥

  module _ (indexed : IsIndexed r json c) where
    pub stored_at :
        (k : Bytes) (found : Option Bytes) (s : Server)
        → r.hget c.items k ≡ found
        → Servers.decode_item r json found ≡ ok s
        → (addr_string s.addr ≡ k) × (Servers.get r json c s.addr ≡ ok s)
    unfolding Servers.get
    stored_at k none s e h = absurd cc
    stored_at k (some item) s e h = decode (json.decode item) refl h
      where
        decode :
            (d : Option Server)
            → json.decode item ≡ d
            → Servers.decoded r json d ≡ ok s
            → (addr_string s.addr ≡ k) × (Servers.get r json c s.addr ≡ ok s)
        decode none e' h' = absurd cc
        decode (some t) e' h' =
            let same : t ≡ s = cc in
            let (svr, dec, key, _, _, _) = subst (Entry r json c k) e (indexed.entry k) in
            let alike : svr ≡ s = cc in
            let here : addr_string s.addr ≡ k =
              ap (λ (u : Server). addr_string u.addr) (sym alike) ∙ key in
            (
              here,
              ap (λ a. Servers.fetched r json (r.hget c.items a)) here
                  ∙ ap (Servers.fetched r json) e
                  ∙ ap (Servers.decoded r json) (e' ∙ ap (λ (u : Server). some u) same),
            )

    decode_keys-AreStored :
        (keys : List Bytes) (servers : List Server)
        → Servers.decode_keys r json c.items keys ≡ ok servers
        → AreStored keys servers
    unfolding Servers.decode_keys
    decode_keys-AreStored [] [] h = tt
    decode_keys-AreStored [] (s ∷ ss) h = absurd cc
    decode_keys-AreStored (k ∷ ks) servers h =
        one (Servers.decode_item r json (r.hget c.items k)) refl
          (Servers.decode_keys r json c.items ks) refl (λ ss e. decode_keys-AreStored ks ss e) h
      where
        one :
            (first : Result Server)
            → Servers.decode_item r json (r.hget c.items k) ≡ first
            → (rest : Result (List Server)) → Servers.decode_keys r json c.items ks ≡ rest
            → ((ss : List Server) → Servers.decode_keys r json c.items ks ≡ ok ss → AreStored ks ss)
            → Servers.then_rest r json first rest ≡ ok servers
            → AreStored (k ∷ ks) servers
        one (err e) f rest g later h' = absurd cc
        one (ok s) f (err e) g later h' = absurd cc
        one (ok s) f (ok ss) g later h' =
            let same : s ∷ ss ≡ servers = cc in
            let (key, got) = stored_at k (r.hget c.items k) s refl f in
            subst (AreStored (k ∷ ks)) same (key, got, later ss g)

    -- The servers that a query gives are those that are stored under the selected keys.
    pub filter-AreStored :
        (fs : ServerFilterSet) (servers : List Server)
        → Servers.filter r json c fs ≡ ok servers
        → AreStored (Servers.filter_server_keys r json c fs) servers
    unfolding Servers.filter
    filter-AreStored fs servers h =
        decode_keys-AreStored (Servers.filter_server_keys r json c fs) servers h
