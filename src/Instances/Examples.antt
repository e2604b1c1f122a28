-- ===== src/Instances/Examples.antt =====
-- One instance in a store of association lists.
use swat4master.Prelude.{Option, some, ap, ◌≡◌, refl, none, [], ◌∷◌, if◌then◌else◌}
use swat4master.Prelude.Bytes.{Bytes}
use swat4master.Prelude.Int.{pos}
use swat4master.Redis.{Codec}
use swat4master.Redis.Model.{lists}
use swat4master.Redis.Forms.{codec_of, through, both, integer, text}
use swat4master.Entities.Addr
use swat4master.Entities.Instance.{Instance, new_instance}
use swat4master.Instances
use swat4master.Instances.{InstanceCodec, StoredInstance, ok, err}
use swat4master.Instances.Stored.{get-add, is_old, clear_lem}

abbrev base : Codec StoredInstance
base = codec_of (
    through (λ (s : StoredInstance). (s.id, (s.ip, s.port)))
      (λ p. record { id = p.0; ip = p.1.0; port = p.1.1 }) (λ s. refl)
      (both text (both text integer)))

-- 4 bytes are read back as 16
abbrev read_ip : Bytes → Bytes
read_ip (a ∷ b ∷ c ∷ d ∷ []) = Instances.mapped_ip (record { b0 = a; b1 = b; b2 = c; b3 = d })
read_ip ip = ip

abbrev read_back : Option StoredInstance → Option StoredInstance
read_back none = none
read_back (some s) = some (record s { ip = read_ip s.ip })

abbrev pub instance_codec : InstanceCodec
instance_codec = record {
  encode = base.encode;
  decode = λ item. read_back (base.decode item);
  decode-encode = λ id ip port. ap read_back (
      base.decode-encode
        (record { id = id; ip = ip.b0 ∷ ip.b1 ∷ ip.b2 ∷ ip.b3 ∷ []; port = port }));
}

abbrev empty : Instances.Contents lists instance_codec
empty = record { items = []; updates = [] }

abbrev pub reported : Instance
reported = record {
  id = 0xde ∷ 0xad ∷ 0xbe ∷ 0xef ∷ [];
  addr = record { ip = record { b0 = 1; b1 = 1; b2 = 1; b3 = 1 }; port = pos 10480 };
}

accepted :
    new_instance (0xde ∷ 0xad ∷ 0xbe ∷ 0xef ∷ []) (1 ∷ 1 ∷ 1 ∷ 1 ∷ []) (pos 10480)
    ≡ Addr.ok reported
unfolding new_instance Addr.new_addr
accepted = refl

abbrev pub added : Instances.Contents lists instance_codec
added = Instances.add lists instance_codec empty 1000 reported

get-add_example :
    (Instances.get lists instance_codec added reported.id ≡ ok reported)
    × (Instances.get lists instance_codec
          (Instances.remove lists instance_codec added reported.id)
          reported.id
        ≡ err Instances.instance_not_found)
get-add_example =
    get-add lists instance_codec empty 1000 (0xde ∷ 0xad ∷ 0xbe ∷ 0xef ∷ []) (1 ∷ 1 ∷ 1 ∷ 1 ∷ [])
      (pos 10480) reported accepted

clear_lem_example :
    (lists.hget
        (Instances.clear lists instance_codec added 2000).0.items
        (Instances.hex reported.id)
      ≡ (if is_old lists instance_codec 2000
            (lists.zscore added.updates (Instances.hex reported.id))
          then none
          else lists.hget added.items (Instances.hex reported.id)))
    × (lists.zscore
          (Instances.clear lists instance_codec added 2000).0.updates
          (Instances.hex reported.id)
        ≡ (if is_old lists instance_codec 2000
              (lists.zscore added.updates (Instances.hex reported.id))
            then none
            else lists.zscore added.updates (Instances.hex reported.id)))
clear_lem_example = clear_lem lists instance_codec added 2000 (Instances.hex reported.id)

pub reported_found : Instances.get lists instance_codec added reported.id ≡ ok reported
reported_found =
    (get-add lists instance_codec empty 1000 (0xde ∷ 0xad ∷ 0xbe ∷ 0xef ∷ []) (1 ∷ 1 ∷ 1 ∷ 1 ∷ [])
      (pos 10480) reported accepted).0
