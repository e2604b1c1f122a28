-- ===== src/Entities/Status.antt =====
-- internal/core/entities/discovery/status: a set of flags in one int, which is never negative.
use swat4master.Prelude.{
  ℕ, zero, suc, ◌*◌, true, false, List, [], ◌∷◌, bit_and, leb, ◌==◌, if◌then◌else◌, Bool, not,
}
use swat4master.Prelude.Bytes.{Bytes, codes}
use swat4master.Strconv.{format_number}

abbrev pub DiscoveryStatus : Type 0
DiscoveryStatus = ℕ

abbrev pub new : DiscoveryStatus
new = 1

abbrev pub master : DiscoveryStatus
master = 2

abbrev pub info : DiscoveryStatus
info = 4

abbrev pub details : DiscoveryStatus
details = 8

abbrev pub details_retry : DiscoveryStatus
details_retry = 16

abbrev pub no_details : DiscoveryStatus
no_details = 32

abbrev pub port : DiscoveryStatus
port = 64

abbrev pub port_retry : DiscoveryStatus
port_retry = 128

abbrev pub no_port : DiscoveryStatus
no_port = 256

abbrev pub no_status : DiscoveryStatus
no_status = 0

abbrev pub members : List DiscoveryStatus
members =
    new ∷ master ∷ info ∷ details ∷ details_retry ∷ no_details ∷ port ∷ port_retry ∷ no_port ∷ []

-- `BitString`
unfoldable pub bit_string : DiscoveryStatus → Bytes
bit_string ds =
    if ds == new
    then codes "new"
    else if ds == master
    then codes "master"
    else if ds == info
    then codes "info"
    else if ds == details
    then codes "details"
    else if ds == details_retry
    then codes "details_retry"
    else if ds == no_details
    then codes "no_details"
    else if ds == port
    then codes "port"
    else if ds == port_retry
    then codes "port_retry"
    else if ds == no_port
    then codes "no_port"
    else format_number ds

abbrev pub has_status : DiscoveryStatus → Bool
has_status ds = not (ds == no_status)

-- `for bit := 1; bit <= ds; bit <<= 1`; a number has fewer bits than its value plus one.
unfoldable pub bits_from : ℕ → DiscoveryStatus → DiscoveryStatus → List DiscoveryStatus
bits_from zero bit ds = []
bits_from (suc fuel) bit ds = elim (leb bit ds) [
  | true ↦
      let rest = bits_from fuel (bit * 2) ds in if bit_and ds bit == 0 then rest else bit ∷ rest
  | false ↦ []
]

unfoldable pub bits : DiscoveryStatus → List DiscoveryStatus
unfolding bits_from
bits ds = bits_from (suc ds) 1 ds
