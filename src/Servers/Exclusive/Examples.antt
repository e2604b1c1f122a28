-- ===== src/Servers/Exclusive/Examples.antt =====
-- Two attempts are lost, and the third one updates a server.
use swat4master.Prelude.{
  ◌≡◌, refl, ap, ◌∙◌, ℕ, zero, suc, ◌+◌, some, if◌then◌else◌, Bool, true, false,
}
use swat4master.Prelude.Int.{pos}
use swat4master.Prelude.Bytes.{beq}
use swat4master.Strconv.{format_number, print_fuel, format_int}
use swat4master.Redis.Model.{lists}
use swat4master.Redis.Forms.{server_codec}
use swat4master.Entities.Addr.{addr_string}
use swat4master.Entities.Server.{Server}
use swat4master.Servers
use swat4master.Servers.{OnConflict}
use swat4master.Servers.Examples.{swat_server, with_server}
use swat4master.Servers.Exclusive
use swat4master.Servers.Exclusive.{Meeting, ours, another, nobody}
use swat4master.Servers.Exclusive.Attempts.{IsAtomic}
use swat4master.Servers.Exclusive.Atomic.{writes-AreAtomic}

abbrev C : Type 0
C = Servers.Contents lists server_codec

abbrev other_server : Server
other_server = record swat_server {
  addr = record { ip = record { b0 = 2; b1 = 2; b2 = 2; b3 = 2 }; port = pos 10480 };
}

abbrev store : Server → C → C
store svr c = (Servers.save lists server_codec c 6000 svr).0

-- another call holds the lock and writes the server; then the lease ends before EXEC
abbrev meets : ℕ → Meeting C
meets zero = record {
  free = false;
  owner = ours;
  unmodified = true;
  now = 6000;
  before = store swat_server;
  during = λ c. c;
}
meets (suc zero) = record {
  free = true;
  owner = ours;
  unmodified = false;
  now = 7000;
  before = λ c. c;
  during = store swat_server;
}
meets (suc (suc i)) = record {
  free = true;
  owner = ours;
  unmodified = true;
  now = 8000;
  before = λ c. c;
  during = store other_server;
}

abbrev refreshing : OnConflict
refreshing s = (record s { refreshed_at = 9000 }, true)

elsewhere : beq (addr_string other_server.addr) (addr_string swat_server.addr) ≡ false
unfolding addr_string format_number print_fuel format_int
elsewhere = refl

apart :
    (i : ℕ) (d : C)
    → (meets i).unmodified ≡ true
    → Servers.get lists server_codec ((meets i).during d) swat_server.addr
      ≡ Servers.get lists server_codec d swat_server.addr
unfolding Servers.get Servers.save
apart zero d e = refl
apart (suc zero) d e = absurd (cc)
apart (suc (suc i)) d e =
    let key = addr_string swat_server.addr in
    let item = server_codec.encode (record other_server { version = other_server.version + 1 }) in
    ap (Servers.fetched lists server_codec) (
      lists.hget-hset d.items (addr_string other_server.addr) key item
      ∙ ap (λ (here : Bool). if here then some item else lists.hget d.items key) elsewhere)

writes-AreAtomic_example :
    IsAtomic
      (λ (c : C). Servers.get lists server_codec c swat_server.addr)
      (λ t d. Servers.add lists server_codec d t swat_server refreshing)
      5
      meets
      with_server
      (Exclusive.add_locked lists server_codec meets with_server swat_server refreshing)
    × IsAtomic
        (λ (c : C). Servers.get lists server_codec c swat_server.addr)
        (λ t d. Servers.update lists server_codec d t swat_server refreshing)
        5
        meets
        with_server
        (Exclusive.update_locked lists server_codec meets with_server swat_server refreshing)
    × IsAtomic
        (λ (c : C). Servers.get lists server_codec c swat_server.addr)
        (λ t d. Servers.remove lists server_codec d swat_server refreshing)
        5
        meets
        with_server
        (Exclusive.remove_locked lists server_codec meets with_server swat_server refreshing)
writes-AreAtomic_example =
    writes-AreAtomic lists server_codec swat_server refreshing meets apart with_server

-- the update of a stale server, at the third attempt
abbrev is_done : {R : Type 0} → Exclusive.Guarded R → Bool
is_done (Exclusive.done r) = true
is_done other = false

third_updates :
    is_done (Exclusive.update_locked lists server_codec meets with_server swat_server refreshing).1
    ≡ true
unfolding Exclusive.update_locked Exclusive.update_exclusive Exclusive.guard Servers.get
    Servers.save addr_string format_number print_fuel format_int
third_updates = refl
