-- ===== src/Client/WriteObj/AllSent.antt =====
-- A request is sent to OSDs that can be reached.
use ceph_in_c.Base.{
  ℕ, ◌+◌, ◌^◌, ◌<◌, ◌≡◌, refl, ◌∙◌, false, none, List, [], ◌∷◌, ◌++◌, arith, ◌==◌, length,
}
use ceph_in_c.Base.Int.{pos}
use ceph_in_c.Base.Errno.{returns}
use ceph_in_c.Base.Alloc.{Alloc, Plenty}
use ceph_in_c.Io.Send.{AllWhole}
use ceph_in_c.Message.{Msg}
use ceph_in_c.Messenger.{Connection, normal, Messenger, at_address, get_conn_by_host_and_port}
use ceph_in_c.Messenger.Numbers.{Numbered}
use ceph_in_c.Messenger.Adding.{Added}
use ceph_in_c.Messenger.Delivery.{Sendable}
use ceph_in_c.Client.Sending.{Call, Sending, send_all, send_req_to_osd-fresh}

-- An OSD that can be connected to. The memory of the connection does not happen to hold
-- CCEPH_CONN_STATE_CLOSED, and the socket takes all that is sent.
pub record Reachable (call : Call) : Type 0 where
  pub open_port : 0 < call.port
  pub dialled : call.dial.ret ≡ pos 0
  pub memory : (call.garbage == 2) ≡ false
  pub whole : AllWhole call.out.outcomes

abbrev conn_to : Call → Connection
conn_to call = record {
  id = pos 0;
  host = call.host;
  port = call.port;
  fd = call.dial.fd;
  state = call.garbage;
}

-- The address of an OSD is none of the others'.
abbrev pub Apart : Call → List Call → Type 0
Apart call [] = Unit
Apart call (other ∷ others) =
    (at_address other.host other.port (conn_to call) ≡ false) × Apart call others

-- The OSDs can be connected to, none of them is connected yet, and their addresses differ.
abbrev pub AllReachable : Messenger → List Call → Type 0
AllReachable m [] = Unit
AllReachable m (call ∷ calls) =
    (Reachable call × (get_conn_by_host_and_port m call.host call.port ≡ none) × Apart call calls)
    × AllReachable m calls

-- Each send returned 0, and put the bytes on its socket.
abbrev pub AllWired : List ℕ → List Call → List Sending → Type 0
AllWired bytes [] [] = Unit
AllWired bytes (call ∷ calls) (s ∷ ss) =
    ((s.code ≡ pos 0) × (s.out.wire ≡ call.out.wire ++ bytes)) × AllWired bytes calls ss
AllWired bytes _ _ = ⊥

pub record AllSent (m : Messenger) (msg : Msg) (bytes : List ℕ) (calls : List Call) (a : Alloc)
    : Type 0 where
  pub sendings : List Sending
  pub after : Messenger
  pub rest : Alloc
  pub returned : send_all m msg calls a ≡ returns (sendings, after, rest)
  pub wired : AllWired bytes calls sendings
  pub counted : after.next_conn_id ≡ m.next_conn_id + length calls

module _ {m : Messenger} (call : Call) {a : Alloc}
    (added : Added m call.host call.port call.dial.fd call.garbage call.epoll a) where
  AllReachable-after :
      (calls : List Call) → Apart call calls → AllReachable m calls → AllReachable added.after calls
  AllReachable-after [] apart reach = tt
  AllReachable-after (other ∷ others) (differs, apart) ((r, absent, s), reach) = (
    (r, added.elsewhere other.host other.port differs ∙ absent, s),
    AllReachable-after others apart reach,
  )

-- A message that fits is sent to OSDs that can be reached, where no allocation fails: it is whole on
-- the socket of each.
pub send_all-AllSent :
    {msg got : Msg} {bytes : List ℕ} (m : Messenger) (calls : List Call) (a : Alloc)
    → Sendable msg bytes got
    → m.state ≡ normal
    → Numbered m
    → m.next_conn_id + length calls < 2 ^ 31
    → Plenty a
    → AllReachable m calls
    → AllSent m msg bytes calls a
unfolding send_all
send_all-AllSent m [] a s runs v h p reach = record {
  sendings = [];
  after = m;
  rest = a;
  returned = refl;
  wired = tt;
  counted = omega arith;
}
send_all-AllSent m (call ∷ calls) a s runs v h p ((r, absent, apart), reach) =
    let (added, sent) =
      send_req_to_osd-fresh m call a s runs r.open_port absent r.dialled v (omega arith) p r.memory
        r.whole in
    let count = added.counted in
    let rest =
      send_all-AllSent added.after calls added.rest s added.runs
        (added.numbered, omega (arith, count), omega (arith, count)) (omega (arith, count))
        added.plenty (AllReachable-after call added calls apart reach) in
    let first : Sending = record {
      code = pos 0;
      messenger = added.after;
      out = sent.out;
      alloc = added.rest;
    } in
    record {
      sendings = first ∷ rest.sendings;
      after = rest.after;
      rest = rest.rest;
      returned = rw (sent.returned, rest.returned) refl;
      wired = ((refl, sent.wired), rest.wired);
      counted = omega (arith, count, rest.counted);
    }
