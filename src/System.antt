-- ===== src/System.antt =====
-- A write from the client to an OSD and back: message/messenger.c, osd/osd_msg_process.c and
-- client/client.c together.
use ceph_in_c.Base.{ℕ, ◌≡◌, Bool, true, false, some, List, ◌++◌, length}
use ceph_in_c.Base.Int.{pos, int_eq}
use ceph_in_c.Base.Order.{CString}
use ceph_in_c.Base.Errno.{ok, returns}
use ceph_in_c.Base.Alloc.{Plenty}
use ceph_in_c.Io.{Out}
use ceph_in_c.Io.Bytes.{stream, Clear}
use ceph_in_c.Message.{WriteObjReq, write_req, write_ack}
use ceph_in_c.Message.RoundTrip.{header_bytes, req_bytes, ack_bytes}
use ceph_in_c.Message.Request.{received}
use ceph_in_c.Messenger.{Connection, Messenger, get_conn_by_fd, without_fd, arm}
use ceph_in_c.Messenger.Poll.{EpollEvent, World, is_conn_err, poll_round}
use ceph_in_c.Messenger.Delivery.{Handed}
use ceph_in_c.Osd.{Files, ack_for, osd_process_message}
use ceph_in_c.Osd.Write.{Answered, disk_of, file_after}
use ceph_in_c.Client.{Client, client_process_message}
use ceph_in_c.Client.Counting.{first_counted, signals}

-- A side of a connection on which bytes have come: the messenger, its connection, the event and what the
-- round meets.
pub record Side : Type 0 where
  pub messenger : Messenger
  pub conn : Connection
  pub event : EpollEvent
  pub world : World

-- The event is for the connection, which has no error, and exactly these bytes come first.
pub record Comes (side : Side) (bytes later : List ℕ) : Type 0 where
  pub found : get_conn_by_fd side.messenger side.event.fd ≡ some side.conn
  pub fine : is_conn_err side.event ≡ false
  pub other : int_eq side.event.fd side.messenger.wake_fd ≡ false
  pub clear : Clear side.world.inbox
  pub plenty : Plenty side.world.alloc
  pub streamed : stream side.world.inbox ≡ bytes ++ later

-- The messenger after the round.
abbrev pub rearmed : Side → Messenger
rearmed side =
    arm side.world.epoll side.event.fd
      (record side.messenger { armed = without_fd side.event.fd side.messenger.armed })

-- The request as the OSD holds it.
abbrev pub held : WriteObjReq → CString → List ℕ → WriteObjReq
held req oid bytes = received req req.header oid bytes

-- The way of a write request: the OSD reads it, writes the file and answers; the client reads the
-- answer and counts it.
pub record Acknowledged (req : WriteObjReq) (oid : CString) (bytes later back : List ℕ)
    (osd client_side : Side) (files : Files) (fd : ℕ) (o : Out) (check : Bool) (client : Client)
    (k : ℕ) : Type 0 where
  pub read :
      Handed osd.messenger osd.conn.id osd.event.fd osd.world.epoll
        (write_req (held req oid bytes))
        later
        (poll_round osd.messenger osd.event osd.world)
  pub answered :
      Answered
        (rearmed osd)
        (held req oid bytes)
        (pos 0)
        (file_after files oid req.offset bytes)
        o
        (osd_process_message true
          (rearmed osd)
          osd.conn.id
          (write_req (held req oid bytes))
          files
          (disk_of fd (length bytes))
          o
          read.alloc)
  pub told :
      Handed client_side.messenger client_side.conn.id client_side.event.fd client_side.world.epoll
        (write_ack (ack_for (held req oid bytes) (pos 0)))
        back
        (poll_round client_side.messenger client_side.event client_side.world)
  pub counted :
      client_process_message check client k 2
        (record { client_id = req.client_id; req_id = req.req_id })
      ≡ returns (
        ok,
        record client { wait_req_list = first_counted req.req_id client.wait_req_list },
        signals check req.req_id client.wait_req_list,
      )

-- The bytes of a request, and of the answer to it.
abbrev pub request_bytes : WriteObjReq → CString → List ℕ → List ℕ
request_bytes req oid bytes = header_bytes req.header ++ req_bytes req oid bytes

abbrev pub answer_bytes : WriteObjReq → CString → List ℕ → List ℕ
answer_bytes req oid bytes =
    let ack = ack_for (held req oid bytes) (pos 0) in header_bytes ack.header ++ ack_bytes ack
