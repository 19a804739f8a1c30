-- ===== src/Client/WriteObj/Answered.antt =====
-- A write that the OSDs get and answer, from the call to its return.
use ceph_in_c.Base.{ℕ, ◌+◌, List, ◌∷◌}
use ceph_in_c.Base.Alloc.{Alloc}
use ceph_in_c.Client.{WaitReq, Client}
use ceph_in_c.Client.WriteObj.Sent.{Sent}

-- The same request with n more acknowledgements.
abbrev pub answered : ℕ → WaitReq → WaitReq
answered n w = record w { ack_count = w.ack_count + n }

-- The client whose list begins with a request.
abbrev with_first : Client → WaitReq → List WaitReq → Client
with_first client w ws = record client { wait_req_list = w ∷ ws }
